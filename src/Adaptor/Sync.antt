-- ===== src/Adaptor/Sync.antt =====
-- The part of `Build` that talks to IPVS. Errors are only logged, so that the state that a failed
-- call leaves is what the code goes on with.
use kube_bazellb.Prelude.{
  ℕ, ◌%◌, ◌^◌, Bool, true, false, not, none, some, List, [], ◌∷◌, Str, nat_eq, string_eq, codes,
  str_eq, if◌then◌else◌,
}
use kube_bazellb.Prelude.Assoc.{lookup, remove}
use kube_bazellb.Kube.{Service}
use kube_bazellb.Net.{Net}
use kube_bazellb.Lvs.{VirtualServer, RealServer}
use kube_bazellb.Lvs.Interface.{Interface}
use kube_bazellb.Adaptor.{Orders}
use kube_bazellb.Adaptor.Maps.{PortMap, EndpointsMap, port_map_at, set_port_map}
use kube_bazellb.Adaptor.Expect.{Expected, address_port, get_expect_rss}

module _ {net : Net} {S : Type 0} (i : Interface net S) where
  -- `addRealServers`, the map already in an order.
  unfoldable pub add_real_servers : VirtualServer net → List (Str × RealServer net) → S → S
  add_real_servers vs [] s = s
  add_real_servers vs ((str, rs) ∷ rest) s = add_real_servers vs rest (i.add_real_server vs rs s).0

  -- One round of the loop over the real servers that are there: one that is not expected is
  -- deleted, and one that is need not be added.
  unfoldable pub sync_real_server :
      VirtualServer net → RealServer net → Expected net → S → Expected net × S
  unfolding address_port
  sync_real_server vs rs expected s =
      let text = address_port (net.show rs.address) rs.port in
      elim (lookup text expected) [
        | none ↦ (expected, (i.delete_real_server vs rs s).0)
        | some found ↦ (remove text expected, s)
      ]

  unfoldable pub sync_real_servers :
      VirtualServer net → List (RealServer net) → Expected net × S → Expected net × S
  unfolding sync_real_server
  sync_real_servers vs [] (expected, s) = (expected, s)
  sync_real_servers vs (rs ∷ rss) (expected, s) =
      sync_real_servers vs rss (sync_real_server vs rs expected s)

module _ {net : Net} (vip : net.IP) where
  -- The virtual server that is made for a port.
  abbrev pub new_virtual_server : Bool → ℕ → VirtualServer net
  new_virtual_server index port = record {
    address = vip;
    protocol = if index then codes "UDP" else codes "TCP";
    port = port % 2 ^ 16;
    scheduler = codes "rr";
    flags = 0;
    timeout = 0;
  }

module _ {net : Net} {S : Type 0} (i : Interface net S) (orders : Orders net) (vip : net.IP) where
  -- One round of the loop over the virtual servers that are there.
  unfoldable pub sync_virtual_server : EndpointsMap → VirtualServer net → PortMap × S → PortMap × S
  unfolding sync_real_servers add_real_servers get_expect_rss
  sync_virtual_server em vs (pm, s) =
      let index = str_eq vs.protocol (codes "UDP") in
      if not (net.eq.same vs.address vip)
      then (pm, (i.delete_virtual_server vs s).0)
      else elim (lookup vs.port (port_map_at index pm)) [
        | none ↦ (pm, (i.delete_virtual_server vs s).0)
        | some svcs ↦
            let pm' = set_port_map index (remove vs.port (port_map_at index pm)) pm in
            let expected = get_expect_rss net svcs em vs in
            elim (i.get_real_servers vs s) [
              | none ↦ (pm', s)
              | some rss ↦
                  let (left, s') = sync_real_servers i vs rss (expected, s) in
                  (pm', add_real_servers i vs (orders.reals left) s')
            ]
      ]

  unfoldable pub sync_virtual_servers :
      EndpointsMap → List (VirtualServer net) → PortMap × S → PortMap × S
  unfolding sync_virtual_server
  sync_virtual_servers em [] acc = acc
  sync_virtual_servers em (vs ∷ vss) acc =
      sync_virtual_servers em vss (sync_virtual_server em vs acc)

  -- The last loop, over the ports of one protocol that no virtual server had.
  unfoldable pub create_virtual_servers : EndpointsMap → Bool → List (ℕ × List Service) → S → S
  unfolding add_real_servers get_expect_rss
  create_virtual_servers em index [] s = s
  create_virtual_servers em index ((port, svcs) ∷ rest) s =
      let vs = new_virtual_server vip index port in
      let (s', done) = i.add_virtual_server vs s in
      create_virtual_servers em index rest (
        if done
        then add_real_servers i vs (orders.reals (get_expect_rss net svcs em vs)) s'
        else s')

  unfoldable pub sync : EndpointsMap → PortMap → S → S
  unfolding sync_virtual_servers create_virtual_servers
  sync em pm s = elim (i.get_virtual_servers s) [
    | none ↦ s
    | some vss ↦
        let (pm', s') = sync_virtual_servers em vss (pm, s) in
        create_virtual_servers em true (orders.ports pm'.at1)
          (create_virtual_servers em false (orders.ports pm'.at0) s')
  ]
