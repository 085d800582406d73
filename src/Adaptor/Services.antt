-- ===== src/Adaptor/Services.antt =====
-- lvs/adaptor/adaptor.go, `Build`: the services of a virtual server, and one round of the loop over
-- the virtual servers that are there.
use kube_bazellb.Prelude.{
  ℕ, Bool, false, Option, none, some, List, [], Str, codes, nat_eq, string_eq, pair_eq, ◌==◌,
  eq_iff, str_eq, str_eq_iff, if◌then◌else◌, ◌≡◌, ap, sym, ◌∙◌, arith, Bool-cases, inl, inr, ◌⊎◌,
}
use kube_bazellb.Prelude.Assoc.{lookup, remove, lookup-remove}
use kube_bazellb.Prelude.Members.{Distinct, keys, is_some, remove-Distinct}
use kube_bazellb.Kube.{Service}
use kube_bazellb.Net.{Net}
use kube_bazellb.Lvs.{VirtualServer, RealServer}
use kube_bazellb.Lvs.Interface.{Interface}
use kube_bazellb.Lvs.Spec.{Key, RealKey, vs_key}
use kube_bazellb.Adaptor.{Orders}
use kube_bazellb.Adaptor.Maps.{PortMap, EndpointsMap, port_map_at, set_port_map}
use kube_bazellb.Adaptor.Expect.{get_expect_rss}
use kube_bazellb.Adaptor.Sync.{add_real_servers, sync_real_servers, sync_virtual_server}
use kube_bazellb.Adaptor.Texts.{text_of}

-- The two protocols that the map has an index for.
abbrev pub IsProtocol : Str → Type 0
IsProtocol p = (p ≡ codes "TCP") ⊎ (p ≡ codes "UDP")

abbrev pub IsPortMap : PortMap → Type 0
IsPortMap pm = Distinct (keys pm.at0) × Distinct (keys pm.at1)

module _ (net : Net) (vip : net.IP) where
  -- The services at the address, port and protocol of a key.
  abbrev pub services_at : PortMap → Key → Option (List Service)
  services_at pm (host, (port, protocol)) =
      if host == net.show vip
      then (if str_eq protocol (codes "UDP")
          then lookup port pm.at1
          else if str_eq protocol (codes "TCP")
          then lookup port pm.at0
          else none)
      else none

  abbrev pub server_at : ℕ → VirtualServer net
  server_at port = record {
    address = vip;
    protocol = [];
    port = port;
    scheduler = [];
    flags = 0;
    timeout = 0;
  }

  -- Whether a real server is expected behind services at a port.
  abbrev pub is_wanted : EndpointsMap → ℕ → Option (List Service) → RealKey → Bool
  is_wanted em port none r = false
  is_wanted em port (some svcs) r =
      is_some (lookup (text_of r) (get_expect_rss net svcs em (server_at port)))

  abbrev pub take_port : VirtualServer net → PortMap → PortMap
  take_port vs pm =
      let index = str_eq vs.protocol (codes "UDP") in
      set_port_map index (remove vs.port (port_map_at index pm)) pm

  pub take_port-services_at :
      (vs : VirtualServer net) (pm : PortMap) (k : Key)
      → IsProtocol vs.protocol
      → vs.address ≡ vip
      → services_at (take_port vs pm) k ≡ (if vs_key vs == k then none else services_at pm k)
  take_port-services_at vs pm (host, (port, protocol)) (inl tcp) own = ground (
    arith,
    tcp,
    ap net.show own,
    str_eq_iff vs.protocol (codes "UDP"),
    str_eq_iff (codes "TCP") (codes "UDP"),
    str_eq_iff protocol (codes "UDP"),
    str_eq_iff protocol (codes "TCP"),
    str_eq_iff vs.protocol protocol,
    str_eq_iff host (net.show vip),
    str_eq_iff (net.show vs.address) host,
    lookup-remove vs.port port pm.at0,
  )
  take_port-services_at vs pm (host, (port, protocol)) (inr udp) own = ground (
    arith,
    udp,
    ap net.show own,
    str_eq_iff vs.protocol (codes "UDP"),
    str_eq_iff protocol (codes "UDP"),
    str_eq_iff protocol (codes "TCP"),
    str_eq_iff vs.protocol protocol,
    str_eq_iff host (net.show vip),
    str_eq_iff (net.show vs.address) host,
    lookup-remove vs.port port pm.at1,
  )

  pub same_show : (a : net.IP) → net.eq.same a vip ≡ (net.show a == net.show vip)
  same_show a = ground (
    arith,
    net.eq.same_iff a vip,
    eq_iff (net.show a) (net.show vip),
    net.show_injective a vip,
    ap net.show {x = a} {y = vip},
  )

  -- The services that the loop finds for a virtual server that is there.
  pub found_services :
      (vs : VirtualServer net) (pm : PortMap)
      → IsProtocol vs.protocol
      → services_at pm (vs_key vs) ≡ (
          if net.eq.same vs.address vip
          then lookup vs.port (port_map_at (str_eq vs.protocol (codes "UDP")) pm)
          else none)
  found_services vs pm (inl tcp) = ground (
    arith,
    tcp,
    same_show vs.address,
    str_eq_iff (codes "TCP") (codes "UDP"),
    str_eq_iff vs.protocol (codes "UDP"),
    str_eq_iff vs.protocol (codes "TCP"),
  )
  found_services vs pm (inr udp) =
      ground (arith, udp, same_show vs.address, str_eq_iff vs.protocol (codes "UDP"))

  module _ {S : Type 0} (i : Interface net S) (orders : Orders net) where
    pub server_gone :
        (em : EndpointsMap) (vs : VirtualServer net) (pm : PortMap) (s : S)
        → IsProtocol vs.protocol
        → services_at pm (vs_key vs) ≡ none
        → sync_virtual_server i orders vip em vs (pm, s) ≡ (pm, (i.delete_virtual_server vs s).0)
    unfolding sync_virtual_server
    server_gone em vs pm s h none_there = ground (arith, sym (found_services vs pm h) ∙ none_there)

    pub server_kept :
        (em : EndpointsMap) (vs : VirtualServer net) (pm : PortMap) (s : S) (svcs : List Service)
        (rss : List (RealServer net))
        → IsProtocol vs.protocol
        → services_at pm (vs_key vs) ≡ some svcs
        → i.get_real_servers vs s ≡ some rss
        → sync_virtual_server i orders vip em vs (pm, s) ≡ (
          take_port vs pm,
          add_real_servers i vs
              (orders.reals (sync_real_servers i vs rss (get_expect_rss net svcs em vs, s)).0)
              (sync_real_servers i vs rss (get_expect_rss net svcs em vs, s)).1,
        )
    unfolding sync_virtual_server
    server_kept em vs pm s svcs rss h there listed =
        ground (arith, sym (found_services vs pm h) ∙ there, listed)

  pub take_port-IsPortMap :
      (vs : VirtualServer net) (pm : PortMap) → IsPortMap pm → IsPortMap (take_port vs pm)
  take_port-IsPortMap vs pm d = elim (Bool-cases (str_eq vs.protocol (codes "UDP"))) [
    | inl e ↦ rw e (d.0, remove-Distinct vs.port pm.at1 d.1)
    | inr e ↦ rw e (remove-Distinct vs.port pm.at0 d.0, d.1)
  ]

  -- Services are found only at the address of the adaptor.
  pub own_address :
      (vs : VirtualServer net) (pm : PortMap) (svcs : List Service)
      → services_at pm (vs_key vs) ≡ some svcs
      → vs.address ≡ vip
  own_address vs pm svcs e =
      net.show_injective vs.address vip
        (ground (arith, e, eq_iff (net.show vs.address) (net.show vip)))
