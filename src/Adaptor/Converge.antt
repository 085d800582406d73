-- ===== src/Adaptor/Converge.antt =====
-- lvs/adaptor/adaptor.go, `Build`: the IPVS table after the whole of it.
use kube_bazellb.Prelude.{
  ℕ, ◌^◌, ◌<◌, Bool, true, false, none, some, List, [], ◌∷◌, Str, codes, nat_eq, string_eq, pair_eq,
  ◌==◌, eq_iff, str_eq_iff, map, if◌then◌else◌, ◌≡◌, ap, subst, sym, ◌∙◌, arith,
}
use kube_bazellb.Prelude.Assoc.{Map, lookup}
use kube_bazellb.Prelude.Members.{has, is_some}
use kube_bazellb.Kube.{Service}
use kube_bazellb.Net.{Net}
use kube_bazellb.Lvs.{VirtualServer}
use kube_bazellb.Lvs.Interface.{Interface}
use kube_bazellb.Lvs.Spec.{Key, RealKey, vs_key, View, Lawful}
use kube_bazellb.Adaptor.{Orders}
use kube_bazellb.Adaptor.Maps.{PortMap, EndpointsMap, port_map_at}
use kube_bazellb.Adaptor.Sync.{sync_virtual_servers, create_virtual_servers, sync}
use kube_bazellb.Adaptor.Texts.{IsFair}
use kube_bazellb.Adaptor.Expected.{IsClean}
use kube_bazellb.Adaptor.Services.{IsProtocol, IsPortMap, services_at, is_wanted}
use kube_bazellb.Adaptor.Loop.{Looped, sync_virtual_servers_lem}
use kube_bazellb.Adaptor.Created.{
  protocol_at, PortsFit, port_key, made, Made, create_virtual_servers_lem,
}

fitting :
    (m : Map ℕ (List Service)) → ((p : ℕ) → is_some (lookup p m) ≡ true → p < 2 ^ 16) → PortsFit m
unfolding lookup
fitting [] h = tt
fitting ((q, svcs) ∷ m) h =
    (h q (ground (arith, eq_iff q q)), fitting m (λ p e. h p (ground (arith, e, eq_iff q p))))

module _ (net : Net) (vip : net.IP) where
  port_key-services_at :
      (pm : PortMap) (index : Bool) (p : ℕ)
      → services_at net vip pm (port_key net vip index p) ≡ lookup p (port_map_at index pm)
  port_key-services_at pm true p =
      ground (arith, eq_iff (net.show vip) (net.show vip), str_eq_iff (codes "UDP") (codes "UDP"))
  port_key-services_at pm false p = ground (
    arith,
    eq_iff (net.show vip) (net.show vip),
    str_eq_iff (codes "TCP") (codes "UDP"),
    str_eq_iff (codes "TCP") (codes "TCP"),
  )

  made-services_at :
      (index : Bool) (pm : PortMap) (list : Map ℕ (List Service)) (k : Key)
      → ((p : ℕ) → lookup p list ≡ lookup p (port_map_at index pm))
      → made net vip index list k
        ≡ (if k.1.1 == protocol_at index then services_at net vip pm k else none)
  made-services_at true pm list (host, (p, protocol)) h =
      ground (arith, h p, str_eq_iff protocol (codes "UDP"))
  made-services_at false pm list (host, (p, protocol)) h = ground (
    arith,
    h p,
    str_eq_iff protocol (codes "UDP"),
    str_eq_iff protocol (codes "TCP"),
    str_eq_iff (codes "TCP") (codes "UDP"),
  )

  -- Services stand at one of the two protocols.
  two_protocols :
      (pm : PortMap) (k : Key)
      → services_at net vip pm k ≡ (
          if k.1.1 == protocol_at true
          then services_at net vip pm k
          else if k.1.1 == protocol_at false
          then services_at net vip pm k
          else none)
  two_protocols pm (host, (p, protocol)) = ground arith

  -- Not both.
  one_protocol : (p : Str) → (p == protocol_at true) ≡ true → (p == protocol_at false) ≡ false
  one_protocol p h = ground (
    arith,
    h,
    eq_iff p (codes "UDP"),
    eq_iff p (codes "TCP"),
    str_eq_iff (codes "TCP") (codes "UDP"),
  )

  module _ {S : Type 0} (i : Interface net S) (view : View net S) (law : Lawful i view)
      (orders : Orders net) (fair : IsFair orders) (em : EndpointsMap)
      (clean : IsClean net em) where
    -- The table shows the services of `pm`.
    pub record Converged (pm : PortMap) (s : S) : Type 0 where
      pub valid : view.Valid s
      pub present_at : (k : Key) → view.present s k ≡ is_some (services_at net vip pm k)
      pub serves_at :
          (k : Key) (r : RealKey)
          → is_some (services_at net vip pm k) ≡ true
          → view.serves s k r ≡ is_wanted net vip em k.1.0 (services_at net vip pm k) r

    module _ (vss : List (VirtualServer net)) (pm : PortMap) (s : S) (after : PortMap × S)
        (loop : Looped net vip i view law orders fair em clean vss pm s after)
        (is : (k : Key) → has k (map vs_key vss) ≡ view.present s k) where
      left_fits :
          (index : Bool)
          → ((p : ℕ) → is_some (lookup p (port_map_at index pm)) ≡ true → p < 2 ^ 16)
          → (p : ℕ) → is_some (lookup p (port_map_at index after.0)) ≡ true
          → p < 2 ^ 16
      left_fits index fits p h = fits p (
          ground (
            arith,
            h,
            loop.map_at (port_key net vip index p),
            port_key-services_at pm index p,
            port_key-services_at after.0 index p,
          ))

      -- Nothing that is made was there.
      free :
          (index : Bool) (list : Map ℕ (List Service))
          → ((p : ℕ) → lookup p list ≡ lookup p (port_map_at index after.0))
          → (k : Key) → is_some (made net vip index list k) ≡ true
          → view.present after.1 k ≡ false
      free index list same k h = ground (
        arith,
        made-services_at index after.0 list k same,
        h,
        loop.map_at k,
        loop.present_at k,
        is k,
      )

      free_again :
          (list0 list1 : Map ℕ (List Service)) (s2 : S)
          → ((p : ℕ) → lookup p list0 ≡ lookup p after.0.at0)
          → ((p : ℕ) → lookup p list1 ≡ lookup p after.0.at1)
          → Made net vip i view law orders fair em clean false list0 after.1 s2
          → (k : Key) → is_some (made net vip true list1 k) ≡ true
          → view.present s2 k ≡ false
      free_again list0 list1 s2 same0 same1 first k h = ground (
        arith,
        made-services_at false after.0 list0 k same0,
        made-services_at true after.0 list1 k same1,
        h,
        first.present_at k,
        free true list1 same1 k,
        one_protocol k.1.1,
      )

      shown :
          (list0 list1 : Map ℕ (List Service)) (s2 s3 : S)
          → ((p : ℕ) → lookup p list0 ≡ lookup p after.0.at0)
          → ((p : ℕ) → lookup p list1 ≡ lookup p after.0.at1)
          → Made net vip i view law orders fair em clean false list0 after.1 s2
          → Made net vip i view law orders fair em clean true list1 s2 s3
          → Converged pm s3
      shown list0 list1 s2 s3 same0 same1 first second = record {
        valid = second.valid;
        present_at = λ k. ground (
          arith,
          second.present_at k,
          first.present_at k,
          made-services_at false after.0 list0 k same0,
          made-services_at true after.0 list1 k same1,
          loop.present_at k,
          loop.map_at k,
          is k,
          two_protocols after.0 k,
          two_protocols pm k,
        );
        serves_at = λ k r there. ground (
          arith,
          second.serves_at k r,
          first.serves_at k r,
          made-services_at false after.0 list0 k same0,
          made-services_at true after.0 list1 k same1,
          loop.serves_at k r,
          loop.map_at k,
          is k,
          there,
          two_protocols after.0 k,
          one_protocol k.1.1,
        );
      }

      created :
          ((index : Bool) (p : ℕ) → is_some (lookup p (port_map_at index pm)) ≡ true → p < 2 ^ 16)
          → Converged pm (
              create_virtual_servers i orders vip em true
                (orders.ports after.0.at1)
                (create_virtual_servers i orders vip em false (orders.ports after.0.at0) after.1))
      created fits =
          let (d0, same0) = fair.ports after.0.at0 loop.ports.0 in
          let (d1, same1) = fair.ports after.0.at1 loop.ports.1 in
          let list0 = orders.ports after.0.at0 in
          let list1 = orders.ports after.0.at1 in
          let s2 = create_virtual_servers i orders vip em false list0 after.1 in
          let first =
            create_virtual_servers_lem net vip i view law orders fair em clean false list0 after.1
              loop.valid
              (fitting list0
                (λ p h. left_fits false (fits false) p (ap is_some (sym (same0 p)) ∙ h)))
              d0 (free false list0 same0) in
          let second =
            create_virtual_servers_lem net vip i view law orders fair em clean true list1 s2
              first.valid
              (fitting list1 (λ p h. left_fits true (fits true) p (ap is_some (sym (same1 p)) ∙ h)))
              d1 (free_again list0 list1 s2 same0 same1 first) in
          shown list0 list1 s2 (create_virtual_servers i orders vip em true list1 s2) same0 same1
            first second

    synced :
        (pm : PortMap) (s : S) (vss : List (VirtualServer net))
        → i.get_virtual_servers s ≡ some vss
        → sync i orders vip em pm s
          ≡ create_virtual_servers i orders vip em true
              (orders.ports (sync_virtual_servers i orders vip em vss (pm, s)).0.at1)
              (create_virtual_servers i orders vip em false
                (orders.ports (sync_virtual_servers i orders vip em vss (pm, s)).0.at0)
                (sync_virtual_servers i orders vip em vss (pm, s)).1)
    unfolding sync
    synced pm s vss listed = ground (arith, listed)

    -- Whatever the IPVS table held, after Build has synced it a virtual server is there exactly
    -- for each port and protocol that services use at the address of the adaptor, and serves
    -- exactly the real servers expected for it, in whatever order maps are ranged over. This is
    -- for an IPVS that keeps its promise and starts in a valid state with TCP and UDP virtual
    -- servers only, port maps without repeated ports, ports below 2^16, and endpoints whose
    -- addresses print as they are written.
    pub sync_lem :
        (pm : PortMap) (s : S)
        → view.Valid s
        → ((k : Key) → view.present s k ≡ true → IsProtocol k.1.1)
        → IsPortMap pm
        → ((index : Bool) (p : ℕ) → is_some (lookup p (port_map_at index pm)) ≡ true → p < 2 ^ 16)
        → Converged pm (sync i orders vip em pm s)
    sync_lem pm s v protocols d fits =
        let (vss, listed, u, is) = law.list_law s v in
        let loop =
          sync_virtual_servers_lem net vip i view law orders fair em clean vss pm s v u
            (λ k h. sym (is k) ∙ h) (λ k h. protocols k (sym (is k) ∙ h)) d in
        subst (Converged pm) (sym (synced pm s vss listed))
          (created vss pm s (sync_virtual_servers i orders vip em vss (pm, s)) loop is fits)
