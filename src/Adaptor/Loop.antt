-- ===== src/Adaptor/Loop.antt =====
-- lvs/adaptor/adaptor.go, `Build`: the loop over the virtual servers that are there.
use kube_bazellb.Prelude.{
  true, false, none, some, List, [], ◌∷◌, nat_eq, string_eq, pair_eq, ◌==◌, eq_iff, map,
  if◌then◌else◌, ◌≡◌, refl, ap, subst, sym, arith, Option-cases, inl, inr,
}
use kube_bazellb.Prelude.Assoc.{lookup}
use kube_bazellb.Prelude.Members.{has, has_head, Distinct, is_some}
use kube_bazellb.Kube.{Service}
use kube_bazellb.Net.{Net}
use kube_bazellb.Lvs.{VirtualServer}
use kube_bazellb.Lvs.Interface.{Interface}
use kube_bazellb.Lvs.Spec.{Key, RealKey, vs_key, View, Becomes, Lawful}
use kube_bazellb.Adaptor.{Orders}
use kube_bazellb.Adaptor.Maps.{PortMap, EndpointsMap}
use kube_bazellb.Adaptor.Expect.{get_expect_rss}
use kube_bazellb.Adaptor.Sync.{sync_virtual_server, sync_virtual_servers}
use kube_bazellb.Adaptor.Texts.{text_of, IsFair}
use kube_bazellb.Adaptor.Reals.{sync_reals_lem}
use kube_bazellb.Adaptor.Expected.{IsClean, get_expect_rss-IsExpected, get_expect_rss-port}
use kube_bazellb.Adaptor.Services.{
  IsProtocol, IsPortMap, services_at, server_at, is_wanted, take_port, take_port-services_at,
  take_port-IsPortMap, own_address, server_gone, server_kept,
}

module _ (net : Net) (vip : net.IP) where
  module _ {S : Type 0} (i : Interface net S) (view : View net S) (law : Lawful i view)
      (orders : Orders net) (fair : IsFair orders) (em : EndpointsMap)
      (clean : IsClean net em) where
    record Stepped (vs : VirtualServer net) (pm : PortMap) (s : S) (after : PortMap × S)
        : Type 0 where
      pub table :
          Becomes view s
            (vs_key vs)
            (is_some (services_at net vip pm (vs_key vs)))
            (is_wanted net vip em vs.port (services_at net vip pm (vs_key vs)))
            (after.1, true)
      pub map_at :
          (k : Key)
          → services_at net vip after.0 k
            ≡ (if vs_key vs == k then none else services_at net vip pm k)
      pub ports : IsPortMap after.0

    deleted :
        (vs : VirtualServer net) (pm : PortMap) (s : S)
        → view.Valid s
        → view.present s (vs_key vs) ≡ true
        → IsPortMap pm
        → services_at net vip pm (vs_key vs) ≡ none
        → Stepped vs pm s (pm, (i.delete_virtual_server vs s).0)
    deleted vs pm s v p d e =
        let b = law.delete_law vs s v p in
        record {
          table = record {
            done = refl;
            valid = b.valid;
            present_at = λ k. ground (arith, b.present_at k, e);
            serves_at = λ k r. ground (arith, b.serves_at k r, e);
          };
          map_at = λ k.
              ground (
                arith,
                e,
                eq_iff (vs_key vs) k,
                ap (services_at net vip pm) {x = vs_key vs} {y = k},
              );
          ports = d;
        }

    kept :
        (vs : VirtualServer net) (pm : PortMap) (s s' : S) (svcs : List Service)
        → IsProtocol vs.protocol
        → IsPortMap pm
        → services_at net vip pm (vs_key vs) ≡ some svcs
        → Becomes view s
            (vs_key vs)
            true
            (λ r. is_some (lookup (text_of r) (get_expect_rss net svcs em vs)))
            (s', true)
        → Stepped vs pm s (take_port net vip vs pm, s')
    kept vs pm s s' svcs h d e b = record {
      table = record {
        done = refl;
        valid = b.valid;
        present_at = λ k. ground (arith, b.present_at k, e);
        serves_at = λ k r. ground (
          arith,
          b.serves_at k r,
          e,
          get_expect_rss-port net svcs em vs (server_at net vip vs.port) refl,
        );
      };
      map_at = λ k. take_port-services_at net vip vs pm k h (own_address net vip vs pm svcs e);
      ports = take_port-IsPortMap net vip vs pm d;
    }

    step_lem :
        (vs : VirtualServer net) (pm : PortMap) (s : S)
        → view.Valid s
        → view.present s (vs_key vs) ≡ true
        → IsProtocol vs.protocol
        → IsPortMap pm
        → Stepped vs pm s (sync_virtual_server i orders vip em vs (pm, s))
    step_lem vs pm s v p h d = elim (Option-cases (services_at net vip pm (vs_key vs))) [
      | inl e ↦ rw (server_gone net vip i orders em vs pm s h e) (deleted vs pm s v p d e)
      | inr (svcs, e) ↦
          let expected = get_expect_rss-IsExpected net svcs em vs clean in
          let (rss, listed, b) =
            sync_reals_lem i view law orders vs (get_expect_rss net svcs em vs) s fair v p
              expected.1 expected.0 in
          rw (server_kept net vip i orders em vs pm s svcs rss h e listed)
            (kept vs pm s _ svcs h d e b)
    ]

    -- The whole loop: what was there is there for services only, with the real servers wanted, and
    -- its services are taken out of the map.
    pub record Looped (vss : List (VirtualServer net)) (pm : PortMap) (s : S) (after : PortMap × S)
        : Type 0 where
      pub valid : view.Valid after.1
      pub present_at :
          (k : Key)
          → view.present after.1 k ≡ (
              if has k (map vs_key vss)
              then is_some (services_at net vip pm k)
              else view.present s k)
      pub serves_at :
          (k : Key) (r : RealKey)
          → view.serves after.1 k r ≡ (
              if has k (map vs_key vss)
              then is_wanted net vip em k.1.0 (services_at net vip pm k) r
              else view.serves s k r)
      pub map_at :
          (k : Key)
          → services_at net vip after.0 k
            ≡ (if has k (map vs_key vss) then none else services_at net vip pm k)
      pub ports : IsPortMap after.0

    Looped-cons :
        (vs : VirtualServer net) (vss : List (VirtualServer net)) (pm : PortMap) (s : S)
        (after last : PortMap × S)
        → has (vs_key vs) (map vs_key vss) ≡ false
        → Stepped vs pm s after
        → Looped vss after.0 after.1 last
        → Looped (vs ∷ vss) pm s last
    Looped-cons vs vss pm s after last u step rest = record {
      valid = rest.valid;
      present_at = λ k. ground (
        arith,
        rest.present_at k,
        step.table.present_at k,
        step.map_at k,
        eq_iff (vs_key vs) k,
        u,
        ap (λ x. has x (map vs_key vss)) {x = vs_key vs} {y = k},
        ap (services_at net vip pm) {x = vs_key vs} {y = k},
      );
      serves_at = λ k r. ground (
        arith,
        rest.serves_at k r,
        step.table.serves_at k r,
        step.map_at k,
        eq_iff (vs_key vs) k,
        u,
        ap (λ x. has x (map vs_key vss)) {x = vs_key vs} {y = k},
        ap (λ x. is_wanted net vip em x.1.0 (services_at net vip pm x) r) {x = vs_key vs} {y = k},
      );
      map_at = λ k. ground (arith, rest.map_at k, step.map_at k);
      ports = rest.ports;
    }

    -- The virtual servers behind one that was handled are still there.
    still_there :
        (vs : VirtualServer net) (vss : List (VirtualServer net)) (pm : PortMap) (s : S)
        (after : PortMap × S)
        → has (vs_key vs) (map vs_key vss) ≡ false
        → Stepped vs pm s after
        → ((k : Key) → has k (map vs_key (vs ∷ vss)) ≡ true → view.present s k ≡ true)
        → (k : Key) → has k (map vs_key vss) ≡ true
        → view.present after.1 k ≡ true
    still_there vs vss pm s after u step there k h = ground (
      arith,
      there k,
      step.table.present_at k,
      eq_iff (vs_key vs) k,
      u,
      h,
      ap (λ x. has x (map vs_key vss)) {x = vs_key vs} {y = k},
    )

    behind :
        (vs : VirtualServer net) (vss : List (VirtualServer net)) (k : Key)
        → has k (map vs_key vss) ≡ true
        → has k (map vs_key (vs ∷ vss)) ≡ true
    behind vs vss k h = ground (arith, h)

    more_servers :
        (vs : VirtualServer net) (vss : List (VirtualServer net)) (acc : PortMap × S)
        → sync_virtual_servers i orders vip em (vs ∷ vss) acc
          ≡ sync_virtual_servers i orders vip em vss (sync_virtual_server i orders vip em vs acc)
    unfolding sync_virtual_servers
    more_servers vs vss acc = refl

    no_servers : (acc : PortMap × S) → sync_virtual_servers i orders vip em [] acc ≡ acc
    unfolding sync_virtual_servers
    no_servers acc = refl

    pub sync_virtual_servers_lem :
        (vss : List (VirtualServer net)) (pm : PortMap) (s : S)
        → view.Valid s
        → Distinct (map vs_key vss)
        → ((k : Key) → has k (map vs_key vss) ≡ true → view.present s k ≡ true)
        → ((k : Key) → has k (map vs_key vss) ≡ true → IsProtocol k.1.1)
        → IsPortMap pm
        → Looped vss pm s (sync_virtual_servers i orders vip em vss (pm, s))
    sync_virtual_servers_lem [] pm s v u there protocols d =
        subst (Looped [] pm s) (sym (no_servers (pm, s))) (record {
          valid = v;
          present_at = λ k. refl;
          serves_at = λ k r. refl;
          map_at = λ k. refl;
          ports = d;
        })
    sync_virtual_servers_lem (vs ∷ vss) pm s v u there protocols d =
        let first = has_head (vs_key vs) (map vs_key vss) in
        let step = step_lem vs pm s v (there (vs_key vs) first) (protocols (vs_key vs) first) d in
        let after = sync_virtual_server i orders vip em vs (pm, s) in
        subst (Looped (vs ∷ vss) pm s) (sym (more_servers vs vss (pm, s))) (
          Looped-cons vs vss pm s after (sync_virtual_servers i orders vip em vss after) u.0 step (
            sync_virtual_servers_lem vss after.0 after.1 step.table.valid u.1
              (still_there vs vss pm s after u.0 step there)
              (λ k h. protocols k (behind vs vss k h)) step.ports))
