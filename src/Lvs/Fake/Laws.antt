-- ===== src/Lvs/Fake/Laws.antt =====
-- The fake keeps what an implementation of `lvs.Interface` promises, as long as it is not flushed.
use kube_bazellb.Prelude.{
  Bool, true, false, some, List, [], ◌∷◌, ◌++◌, nat_eq, string_eq, pair_eq, subst, ◌==◌, eq_iff,
  str_eq, str_eq_iff, if◌then◌else◌, map, ◌≡◌, refl, sym, ap, ◌∙◌, ◌↔◌, arith, Bool-cases, inl, inr,
}
use kube_bazellb.Prelude.Assoc.{Map, lookup, insert, remove, lookup-insert, lookup-remove}
use kube_bazellb.Prelude.Members.{has, Distinct, keys, is_some, insert-Distinct, remove-Distinct}
use kube_bazellb.Net.{Net}
use kube_bazellb.Lvs.{VirtualServer, RealServer, rs_string}
use kube_bazellb.Lvs.HostPort.{join_host_port-injective}
use kube_bazellb.Lvs.Spec.{Key, RealKey, vs_key, rs_id, View, Becomes}
use kube_bazellb.Lvs.Fake.{
  Fake, FakeIpvs, running, panicked, find, slice, drop_real, add_virtual_server,
  update_virtual_server, get_virtual_server, delete_virtual_server, add_real_server,
  delete_real_server,
}

module _ {net : Net} where
  -- Two real servers print alike exactly when they have one identity.
  rs_string_iff :
      (x y : RealServer net) → (str_eq (rs_string x) (rs_string y) ≡ true) ↔ (rs_id x ≡ rs_id y)
  unfolding rs_string
  rs_string_iff x y =
      let texts = str_eq_iff (rs_string x) (rs_string y) in
      (
        λ h.
            let (hosts, ports) =
              join_host_port-injective (net.show x.address) (net.show y.address) x.port y.port
                (texts.0 h) in
            ground (arith, hosts, ports),
        λ h. texts.1 (ground (arith, h)),
      )

  abbrev pub reals : Map Key (List (RealServer net)) → Key → List RealKey
  reals d k = map rs_id (slice (lookup k d))

  pub record IsTable (m : Map Key (VirtualServer net)) (d : Map Key (List (RealServer net)))
      : Type 0 where
    pub distinct : Distinct (keys m)
    pub keyed : (k : Key) (vs : VirtualServer net) → lookup k m ≡ some vs → vs_key vs ≡ k
    pub single : (k : Key) → Distinct (reals d k)

  abbrev pub IsValid : Fake net → Type 0
  IsValid panicked = ⊥
  IsValid (running f) =
      (m : Map Key (VirtualServer net)) × (d : Map Key (List (RealServer net))) × (f.services
        ≡ some m)
      × (f.destinations ≡ some d)
      × IsTable m d

  abbrev pub is_present : Fake net → Key → Bool
  is_present panicked k = false
  is_present (running f) k = is_some (find k f.services)

  abbrev pub is_served : Fake net → Key → RealKey → Bool
  is_served panicked k r = false
  is_served (running f) k r = has r (map rs_id (slice (find k f.destinations)))

  abbrev pub table : View net (Fake net)
  table = record { Valid = IsValid; present = is_present; serves = is_served }

  -- A list put behind a key.
  insert-IsTable :
      (m : Map Key (VirtualServer net)) (d : Map Key (List (RealServer net))) (key : Key)
      (l : List (RealServer net))
      → Distinct (map rs_id l)
      → IsTable m d
      → IsTable m (insert key l d)
  insert-IsTable m d key l distinct t = record {
    distinct = t.distinct;
    keyed = t.keyed;
    single = λ k. ground (arith, lookup-insert key k l d, t.single k);
  }

  service_insert-IsTable :
      (m : Map Key (VirtualServer net)) (d : Map Key (List (RealServer net)))
      (vs : VirtualServer net)
      → IsTable m d
      → IsTable (insert (vs_key vs) vs m) d
  service_insert-IsTable m d vs t = record {
    distinct = insert-Distinct (vs_key vs) vs m t.distinct;
    keyed = λ k w h.
        ground (arith, lookup-insert (vs_key vs) k vs m, t.keyed k w, eq_iff (vs_key vs) k, h);
    single = t.single;
  }

  service_remove-IsTable :
      (m : Map Key (VirtualServer net)) (d : Map Key (List (RealServer net))) (key : Key)
      → IsTable m d
      → IsTable (remove key m) d
  service_remove-IsTable m d key t = record {
    distinct = remove-Distinct key m t.distinct;
    keyed = λ k w h. ground (arith, lookup-remove key k m, t.keyed k w, h);
    single = t.single;
  }

  has-snoc :
      (rs : RealServer net) (r : RealKey) (l : List (RealServer net))
      → has r (map rs_id (l ++ rs ∷ [])) ≡ (if rs_id rs == r then true else has r (map rs_id l))
  has-snoc rs r [] = ground arith
  has-snoc rs r (x ∷ l) = ground (arith, has-snoc rs r l)

  Distinct-snoc :
      (rs : RealServer net) (l : List (RealServer net))
      → Distinct (map rs_id l)
      → has (rs_id rs) (map rs_id l) ≡ false
      → Distinct (map rs_id (l ++ rs ∷ []))
  Distinct-snoc rs [] d h = (refl, tt)
  Distinct-snoc rs (x ∷ l) d h = ground (
    arith,
    Distinct-snoc rs l d.1,
    has-snoc rs (rs_id x) l,
    d.0,
    eq_iff (rs_id x) (rs_id rs),
    eq_iff (rs_id rs) (rs_id x),
  )

  drop_real_lem :
      (rs : RealServer net) (l : List (RealServer net))
      → Distinct (map rs_id l)
      → has (rs_id rs) (map rs_id l) ≡ true
      → (l' : List (RealServer net)) × (drop_real rs l ≡ some l')
        × Distinct (map rs_id l')
        × ((r : RealKey)
            → has r (map rs_id l') ≡ (if rs_id rs == r then false else has r (map rs_id l)))
  unfolding drop_real
  drop_real_lem rs [] d h = absurd (ground arith)
  drop_real_lem rs (x ∷ l) d h = elim (Bool-cases (str_eq (rs_string x) (rs_string rs))) [
    | inl e ↦
        let same = (rs_string_iff x rs).0 e in
        (
          l,
          rw e,
          d.1,
          λ r. ground (
            arith,
            d.0,
            same,
            eq_iff (rs_id x) r,
            eq_iff (rs_id rs) r,
            ap (λ q. has q (map rs_id l)) {x = rs_id x} {y = r},
          ),
        )
    | inr e ↦
        let other = rs_string_iff x rs in
        let (l', dropped, distinct, at) =
          drop_real_lem rs l d.1 (ground (arith, eq_iff (rs_id x) (rs_id rs), other, e, h)) in
        (
          x ∷ l',
          ground (arith, e, dropped),
          (ground (arith, at (rs_id x), d.0, eq_iff (rs_id rs) (rs_id x)), distinct),
          λ r. ground (
            arith,
            at r,
            eq_iff (rs_id x) r,
            eq_iff (rs_id rs) r,
            eq_iff (rs_id x) (rs_id rs),
            other,
            e,
          ),
        )
  ]

  module _ (f : FakeIpvs net) (m : Map Key (VirtualServer net))
      (d : Map Key (List (RealServer net))) (hm : f.services ≡ some m)
      (hd : f.destinations ≡ some d) (t : IsTable m d) where
    -- A call that leaves the maps `m'` and `d'`.
    leaves :
        (m' : Map Key (VirtualServer net)) (d' : Map Key (List (RealServer net))) (key : Key)
        (there : Bool) (real : RealKey → Bool) (after : Fake net × Bool)
        → after ≡ (running (record { services = some m'; destinations = some d' }), true)
        → IsTable m' d'
        → ((k : Key) → is_some (lookup k m') ≡ (if key == k then there else is_some (lookup k m)))
        → ((k : Key) (r : RealKey)
            → has r (reals d' k) ≡ (if key == k then real r else has r (reals d k)))
        → Becomes table (running f) key there real after
    leaves m' d' key there real after e t' p q = record {
      done = ground (arith, e);
      valid = subst (λ (a : Fake net × Bool). IsValid a.0) (sym e) (m', d', refl, refl, t');
      present_at = λ k. ap (λ (a : Fake net × Bool). is_present a.0 k) e ∙ p k ∙ ground (arith, hm);
      serves_at =
          λ k r. ap (λ (a : Fake net × Bool). is_served a.0 k r) e ∙ q k r ∙ ground (arith, hd);
    }

    pub add_running :
        (vs : VirtualServer net)
        → Becomes table
            (running f)
            (vs_key vs)
            true
            (λ r. false)
            (add_virtual_server vs (running f))
    unfolding add_virtual_server
    add_running vs =
        let key = vs_key vs in
        leaves (insert key vs m) (insert key [] d) key true (λ r. false) _ (ground (arith, hm, hd))
          (insert-IsTable (insert key vs m) d key [] tt (service_insert-IsTable m d vs t))
          (λ k. ground (arith, lookup-insert key k vs m))
          (λ k r. ground (arith, lookup-insert key k [] d))

    pub update_running :
        (vs : VirtualServer net)
        → Becomes table
            (running f)
            (vs_key vs)
            true
            (λ r. is_served (running f) (vs_key vs) r)
            (update_virtual_server vs (running f))
          × (get_virtual_server vs (update_virtual_server vs (running f)).0 ≡ some vs)
    unfolding update_virtual_server get_virtual_server
    update_running vs =
        let key = vs_key vs in
        (
          leaves (insert key vs m) d key true (λ r. is_served (running f) key r) _
              (ground (arith, hm, hd)) (service_insert-IsTable m d vs t)
              (λ k. ground (arith, lookup-insert key k vs m))
              (λ k r.
                ground (arith, hd, eq_iff key k, ap (λ j. has r (reals d j)) {x = key} {y = k})),
          ground (arith, hm, lookup-insert key key vs m, eq_iff key key),
        )

    pub delete_running :
        (vs : VirtualServer net)
        → Becomes table
            (running f)
            (vs_key vs)
            false
            (λ r. false)
            (delete_virtual_server vs (running f))
    unfolding delete_virtual_server
    delete_running vs =
        let key = vs_key vs in
        leaves (remove key m) (insert key [] d) key false (λ r. false) _ (ground (arith, hm, hd))
          (insert-IsTable (remove key m) d key [] tt (service_remove-IsTable m d key t))
          (λ k. ground (arith, lookup-remove key k m))
          (λ k r. ground (arith, lookup-insert key k [] d))

    pub add_real_running :
        (vs : VirtualServer net) (rs : RealServer net)
        → is_some (lookup (vs_key vs) m) ≡ true
        → has (rs_id rs) (reals d (vs_key vs)) ≡ false
        → Becomes table
            (running f)
            (vs_key vs)
            true
            (λ r. if rs_id rs == r then true else is_served (running f) (vs_key vs) r)
            (add_real_server vs rs (running f))
    unfolding add_real_server
    add_real_running vs rs p fresh =
        let key = vs_key vs in
        let l = slice (lookup key d) ++ rs ∷ [] in
        leaves m (insert key l d) key true _ _ (ground (arith, hm, hd, p))
          (insert-IsTable m d key l (Distinct-snoc rs (slice (lookup key d)) (t.single key) fresh)
            t)
          (λ k. ground (arith, eq_iff key k, p, ap (λ j. lookup j m) {x = key} {y = k}))
          (λ k r. ground (arith, lookup-insert key k l d, has-snoc rs r (slice (lookup key d)), hd))

    pub delete_real_running :
        (vs : VirtualServer net) (rs : RealServer net)
        → is_some (lookup (vs_key vs) m) ≡ true
        → has (rs_id rs) (reals d (vs_key vs)) ≡ true
        → Becomes table
            (running f)
            (vs_key vs)
            true
            (λ r. if rs_id rs == r then false else is_served (running f) (vs_key vs) r)
            (delete_real_server vs rs (running f))
    unfolding delete_real_server
    delete_real_running vs rs p held =
        let key = vs_key vs in
        let (l, dropped, distinct, at) =
          drop_real_lem rs (slice (lookup key d)) (t.single key) held in
        leaves m (insert key l d) key true _ _ (ground (arith, hm, hd, p, dropped))
          (insert-IsTable m d key l distinct t)
          (λ k. ground (arith, eq_iff key k, p, ap (λ j. lookup j m) {x = key} {y = k}))
          (λ k r. ground (arith, lookup-insert key k l d, at r, hd))
