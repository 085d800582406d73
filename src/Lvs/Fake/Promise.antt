-- ===== src/Lvs/Fake/Promise.antt =====
-- The fake is a lawful implementation of `lvs.Interface`.
use kube_bazellb.Prelude.{
  true, false, some, List, [], ◌∷◌, nat_eq, string_eq, pair_eq, ◌==◌, eq_iff, if◌then◌else◌, map,
  ◌≡◌, refl, sym, ap, ◌∙◌, arith, subst,
}
use kube_bazellb.Prelude.Assoc.{Map, lookup}
use kube_bazellb.Prelude.Members.{has, Distinct, keys, values, has-keys, is_some}
use kube_bazellb.Net.{Net}
use kube_bazellb.Lvs.{VirtualServer, RealServer}
use kube_bazellb.Lvs.Spec.{Key, RealKey, vs_key, rs_id, Becomes, Lawful, Complete}
use kube_bazellb.Lvs.Fake.{
  Fake, running, panicked, slice, add_virtual_server, delete_virtual_server, get_virtual_servers,
  add_real_server, get_real_servers, delete_real_server, fake, new_fake, flush,
  update_virtual_server, get_virtual_server,
}
use kube_bazellb.Lvs.Fake.Laws.{
  IsValid, is_present, is_served, table, add_running, delete_running, add_real_running,
  delete_real_running, update_running,
}

module _ {net : Net} where
  -- Every stored virtual server stands under its own key.
  map-values :
      (m : Map Key (VirtualServer net))
      → Distinct (keys m)
      → ((k : Key) (vs : VirtualServer net) → lookup k m ≡ some vs → vs_key vs ≡ k)
      → map vs_key (values m) ≡ keys m
  unfolding lookup
  map-values [] d h = refl
  map-values ((k, vs) ∷ m) d h = ground (
    arith,
    h k vs,
    eq_iff k k,
    map-values m d.1 (λ j w e. h j w (
        ground (
          arith,
          d.0,
          has-keys j m,
          e,
          eq_iff k j,
          has-keys k m,
          ap (λ i. lookup i m) {x = k} {y = j},
        ))),
  )

  list_lem :
      (s : Fake net)
      → IsValid s
      → (l : List (VirtualServer net)) × (get_virtual_servers s ≡ some l)
        × Distinct (map vs_key l)
        × ((k : Key) → has k (map vs_key l) ≡ is_present s k)
  unfolding get_virtual_servers
  list_lem panicked v = absurd v
  list_lem (running f) (m, d, hm, hd, t) =
      let e = map-values m t.distinct t.keyed in
      (
        values m,
        ground (arith, hm),
        subst Distinct (sym e) t.distinct,
        λ k. ap (has k) e ∙ has-keys k m ∙ ground (arith, hm),
      )

  list_real_lem :
      (vs : VirtualServer net) (s : Fake net)
      → IsValid s
      → is_present s (vs_key vs) ≡ true
      → (l : List (RealServer net)) × (get_real_servers vs s ≡ some l)
        × Distinct (map rs_id l)
        × ((r : RealKey) → has r (map rs_id l) ≡ is_served s (vs_key vs) r)
  unfolding get_real_servers
  list_real_lem vs panicked v p = absurd v
  list_real_lem vs (running f) (m, d, hm, hd, t) p = (
    slice (lookup (vs_key vs) d),
    ground (arith, hm, hd, p),
    t.single (vs_key vs),
    λ r. ground (arith, hd),
  )

  add_lem :
      (vs : VirtualServer net) (s : Fake net)
      → IsValid s
      → is_present s (vs_key vs) ≡ false
      → Becomes table s (vs_key vs) true (λ r. false) (add_virtual_server vs s)
  add_lem vs panicked v p = absurd v
  add_lem vs (running f) (m, d, hm, hd, t) p = add_running f m d hm hd t vs

  delete_lem :
      (vs : VirtualServer net) (s : Fake net)
      → IsValid s
      → is_present s (vs_key vs) ≡ true
      → Becomes table s (vs_key vs) false (λ r. false) (delete_virtual_server vs s)
  delete_lem vs panicked v p = absurd v
  delete_lem vs (running f) (m, d, hm, hd, t) p = delete_running f m d hm hd t vs

  add_real_lem :
      (vs : VirtualServer net) (rs : RealServer net) (s : Fake net)
      → IsValid s
      → is_present s (vs_key vs) ≡ true
      → is_served s (vs_key vs) (rs_id rs) ≡ false
      → Becomes table s
          (vs_key vs)
          true
          (λ r. if rs_id rs == r then true else is_served s (vs_key vs) r)
          (add_real_server vs rs s)
  add_real_lem vs rs panicked v p q = absurd v
  add_real_lem vs rs (running f) (m, d, hm, hd, t) p q =
      add_real_running f m d hm hd t vs rs (ground (arith, hm, p)) (ground (arith, hd, q))

  delete_real_lem :
      (vs : VirtualServer net) (rs : RealServer net) (s : Fake net)
      → IsValid s
      → is_present s (vs_key vs) ≡ true
      → is_served s (vs_key vs) (rs_id rs) ≡ true
      → Becomes table s
          (vs_key vs)
          true
          (λ r. if rs_id rs == r then false else is_served s (vs_key vs) r)
          (delete_real_server vs rs s)
  delete_real_lem vs rs panicked v p q = absurd v
  delete_real_lem vs rs (running f) (m, d, hm, hd, t) p q =
      delete_real_running f m d hm hd t vs rs (ground (arith, hm, p)) (ground (arith, hd, q))

  pub fake-Lawful : Lawful (fake {net = net}) table
  unfolding fake
  fake-Lawful = record {
    add_law = add_lem;
    delete_law = delete_lem;
    list_law = list_lem;
    add_real_law = add_real_lem;
    delete_real_law = delete_real_lem;
    list_real_law = list_real_lem;
  }

  update_lem :
      (vs : VirtualServer net) (s : Fake net)
      → IsValid s
      → is_present s (vs_key vs) ≡ true
      → Becomes table s
          (vs_key vs)
          true
          (λ r. is_served s (vs_key vs) r)
          (update_virtual_server vs s)
        × (get_virtual_server vs (update_virtual_server vs s).0 ≡ some vs)
  unfolding get_virtual_server
  update_lem vs panicked v p = absurd v
  update_lem vs (running f) (m, d, hm, hd, t) p = update_running f m d hm hd t vs

  get_lem :
      (vs : VirtualServer net) (s : Fake net)
      → IsValid s
      → is_some (get_virtual_server vs s) ≡ is_present s (vs_key vs)
  unfolding get_virtual_server
  get_lem vs panicked v = absurd v
  get_lem vs (running f) v = refl

  flushed_lem :
      (vs : VirtualServer net) (s : Fake net)
      → IsValid s
      → (get_virtual_servers (flush s).0 ≡ some [])
        × ((add_virtual_server vs (flush s).0).0 ≡ panicked)
  unfolding flush get_virtual_servers add_virtual_server
  flushed_lem vs panicked v = absurd v
  flushed_lem vs (running f) v = (refl, refl)

  -- The in-memory IPVS implements a table of virtual servers with a set of real servers each. On
  -- a valid state, adding a virtual server that is not there, updating or deleting one that is
  -- there, adding a real server that is not there and deleting one that is there succeed, change
  -- the table at one key alone and keep the state valid; an updated virtual server is the one
  -- that is looked up, a lookup finds exactly those in the table, and the two listings show
  -- exactly the table without repetition. After Flush there is nothing to list, and adding a
  -- virtual server panics.
  pub fake-Complete :
      (vs : VirtualServer net) (s : Fake net)
      → IsValid s
      → Complete (fake {net = net}) table
        × (get_virtual_servers (flush s).0 ≡ some [])
        × ((add_virtual_server vs (flush s).0).0 ≡ panicked)
  unfolding fake
  fake-Complete vs s v =
      let (listed, added) = flushed_lem vs s v in
      (record { lawful = fake-Lawful; update_law = update_lem; get_law = get_lem }, listed, added)

-- A new fake is a table.
pub new_fake-IsValid : (net : Net) → IsValid (new_fake {net = net})
unfolding new_fake lookup
new_fake-IsValid net =
    ([], [], refl, refl, record { distinct = tt; keyed = λ k vs h. ground arith; single = λ k. tt })
