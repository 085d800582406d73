-- ===== src/Adaptor/Reals.antt =====
-- lvs/adaptor/adaptor.go, `Build`: the real servers of one virtual server that is there.
use kube_bazellb.Prelude.{
  true, not, ◌&&◌, ◌||◌, none, some, List, [], ◌∷◌, nat_eq, string_eq, pair_eq, eq_iff, map,
  if◌then◌else◌, ◌≡◌, refl, ap, sym, ◌∙◌, arith, Option-cases, inl, inr,
}
use kube_bazellb.Prelude.Assoc.{lookup, remove, lookup-remove}
use kube_bazellb.Prelude.Members.{has, Distinct, keys, is_some, has-keys, remove-Distinct}
use kube_bazellb.Net.{Net}
use kube_bazellb.Lvs.{VirtualServer, RealServer}
use kube_bazellb.Lvs.Interface.{Interface}
use kube_bazellb.Lvs.Spec.{RealKey, vs_key, rs_id, View, Becomes, Lawful}
use kube_bazellb.Adaptor.{Orders}
use kube_bazellb.Adaptor.Expect.{Expected}
use kube_bazellb.Adaptor.Sync.{add_real_servers, sync_real_server, sync_real_servers}
use kube_bazellb.Adaptor.Texts.{text_of, text_same, IsCanonical, IsFair, remove-IsCanonical}
use kube_bazellb.Adaptor.Added.{and_then, same_reals, nothing, still_present, add_real_servers_lem}

module _ {net : Net} {S : Type 0} (i : Interface net S) (view : View net S)
    (law : Lawful i view) where
  real_gone :
      (vs : VirtualServer net) (rs : RealServer net) (rss : List (RealServer net))
      (expected : Expected net) (s : S)
      → lookup (text_of (rs_id rs)) expected ≡ none
      → sync_real_servers i vs (rs ∷ rss) (expected, s)
        ≡ sync_real_servers i vs rss (expected, (i.delete_real_server vs rs s).0)
  unfolding sync_real_servers sync_real_server
  real_gone vs rs rss expected s e = ap (sync_real_servers i vs rss) (ground (arith, e))

  real_kept :
      (vs : VirtualServer net) (rs : RealServer net) (rss : List (RealServer net))
      (expected : Expected net) (s : S) (found : RealServer net)
      → lookup (text_of (rs_id rs)) expected ≡ some found
      → sync_real_servers i vs (rs ∷ rss) (expected, s)
        ≡ sync_real_servers i vs rss (remove (text_of (rs_id rs)) expected, s)
  unfolding sync_real_servers sync_real_server
  real_kept vs rs rss expected s found e = ap (sync_real_servers i vs rss) (ground (arith, e))

  real_none :
      (vs : VirtualServer net) (expected : Expected net) (s : S)
      → sync_real_servers i vs [] (expected, s) ≡ (expected, s)
  unfolding sync_real_servers
  real_none vs expected s = refl

  -- What the loop over the real servers that are there leaves: the table and the map.
  record IsSynced (vs : VirtualServer net) (rss : List (RealServer net)) (expected : Expected net)
      (s : S) (after : Expected net × S) : Type 0 where
    pub table :
        Becomes view s
          (vs_key vs)
          true
          (λ r.
            view.serves s (vs_key vs) r
            && (not (has r (map rs_id rss)) || is_some (lookup (text_of r) expected)))
          (after.1, true)
    pub left :
        (r : RealKey)
        → lookup (text_of r) after.0
          ≡ (if has r (map rs_id rss) then none else lookup (text_of r) expected)
    pub canonical : IsCanonical after.0
    pub distinct : Distinct (keys after.0)

  sync_real_servers_lem :
      (vs : VirtualServer net) (rss : List (RealServer net)) (expected : Expected net) (s : S)
      → view.Valid s
      → view.present s (vs_key vs) ≡ true
      → Distinct (keys expected)
      → IsCanonical expected
      → Distinct (map rs_id rss)
      → ((r : RealKey) → has r (map rs_id rss) ≡ true → view.serves s (vs_key vs) r ≡ true)
      → IsSynced vs rss expected s (sync_real_servers i vs rss (expected, s))
  sync_real_servers_lem vs [] expected s v p d c u there = rw (real_none vs expected s) (record {
    table = same_reals i view law (nothing i view law s (vs_key vs) v p) (λ r. ground arith);
    left = λ r. refl;
    canonical = c;
    distinct = d;
  })
  sync_real_servers_lem vs (rs ∷ rss) expected s v p d c u there =
      let key = vs_key vs in
      let text = text_of (rs_id rs) in
      elim (Option-cases (lookup text expected)) [
        | inl e ↦
            let b =
              law.delete_real_law vs rs s v p
                (there (rs_id rs) (ground (arith, eq_iff (rs_id rs) (rs_id rs)))) in
            let rest =
              sync_real_servers_lem vs rss expected (i.delete_real_server vs rs s).0 b.valid
                (still_present i view law b) d c u.1
                (λ r h. ground (
                  arith,
                  there r,
                  b.serves_at key r,
                  eq_iff key key,
                  eq_iff (rs_id rs) r,
                  u.0,
                  h,
                  ap (λ x. has x (map rs_id rss)) {x = rs_id rs} {y = r},
                )) in
            rw (real_gone vs rs rss expected s e) (record {
              table = same_reals i view law (and_then i view law b rest.table) (λ r. ground (
                arith,
                b.serves_at key r,
                eq_iff key key,
                eq_iff (rs_id rs) r,
                e,
                ap (λ x. lookup (text_of x) expected) {x = rs_id rs} {y = r},
              ));
              left = λ r. ground (
                arith,
                rest.left r,
                eq_iff (rs_id rs) r,
                e,
                ap (λ x. lookup (text_of x) expected) {x = rs_id rs} {y = r},
              );
              canonical = rest.canonical;
              distinct = rest.distinct;
            })
        | inr (found, e) ↦
            let rest =
              sync_real_servers_lem vs rss (remove text expected) s v p
                (remove-Distinct text expected d) (remove-IsCanonical text expected c) u.1
                (λ r h. there r (ground (arith, h))) in
            rw (real_kept vs rs rss expected s found e) (record {
              table = same_reals i view law rest.table (λ r. ground (
                arith,
                lookup-remove text (text_of r) expected,
                text_same (rs_id rs) r,
                eq_iff (rs_id rs) r,
                u.0,
                e,
                ap (λ x. has x (map rs_id rss)) {x = rs_id rs} {y = r},
                ap (λ x. lookup (text_of x) expected) {x = rs_id rs} {y = r},
              ));
              left = λ r. ground (
                arith,
                rest.left r,
                lookup-remove text (text_of r) expected,
                text_same (rs_id rs) r,
                eq_iff (rs_id rs) r,
              );
              canonical = rest.canonical;
              distinct = rest.distinct;
            })
      ]

  -- One after the other, as `Build` does it for a virtual server that is there.
  pub sync_reals_lem :
      (orders : Orders net) (vs : VirtualServer net) (expected : Expected net) (s : S)
      → IsFair orders
      → view.Valid s
      → view.present s (vs_key vs) ≡ true
      → Distinct (keys expected)
      → IsCanonical expected
      → (rss : List (RealServer net)) × (i.get_real_servers vs s ≡ some rss)
        × Becomes view s
            (vs_key vs)
            true
            (λ r. is_some (lookup (text_of r) expected))
            (
              add_real_servers i vs
                  (orders.reals (sync_real_servers i vs rss (expected, s)).0)
                  (sync_real_servers i vs rss (expected, s)).1,
              true,
            )
  sync_reals_lem orders vs expected s fair v p d c =
      let (rss, listed, u, is) = law.list_real_law vs s v p in
      let synced = sync_real_servers_lem vs rss expected s v p d c u (λ r h. sym (is r) ∙ h) in
      let left = (sync_real_servers i vs rss (expected, s)).0 in
      let ordered = fair.reals left synced.distinct in
      (
        rss,
        listed,
        same_reals i view law
            (and_then i view law synced.table (
              add_real_servers_lem i view law vs (orders.reals left)
                (sync_real_servers i vs rss (expected, s)).1 synced.table.valid
                (still_present i view law synced.table) ordered.0
                (λ t rs e. synced.canonical t rs (sym (ordered.1 t) ∙ e))
                (λ r h. ground (
                  arith,
                  has-keys (text_of r) (orders.reals left),
                  ordered.1 (text_of r),
                  synced.left r,
                  synced.table.serves_at (vs_key vs) r,
                  eq_iff (vs_key vs) (vs_key vs),
                  is r,
                  h,
                ))))
            (λ r. ground (
              arith,
              has-keys (text_of r) (orders.reals left),
              ordered.1 (text_of r),
              synced.left r,
              synced.table.serves_at (vs_key vs) r,
              eq_iff (vs_key vs) (vs_key vs),
              is r,
            )),
      )
