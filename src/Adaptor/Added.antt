-- ===== src/Adaptor/Added.antt =====
-- lvs/adaptor/adaptor.go, `addRealServers`, and changes of a virtual server one after another.
use kube_bazellb.Prelude.{
  Bool, true, false, ◌||◌, [], ◌∷◌, nat_eq, string_eq, pair_eq, eq_iff, ◌≡◌, refl, ap, arith,
}
use kube_bazellb.Prelude.Members.{has, Distinct, keys}
use kube_bazellb.Net.{Net}
use kube_bazellb.Lvs.{VirtualServer}
use kube_bazellb.Lvs.Interface.{Interface}
use kube_bazellb.Lvs.Spec.{Key, RealKey, vs_key, rs_id, View, Becomes, Lawful}
use kube_bazellb.Adaptor.Expect.{Expected}
use kube_bazellb.Adaptor.Sync.{add_real_servers}
use kube_bazellb.Adaptor.Texts.{text_of, text_same, IsCanonical, IsCanonical-head, IsCanonical-tail}

module _ {net : Net} {S : Type 0} (i : Interface net S) (view : View net S)
    (law : Lawful i view) where
  -- One change of a virtual server after another.
  pub and_then :
      {s : S} {a b : S × Bool} {key : Key} {there there' : Bool} {reals reals' : RealKey → Bool}
      → Becomes view s key there reals a
      → Becomes view a.0 key there' reals' b
      → Becomes view s key there' reals' b
  and_then {s} {a} {b} {key} p q = record {
    done = q.done;
    valid = q.valid;
    present_at = λ k. ground (arith, p.present_at k, q.present_at k);
    serves_at = λ k r. ground (arith, p.serves_at k r, q.serves_at k r);
  }

  pub same_reals :
      {s s' : S} {done : Bool} {key : Key} {there : Bool} {reals reals' : RealKey → Bool}
      → Becomes view s key there reals (s', done)
      → ((r : RealKey) → reals r ≡ reals' r)
      → Becomes view s key there reals' (s', true)
  same_reals {s} {s'} {done} {key} p same = record {
    done = refl;
    valid = p.valid;
    present_at = p.present_at;
    serves_at = λ k r. ground (arith, p.serves_at k r, same r);
  }

  pub nothing :
      (s : S) (key : Key)
      → view.Valid s
      → view.present s key ≡ true
      → Becomes view s key true (λ r. view.serves s key r) (s, true)
  nothing s key v p = record {
    done = refl;
    valid = v;
    present_at = λ k. ground (arith, p, eq_iff key k);
    serves_at = λ k r. ground (arith, eq_iff key k);
  }

  pub still_present :
      {s : S} {a : S × Bool} {key : Key} {reals : RealKey → Bool}
      → Becomes view s key true reals a
      → view.present a.0 key ≡ true
  still_present {s} {a} {key} p = ground (arith, p.present_at key, eq_iff key key)

  pub add_real_servers_lem :
      (vs : VirtualServer net) (list : Expected net) (s : S)
      → view.Valid s
      → view.present s (vs_key vs) ≡ true
      → Distinct (keys list)
      → IsCanonical list
      → ((r : RealKey) → has (text_of r) (keys list) ≡ true → view.serves s (vs_key vs) r ≡ false)
      → Becomes view s
          (vs_key vs)
          true
          (λ r. has (text_of r) (keys list) || view.serves s (vs_key vs) r)
          (add_real_servers i vs list s, true)
  unfolding add_real_servers
  add_real_servers_lem vs [] s v p d c free = nothing s (vs_key vs) v p
  add_real_servers_lem vs ((t, rs) ∷ list) s v p d c free =
      let key = vs_key vs in
      let head = IsCanonical-head t rs list c in
      let b =
        law.add_real_law vs rs s v p
          (free (rs_id rs) (ground (arith, eq_iff t (text_of (rs_id rs)), head))) in
      same_reals
        (and_then b (
          add_real_servers_lem vs list (i.add_real_server vs rs s).0 b.valid (still_present b) d.1
            (IsCanonical-tail t rs list d.0 c)
            (λ r h. ground (
              arith,
              free r,
              b.serves_at key r,
              eq_iff key key,
              eq_iff (rs_id rs) r,
              d.0,
              h,
              head,
              ap (λ x. has x (keys list)) {x = t} {y = text_of r},
            ))))
        (λ r. ground (arith, b.serves_at key r, eq_iff key key, head, text_same (rs_id rs) r))
