-- ===== src/Iptables/Fake/Rules/Enough.antt =====
-- utils/iptables/testing/fake_iptables.go, `normalizeRule`: the fuel of its loop.
use kube_bazellb.Prelude.{
  ℕ, Bool, true, false, zero, suc, ◌≤◌, ◌<◌, [], ◌∷◌, Str, codes, if◌then◌else◌, length, drop, ◌≡◌,
  ◌≢◌, refl, arith,
}
use kube_bazellb.Text.{has_prefix}
use kube_bazellb.Net.{Net}
use kube_bazellb.Iptables.Fake.Rules.{
  End, ends_at, mismatched, out_of_range, replace_equals, to_destination, arg_end, Normalized,
  on_end, no_fuel, add_arg, first_bytes, normalize_from,
}

length-replace_equals : (s : Str) → length (replace_equals s) ≡ length s
length-replace_equals [] = refl
length-replace_equals (c ∷ s) = ground (arith, length-replace_equals s)

length-if : (b : Bool) (s t : Str) → length s ≡ length t → length (if b then s else t) ≡ length t
length-if true s t p = p
length-if false s t p = refl

length-to_destination : (s : Str) → length (to_destination s) ≡ length s
unfolding to_destination has_prefix
length-to_destination s =
    length-if (has_prefix s (codes "--to-destination=")) (replace_equals s) s
      (length-replace_equals s)

drop-shrinks : (n : ℕ) (s : Str) → length (drop n s) ≤ length s
drop-shrinks zero s = omega arith
drop-shrinks (suc n) [] = omega arith
drop-shrinks (suc n) (c ∷ s) = let ih = drop-shrinks n s in omega arith

module _ (net : Net) where
  on_end-ends :
      (next : Str → Str → Normalized) (so_far text : Str) (end : End)
      → ((added rest : Str) → length rest < length text → next added rest ≢ no_fuel)
      → arg_end text ≡ end
      → on_end net next so_far text end ≢ no_fuel
  unfolding arg_end on_end
  on_end-ends next so_far [] out_of_range h p = ground arith
  on_end-ends next so_far [] mismatched h p = ground arith
  on_end-ends next so_far [] (ends_at end) h p = ground (arith, p)
  on_end-ends next so_far (c ∷ s) out_of_range h p = ground arith
  on_end-ends next so_far (c ∷ s) mismatched h p = ground arith
  on_end-ends next so_far (c ∷ s) (ends_at end) h p =
      let q =
        h (add_arg net so_far (first_bytes end (c ∷ s))) (drop end s)
          (let d = drop-shrinks end s in omega arith) in
      ground (arith, q)

  -- The loop ends, with a rule, an error or a panic, within one round for each byte and one more.
  pub normalize_from-ends :
      (fuel : ℕ) (so_far remaining : Str)
      → length remaining < fuel
      → normalize_from net fuel so_far remaining ≢ no_fuel
  unfolding normalize_from
  normalize_from-ends zero so_far remaining h = ground arith
  normalize_from-ends (suc fuel) so_far remaining h =
      on_end-ends (normalize_from net fuel) so_far (to_destination remaining)
        (arg_end (to_destination remaining))
        (λ added rest lt.
          normalize_from-ends fuel added rest
            (let l = length-to_destination remaining in omega arith))
        refl
