-- ===== src/Version/Order.antt =====
-- The comparison as an order: it turns around with its arguments, is transitive on generic versions,
-- and does not see trailing zeros. On pre-releases it has cycles.
use kube_bazellb.Prelude.{
  ℕ, zero, suc, ◌<◌, Bool, true, false, Option, none, some, List, [], ◌∷◌, ◌++◌, Str, nat_beq,
  str_eq, str_eq_iff, ℤ, pos, negsuc, ◌≡◌, ◌⊎◌, refl, sym, ◌∙◌, arith, inl, replicate, codes,
}
use kube_bazellb.Text.{split, str_lt, parse_uint}
use kube_bazellb.Version.{
  Version, compare_identifier, compare_identifiers, compare_pre_release, compare_internal, at_least,
  less_than,
}
use kube_bazellb.Version.Compare.{negate, padded_order, compare_internal-padded, or_else}

padded_order-swap : (vs os : List ℕ) → padded_order os vs ≡ negate (padded_order vs os)
unfolding padded_order
padded_order-swap [] [] = refl
padded_order-swap [] (o ∷ os) = ground (arith, padded_order-swap [] os)
padded_order-swap (v ∷ vs) [] = ground (arith, padded_order-swap vs [])
padded_order-swap (v ∷ vs) (o ∷ os) = ground (arith, padded_order-swap vs os)

str_lt_asym : (s t : Str) → str_lt s t ≡ true → str_lt t s ≡ false
unfolding str_lt
str_lt_asym s [] h = ground arith
str_lt_asym [] (d ∷ t) h = refl
str_lt_asym (c ∷ s) (d ∷ t) h = ground (arith, str_lt_asym s t)

abbrev negate_option : Option ℤ → Option ℤ
negate_option none = none
negate_option (some r) = some (negate r)

compare_identifier-swap :
    (v o : Str) → compare_identifier o v ≡ negate_option (compare_identifier v o)
unfolding compare_identifier
compare_identifier-swap v o = ground (arith, str_lt_asym v o, str_lt_asym o v)

compare_identifiers-swap :
    (vs os : List Str) → compare_identifiers os vs ≡ negate (compare_identifiers vs os)
unfolding compare_identifiers
compare_identifiers-swap [] [] = refl
compare_identifiers-swap [] (o ∷ os) = refl
compare_identifiers-swap (v ∷ vs) [] = refl
compare_identifiers-swap (v ∷ vs) (o ∷ os) =
    ground (arith, compare_identifier-swap v o, compare_identifiers-swap vs os)

compare_pre_release-swap :
    (v o : Version) → compare_pre_release o v ≡ negate (compare_pre_release v o)
unfolding compare_pre_release
compare_pre_release-swap v o = ground (
  arith,
  str_eq_iff v.pre_release o.pre_release,
  str_eq_iff o.pre_release v.pre_release,
  compare_identifiers-swap (split b'.' v.pre_release) (split b'.' o.pre_release),
)

-- Comparing two versions in the other direction gives the opposite answer, for any two versions,
-- semantic or not.
pub compare_internal-swap : (v o : Version) → compare_internal o v ≡ negate (compare_internal v o)
compare_internal-swap v o = ground (
  arith,
  compare_internal-padded v o,
  compare_internal-padded o v,
  padded_order-swap v.components o.components,
  compare_pre_release-swap v o,
)

abbrev at_most_zero : ℤ → Bool
at_most_zero (pos n) = nat_beq n 0
at_most_zero (negsuc n) = true

padded_order_trans :
    (us vs ws : List ℕ)
    → at_most_zero (padded_order us vs) ≡ true
    → at_most_zero (padded_order vs ws) ≡ true
    → at_most_zero (padded_order us ws) ≡ true
unfolding padded_order
padded_order_trans [] [] ws h k = k
padded_order_trans [] (v ∷ vs) [] h k = refl
padded_order_trans [] (v ∷ vs) (w ∷ ws) h k = ground (arith, padded_order_trans [] vs ws)
padded_order_trans (u ∷ us) [] [] h k = h
padded_order_trans (u ∷ us) [] (w ∷ ws) h k = ground (arith, padded_order_trans us [] ws)
padded_order_trans (u ∷ us) (v ∷ vs) [] h k = ground (arith, padded_order_trans us vs [])
padded_order_trans (u ∷ us) (v ∷ vs) (w ∷ ws) h k = ground (arith, padded_order_trans us vs ws)

generic_order :
    (v o : Version)
    → v.semver ≡ false
    → compare_internal v o ≡ or_else (padded_order v.components o.components) (pos 0)
unfolding compare_pre_release
generic_order v o h = ground (arith, compare_internal-padded v o)

padded_order-sign :
    (vs os : List ℕ)
    → (padded_order vs os ≡ pos 0) ⊎ (padded_order vs os ≡ pos 1) ⊎ (padded_order vs os ≡ negsuc 0)
unfolding padded_order
padded_order-sign [] [] = inl refl
padded_order-sign [] (o ∷ os) = ground (arith, padded_order-sign [] os)
padded_order-sign (v ∷ vs) [] = ground (arith, padded_order-sign vs [])
padded_order-sign (v ∷ vs) (o ∷ os) = ground (arith, padded_order-sign vs os)

at_least-padded :
    (v o : Version)
    → v.semver ≡ false
    → at_least v o ≡ at_most_zero (padded_order o.components v.components)
unfolding at_least
at_least-padded v o h = ground (
  arith,
  generic_order v o h,
  padded_order-sign v.components o.components,
  padded_order-swap v.components o.components,
)

-- AtLeast is transitive when the first two of the three versions are generic ones.
pub at_least_trans :
    (u v w : Version)
    → u.semver ≡ false
    → v.semver ≡ false
    → at_least u v ≡ true
    → at_least v w ≡ true
    → at_least u w ≡ true
at_least_trans u v w hu hv h k =
    at_least-padded u w hu
    ∙ padded_order_trans w.components v.components u.components (sym (at_least-padded v w hv) ∙ k)
        (sym (at_least-padded u v hu) ∙ h)

padded_order-zeros : (ns : List ℕ) (k : ℕ) → padded_order (ns ++ replicate k 0) ns ≡ pos 0
unfolding padded_order
padded_order-zeros [] zero = refl
padded_order-zeros [] (suc k) = padded_order-zeros [] k
padded_order-zeros (n ∷ ns) k = ground (arith, padded_order-zeros ns k)

-- A generic version compares equal to itself with any number of zero components added at the end.
pub compare_internal-zeros :
    (v : Version) (k : ℕ)
    → v.semver ≡ false
    → compare_internal (record v { components = v.components ++ replicate k 0 }) v ≡ pos 0
compare_internal-zeros v k h = ground (
  arith,
  generic_order (record v { components = v.components ++ replicate k 0 }) v h,
  padded_order-zeros v.components k,
)

-- The pre-release identifiers "2", "10" and "1" followed by a byte above the digits.
abbrev pub tagged : Str → Version
tagged p = record {
  components = 1 ∷ 0 ∷ 0 ∷ [];
  semver = true;
  pre_release = p;
  build_metadata = [];
}

-- For every byte c above the digits, the pre-releases 2, 10 and 1c of one version are each less
-- than the next, and the last is less than the first.
pub less_than-cycle :
    (c : ℕ)
    → b'9' < c
    → (less_than (tagged (codes "2")) (tagged (codes "10")) ≡ true)
      × (less_than (tagged (codes "10")) (tagged (b'1' ∷ c ∷ [])) ≡ true)
      × (less_than (tagged (b'1' ∷ c ∷ [])) (tagged (codes "2")) ≡ true)
unfolding less_than split str_lt parse_uint str_eq
less_than-cycle c h = (refl, ground arith, ground arith)
