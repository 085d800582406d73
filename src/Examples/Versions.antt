-- ===== src/Examples/Versions.antt =====
-- utils/version/version.go at versions of its tests.
use kube_bazellb.Prelude.{some, true, false, [], ◌∷◌, ◌++◌, codes, replicate, ◌≡◌, refl, arith, pos}
use kube_bazellb.Prelude.Result.{ok}
use kube_bazellb.Text.{parse_uint, itoa}
use kube_bazellb.Text.Decimal.{parse_uint-itoa}
use kube_bazellb.Version.{
  Version, compare_internal, at_least, less_than, to_string, compare_pre_release,
}
use kube_bazellb.Version.Parse.{parse, valid_identifiers, is_identifier}
use kube_bazellb.Version.Compare.{negate, padded_order, or_else, compare_internal-padded}
use kube_bazellb.Version.Order.{
  compare_internal-swap, at_least_trans, compare_internal-zeros, less_than-cycle, tagged,
}
use kube_bazellb.Version.Groups.{semantic}
use kube_bazellb.Version.RoundTrip.{generic, parse-to_string-generic, parse-to_string-semantic}

abbrev v1_4 : Version
v1_4 = generic (1 ∷ 4 ∷ [])

abbrev v1_4_11 : Version
v1_4_11 = generic (1 ∷ 4 ∷ 11 ∷ [])

abbrev v1_6 : Version
v1_6 = generic (1 ∷ 6 ∷ [])

abbrev alpha : Version
alpha = semantic (1 ∷ 0 ∷ 0 ∷ []) (codes "alpha" ∷ codes "1" ∷ []) (codes "001" ∷ [])

compare_internal-padded_example :
    compare_internal v1_4 v1_4_11
    ≡ or_else (padded_order (1 ∷ 4 ∷ []) (1 ∷ 4 ∷ 11 ∷ [])) (compare_pre_release v1_4 v1_4_11)
compare_internal-padded_example = compare_internal-padded v1_4 v1_4_11

compare_internal-swap_example : compare_internal v1_4 alpha ≡ negate (compare_internal alpha v1_4)
compare_internal-swap_example = compare_internal-swap alpha v1_4

newer : at_least v1_6 v1_4_11 ≡ true
unfolding at_least
newer = refl

older : at_least v1_4_11 v1_4 ≡ true
unfolding at_least
older = refl

at_least_trans_example : at_least v1_6 v1_4 ≡ true
at_least_trans_example = at_least_trans v1_6 v1_4_11 v1_4 refl refl newer older

compare_internal-zeros_example :
    compare_internal (record v1_4 { components = (1 ∷ 4 ∷ []) ++ replicate 2 0 }) v1_4 ≡ pos 0
compare_internal-zeros_example = compare_internal-zeros v1_4 2 refl

less_than-cycle_example :
    (less_than (tagged (codes "2")) (tagged (codes "10")) ≡ true)
    × (less_than (tagged (codes "10")) (tagged (b'1' ∷ b'a' ∷ [])) ≡ true)
    × (less_than (tagged (b'1' ∷ b'a' ∷ [])) (tagged (codes "2")) ≡ true)
less_than-cycle_example = less_than-cycle b'a' (omega arith)

parse-to_string-generic_example : parse (to_string v1_4_11) false ≡ ok v1_4_11
parse-to_string-generic_example = parse-to_string-generic 1 4 (11 ∷ []) (omega arith)

alpha_runs :
    (is_identifier b'a' ≡ true)
    × (is_identifier b'l' ≡ true)
    × (is_identifier b'p' ≡ true)
    × (is_identifier b'h' ≡ true)
    × (is_identifier b'0' ≡ true)
    × (is_identifier b'1' ≡ true)
unfolding is_identifier
alpha_runs = (refl, refl, refl, refl, refl, refl)

alpha_numbered : valid_identifiers (codes "alpha" ∷ codes "1" ∷ []) ≡ true
unfolding valid_identifiers
alpha_numbered = refl

parse-to_string-semantic_example : parse (to_string alpha) true ≡ ok alpha
unfolding is_identifier
parse-to_string-semantic_example =
    parse-to_string-semantic 1 0 0 (codes "alpha" ∷ codes "1" ∷ []) (codes "001" ∷ []) (omega arith)
      ((refl, (refl, (refl, (refl, (refl, tt))))), ((refl, tt), tt))
      ((refl, (refl, (refl, tt))), tt) alpha_numbered

parse_uint-itoa_example : parse_uint (itoa 65535) ≡ some 65535
parse_uint-itoa_example = parse_uint-itoa 65535 (omega arith)
