-- ===== src/Version.antt =====
-- utils/version/version.go: version numbers, their comparison, and (in `Parse`) their reading.
-- A `uint` is a natural number up to `max_uint`; -1, 0 and 1 are integers `ℤ`.
pub mod Compare
pub mod Order
pub mod Parse
pub mod Runs
pub mod RoundTrip
pub mod Groups
use kube_bazellb.Prelude.{
  ℕ, zero, suc, Bool, true, false, ◌&&◌, ◌||◌, not, Option, none, some, List, [], ◌∷◌, ◌++◌, Str,
  codes, ltb, nat_beq, str_eq, if◌then◌else◌, length, drop, get_elem?, ℤ, pos, negsuc, ◌≡◌, refl,
}
use kube_bazellb.Text.{split, join, str_lt, parse_uint, itoa}

pub record Version : Type 0 where
  pub components : List ℕ
  pub semver : Bool
  pub pre_release : Str
  pub build_metadata : Str

-- `none` is an index out of range.
unfoldable pub major : Version → Option ℕ
major v = get_elem? v.components 0

unfoldable pub minor : Version → Option ℕ
minor v = get_elem? v.components 1

unfoldable pub patch : Version → Option ℕ
patch v = if ltb (length v.components) 3 then some 0 else get_elem? v.components 2

-- The loop of `String` over the components.
unfoldable pub dotted : List ℕ → Str
dotted [] = []
dotted (n ∷ []) = itoa n
dotted (n ∷ m ∷ ns) = itoa n ++ b'.' ∷ dotted (m ∷ ns)

unfoldable pub to_string : Version → Str
unfolding dotted
to_string v =
    dotted v.components
    ++ ((if str_eq v.pre_release [] then [] else b'-' ∷ v.pre_release)
        ++ (if str_eq v.build_metadata [] then [] else b'+' ∷ v.build_metadata))

unfoldable pub only_zeros : List ℕ → Bool
only_zeros [] = true
only_zeros (n ∷ ns) = if nat_beq n 0 then only_zeros ns else false

-- The loop over the components that both versions have; `none` is a loop that ends.
unfoldable pub compare_components : List ℕ → List ℕ → Option ℤ
compare_components (v ∷ vs) (o ∷ os) =
    if ltb o v then some (pos 1) else if ltb v o then some (negsuc 0) else compare_components vs os
compare_components _ _ = none

-- `switch` on an order: 1 if `above`, -1 if `below`, and on to what follows if neither.
abbrev decide_order : Bool → Bool → Option ℤ
decide_order above below = if above then some (pos 1) else if below then some (negsuc 0) else none

abbrev compare_parsed : Str → Str → Option ℕ → Option ℕ → Option ℤ
compare_parsed v o (some m) (some n) = decide_order (ltb n m) (ltb m n)
compare_parsed v o (some m) none = decide_order (str_lt o v) (str_lt v o)
compare_parsed v o none n = decide_order (str_lt o v) (str_lt v o)

-- One round of the loop over the identifiers of two pre-releases; `none` goes on to the next round.
unfoldable pub compare_identifier : Str → Str → Option ℤ
compare_identifier v o = compare_parsed v o (parse_uint v) (parse_uint o)

-- The loop and the comparison of lengths behind it.
unfoldable pub compare_identifiers : List Str → List Str → ℤ
unfolding compare_identifier
compare_identifiers [] [] = pos 0
compare_identifiers [] (o ∷ os) = negsuc 0
compare_identifiers (v ∷ vs) [] = pos 1
compare_identifiers (v ∷ vs) (o ∷ os) =
    let rest = compare_identifiers vs os in
    elim (compare_identifier v o) [ some r ↦ r | none ↦ rest ]

-- What `compareInternal` does once the components are found equal.
unfoldable pub compare_pre_release : Version → Version → ℤ
unfolding compare_identifiers
compare_pre_release v o =
    if not v.semver || not o.semver
    then pos 0
    else if str_eq v.pre_release [] && not (str_eq o.pre_release [])
    then pos 1
    else if not (str_eq v.pre_release []) && str_eq o.pre_release []
    then negsuc 0
    else if str_eq v.pre_release o.pre_release
    then pos 0
    else compare_identifiers (split b'.' v.pre_release) (split b'.' o.pre_release)

unfoldable pub compare_internal : Version → Version → ℤ
unfolding compare_components only_zeros compare_pre_release
compare_internal v o = elim (compare_components v.components o.components) [
  | some r ↦ r
  | none ↦
      let v_len = length v.components in
      let o_len = length o.components in
      if ltb o_len v_len && not (only_zeros (drop o_len v.components))
      then pos 1
      else if ltb v_len o_len && not (only_zeros (drop v_len o.components))
      then negsuc 0
      else compare_pre_release v o
]

abbrev pub is_minus_one : ℤ → Bool
is_minus_one (pos n) = false
is_minus_one (negsuc n) = nat_beq n 0

unfoldable pub at_least : Version → Version → Bool
unfolding compare_internal
at_least v least = not (is_minus_one (compare_internal v least))

unfoldable pub less_than : Version → Version → Bool
unfolding compare_internal
less_than v o = is_minus_one (compare_internal v o)
