-- ===== src/Text.antt =====
-- The parts of Go's `strings` and `strconv` that the program calls, over byte sequences.
pub mod Decimal
pub mod Split
pub mod Last
pub mod Sort
pub mod Trim
pub mod Fields
use kube_bazellb.Prelude.{
  ℕ, zero, suc, ◌+◌, ◌-◌, ◌*◌, ◌/◌, ◌%◌, ◌^◌, Bool, true, false, ◌&&◌, ◌||◌, not, Option, none,
  some, List, [], ◌∷◌, ◌++◌, Str, codes, ltb, leb, nat_beq, if◌then◌else◌, ◌≡◌, refl,
}

unfoldable pub is_digit : ℕ → Bool
is_digit c = leb b'0' c && leb c b'9'

-- `strings.HasPrefix`
unfoldable pub has_prefix : Str → Str → Bool
has_prefix s [] = true
has_prefix [] (p ∷ ps) = false
has_prefix (c ∷ s) (p ∷ ps) = nat_beq c p && has_prefix s ps

-- `strings.Contains`
unfoldable pub contains : Str → Str → Bool
unfolding has_prefix
contains [] part = has_prefix [] part
contains (c ∷ s) part = has_prefix (c ∷ s) part || contains s part

-- `s < t` on strings: byte by byte, and a proper prefix is smaller.
unfoldable pub str_lt : Str → Str → Bool
str_lt s [] = false
str_lt [] (d ∷ t) = true
str_lt (c ∷ s) (d ∷ t) = ltb c d || nat_beq c d && str_lt s t

abbrev pub push_front : ℕ → List Str → List Str
push_front c [] = (c ∷ []) ∷ []
push_front c (p ∷ ps) = (c ∷ p) ∷ ps

-- `strings.Split(s, sep)` for a separator of one byte: one part more than there are separators.
unfoldable pub split : ℕ → Str → List Str
split sep [] = [] ∷ []
split sep (c ∷ s) = let rest = split sep s in if nat_beq c sep then [] ∷ rest else push_front c rest

-- `strings.Join(parts, sep)`
unfoldable pub join : Str → List Str → Str
join sep [] = []
join sep (p ∷ []) = p
join sep (p ∷ q ∷ ps) = p ++ (sep ++ join sep (q ∷ ps))

abbrev pub max_uint : ℕ
max_uint = 2 ^ 64 - 1

-- The loop of `strconv.ParseUint(s, 10, 0)`: base ten, 64 bits.
unfoldable pub scan_uint : ℕ → Str → Option ℕ
unfolding is_digit
scan_uint n [] = some n
scan_uint n (c ∷ s) =
    let m = n * 10 + (c - b'0') in if is_digit c && leb m max_uint then scan_uint m s else none

unfoldable pub parse_uint : Str → Option ℕ
unfolding scan_uint
parse_uint [] = none
parse_uint (c ∷ s) = scan_uint 0 (c ∷ s)

-- The digits of `n` in front of `out`; each round divides by ten, so `n + 1` rounds are enough.
unfoldable pub digits_from : ℕ → ℕ → Str → Str
digits_from zero n out = out
digits_from (suc fuel) n out =
    let out' = (b'0' + n % 10) ∷ out in
    let rest = digits_from fuel (n / 10) out' in if ltb n 10 then out' else rest

-- `%d` and `strconv.Itoa` of a number that is not negative.
unfoldable pub itoa : ℕ → Str
unfolding digits_from
itoa n = digits_from (suc n) n []

itoa_test : itoa 65536 ≡ codes "65536"
unfolding itoa
itoa_test = refl

split_test : split b'.' (codes "1..a") ≡ codes "1" ∷ [] ∷ codes "a" ∷ []
unfolding split
split_test = refl

parse_uint_test : parse_uint (codes "18446744073709551616") ≡ none
unfolding parse_uint
parse_uint_test = refl
