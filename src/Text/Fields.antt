-- ===== src/Text/Fields.antt =====
-- `strings.Fields`: the parts between white space, which is white space of Unicode in UTF-8. No
-- encoding of a character starts inside another, so the test looks at a prefix alone.
use kube_bazellb.Prelude.{
  ℕ, zero, suc, Bool, ◌||◌, ◌&&◌, List, [], ◌∷◌, Str, codes, leb, nat_beq, str_eq, if◌then◌else◌,
  ◌≡◌, refl,
}
use kube_bazellb.Text.{push_front}

abbrev pub non_empty : List Str → List Str
non_empty [] = []
non_empty (s ∷ strs) = let rest = non_empty strs in if str_eq s [] then rest else s ∷ rest

-- Tab to carriage return, and the space.
abbrev is_ascii_space : ℕ → Bool
is_ascii_space c = leb 9 c && leb c 13 || nat_beq c 32

-- U+0085 and U+00A0.
abbrev is_latin_space : ℕ → ℕ → Bool
is_latin_space a b = nat_beq a 194 && (nat_beq b 133 || nat_beq b 160)

-- U+1680, U+2000 to U+200A, U+2028, U+2029, U+202F, U+205F, U+3000.
abbrev is_wide_space : ℕ → ℕ → ℕ → Bool
is_wide_space a b c =
    nat_beq a 225 && nat_beq b 154 && nat_beq c 128
    || nat_beq a 226
      && nat_beq b 128
      && (leb 128 c && leb c 138 || nat_beq c 168 || nat_beq c 169 || nat_beq c 175)
    || nat_beq a 226 && nat_beq b 129 && nat_beq c 159
    || nat_beq a 227 && nat_beq b 128 && nat_beq c 128

-- How many bytes the white space at the front takes, 0 if there is none.
unfoldable pub space_width : Str → ℕ
space_width [] = 0
space_width (a ∷ []) = if is_ascii_space a then 1 else 0
space_width (a ∷ b ∷ []) = if is_ascii_space a then 1 else if is_latin_space a b then 2 else 0
space_width (a ∷ b ∷ c ∷ s) =
    if is_ascii_space a
    then 1
    else if is_latin_space a b
    then 2
    else if is_wide_space a b c
    then 3
    else 0

-- The parts, empty ones included, from behind `skip` more bytes of white space.
unfoldable pub words : ℕ → Str → List Str
unfolding space_width
words skip [] = [] ∷ []
words (suc skip) (c ∷ s) = words skip s
words zero (c ∷ s) = elim (space_width (c ∷ s)) [
  | zero ↦ push_front c (words zero s)
  | suc skip ↦ [] ∷ words skip s
]

unfoldable pub fields : Str → List Str
unfolding words
fields s = non_empty (words 0 s)

fields_test : fields (codes " -A  x") ≡ codes "-A" ∷ codes "x" ∷ []
unfolding fields str_eq
fields_test = refl
