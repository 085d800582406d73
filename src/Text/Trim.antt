-- ===== src/Text/Trim.antt =====
-- `strings.Trim`, with the bytes to cut as a class.
use kube_bazellb.Prelude.{
  ℕ, zero, suc, Bool, true, false, [], ◌∷◌, Str, codes, nat_beq, if◌then◌else◌, ◌≡◌, refl,
}
use kube_bazellb.Text.Fields.{space_width}

unfoldable pub trim_left : (ℕ → Bool) → Str → Str
trim_left cut [] = []
trim_left cut (c ∷ s) = if cut c then trim_left cut s else c ∷ s

abbrev keep_right : Bool → ℕ → Str → Str
keep_right true c [] = []
keep_right true c (d ∷ s) = c ∷ d ∷ s
keep_right false c s = c ∷ s

unfoldable pub trim_right : (ℕ → Bool) → Str → Str
trim_right cut [] = []
trim_right cut (c ∷ s) = keep_right (cut c) c (trim_right cut s)

unfoldable pub trim : (ℕ → Bool) → Str → Str
unfolding trim_left trim_right
trim cut s = trim_right cut (trim_left cut s)

trim_test : trim (λ c. nat_beq c b'.') (codes "..a.b.") ≡ codes "a.b"
unfolding trim
trim_test = refl

-- Whether nothing but white space is left, behind `skip` more bytes of it.
unfoldable is_blank : ℕ → Str → Bool
unfolding space_width
is_blank skip [] = true
is_blank (suc skip) (c ∷ s) = is_blank skip s
is_blank zero (c ∷ s) = elim (space_width (c ∷ s)) [ zero ↦ false | suc skip ↦ is_blank skip s ]

unfoldable skip_blank : ℕ → Str → Str
unfolding space_width
skip_blank skip [] = []
skip_blank (suc skip) (c ∷ s) = skip_blank skip s
skip_blank zero (c ∷ s) = elim (space_width (c ∷ s)) [ zero ↦ c ∷ s | suc skip ↦ skip_blank skip s ]

unfoldable cut_blank : Str → Str
unfolding is_blank
cut_blank [] = []
cut_blank (c ∷ s) = if is_blank 0 (c ∷ s) then [] else c ∷ cut_blank s

-- `strings.TrimSpace`, with the white space of Unicode.
unfoldable pub trim_space : Str → Str
unfolding skip_blank cut_blank
trim_space s = cut_blank (skip_blank 0 s)

trim_space_test : trim_space (codes "  a b\n") ≡ codes "a b"
unfolding trim_space
trim_space_test = refl
