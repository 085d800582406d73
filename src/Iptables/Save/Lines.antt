-- ===== src/Iptables/Save/Lines.antt =====
-- What `ReadLine` makes of a line that has no space at either end.
use kube_bazellb.Prelude.{
  ℕ, zero, suc, ◌+◌, ◌<◌, false, Option, none, some, [], ◌∷◌, ◌++◌, Str, string_eq, nat_beq,
  Bool-cases, inl, inr, length, drop, ◌≡◌, ◌≢◌, refl, ap, ◌∙◌, sym, arith,
}
use kube_bazellb.Iptables.Save.{take, skip_left, scan_line, or_here, is_empty, read_line}

-- Not empty, no line feed, and no space at either end.
abbrev pub EndsInk : Str → Type 0
EndsInk [] = ⊥
EndsInk (c ∷ []) = (c ≢ b' ') × (c ≢ 10)
EndsInk (c ∷ d ∷ s) = (c ≢ 10) × EndsInk (d ∷ s)

abbrev pub IsLine : Str → Type 0
IsLine [] = ⊥
IsLine (c ∷ s) = (c ≢ b' ') × EndsInk (c ∷ s)

scan_line-ink :
    (text : Str) (k : ℕ) (right : Option ℕ) (c : ℕ) (t : Str)
    → c ≢ b' '
    → c ≢ 10
    → is_empty t ≡ false
    → scan_line text k right (c ∷ t) ≡ scan_line text (suc k) none t
unfolding scan_line
scan_line-ink text k right c t h g e = ground (arith, h, g, e)

scan_line-space :
    (text : Str) (k : ℕ) (right : Option ℕ) (t : Str)
    → scan_line text k right (b' ' ∷ t) ≡ scan_line text (suc k) (some (or_here right k)) t
unfolding scan_line
scan_line-space text k right t = refl

scan_line-end :
    (text : Str) (k : ℕ) (rest : Str)
    → scan_line text (suc k) none (10 ∷ rest) ≡ (take (suc k) text, suc k + 1)
unfolding scan_line
scan_line-end text k rest = ground arith

scan_line-line :
    (text : Str) (k : ℕ) (right : Option ℕ) (c : ℕ) (s rest : Str)
    → EndsInk (c ∷ s)
    → scan_line text k right (c ∷ s ++ 10 ∷ rest)
      ≡ (take (k + length (c ∷ s)) text, k + length (c ∷ s) + 1)
scan_line-line text k right c [] rest h =
    ground (arith, scan_line-ink text k right c (10 ∷ rest) h.0 h.1 refl, scan_line-end text k rest)
scan_line-line text k right c (d ∷ s) rest h = elim (Bool-cases (nat_beq c b' ')) [
  | inl e ↦ ground (
    arith,
    e,
    scan_line-space text k right (d ∷ s ++ 10 ∷ rest),
    scan_line-line text (suc k) (some (or_here right k)) d s rest h.1,
  )
  | inr e ↦ ground (
    arith,
    scan_line-ink text k right c (d ∷ s ++ 10 ∷ rest) (ground (arith, e)) h.0 refl,
    scan_line-line text (suc k) none d s rest h.1,
  )
]

take-append : (s t : Str) → take (length s) (s ++ t) ≡ s
take-append [] t = refl
take-append (c ∷ s) t = ap (λ r. c ∷ r) (take-append s t)

drop-append : (s t : Str) → drop (length s) (s ++ t) ≡ t
drop-append [] t = refl
drop-append (c ∷ s) t = drop-append s t

skip_left-ink : (c : ℕ) (s : Str) → c ≢ b' ' → skip_left (c ∷ s) ≡ (0, c ∷ s)
unfolding skip_left
skip_left-ink c s h = ground (arith, h)

-- One line from an index where it starts.
pub read_line-line :
    (i : ℕ) (bytes line rest : Str)
    → IsLine line
    → drop i bytes ≡ line ++ 10 ∷ rest
    → read_line i bytes ≡ (line, i + length line + 1)
unfolding read_line
read_line-line i bytes [] rest h e = absurd h
read_line-line i bytes (c ∷ s) rest h e =
    let line = c ∷ s in
    rw
      (
        e,
        skip_left-ink c (s ++ 10 ∷ rest) h.0,
        scan_line-line (line ++ 10 ∷ rest) 0 none c s rest h.1,
      )
      (ground (arith, take-append line (10 ∷ rest)))

drop_nil : (n : ℕ) → drop {A = ℕ} n [] ≡ []
drop_nil zero = refl
drop_nil (suc n) = refl

drop-drop : (m n k : ℕ) (s : Str) → k ≡ m + n → drop k s ≡ drop n (drop m s)
drop-drop zero n k s e = ap (λ j. drop j s) (omega arith)
drop-drop (suc m) n zero s e = absurd (omega arith)
drop-drop (suc m) n (suc k) [] e = sym (drop_nil n)
drop-drop (suc m) n (suc k) (c ∷ s) e = drop-drop m n k s (omega arith)

pub drop_line :
    (i : ℕ) (bytes line rest : Str)
    → drop i bytes ≡ line ++ 10 ∷ rest
    → drop (i + length line + 1) bytes ≡ rest
drop_line i bytes line rest e =
    drop-drop (i + length line) 1 (i + length line + 1) bytes refl
    ∙ ap (drop 1) (
        drop-drop i (length line) (i + length line) bytes refl
        ∙ ap (drop (length line)) e
        ∙ drop-append line (10 ∷ rest))

pub inside : (i : ℕ) (bytes : Str) (c : ℕ) (t : Str) → drop i bytes ≡ c ∷ t → i < length bytes
inside zero [] c t e = ground (arith, e)
inside zero (b ∷ bytes) c t e = omega arith
inside (suc i) [] c t e = ground (arith, e)
inside (suc i) (b ∷ bytes) c t e = omega (arith, inside i bytes c t e)
