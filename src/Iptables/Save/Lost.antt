-- ===== src/Iptables/Save/Lost.antt =====
-- What `ReadLine` loses at the end of a buffer.
use kube_bazellb.Prelude.{
  ℕ, suc, ◌+◌, Option, none, some, [], ◌∷◌, Str, nat_beq, Bool-cases, inl, inr, length, drop, ◌≡◌,
  ◌≢◌, refl, arith,
}
use kube_bazellb.Iptables.Save.{scan_line, or_here, skip_left, read_line}

-- No line feed, and a space at the end.
abbrev pub EndsSpace : Str → Type 0
EndsSpace [] = Unit
EndsSpace (c ∷ []) = c ≡ b' '
EndsSpace (c ∷ d ∷ s) = (c ≢ 10) × EndsSpace (d ∷ s)

scan_line-EndsSpace :
    (text : Str) (k : ℕ) (right : Option ℕ) (s : Str)
    → EndsSpace s
    → scan_line text k right s ≡ ([], k + length s)
unfolding scan_line
scan_line-EndsSpace text k right [] h = ground arith
scan_line-EndsSpace text k right (c ∷ []) h = ground (arith, h)
scan_line-EndsSpace text k right (c ∷ d ∷ s) h = ground (
  arith,
  h.0,
  scan_line-EndsSpace text (suc k) (some (or_here right k)) (d ∷ s) h.1,
  scan_line-EndsSpace text (suc k) none (d ∷ s) h.1,
)

EndsSpace-tail : (c : ℕ) (s : Str) → EndsSpace (c ∷ s) → EndsSpace s
EndsSpace-tail c [] h = tt
EndsSpace-tail c (d ∷ s) h = h.1

skip_left-EndsSpace :
    (s : Str)
    → EndsSpace s
    → EndsSpace (skip_left s).1 × ((skip_left s).0 + length (skip_left s).1 ≡ length s)
unfolding skip_left
skip_left-EndsSpace [] h = (tt, refl)
skip_left-EndsSpace (c ∷ s) h = elim (Bool-cases (nat_beq c b' ')) [
  | inl e ↦
      let (inked, size) = skip_left-EndsSpace s (EndsSpace-tail c s h) in
      rw e (inked, omega (arith, size))
  | inr e ↦ rw e (h, omega arith)
]

-- Where what is left of the buffer holds no line feed and ends in a space, ReadLine answers with
-- no text, whatever stands there, and with the end of the buffer.
pub read_line-EndsSpace :
    (i : ℕ) (bytes : Str)
    → EndsSpace (drop i bytes)
    → read_line i bytes ≡ ([], i + length (drop i bytes))
unfolding read_line
read_line-EndsSpace i bytes h =
    let (inked, size) = skip_left-EndsSpace (drop i bytes) h in
    let text = (skip_left (drop i bytes)).1 in
    let scanned = scan_line-EndsSpace text 0 none text inked in ground (arith, scanned, size)
