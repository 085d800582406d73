-- ===== src/Bits/Flags.antt =====
-- The words of a pool read as one row of flags: flag `d` is bit `d % 32` of word `d / 32`.
use kube_bazellb.Prelude.{
  ℕ, zero, suc, ◌/◌, ◌%◌, ◌<◌, Bool, false, Option, none, some, List, [], ◌∷◌, ◌≡◌, ◌≢◌, ◌⊎◌, inl,
  inr, refl, ap, arith, ltb, Bool-cases, ◌≤◌, length, get_elem?, set, replicate, nat_beq,
  if◌then◌else◌, get_elem?-set_self, get_elem?-set_ne, get_elem?-replicate,
}
use kube_bazellb.Bits.Words.{Word, bit, bit-zero}

abbrev bit_of : Option Word → ℕ → Bool
bit_of none p = false
bit_of (some w) p = bit w p

unfoldable pub flag : List Word → ℕ → Bool
flag ws d = bit_of (get_elem? ws (d / 32)) (d % 32)

-- Every word has 32 bits.
abbrev pub AllWide : List Word → Type 0
AllWide [] = Unit
AllWide (w ∷ ws) = (length w ≡ 32) × AllWide ws

pub get_elem?-AllWide :
    (ws : List Word) (i : ℕ)
    → i < length ws
    → AllWide ws
    → (w : Word) × (get_elem? ws i ≡ some w) × (length w ≡ 32)
get_elem?-AllWide [] i h wide = elim h [ ]
get_elem?-AllWide (w ∷ ws) zero h wide = (w, refl, wide.0)
get_elem?-AllWide (w ∷ ws) (suc i) h wide = get_elem?-AllWide ws i (omega arith) wide.1

pub set-AllWide :
    (ws : List Word) (i : ℕ) (w : Word) → length w ≡ 32 → AllWide ws → AllWide (set ws i w)
set-AllWide [] i w h wide = tt
set-AllWide (v ∷ ws) zero w h wide = (h, wide.1)
set-AllWide (v ∷ ws) (suc i) w h wide = (wide.0, set-AllWide ws i w h wide.1)

pub replicate-AllWide : (n : ℕ) (w : Word) → length w ≡ 32 → AllWide (replicate n w)
replicate-AllWide zero w h = tt
replicate-AllWide (suc n) w h = (h, replicate-AllWide n w h)

-- A word whose bit `d % 32` becomes `b`, put back in its place, changes flag `d` alone.
pub flag-set :
    (ws : List Word) (d : ℕ) (v w : Word) (b : Bool)
    → d / 32 < length ws
    → get_elem? ws (d / 32) ≡ some v
    → ((q : ℕ) → bit w q ≡ (if nat_beq (d % 32) q then b else bit v q))
    → (e : ℕ) → flag (set ws (d / 32) w) e ≡ (if nat_beq d e then b else flag ws e)
unfolding flag
flag-set ws d v w b h found change e = elim (same (d / 32) (e / 32)) [
  | inl p ↦
      let self = get_elem?-set_self ws (d / 32) w h in
      ground
        (arith, change (e % 32), self, ap (get_elem? ws) p, ap (get_elem? (set ws (d / 32) w)) p)
  | inr p ↦ ground (arith, get_elem?-set_ne ws (d / 32) (e / 32) w p)
]
  where
    same : (m n : ℕ) → (m ≡ n) ⊎ (m ≢ n)
    same m n = ground arith

pub flag-replicate :
    (n : ℕ) (d : ℕ) → d / 32 < n → flag (replicate n (replicate 32 false)) d ≡ false
unfolding flag
flag-replicate n d h =
    ground (arith, get_elem?-replicate n (d / 32) (replicate 32 false) h, bit-zero 32 (d % 32))

get_elem?-replicate-none : (n i : ℕ) (w : Word) → n ≤ i → get_elem? (replicate n w) i ≡ none
get_elem?-replicate-none zero i w h = refl
get_elem?-replicate-none (suc n) zero w h = absurd (omega arith)
get_elem?-replicate-none (suc n) (suc i) w h = get_elem?-replicate-none n i w (omega arith)

-- Inside or outside, a flag of zero words is down.
pub flag-zeros : (n d : ℕ) → flag (replicate n (replicate 32 false)) d ≡ false
unfolding flag
flag-zeros n d = elim (Bool-cases (ltb (d / 32) n)) [
  | inl e ↦ flag-replicate n d (ground arith)
  | inr e ↦ ground (arith, get_elem?-replicate-none n (d / 32) (replicate 32 false) (ground arith))
]
