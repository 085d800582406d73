-- ===== src/Bits/Words.antt =====
-- A uint32 as its 32 bits, the lowest first, with `|`, `&^` and `==`.
use kube_bazellb.Prelude.{
  ℕ, zero, suc, ◌<◌, Bool, true, false, ◌&&◌, ◌||◌, not, List, [], ◌∷◌, ◌≡◌, refl, arith, length,
  replicate, nat_beq, if◌then◌else◌,
}

abbrev pub Word : Type 0
Word = List Bool

abbrev pub zero_word : Word
zero_word = replicate 32 false

-- `1 << p` in a word of `n` bits.
unfoldable pub one_hot : ℕ → ℕ → Word
one_hot zero p = []
one_hot (suc n) zero = true ∷ replicate n false
one_hot (suc n) (suc p) = false ∷ one_hot n p

unfoldable pub or_word : Word → Word → Word
or_word [] w = []
or_word (x ∷ v) [] = x ∷ v
or_word (x ∷ v) (y ∷ w) = (x || y) ∷ or_word v w

-- `v &^ w`
unfoldable pub and_not : Word → Word → Word
and_not [] w = []
and_not (x ∷ v) [] = x ∷ v
and_not (x ∷ v) (y ∷ w) = (x && not y) ∷ and_not v w

unfoldable pub word_eq : Word → Word → Bool
word_eq [] [] = true
word_eq [] (y ∷ w) = false
word_eq (x ∷ v) [] = false
word_eq (x ∷ v) (y ∷ w) = (if x then y else not y) && word_eq v w

-- Bit `p`.
unfoldable pub bit : Word → ℕ → Bool
bit [] p = false
bit (x ∷ w) zero = x
bit (x ∷ w) (suc p) = bit w p

pub or-zero : (w : Word) (n : ℕ) → or_word w (replicate n false) ≡ w
unfolding or_word
or-zero [] n = refl
or-zero (x ∷ w) zero = refl
or-zero (x ∷ w) (suc n) = ground (arith, or-zero w n)

pub and_not-zero : (w : Word) (n : ℕ) → and_not w (replicate n false) ≡ w
unfolding and_not
and_not-zero [] n = refl
and_not-zero (x ∷ w) zero = refl
and_not-zero (x ∷ w) (suc n) = ground (arith, and_not-zero w n)

pub word_eq_refl : (w : Word) → word_eq w w ≡ true
unfolding word_eq
word_eq_refl [] = refl
word_eq_refl (x ∷ w) = ground (arith, word_eq_refl w)

pub word_eq_sound : (v w : Word) → word_eq v w ≡ true → v ≡ w
unfolding word_eq
word_eq_sound [] [] h = refl
word_eq_sound [] (y ∷ w) h = ground arith
word_eq_sound (x ∷ v) [] h = ground arith
word_eq_sound (x ∷ v) (y ∷ w) h = ground (arith, word_eq_sound v w)

pub length-or : (v w : Word) → length (or_word v w) ≡ length v
unfolding or_word
length-or [] w = refl
length-or (x ∷ v) [] = refl
length-or (x ∷ v) (y ∷ w) = ground (arith, length-or v w)

pub length-and_not : (v w : Word) → length (and_not v w) ≡ length v
unfolding and_not
length-and_not [] w = refl
length-and_not (x ∷ v) [] = refl
length-and_not (x ∷ v) (y ∷ w) = ground (arith, length-and_not v w)

pub bit-or :
    (n : ℕ) (w : Word) (p q : ℕ)
    → length w ≡ n
    → p < n
    → bit (or_word w (one_hot n p)) q ≡ (if nat_beq p q then true else bit w q)
unfolding bit or_word one_hot
bit-or zero w p q e h = elim h [ ]
bit-or (suc n) [] p q e h = absurd (omega arith)
bit-or (suc n) (x ∷ w) zero zero e h = ground arith
bit-or (suc n) (x ∷ w) zero (suc q) e h = ground (arith, or-zero w n)
bit-or (suc n) (x ∷ w) (suc p) zero e h = ground arith
bit-or (suc n) (x ∷ w) (suc p) (suc q) e h = ground (arith, bit-or n w p q)

pub bit-and_not :
    (n : ℕ) (w : Word) (p q : ℕ)
    → length w ≡ n
    → p < n
    → bit (and_not w (one_hot n p)) q ≡ (if nat_beq p q then false else bit w q)
unfolding bit and_not one_hot
bit-and_not zero w p q e h = elim h [ ]
bit-and_not (suc n) [] p q e h = absurd (omega arith)
bit-and_not (suc n) (x ∷ w) zero zero e h = ground arith
bit-and_not (suc n) (x ∷ w) zero (suc q) e h = ground (arith, and_not-zero w n)
bit-and_not (suc n) (x ∷ w) (suc p) zero e h = ground arith
bit-and_not (suc n) (x ∷ w) (suc p) (suc q) e h = ground (arith, bit-and_not n w p q)

-- The comparison of a word with itself, the bit cleared.
pub word_eq-and_not :
    (n : ℕ) (w : Word) (p : ℕ)
    → length w ≡ n
    → p < n
    → word_eq w (and_not w (one_hot n p)) ≡ not (bit w p)
unfolding bit and_not one_hot word_eq
word_eq-and_not zero w p e h = elim h [ ]
word_eq-and_not (suc n) [] p e h = absurd (omega arith)
word_eq-and_not (suc n) (x ∷ w) zero e h = ground (arith, and_not-zero w n, word_eq_refl w)
word_eq-and_not (suc n) (x ∷ w) (suc p) e h = ground (arith, word_eq-and_not n w p)

pub word_eq-or :
    (n : ℕ) (w : Word) (p : ℕ)
    → length w ≡ n
    → p < n
    → word_eq w (or_word w (one_hot n p)) ≡ bit w p
unfolding bit or_word one_hot word_eq
word_eq-or zero w p e h = elim h [ ]
word_eq-or (suc n) [] p e h = absurd (omega arith)
word_eq-or (suc n) (x ∷ w) zero e h = ground (arith, or-zero w n, word_eq_refl w)
word_eq-or (suc n) (x ∷ w) (suc p) e h = ground (arith, word_eq-or n w p)

pub bit-zero : (n p : ℕ) → bit (replicate n false) p ≡ false
unfolding bit
bit-zero zero p = refl
bit-zero (suc n) zero = refl
bit-zero (suc n) (suc p) = bit-zero n p
