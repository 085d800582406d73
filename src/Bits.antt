-- ===== src/Bits.antt =====
-- utils/bits/bits.go: a pool of integers, one bit for each, in words of 32 bits. An int32 stands in
-- the offset form of `Prelude.Int`; `none` is a run-time panic (an index out of range, a negative
-- length), or fuel that ran out. Here each load and compare-and-swap run with nothing in between;
-- `Race` interleaves them.
pub mod Words
pub mod Flags
pub mod Laws
pub mod Allocation
pub mod Race
pub mod Refusal
use kube_bazellb.Prelude.{
  ℕ, zero, suc, ◌+◌, ◌-◌, ◌/◌, ◌%◌, Bool, true, false, ◌||◌, Option, none, some, List, ltb, leb,
  if◌then◌else◌, get_elem?, set, length, replicate, ℤ, pos, negsuc, sub32, inc32,
}
use kube_bazellb.Bits.Words.{Word, zero_word, one_hot, or_word, and_not, word_eq}

infixl 5 ◌>>=◌
abbrev pub ◌>>=◌ {ℓ κ} : {A : Type ℓ} {B : Type κ} → Option A → (A → Option B) → Option B
none >>= f = none
some a >>= f = f a

pub record Bits : Type 0 where
  pub min : ℕ
  pub max : ℕ
  pub allocated : List Word

-- `make([]uint32, (max-min)/32+1)`; the quotient is truncated towards zero.
unfoldable pub make_words : ℤ → Option (List Word)
make_words (pos d) = some (replicate (d / 32 + 1) zero_word)
make_words (negsuc d) =
    let q = (d + 1) / 32 in if leb q 1 then some (replicate (1 - q) zero_word) else none

unfoldable pub new_bits : ℕ → ℕ → Option Bits
unfolding make_words
new_bits min max =
    let (lo, hi) = if leb max min then (max, min) else (min, max) in
    do words ← make_words (sub32 hi lo); some (record { min = lo; max = hi; allocated = words })

-- The negative of a natural number.
abbrev neg : ℕ → ℤ
neg zero = pos 0
neg (suc n) = negsuc n

unfoldable pub ordinal_to_pos : ℤ → ℤ × ℤ
ordinal_to_pos (pos n) = (pos (n / 32), pos (n % 32))
ordinal_to_pos (negsuc n) = (neg ((n + 1) / 32), neg ((n + 1) % 32))

-- `uint32(1) << uint(pos)`: a negative `pos` becomes a shift by 2^64 - 31 or more.
unfoldable pub bit_at : ℤ → Word
bit_at (pos p) = one_hot 32 p
bit_at (negsuc p) = zero_word

-- `atomic.LoadUint32(&a.allocated[index])`
unfoldable pub load : List Word → ℤ → Option Word
load ws (pos i) = get_elem? ws i
load ws (negsuc i) = none

-- `atomic.CompareAndSwapUint32(&a.allocated[index], old, new)`
unfoldable pub compare_and_swap : List Word → ℤ → Word → Word → Option (List Word × Bool)
compare_and_swap ws (negsuc i) old new = none
compare_and_swap ws (pos i) old new = do
  w ← get_elem? ws i
  some (if word_eq w old then (set ws i new, true) else (ws, false))

-- The body that `Allocate` and `Allocated` share: it takes the bit of `i` if it is free.
unfoldable pub claim : Bits → ℕ → Option (Bits × Bool)
unfolding ordinal_to_pos load compare_and_swap bit_at
claim a i =
    let (index, p) = ordinal_to_pos (sub32 i a.min) in
    do
      old ← load a.allocated index
      let b = bit_at p
      (ws, done) ← compare_and_swap a.allocated index (and_not old b) (or_word old b)
      some (record a { allocated = ws }, done)

-- The loop of `Allocate` from `i` on.
unfoldable pub allocate_from : ℕ → ℕ → Bits → Option (Bits × Option ℕ)
unfolding claim
allocate_from zero i a = none
allocate_from (suc fuel) i a =
    if leb i a.max
    then (do
      (a', done) ← claim a i
      if done then some (a', some i) else allocate_from fuel (inc32 i) a')
    else some (a, none)

-- One round for each number of the range, and one to leave the loop.
unfoldable pub allocate : Bits → Option (Bits × Option ℕ)
unfolding allocate_from
allocate a = allocate_from (a.max - a.min + 2) a.min a

unfoldable pub allocated : Bits → ℕ → Option (Bits × Bool)
unfolding claim
allocated a i = if ltb i a.min || ltb a.max i then some (a, false) else claim a i

unfoldable pub revoke : Bits → ℕ → Option (Bits × Bool)
unfolding ordinal_to_pos load compare_and_swap bit_at
revoke a i =
    if ltb i a.min || ltb a.max i
    then some (a, false)
    else let (index, p) = ordinal_to_pos (sub32 i a.min) in
      do
        old ← load a.allocated index
        let b = bit_at p
        (ws, done) ← compare_and_swap a.allocated index (or_word old b) (and_not old b)
        some (record a { allocated = ws }, done)
