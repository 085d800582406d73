-- ===== src/Examples/Pool.antt =====
-- utils/bits/bits.go at the pools of its tests.
use Prim.Native.Nat.{min, max}
use kube_bazellb.Prelude.{
  ℕ, ◌+◌, ◌^◌, ◌≤◌, true, false, Option, some, [], ◌∷◌, ◌≡◌, ◌↔◌, refl, arith, not, pos, ◌/◌,
}
use kube_bazellb.Bits.{Bits, new_bits, allocate, allocated, revoke, compare_and_swap, load}
use kube_bazellb.Bits.Words.{zero_word, Word, bit}
use kube_bazellb.Bits.Flags.{flag, flag-zeros}
use kube_bazellb.Bits.Laws.{
  IsValid, IsFresh, InRange, Updates, taken, new_bits_lem, allocated_lem, revoke_lem,
}
use kube_bazellb.Bits.Allocation.{Lowest, allocate_lem, revoke-allocated}
use kube_bazellb.Bits.Race.{
  System, Agrees, Reach, here, next, begin, take, idle, loaded, expected, replacement, exclusive,
  assign,
}
use kube_bazellb.Bits.Refusal.{refused_while_free}

-- The offset form of an int32 that is not negative.
abbrev int32 : ℕ → ℕ
int32 n = n + 2 ^ 31

abbrev small : Bits
small = record { min = int32 3; max = int32 9; allocated = zero_word ∷ [] }

small-IsValid : IsValid small
small-IsValid = record {
  ordered = omega arith;
  narrow = omega arith;
  top = omega arith;
  words = omega arith;
  wide = omega arith;
}

new_bits_lem_example :
    (a : Bits) × (new_bits (int32 40) (int32 3) ≡ some a)
    × IsFresh (min (int32 40) (int32 3)) (max (int32 40) (int32 3)) a
new_bits_lem_example =
    new_bits_lem (int32 40) (int32 3) (omega arith) (omega arith) (omega arith) (omega arith)

allocate_lem_example :
    (r : Option ℕ) × (a : Bits) × (allocate small ≡ some (a, r)) × Lowest small (int32 3) r a
allocate_lem_example = allocate_lem small small-IsValid

allocated_lem_example :
    (a : Bits) × (allocated small (int32 7) ≡ some (a, not (taken small (int32 7))))
    × Updates small (int32 7) true a
allocated_lem_example = allocated_lem small (int32 7) small-IsValid (omega arith, omega arith)

revoke_lem_example :
    (a : Bits) × (revoke small (int32 7) ≡ some (a, taken small (int32 7)))
    × Updates small (int32 7) false a
revoke_lem_example = revoke_lem small (int32 7) small-IsValid (omega arith, omega arith)

seven_free : taken small (int32 7) ≡ false
unfolding taken flag bit
seven_free = refl

revoke-allocated_example :
    (b : Bits) × (c : Bits) × (allocated small (int32 7) ≡ some (b, true))
    × (allocated b (int32 7) ≡ some (b, false))
    × (revoke b (int32 7) ≡ some (c, true))
    × IsValid c
    × ((j : ℕ) → InRange small j → taken c j ≡ taken small j)
revoke-allocated_example =
    revoke-allocated small small-IsValid (int32 7) (omega arith, omega arith) seven_free

-- One word, all free, and callers at rest.
abbrev quiet : System
quiet = record { memory = zero_word ∷ []; pc = λ t. idle; grants = λ d. 0 }

quiet_flag : (d : ℕ) → flag (zero_word ∷ []) d ≡ false
quiet_flag d = flag-zeros 1 d

quiet-Agrees : Agrees quiet
quiet-Agrees = record { wide = omega arith; counted = λ d. ground (arith, quiet_flag d) }

zero_loads : load (zero_word ∷ []) (pos (2 / 32)) ≡ some zero_word
unfolding load
zero_loads = refl

abbrev asked : System
asked = record quiet { pc = assign quiet.pc 5 (loaded take 2 zero_word) }

exclusive_example : (asked.grants 2 ≤ 1) × ((flag asked.memory 2 ≡ true) ↔ (asked.grants 2 ≡ 1))
exclusive_example =
    exclusive 2 quiet-Agrees (next here (begin quiet 5 take 2 zero_word refl asked_loads))
  where
    asked_loads : load (zero_word ∷ []) (pos (2 / 32)) ≡ some zero_word
    asked_loads = zero_loads

refused_while_free_example :
    (u : System) × (old : Word) × Reach quiet u
    × (u.pc 0 ≡ loaded take 3 old)
    × (flag u.memory 3 ≡ false)
    × (compare_and_swap u.memory (pos (3 / 32)) (expected take old 3) (replacement take old 3)
        ≡ some (u.memory, false))
refused_while_free_example =
    refused_while_free quiet 3 4 quiet-Agrees.wide (omega arith) refl (omega arith) (quiet_flag 3)
      (quiet_flag 4) refl refl
