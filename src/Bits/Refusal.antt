-- ===== src/Bits/Refusal.antt =====
-- A call that is refused though its number is free: the swap compares whole words, so a change of
-- any other number of the same word makes it fail, and the code takes that for "already taken".
use kube_bazellb.Prelude.{
  ℕ, ◌/◌, ◌%◌, ◌<◌, ◌+◌, true, false, some, ◌≡◌, ◌≢◌, refl, ap, ◌∙◌, arith, length, get_elem?, set,
  pos, Bool-cases, inl, inr, get_elem?-set_self,
}
use native.Mathlib.Decide.{ℕ_discrete}
use kube_bazellb.Bits.{load, compare_and_swap}
use kube_bazellb.Bits.Words.{
  Word, one_hot, or_word, and_not, word_eq, word_eq_sound, word_eq-and_not, bit, bit-or,
  bit-and_not,
}
use kube_bazellb.Bits.Flags.{flag, AllWide, get_elem?-AllWide, flag-set}
use kube_bazellb.Bits.Race.{
  take, idle, loaded, System, begin, finish, Reach, here, next, expected, replacement, assign,
}

module _ (s : System) (d e : ℕ) (wide : AllWide s.memory) (other : d ≢ e) (same : d / 32 ≡ e / 32)
    (inside : d / 32 < length s.memory) (d_free : flag s.memory d ≡ false)
    (e_free : flag s.memory e ≡ false) (first : s.pc 0 ≡ idle) (second : s.pc 1 ≡ idle) where
  module _ (w : Word) (found : get_elem? s.memory (d / 32) ≡ some w) (w_wide : length w ≡ 32) where
    bit_d : bit w (d % 32) ≡ false
    unfolding flag
    bit_d = ground (arith, found)

    bit_e : bit w (e % 32) ≡ false
    unfolding flag
    bit_e = ground (arith, found, same)

    abbrev w' : Word
    w' = or_word w (one_hot 32 (e % 32))

    -- Both callers have loaded the word, and the second has swapped.
    abbrev raced : System
    raced = record s {
      memory = set s.memory (e / 32) w';
      pc = assign (assign (assign s.pc 0 (loaded take d w)) 1 (loaded take e w)) 1 idle;
      grants = assign s.grants e (s.grants e + 1);
    }

    raced-Reach : Reach s raced
    unfolding load compare_and_swap ℕ_discrete
    raced-Reach =
        next
          (next (next here (begin s 0 take d w first found)) (
            begin (record s { pc = assign s.pc 0 (loaded take d w) }) 1 take e w second
              (ground (arith, found, same, ap (get_elem? s.memory) same))))
          (finish (record s { pc = assign (assign s.pc 0 (loaded take d w)) 1 (loaded take e w) }) 1
            take e w (set s.memory (e / 32) w') true refl
            (ground (
              arith,
              found,
              ap (get_elem? s.memory) same,
              word_eq-and_not 32 w (e % 32) w_wide (omega arith),
              bit_e,
            )))

    stale : word_eq w' (and_not w (one_hot 32 (d % 32))) ≡ false
    stale = elim (Bool-cases (word_eq w' (and_not w (one_hot 32 (d % 32))))) [
      | inr h ↦ h
      | inl h ↦ absurd (
          ground (
            arith,
            ap (λ v. bit v (e % 32)) (word_eq_sound w' _ h),
            bit-or 32 w (e % 32) (e % 32) w_wide (omega arith),
            bit-and_not 32 w (d % 32) (e % 32) w_wide (omega arith),
            bit_e,
            same,
            other,
          ))
    ]

    -- The flag of `d` is still down.
    still_free : flag raced.memory d ≡ false
    still_free =
        flag-set s.memory e w w' true (omega (arith, same, inside))
          (ground (arith, found, ap (get_elem? s.memory) same))
          (λ q. bit-or 32 w (e % 32) q w_wide (omega arith)) d
        ∙ ground (arith, d_free, other)

    refused_swap :
        compare_and_swap raced.memory (pos (d / 32)) (expected take w d) (replacement take w d)
        ≡ some (raced.memory, false)
    unfolding compare_and_swap
    refused_swap = ground (
      arith,
      ap (get_elem? raced.memory) same,
      get_elem?-set_self s.memory (e / 32) w' (omega (arith, same, inside)),
      stale,
    )

  -- From any memory with two free numbers in one word and two callers at rest, the calls can
  -- interleave so that a compare-and-swap that takes the first number fails although that number
  -- is free.
  pub refused_while_free :
      (u : System) × (old : Word) × Reach s u
      × (u.pc 0 ≡ loaded take d old)
      × (flag u.memory d ≡ false)
      × (compare_and_swap u.memory (pos (d / 32)) (expected take old d) (replacement take old d)
          ≡ some (u.memory, false))
  unfolding ℕ_discrete
  refused_while_free =
      let (w, found, w_wide) = get_elem?-AllWide s.memory (d / 32) inside wide in
      (
        raced w found w_wide,
        w,
        raced-Reach w found w_wide,
        refl,
        still_free w found w_wide,
        refused_swap w found w_wide,
      )
