-- ===== src/Bits/Laws.antt =====
-- What the three operations do to a well-formed pool.
use kube_bazellb.Prelude.{
  ℕ, ◌+◌, ◌-◌, ◌/◌, ◌%◌, ◌^◌, ◌<◌, ◌≤◌, Bool, true, false, not, some, ◌≡◌, ◌∙◌, ap, subst, refl,
  arith, length, get_elem?, set, replicate, nat_beq, leb, if◌then◌else◌, pos, sub32, Bool-cases,
  sym, inl, inr, length-set, length-replicate,
}
use Prim.Native.Nat.{min, max}
use kube_bazellb.Bits.{Bits, new_bits, make_words, claim, allocated, revoke}
use kube_bazellb.Bits.Words.{
  Word, zero_word, one_hot, or_word, and_not, bit, bit-or, bit-and_not, word_eq-and_not, word_eq-or,
  length-or, length-and_not,
}
use kube_bazellb.Bits.Flags.{
  flag, AllWide, get_elem?-AllWide, set-AllWide, replicate-AllWide, flag-set, flag-replicate,
}

-- The range fits: the difference of the bounds is no negative int32, and `max + 1` is an int32.
pub record IsValid (a : Bits) : Type 0 where
  pub ordered : a.min ≤ a.max
  pub narrow : a.max < a.min + 2 ^ 31
  pub top : a.max + 1 < 2 ^ 32
  pub words : length a.allocated ≡ (a.max - a.min) / 32 + 1
  pub wide : AllWide a.allocated

-- Whether the number `i` is taken.
unfoldable pub taken : Bits → ℕ → Bool
taken a i = flag a.allocated (i - a.min)

abbrev pub InRange : Bits → ℕ → Type 0
InRange a i = (a.min ≤ i) × (i ≤ a.max)

-- `a'` is `a` with the number `i` taken or free as `b` says, and nothing else changed.
pub record Updates (a : Bits) (i : ℕ) (b : Bool) (a' : Bits) : Type 0 where
  pub valid : IsValid a'
  pub min_kept : a'.min ≡ a.min
  pub max_kept : a'.max ≡ a.max
  pub changed : (j : ℕ) → a.min ≤ j → taken a' j ≡ (if nat_beq i j then b else taken a j)

ordinal : (i m : ℕ) → m ≤ i → i < m + 2 ^ 31 → sub32 i m ≡ pos (i - m)
unfolding sub32
ordinal i m h k = ground arith

module _ (a : Bits) (i : ℕ) (v : IsValid a) (r : InRange a i) where
  -- Putting back a word of the same width that differs in the bit of `i` alone.
  write-Updates :
      (b : Bool) (w w' : Word)
      → get_elem? a.allocated ((i - a.min) / 32) ≡ some w
      → length w' ≡ 32
      → ((q : ℕ) → bit w' q ≡ (if nat_beq ((i - a.min) % 32) q then b else bit w q))
      → Updates a i b (record a { allocated = set a.allocated ((i - a.min) / 32) w' })
  unfolding taken
  write-Updates b w w' found wide change = record {
    valid = record {
      ordered = v.ordered;
      narrow = v.narrow;
      top = v.top;
      words = length-set a.allocated ((i - a.min) / 32) w' ∙ v.words;
      wide = set-AllWide a.allocated ((i - a.min) / 32) w' wide v.wide;
    };
    min_kept = refl;
    max_kept = refl;
    changed = λ j le.
        flag-set a.allocated (i - a.min) w w' b (omega arith) found change (j - a.min)
        ∙ ground arith;
  }

  keep-Updates : (b : Bool) → taken a i ≡ b → Updates a i b a
  unfolding taken
  keep-Updates b h = record {
    valid = v;
    min_kept = refl;
    max_kept = refl;
    changed = λ j le. ground (arith, ap (λ (k : ℕ). flag a.allocated (k - a.min)) {x = i} {y = j});
  }

  module _ (w : Word) (found : get_elem? a.allocated ((i - a.min) / 32) ≡ some w)
      (wide : length w ≡ 32) where
    taken-bit : taken a i ≡ bit w ((i - a.min) % 32)
    unfolding taken flag
    taken-bit = rw found

    hot_set :
        (q : ℕ)
        → bit (or_word w (one_hot 32 ((i - a.min) % 32))) q
          ≡ (if nat_beq ((i - a.min) % 32) q then true else bit w q)
    hot_set q = bit-or 32 w ((i - a.min) % 32) q wide (omega arith)

    hot_clear :
        (q : ℕ)
        → bit (and_not w (one_hot 32 ((i - a.min) % 32))) q
          ≡ (if nat_beq ((i - a.min) % 32) q then false else bit w q)
    hot_clear q = bit-and_not 32 w ((i - a.min) % 32) q wide (omega arith)

    claim_word :
        claim a i
        ≡ some (
            if not (bit w ((i - a.min) % 32))
            then (
              record a {
                allocated =
                    set a.allocated ((i - a.min) / 32) (or_word w (one_hot 32 ((i - a.min) % 32)));
              },
              true,
            )
            else (a, false))
    unfolding claim
    claim_word = ground (
      arith,
      ordinal i a.min r.0 (omega (arith, v.narrow)),
      found,
      wide,
      word_eq-and_not 32 w ((i - a.min) % 32) wide (omega arith),
    )

    revoke_word :
        revoke a i
        ≡ some (
            if bit w ((i - a.min) % 32)
            then (
              record a {
                allocated =
                    set a.allocated ((i - a.min) / 32) (and_not w (one_hot 32 ((i - a.min) % 32)));
              },
              true,
            )
            else (a, false))
    unfolding revoke
    revoke_word = ground (
      arith,
      ordinal i a.min r.0 (omega (arith, v.narrow)),
      found,
      wide,
      word_eq-or 32 w ((i - a.min) % 32) wide (omega arith),
    )

  word_found : (w : Word) × (get_elem? a.allocated ((i - a.min) / 32) ≡ some w) × (length w ≡ 32)
  word_found = get_elem?-AllWide a.allocated ((i - a.min) / 32) (omega (arith, v.words)) v.wide

  pub claim_free :
      taken a i ≡ false → (a' : Bits) × (claim a i ≡ some (a', true)) × Updates a i true a'
  claim_free h =
      let (w, found, wide) = word_found in
      let e : bit w ((i - a.min) % 32) ≡ false = sym (taken-bit w found wide) ∙ h in
      let w' = or_word w (one_hot 32 ((i - a.min) % 32)) in
      (
        record a { allocated = set a.allocated ((i - a.min) / 32) w' },
        rw (claim_word w found wide, e),
        write-Updates true w w' found (length-or w _ ∙ wide) (hot_set w found wide),
      )

  pub claim-taken : taken a i ≡ true → claim a i ≡ some (a, false)
  claim-taken h =
      let (w, found, wide) = word_found in
      rw (claim_word w found wide, sym (taken-bit w found wide) ∙ h)

  -- A number in the range is given exactly when it is free, and is taken afterwards.
  pub allocated_lem :
      (a' : Bits) × (allocated a i ≡ some (a', not (taken a i))) × Updates a i true a'
  unfolding allocated
  allocated_lem = elim (Bool-cases (taken a i)) [
    | inl e ↦ (a, ground (arith, claim-taken e), keep-Updates true e)
    | inr e ↦ let (a', ran, u) = claim_free e in (a', ground (arith, ran), u)
  ]

  -- A number in the range is given back exactly when it is taken, and is free afterwards.
  pub revoke_lem : (a' : Bits) × (revoke a i ≡ some (a', taken a i)) × Updates a i false a'
  revoke_lem =
      let (w, found, wide) = word_found in
      elim (Bool-cases (taken a i)) [
        | inl e ↦
            let set_bit : bit w ((i - a.min) % 32) ≡ true = sym (taken-bit w found wide) ∙ e in
            let w' = and_not w (one_hot 32 ((i - a.min) % 32)) in
            (
              record a { allocated = set a.allocated ((i - a.min) / 32) w' },
              rw (revoke_word w found wide, set_bit, e),
              write-Updates false w w' found (length-and_not w _ ∙ wide) (hot_clear w found wide),
            )
        | inr e ↦ (
          a,
          rw (revoke_word w found wide, sym (taken-bit w found wide) ∙ e, e),
          keep-Updates false e,
        )
      ]

abbrev pool : ℕ → ℕ → Bits
pool lo hi = record { min = lo; max = hi; allocated = replicate ((hi - lo) / 32 + 1) zero_word }

-- A pool over a range that fits, in order: it is well formed, and every number is free.
pub record IsFresh (lo hi : ℕ) (a : Bits) : Type 0 where
  pub valid : IsValid a
  pub min_is : a.min ≡ lo
  pub max_is : a.max ≡ hi
  pub free : (i : ℕ) → InRange a i → taken a i ≡ false

module _ (lo hi : ℕ) (o : lo ≤ hi) (narrow : hi < lo + 2 ^ 31) (top : hi + 1 < 2 ^ 32) where
  pool-IsFresh : IsFresh lo hi (pool lo hi)
  unfolding taken
  pool-IsFresh = record {
    valid = record {
      ordered = o;
      narrow = narrow;
      top = top;
      words = length-replicate ((hi - lo) / 32 + 1) zero_word;
      wide = replicate-AllWide ((hi - lo) / 32 + 1) zero_word refl;
    };
    min_is = refl;
    max_is = refl;
    free = λ i r. flag-replicate ((hi - lo) / 32 + 1) (i - lo) (omega (arith, r.0, r.1));
  }

  make_pool : make_words (sub32 hi lo) ≡ some (replicate ((hi - lo) / 32 + 1) zero_word)
  unfolding make_words
  make_pool = rw (ordinal hi lo o narrow)

-- NewBits takes two bounds in either order, when their difference fits an int32 and neither is
-- the largest int32, and makes a well-formed pool over the range between them with every number
-- free.
pub new_bits_lem :
    (x y : ℕ)
    → x + 1 < 2 ^ 32
    → y + 1 < 2 ^ 32
    → x < y + 2 ^ 31
    → y < x + 2 ^ 31
    → (a : Bits) × (new_bits x y ≡ some a) × IsFresh (min x y) (max x y) a
unfolding new_bits
new_bits_lem x y hx hy up down = elim (Bool-cases (leb y x)) [
  | inl e ↦
      let le : y ≤ x = ground arith in
      let lo : y ≡ min x y = omega arith in
      let hi : x ≡ max x y = omega arith in
      (
        pool y x,
        rw (e, make_pool y x le up hx),
        subst (λ m. IsFresh m (max x y) (pool y x)) lo
            (subst (λ m. IsFresh y m (pool y x)) hi (pool-IsFresh y x le up hx)),
      )
  | inr e ↦
      let le : x ≤ y = ground arith in
      let lo : x ≡ min x y = omega arith in
      let hi : y ≡ max x y = omega arith in
      (
        pool x y,
        rw (e, make_pool x y le down hy),
        subst (λ m. IsFresh m (max x y) (pool x y)) lo
            (subst (λ m. IsFresh x m (pool x y)) hi (pool-IsFresh x y le down hy)),
      )
]
