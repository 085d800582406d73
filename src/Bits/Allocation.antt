-- ===== src/Bits/Allocation.antt =====
-- `Allocate` gives the lowest free number of the range, and nothing exactly when all are taken.
use kube_bazellb.Prelude.{
  ℕ, zero, suc, ◌+◌, ◌-◌, ◌<◌, ◌≤◌, true, false, Option, none, some, ◌≡◌, refl, ◌∙◌, arith, ap,
  subst, nat_beq, nat_beq_iff, leb, inc32, Bool-cases, inl, inr,
}
use kube_bazellb.Bits.{Bits, allocate, allocate_from, allocated, revoke}
use kube_bazellb.Bits.Laws.{IsValid, taken, InRange, Updates, claim_free, claim-taken, revoke_lem}

-- What a run of the loop from `i` on returns, with the pool that it leaves.
abbrev pub Lowest : Bits → ℕ → Option ℕ → Bits → Type 0
Lowest a i none a' = (a' ≡ a) × ((j : ℕ) → i ≤ j → j ≤ a.max → taken a j ≡ true)
Lowest a i (some n) a' =
    (i ≤ n)
    × (n ≤ a.max)
    × (taken a n ≡ false)
    × ((j : ℕ) → i ≤ j → j < n → taken a j ≡ true)
    × Updates a n true a'

module _ (a : Bits) (v : IsValid a) where
  -- One more number below, taken, in front of a run.
  Lowest-step :
      (i : ℕ) (r : Option ℕ) (a' : Bits)
      → taken a i ≡ true
      → Lowest a (i + 1) r a'
      → Lowest a i r a'
  Lowest-step i none a' t l = (
    l.0,
    λ j le top. elim (Bool-cases (nat_beq i j)) [
      | inl e ↦ subst (λ k. taken a k ≡ true) ((nat_beq_iff i j).0 e) t
      | inr e ↦ l.1 j (ground arith) top
    ],
  )
  Lowest-step i (some n) a' t (le, top, free, below, u) = (
    omega arith,
    top,
    free,
    λ j low high. elim (Bool-cases (nat_beq i j)) [
      | inl e ↦ subst (λ k. taken a k ≡ true) ((nat_beq_iff i j).0 e) t
      | inr e ↦ below j (ground arith) high
    ],
    u,
  )

  inc32-max : (i : ℕ) → i ≤ a.max → inc32 i ≡ i + 1
  unfolding inc32
  inc32-max i le = omega (arith, v.top)

  allocate_from_lem :
      (fuel i : ℕ)
      → a.min ≤ i
      → i ≤ a.max + 1
      → a.max + 1 - i < fuel
      → (r : Option ℕ) × (a' : Bits) × (allocate_from fuel i a ≡ some (a', r)) × Lowest a i r a'
  unfolding allocate_from
  allocate_from_lem zero i low high enough = absurd (omega arith)
  allocate_from_lem (suc fuel) i low high enough = elim (Bool-cases (leb i a.max)) [
    | inr e ↦ (none, a, rw e, (refl, λ j le top. absurd (ground arith)))
    | inl e ↦
        let top : i ≤ a.max = ground arith in
        elim (Bool-cases (taken a i)) [
          | inl t ↦
              let (r, a', ran, l) =
                allocate_from_lem fuel (i + 1) (omega arith) (omega arith) (omega arith) in
              (
                r,
                a',
                rw (e, claim-taken a i v (low, top) t, inc32-max i top) ran,
                Lowest-step i r a' t l,
              )
          | inr f ↦
              let (a', ran, u) = claim_free a i v (low, top) f in
              (some i, a', rw (e, ran), (omega arith, top, f, λ j le lt. absurd (omega arith), u))
        ]
  ]

  -- On a well-formed pool Allocate returns: the lowest free number of the range, which is then
  -- taken while all others stay as they were; or no number, when every number of the range is
  -- taken, and the pool unchanged.
  pub allocate_lem :
      (r : Option ℕ) × (a' : Bits) × (allocate a ≡ some (a', r)) × Lowest a a.min r a'
  unfolding allocate
  allocate_lem =
      allocate_from_lem (a.max - a.min + 2) a.min (omega arith) (omega (arith, v.ordered))
        (omega (arith, v.ordered))

  -- A free number of a well-formed pool is given by Allocated, refused to a second call, and
  -- given back by Revoke, after which every number reads as before.
  pub revoke-allocated :
      (i : ℕ)
      → InRange a i
      → taken a i ≡ false
      → (b c : Bits) × (allocated a i ≡ some (b, true))
        × (allocated b i ≡ some (b, false))
        × (revoke b i ≡ some (c, true))
        × IsValid c
        × ((j : ℕ) → InRange a j → taken c j ≡ taken a j)
  unfolding allocated
  revoke-allocated i r free =
      let (b, ran, u) = claim_free a i v r free in
      let r' : InRange b i = (omega (arith, u.min_kept, r.0), omega (arith, u.max_kept, r.1)) in
      let held : taken b i ≡ true = ground (arith, u.changed i r.0) in
      let (c, back, w) = revoke_lem b i u.valid r' in
      (
        b,
        c,
        ground (arith, ran, r),
        ground (arith, claim-taken b i u.valid r' held, r'),
        back ∙ rw held refl,
        w.valid,
        λ j rj. ground (
          arith,
          w.changed j (omega (arith, u.min_kept, rj.0)),
          u.changed j rj.0,
          free,
          nat_beq_iff i j,
          ap (taken a) {x = i} {y = j},
        ),
      )
