-- ===== src/Version/Compare.antt =====
-- The comparison against an independent description of it: componentwise, a component that is not
-- there counting as zero.
use kube_bazellb.Prelude.{
  ℕ, zero, suc, ◌&&◌, not, none, some, List, [], ◌∷◌, ltb, nat_beq, if◌then◌else◌, length, drop, ℤ,
  pos, negsuc, ◌≡◌, refl, arith,
}
use kube_bazellb.Version.{
  Version, only_zeros, compare_components, compare_pre_release, compare_internal,
}

abbrev pub negate : ℤ → ℤ
negate (pos zero) = pos 0
negate (pos (suc n)) = negsuc n
negate (negsuc n) = pos (suc n)

-- The order of two component lists that are read as followed by zeros without end.
unfoldable pub padded_order : List ℕ → List ℕ → ℤ
padded_order [] [] = pos 0
padded_order [] (o ∷ os) = if nat_beq o 0 then padded_order [] os else negsuc 0
padded_order (v ∷ vs) [] = if nat_beq v 0 then padded_order vs [] else pos 1
padded_order (v ∷ vs) (o ∷ os) =
    if ltb o v then pos 1 else if ltb v o then negsuc 0 else padded_order vs os

padded_left : (vs : List ℕ) → padded_order vs [] ≡ (if only_zeros vs then pos 0 else pos 1)
unfolding padded_order only_zeros
padded_left [] = refl
padded_left (v ∷ vs) = ground (arith, padded_left vs)

padded_right : (os : List ℕ) → padded_order [] os ≡ (if only_zeros os then pos 0 else negsuc 0)
unfolding padded_order only_zeros
padded_right [] = refl
padded_right (o ∷ os) = ground (arith, padded_right os)

-- What `compareInternal` makes of the components alone, going on with `rest` when they are equal.
abbrev component_order : List ℕ → List ℕ → ℤ → ℤ
component_order vs os rest = elim (compare_components vs os) [
  | some r ↦ r
  | none ↦
      if ltb (length os) (length vs) && not (only_zeros (drop (length os) vs))
      then pos 1
      else if ltb (length vs) (length os) && not (only_zeros (drop (length vs) os))
      then negsuc 0
      else rest
]

abbrev pub or_else : ℤ → ℤ → ℤ
or_else (pos zero) r = r
or_else (pos (suc n)) r = pos (suc n)
or_else (negsuc n) r = negsuc n

component-padded :
    (vs os : List ℕ) (rest : ℤ) → component_order vs os rest ≡ or_else (padded_order vs os) rest
unfolding padded_order compare_components only_zeros
component-padded [] [] rest = refl
component-padded [] (o ∷ os) rest = ground (arith, padded_right os)
component-padded (v ∷ vs) [] rest = ground (arith, padded_left vs)
component-padded (v ∷ vs) (o ∷ os) rest = ground (arith, component-padded vs os rest)

-- compareInternal of any two versions is the componentwise order in which a missing component
-- counts as zero; where that is a tie, the comparison of the pre-releases decides.
pub compare_internal-padded :
    (v o : Version)
    → compare_internal v o
      ≡ or_else (padded_order v.components o.components) (compare_pre_release v o)
unfolding compare_internal
compare_internal-padded v o = component-padded v.components o.components (compare_pre_release v o)
