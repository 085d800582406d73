-- ===== src/Prelude/Assoc.antt =====
-- Go maps as association lists with distinct keys, in the order of insertion.
use mathlib.Core.Path.{◌≡◌, refl}
use mathlib.Core.List.{List, [], ◌∷◌}
use mathlib.Core.Option.{Option, none, some}
use native.Mathlib.Omega.{arith}
use kube_bazellb.Prelude.Tests.{if◌then◌else◌}
use kube_bazellb.Prelude.Equality.{Comparable, ◌==◌, eq_iff}

abbrev pub Map {ℓ} : Type ℓ → Type ℓ → Type ℓ
Map K V = List (K × V)

module _ {ℓ} {K V : Type ℓ} ⦃e : Comparable K⦄ where
  -- `v, ok := m[key]`
  unfoldable pub lookup : K → Map K V → Option V
  lookup key [] = none
  lookup key ((at, v) ∷ rest) = if at == key then some v else lookup key rest

  -- `m[key] = new`
  unfoldable pub insert : K → V → Map K V → Map K V
  insert key new [] = (key, new) ∷ []
  insert key new ((at, old) ∷ rest) =
      if at == key then (key, new) ∷ rest else (at, old) ∷ insert key new rest

  -- `delete(m, key)`; every entry with the key goes
  unfoldable pub remove : K → Map K V → Map K V
  remove key [] = []
  remove key ((at, v) ∷ m) = let rest = remove key m in if at == key then rest else (at, v) ∷ rest

  pub lookup-insert :
      (key other : K) (new : V) (m : Map K V)
      → lookup other (insert key new m) ≡ (if key == other then some new else lookup other m)
  unfolding insert lookup
  lookup-insert key other new [] = refl
  lookup-insert key other new ((at, old) ∷ rest) =
      let ih = lookup-insert key other new rest in
      ground (arith, ih, eq_iff at other, eq_iff at key, eq_iff key other)

  pub lookup-remove :
      (key other : K) (m : Map K V)
      → lookup other (remove key m) ≡ (if key == other then none else lookup other m)
  unfolding remove lookup
  lookup-remove key other [] = ground arith
  lookup-remove key other ((at, old) ∷ rest) =
      let ih = lookup-remove key other rest in
      ground (arith, ih, eq_iff at other, eq_iff at key, eq_iff key other)
