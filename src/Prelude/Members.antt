-- ===== src/Prelude/Members.antt =====
-- Membership as a test, lists without repetition, and the keys of a map.
use mathlib.Core.Path.{◌≡◌, refl}
use mathlib.Core.Bool.{Bool, true, false, ◌||◌, not, ◌&&◌}
use mathlib.Core.List.{List, [], ◌∷◌, ◌++◌}
use mathlib.Core.Option.{Option, none, some}
use native.Mathlib.Omega.{arith}
use kube_bazellb.Prelude.Equality.{Comparable, ◌==◌, eq_iff}
use kube_bazellb.Prelude.Assoc.{Map, lookup, insert, remove}

module _ {ℓ} {A : Type ℓ} ⦃e : Comparable A⦄ where
  abbrev pub has : A → List A → Bool
  has a [] = false
  has a (x ∷ xs) = (x == a) || has a xs

  -- No element stands twice in the list.
  abbrev pub Distinct : List A → Type 0
  Distinct [] = Unit
  Distinct (x ∷ xs) = (has x xs ≡ false) × Distinct xs

  pub has-append : (a : A) (xs ys : List A) → has a (xs ++ ys) ≡ (has a xs || has a ys)
  has-append a [] ys = refl
  has-append a (x ∷ xs) ys = ground (arith, has-append a xs ys)

  pub has_head : (a : A) (xs : List A) → has a (a ∷ xs) ≡ true
  has_head a xs = ground (arith, eq_iff a a)

module _ {ℓ} {K V : Type ℓ} where
  abbrev pub keys : Map K V → List K
  keys [] = []
  keys ((k, v) ∷ m) = k ∷ keys m

  abbrev pub values : Map K V → List V
  values [] = []
  values ((k, v) ∷ m) = v ∷ values m

abbrev pub is_some {ℓ} : {A : Type ℓ} → Option A → Bool
is_some none = false
is_some (some a) = true

module _ {ℓ} {K V : Type ℓ} ⦃e : Comparable K⦄ where
  pub has-keys : (k : K) (m : Map K V) → has k (keys m) ≡ is_some (lookup k m)
  unfolding lookup
  has-keys k [] = refl
  has-keys k ((j, v) ∷ m) = ground (arith, has-keys k m)

  pub has-keys-insert :
      (k j : K) (v : V) (m : Map K V) → has j (keys (insert k v m)) ≡ ((k == j) || has j (keys m))
  unfolding insert
  has-keys-insert k j v [] = refl
  has-keys-insert k j v ((i, w) ∷ m) =
      ground (arith, has-keys-insert k j v m, eq_iff i k, eq_iff k j, eq_iff i j)

  pub insert-Distinct :
      (k : K) (v : V) (m : Map K V) → Distinct (keys m) → Distinct (keys (insert k v m))
  unfolding insert
  insert-Distinct k v [] d = (refl, tt)
  insert-Distinct k v ((i, w) ∷ m) d =
      ground
        (arith, insert-Distinct k v m d.1, has-keys-insert k i v m, eq_iff i k, d.0, eq_iff k i)

  pub has-keys-remove :
      (k j : K) (m : Map K V) → has j (keys (remove k m)) ≡ (not (k == j) && has j (keys m))
  unfolding remove
  has-keys-remove k j [] = ground arith
  has-keys-remove k j ((i, w) ∷ m) =
      ground (arith, has-keys-remove k j m, eq_iff i k, eq_iff k j, eq_iff i j)

  pub remove-Distinct : (k : K) (m : Map K V) → Distinct (keys m) → Distinct (keys (remove k m))
  unfolding remove
  remove-Distinct k [] d = tt
  remove-Distinct k ((i, w) ∷ m) d =
      ground (arith, remove-Distinct k m d.1, has-keys-remove k i m, d.0)
