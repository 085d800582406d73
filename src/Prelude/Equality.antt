-- ===== src/Prelude/Equality.antt =====
-- Equality tests as an interface, with instances for numbers, strings and pairs.
use Prim.Native.Nat.{ℕ}
use mathlib.Core.Path.{◌≡◌, refl}
use mathlib.Core.Logic.{◌↔◌}
use mathlib.Core.Bool.{Bool, true, false, ◌&&◌}
use mathlib.Core.List.{List, [], ◌∷◌}
use native.Mathlib.Omega.{arith}
use kube_bazellb.Prelude.Tests.{nat_beq, nat_beq_iff, Str}

pub record Comparable {ℓ} (A : Type ℓ) : Type ℓ where
  pub same : A → A → Bool
  pub same_iff : (a b : A) → (same a b ≡ true) ↔ (a ≡ b)

infix 50 ◌==◌
abbrev pub ◌==◌ {ℓ} : {A : Type ℓ} ⦃e : Comparable A⦄ → A → A → Bool
◌==◌ ⦃e⦄ = e.same

pub eq_iff {ℓ} : {A : Type ℓ} ⦃e : Comparable A⦄ (a b : A) → ((a == b) ≡ true) ↔ (a ≡ b)
eq_iff ⦃e⦄ a b = e.same_iff a b

pub eq_refl {ℓ} : {A : Type ℓ} ⦃e : Comparable A⦄ (a : A) → (a == a) ≡ true
eq_refl ⦃e⦄ a = (e.same_iff a a).1 refl

instance abbrev pub nat_eq : Comparable ℕ
nat_eq = record { same = nat_beq; same_iff = nat_beq_iff }

-- Byte for byte.
unfoldable pub str_eq : Str → Str → Bool
str_eq [] [] = true
str_eq [] (b ∷ t) = false
str_eq (a ∷ s) [] = false
str_eq (a ∷ s) (b ∷ t) = nat_beq a b && str_eq s t

pub str_eq_iff : (s t : Str) → (str_eq s t ≡ true) ↔ (s ≡ t)
unfolding str_eq
str_eq_iff [] [] = ground arith
str_eq_iff [] (b ∷ t) = ground arith
str_eq_iff (a ∷ s) [] = ground arith
str_eq_iff (a ∷ s) (b ∷ t) = ground (arith, str_eq_iff s t)

instance abbrev pub string_eq : Comparable Str
string_eq = record { same = str_eq; same_iff = str_eq_iff }

unfoldable pub texts_beq : List Str → List Str → Bool
unfolding str_eq
texts_beq [] [] = true
texts_beq [] (t ∷ ts) = false
texts_beq (s ∷ ss) [] = false
texts_beq (s ∷ ss) (t ∷ ts) = str_eq s t && texts_beq ss ts

pub texts_beq_iff : (ss ts : List Str) → (texts_beq ss ts ≡ true) ↔ (ss ≡ ts)
unfolding texts_beq
texts_beq_iff [] [] = ground arith
texts_beq_iff [] (t ∷ ts) = ground arith
texts_beq_iff (s ∷ ss) [] = ground arith
texts_beq_iff (s ∷ ss) (t ∷ ts) = ground (arith, str_eq_iff s t, texts_beq_iff ss ts)

instance abbrev pub texts_eq : Comparable (List Str)
texts_eq = record { same = texts_beq; same_iff = texts_beq_iff }

abbrev pub pair_beq {ℓ} :
    {A B : Type ℓ} ⦃a : Comparable A⦄ ⦃b : Comparable B⦄ → A × B → A × B → Bool
pair_beq (x, y) (x', y') = (x == x') && (y == y')

pub pair_beq_iff {ℓ} :
    {A B : Type ℓ} ⦃a : Comparable A⦄ ⦃b : Comparable B⦄ (p q : A × B)
    → (pair_beq p q ≡ true) ↔ (p ≡ q)
pair_beq_iff (x, y) (x', y') = ground (arith, eq_iff x x', eq_iff y y')

instance abbrev pub pair_eq {ℓ} :
    {A B : Type ℓ} ⦃a : Comparable A⦄ ⦃b : Comparable B⦄ → Comparable (A × B)
pair_eq = record { same = pair_beq; same_iff = pair_beq_iff }
