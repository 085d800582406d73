-- ===== src/Text/Last.antt =====
-- Two texts cut at their last separator: if they are equal, so are the parts.
use kube_bazellb.Prelude.{ℕ, false, [], ◌∷◌, ◌++◌, Str, ◌≡◌, sym, ap, subst, arith}
use kube_bazellb.Text.{is_digit, itoa}
use kube_bazellb.Text.Decimal.{All, itoa-cons}
use kube_bazellb.Text.Split.{Lacks}

not_in_tail : (sep : ℕ) (a t p : Str) → Lacks sep p → a ++ sep ∷ t ≡ p → ⊥
not_in_tail sep [] t [] h e = ground arith
not_in_tail sep [] t (c ∷ p) h e = ground (arith, h.0)
not_in_tail sep (x ∷ a) t [] h e = ground arith
not_in_tail sep (x ∷ a) t (c ∷ p) h e = not_in_tail sep a t p h.1 (ground arith)

pub last-injective :
    (sep : ℕ) (a b p q : Str)
    → Lacks sep p
    → Lacks sep q
    → a ++ sep ∷ p ≡ b ++ sep ∷ q
    → (a ≡ b) × (p ≡ q)
last-injective sep [] [] p q hp hq e = ground arith
last-injective sep [] (y ∷ b) p q hp hq e = absurd (not_in_tail sep b q p hp (ground arith))
last-injective sep (x ∷ a) [] p q hp hq e = absurd (not_in_tail sep a p q hq (ground arith))
last-injective sep (x ∷ a) (y ∷ b) p q hp hq e = ground (arith, last-injective sep a b p q hp hq)

digits-Lacks : (sep : ℕ) → is_digit sep ≡ false → (s : Str) → All is_digit s → Lacks sep s
digits-Lacks sep h [] a = tt
digits-Lacks sep h (c ∷ s) a =
    ((λ e. ground (arith, ap is_digit e, h, a.0)), digits-Lacks sep h s a.1)

-- A printed number holds no byte that is not a digit.
pub itoa-Lacks : (sep n : ℕ) → is_digit sep ≡ false → Lacks sep (itoa n)
itoa-Lacks sep n h =
    let (c, s, e, d, all, lead) = itoa-cons n in
    subst (Lacks sep) (sym e) (digits-Lacks sep h (c ∷ s) (d, all))
