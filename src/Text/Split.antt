-- ===== src/Text/Split.antt =====
-- Joining parts that lack the separator and splitting again gives the parts.
use kube_bazellb.Prelude.{ℕ, List, [], ◌∷◌, ◌++◌, Str, ◌≡◌, ◌≢◌, refl, arith}
use kube_bazellb.Text.{split, join}

-- No byte of the string is `sep`.
abbrev pub Lacks : ℕ → Str → Type 0
Lacks sep [] = Unit
Lacks sep (c ∷ s) = (c ≢ sep) × Lacks sep s

abbrev pub AllLack : ℕ → List Str → Type 0
AllLack sep [] = Unit
AllLack sep (p ∷ ps) = Lacks sep p × AllLack sep ps

split_last : (sep : ℕ) (p : Str) → Lacks sep p → split sep p ≡ p ∷ []
unfolding split
split_last sep [] h = refl
split_last sep (c ∷ p) h = ground (arith, split_last sep p h.1)

split_part : (sep : ℕ) (p t : Str) → Lacks sep p → split sep (p ++ sep ∷ t) ≡ p ∷ split sep t
unfolding split
split_part sep [] t h = ground arith
split_part sep (c ∷ p) t h = ground (arith, split_part sep p t h.1)

pub split-join :
    (sep : ℕ) (p : Str) (ps : List Str)
    → AllLack sep (p ∷ ps)
    → split sep (join (sep ∷ []) (p ∷ ps)) ≡ p ∷ ps
unfolding join
split-join sep p [] h = split_last sep p h.0
split-join sep p (q ∷ ps) h =
    rw (split_part sep p (join (sep ∷ []) (q ∷ ps)) h.0, split-join sep q ps h.1)
