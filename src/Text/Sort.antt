-- ===== src/Text/Sort.antt =====
-- `sort.Strings`, by insertion.
use kube_bazellb.Prelude.{
  List, [], ◌∷◌, Str, string_eq, ◌==◌, ◌||◌, if◌then◌else◌, ◌≡◌, refl, arith,
}
use kube_bazellb.Prelude.Members.{has}
use kube_bazellb.Text.{str_lt}

abbrev insert_sorted : Str → List Str → List Str
insert_sorted s [] = s ∷ []
insert_sorted s (t ∷ ts) =
    let rest = insert_sorted s ts in if str_lt t s then t ∷ rest else s ∷ t ∷ ts

unfoldable pub sort : List Str → List Str
unfolding str_lt
sort [] = []
sort (s ∷ ss) = insert_sorted s (sort ss)

has-insert_sorted : (x s : Str) (l : List Str) → has x (insert_sorted s l) ≡ ((s == x) || has x l)
has-insert_sorted x s [] = refl
has-insert_sorted x s (t ∷ l) = ground (arith, has-insert_sorted x s l)

pub has-sort : (x : Str) (l : List Str) → has x (sort l) ≡ has x l
unfolding sort
has-sort x [] = refl
has-sort x (s ∷ l) = ground (arith, has-sort x l, has-insert_sorted x s (sort l))
