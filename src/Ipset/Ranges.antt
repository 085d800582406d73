-- ===== src/Ipset/Ranges.antt =====
-- utils/ipset/ipset.go: what is a port range, and what is read of one.
use kube_bazellb.Prelude.{
  ℕ, ◌≤◌, ◌^◌, ◌-◌, pos, false, some, [], ◌∷◌, ◌++◌, Str, str_eq, str_eq_iff, ltb, if◌then◌else◌,
  ◌≡◌, ◌≢◌, refl, arith,
}
use kube_bazellb.Prelude.Members.{is_some}
use kube_bazellb.Text.{split, itoa, is_digit, join}
use kube_bazellb.Text.Decimal.{itoa-cons, parse_uint-itoa}
use kube_bazellb.Text.Split.{split-join}
use kube_bazellb.Text.Last.{itoa-Lacks}
use kube_bazellb.Ipset.{atoi}
use kube_bazellb.Ipset.Validate.{all_ports, validate_port_range, parse_port_range}

-- validatePortRange accepts a text that is not empty exactly when parsePortRange reads a range of
-- it.
pub validate_port_range-parse :
    (s : Str) → s ≢ [] → validate_port_range s ≡ is_some (parse_port_range s)
unfolding validate_port_range parse_port_range all_ports
validate_port_range-parse s h = ground (arith, str_eq_iff s [])

-- A printed number starts with a digit, so that it is read without a sign.
pub atoi-itoa : (n : ℕ) → n ≤ 2 ^ 63 - 1 → atoi (itoa n) ≡ some (pos n)
unfolding atoi is_digit
atoi-itoa n fits =
    let (c, s, e, d, all, lead) = itoa-cons n in
    ground (arith, e, d, parse_uint-itoa n (omega arith))

split_range : (a b : ℕ) → split b'-' (itoa a ++ b'-' ∷ itoa b) ≡ itoa a ∷ itoa b ∷ []
unfolding join is_digit
split_range a b =
    split-join b'-' (itoa a) (itoa b ∷ []) (itoa-Lacks b'-' a refl, (itoa-Lacks b'-' b refl, tt))

range_not_empty : (s t : Str) (c : ℕ) → str_eq (s ++ c ∷ t) [] ≡ false
unfolding str_eq
range_not_empty [] t c = refl
range_not_empty (x ∷ s) t c = refl

parse_parts :
    (s a b : Str) (m n : ℕ)
    → str_eq s [] ≡ false
    → split b'-' s ≡ a ∷ b ∷ []
    → atoi a ≡ some (pos m)
    → atoi b ≡ some (pos n)
    → parse_port_range s ≡ some (if ltb n m then (pos n, pos m) else (pos m, pos n))
unfolding parse_port_range
parse_parts s a b m n full parts em en = ground (arith, full, parts, em, en)

-- The printed range of two ports that fit an int is read by parsePortRange with the smaller port
-- first, in whatever order they were printed.
pub parse_port_range-itoa :
    (a b : ℕ)
    → a ≤ 2 ^ 63 - 1
    → b ≤ 2 ^ 63 - 1
    → parse_port_range (itoa a ++ b'-' ∷ itoa b)
      ≡ some (if ltb b a then (pos b, pos a) else (pos a, pos b))
parse_port_range-itoa a b ha hb =
    parse_parts (itoa a ++ b'-' ∷ itoa b) (itoa a) (itoa b) a b
      (range_not_empty (itoa a) (itoa b) b'-') (split_range a b) (atoi-itoa a ha) (atoi-itoa b hb)
