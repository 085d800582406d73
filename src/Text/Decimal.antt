-- ===== src/Text/Decimal.antt =====
-- Decimal printing and reading are inverse to one another.
use kube_bazellb.Prelude.{
  ℕ, zero, suc, ◌+◌, ◌-◌, ◌*◌, ◌/◌, ◌%◌, ◌≤◌, ◌<◌, Bool, true, some, List, [], ◌∷◌, Str, ltb, ◌≡◌,
  ◌≢◌, refl, sym, ap, ◌∙◌, arith, Bool-cases, inl, inr,
}
use kube_bazellb.Text.{is_digit, scan_uint, parse_uint, digits_from, itoa, max_uint}

-- Every byte passes the test.
abbrev pub All {ℓ} : {A : Type ℓ} → (A → Bool) → List A → Type 0
All p [] = Unit
All p (x ∷ xs) = (p x ≡ true) × All p xs

scan-digits_from :
    (fuel n : ℕ) (out : Str)
    → n < fuel
    → n ≤ max_uint
    → scan_uint 0 (digits_from fuel n out) ≡ scan_uint n out
unfolding digits_from scan_uint
scan-digits_from zero n out h fits = absurd (omega arith)
scan-digits_from (suc fuel) n out h fits =
    ground (arith, scan-digits_from fuel (n / 10) ((b'0' + n % 10) ∷ out))

parse-cons : (c : ℕ) (s : Str) → parse_uint (c ∷ s) ≡ scan_uint 0 (c ∷ s)
unfolding parse_uint
parse-cons c s = refl

digit_is : (n : ℕ) → is_digit (b'0' + n % 10) ≡ true
unfolding is_digit
digit_is n = ground arith

digits_from-cons :
    (fuel n : ℕ) (out : Str)
    → n < fuel
    → (c : ℕ) × (s : Str) × (digits_from fuel n out ≡ c ∷ s)
      × (is_digit c ≡ true)
      × (All is_digit out → All is_digit s)
      × ((n ≢ 0) → c ≢ b'0')
unfolding digits_from
digits_from-cons zero n out h = absurd (omega arith)
digits_from-cons (suc fuel) n out h = elim (Bool-cases (ltb n 10)) [
  | inl e ↦ (b'0' + n % 10, out, rw e, digit_is n, λ a. a, λ pos eq. ground arith)
  | inr e ↦
      let (c, s, eq, d, all, lead) =
        digits_from-cons fuel (n / 10) ((b'0' + n % 10) ∷ out) (ground arith) in
      (c, s, rw e eq, d, λ a. all (digit_is n, a), λ pos. lead (ground arith))
]

-- Reading what was printed gives the number back.
pub parse_uint-itoa : (n : ℕ) → n ≤ max_uint → parse_uint (itoa n) ≡ some n
unfolding itoa scan_uint
parse_uint-itoa n fits =
    let (c, s, eq, d, all, lead) = digits_from-cons (suc n) n [] (omega arith) in
    rw eq (
      parse-cons c s ∙ ap (scan_uint 0) (sym eq) ∙ scan-digits_from (suc n) n [] (omega arith) fits)

-- A print is a digit and more digits, with no zero in front of another digit.
pub itoa-cons :
    (n : ℕ)
    → (c : ℕ) × (s : Str) × (itoa n ≡ c ∷ s)
      × (is_digit c ≡ true)
      × All is_digit s
      × ((n ≢ 0) → c ≢ b'0')
unfolding itoa
itoa-cons n =
    let (c, s, eq, d, all, lead) = digits_from-cons (suc n) n [] (omega arith) in
    (c, s, eq, d, all tt, lead)

-- The number that digits spell behind `n`, with no bound.
decode : ℕ → Str → ℕ
decode n [] = n
decode n (c ∷ s) = decode (n * 10 + (c - b'0')) s

decode-digits_from :
    (fuel n : ℕ) (out : Str) → n < fuel → decode 0 (digits_from fuel n out) ≡ decode n out
unfolding digits_from decode
decode-digits_from zero n out h = absurd (omega arith)
decode-digits_from (suc fuel) n out h =
    ground (arith, decode-digits_from fuel (n / 10) ((b'0' + n % 10) ∷ out))

decode-itoa : (n : ℕ) → decode 0 (itoa n) ≡ n
unfolding itoa decode
decode-itoa n = decode-digits_from (suc n) n [] (omega arith)

-- Two numbers that print alike are equal.
pub itoa-injective : (m n : ℕ) → itoa m ≡ itoa n → m ≡ n
itoa-injective m n e = sym (decode-itoa m) ∙ ap (decode 0) e ∙ decode-itoa n
