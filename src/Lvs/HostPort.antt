-- ===== src/Lvs/HostPort.antt =====
-- `net.JoinHostPort` tells hosts and ports apart.
use kube_bazellb.Prelude.{
  ℕ, true, false, ◌||◌, [], ◌∷◌, ◌++◌, Str, append_assoc, ◌≡◌, refl, sym, ap, ◌∙◌, arith,
  Bool-cases, inl, inr,
}
use kube_bazellb.Text.{itoa, is_digit}
use kube_bazellb.Text.Decimal.{itoa-injective}
use kube_bazellb.Text.Last.{last-injective, itoa-Lacks}
use kube_bazellb.Lvs.{has_colon, join_host_port}

has_colon-append : (s t : Str) → has_colon (s ++ t) ≡ (has_colon s || has_colon t)
unfolding has_colon
has_colon-append [] t = refl
has_colon-append (c ∷ s) t = ground (arith, has_colon-append s t)

-- A bracketed host is cut at the last colon, as a bare one is.
bracketed : (h p : Str) → b'[' ∷ h ++ b']' ∷ b':' ∷ p ≡ (b'[' ∷ h ++ b']' ∷ []) ++ b':' ∷ p
bracketed h p = sym (append_assoc (b'[' ∷ h) (b']' ∷ []) (b':' ∷ p))

colon_inside : (h : Str) → has_colon h ≡ true → has_colon (b'[' ∷ h ++ b']' ∷ []) ≡ true
unfolding has_colon
colon_inside h e = ground (arith, has_colon-append h (b']' ∷ []))

-- A bracketed host and a bare one are never joined alike.
mixed :
    (h k : Str) (m n : ℕ)
    → has_colon h ≡ true
    → has_colon k ≡ false
    → b'[' ∷ h ++ b']' ∷ b':' ∷ itoa m ≡ k ++ b':' ∷ itoa n
    → ⊥
unfolding is_digit
mixed h k m n hc kc e =
    let (hosts, ports) =
      last-injective b':' (b'[' ∷ h ++ b']' ∷ []) k (itoa m) (itoa n) (itoa-Lacks b':' m refl)
        (itoa-Lacks b':' n refl) (sym (bracketed h (itoa m)) ∙ e) in
    ground (arith, colon_inside h hc, ap has_colon hosts, kc)

pub join_host_port-injective :
    (h k : Str) (m n : ℕ)
    → join_host_port h (itoa m) ≡ join_host_port k (itoa n)
    → (h ≡ k) × (m ≡ n)
unfolding join_host_port is_digit
join_host_port-injective h k m n e =
    let lm = itoa-Lacks b':' m refl in
    let ln = itoa-Lacks b':' n refl in
    elim (Bool-cases (has_colon h)) [
      | inl hc ↦ elim (Bool-cases (has_colon k)) [
        | inl kc ↦
            let (hosts, ports) =
              last-injective b':' (b'[' ∷ h ++ b']' ∷ []) (b'[' ∷ k ++ b']' ∷ []) (itoa m) (itoa n)
                lm ln (sym (bracketed h (itoa m)) ∙ ground arith ∙ bracketed k (itoa n)) in
            (
              (last-injective b']' h k [] [] tt tt (ground (arith, hosts))).0,
              itoa-injective m n ports,
            )
        | inr kc ↦ absurd (mixed h k m n hc kc (ground arith))
      ]
      | inr hc ↦ elim (Bool-cases (has_colon k)) [
        | inl kc ↦ absurd (mixed k h n m kc hc (ground arith))
        | inr kc ↦
            let (hosts, ports) = last-injective b':' h k (itoa m) (itoa n) lm ln (ground arith) in
            (hosts, itoa-injective m n ports)
      ]
    ]
