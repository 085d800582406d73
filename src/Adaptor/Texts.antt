-- ===== src/Adaptor/Texts.antt =====
-- lvs/adaptor/adaptor.go: the texts under which real servers are expected, and orders of maps.
use kube_bazellb.Prelude.{
  ℕ, false, some, List, ◌∷◌, Str, nat_eq, string_eq, pair_eq, ◌==◌, eq_iff, ◌≡◌, refl, ap, arith,
}
use kube_bazellb.Prelude.Assoc.{Map, lookup, remove, lookup-remove}
use kube_bazellb.Prelude.Members.{has, Distinct, keys, has-keys}
use kube_bazellb.Text.{itoa, is_digit}
use kube_bazellb.Text.Decimal.{itoa-injective}
use kube_bazellb.Text.Last.{last-injective, itoa-Lacks}
use kube_bazellb.Kube.{Service}
use kube_bazellb.Net.{Net}
use kube_bazellb.Lvs.{RealServer}
use kube_bazellb.Lvs.Spec.{RealKey, rs_id}
use kube_bazellb.Adaptor.{Orders}
use kube_bazellb.Adaptor.Expect.{Expected, address_port}

-- The text under which the adaptor knows a real server.
abbrev pub text_of : RealKey → Str
text_of (host, port) = address_port host port

pub text_of-injective : (a b : RealKey) → text_of a ≡ text_of b → a ≡ b
unfolding address_port is_digit
text_of-injective (h, m) (k, n) e =
    let (hosts, ports) =
      last-injective b':' h k (itoa m) (itoa n) (itoa-Lacks b':' m refl) (itoa-Lacks b':' n refl)
        e in
    ground (arith, hosts, itoa-injective m n ports)

pub text_same : (a b : RealKey) → (text_of a == text_of b) ≡ (a == b)
text_same a b = ground (
  arith,
  eq_iff (text_of a) (text_of b),
  eq_iff a b,
  text_of-injective a b,
  ap text_of {x = a} {y = b},
)

-- Every expected real server stands under its own text.
abbrev pub IsCanonical : {net : Net} → Expected net → Type 0
IsCanonical {net} m =
    (t : Str) (rs : RealServer net) → lookup t m ≡ some rs → t ≡ text_of (rs_id rs)

-- An order in which a map is ranged over: each entry once.
pub record IsFair {net : Net} (orders : Orders net) : Type 0 where
  pub reals :
      (m : Expected net)
      → Distinct (keys m)
      → Distinct (keys (orders.reals m)) × ((t : Str) → lookup t (orders.reals m) ≡ lookup t m)
  pub ports :
      (m : Map ℕ (List Service))
      → Distinct (keys m)
      → Distinct (keys (orders.ports m)) × ((p : ℕ) → lookup p (orders.ports m) ≡ lookup p m)

module _ {net : Net} where
  pub IsCanonical-head :
      (t : Str) (rs : RealServer net) (m : Expected net)
      → IsCanonical ((t, rs) ∷ m)
      → t ≡ text_of (rs_id rs)
  unfolding lookup
  IsCanonical-head t rs m h = h t rs (ground (arith, eq_iff t t))

  pub IsCanonical-tail :
      (t : Str) (rs : RealServer net) (m : Expected net)
      → has t (keys m) ≡ false
      → IsCanonical ((t, rs) ∷ m)
      → IsCanonical m
  unfolding lookup
  IsCanonical-tail t rs m d h t' rs' e = h t' rs' (
      ground (
        arith,
        d,
        has-keys t' m,
        has-keys t m,
        e,
        eq_iff t t',
        ap (λ i. lookup i m) {x = t} {y = t'},
      ))

  pub remove-IsCanonical : (t : Str) (m : Expected net) → IsCanonical m → IsCanonical (remove t m)
  remove-IsCanonical t m h t' rs e = h t' rs (ground (arith, lookup-remove t t' m, e))
