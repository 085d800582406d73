-- ===== src/Ipset/Printing.antt =====
-- utils/ipset/ipset.go, `Entry.String`: what a text says of its entry.
use kube_bazellb.Prelude.{
  ℕ, ℤ, pos, List, [], ◌∷◌, ◌++◌, Str, str_eq, ◌≡◌, refl, sym, ap, ◌∙◌, arith, if◌then◌else◌,
}
use kube_bazellb.Text.{itoa, is_digit}
use kube_bazellb.Text.Decimal.{itoa-injective}
use kube_bazellb.Text.Split.{Lacks}
use kube_bazellb.Text.Last.{last-injective, itoa-Lacks}
use kube_bazellb.Ipset.{
  IpSetEntry, hash_ip, hash_ip_port, hash_ip_port_ip, hash_ip_port_net, bitmap_port, hash_net,
  hash_net_port, itoa_int,
}
use kube_bazellb.Ipset.Entry.{with_port, entry_string}

-- A port that is not negative, and no comma in the protocol and behind the port.
pub record IsPrintable (e : IpSetEntry) : Type 0 where
  pub number : ℕ
  pub port : e.port ≡ pos number
  pub protocol : Lacks b',' e.protocol
  pub ip2 : Lacks b',' e.ip2
  pub subnet : Lacks b',' e.subnet

-- The fields that a set of the entry's type stores.
unfoldable pub stored : IpSetEntry → List Str × ℤ
stored e =
    let t = e.set_type in
    if str_eq t hash_ip
    then (e.ip ∷ [], pos 0)
    else if str_eq t hash_ip_port
    then (e.ip ∷ e.protocol ∷ [], e.port)
    else if str_eq t hash_ip_port_ip
    then (e.ip ∷ e.protocol ∷ e.ip2 ∷ [], e.port)
    else if str_eq t hash_ip_port_net
    then (e.ip ∷ e.protocol ∷ e.subnet ∷ [], e.port)
    else if str_eq t hash_net
    then (e.subnet ∷ [], pos 0)
    else if str_eq t hash_net_port
    then (e.subnet ∷ e.protocol ∷ [], e.port)
    else if str_eq t bitmap_port
    then ([], e.port)
    else ([], pos 0)

itoa_int-pos : (n : ℕ) → itoa_int (pos n) ≡ itoa n
unfolding itoa_int
itoa_int-pos n = refl

with_port-number :
    (a : Str) (e : IpSetEntry) (h : IsPrintable e)
    → with_port a e ≡ (a ++ b',' ∷ e.protocol) ++ b':' ∷ itoa h.number
unfolding with_port
with_port-number a e h =
    ap (λ t. a ++ b',' ∷ e.protocol ++ b':' ∷ t) (ap itoa_int h.port ∙ itoa_int-pos h.number)

with_port-injective :
    (a b : Str) (e f : IpSetEntry)
    → IsPrintable e
    → IsPrintable f
    → with_port a e ≡ with_port b f
    → (a ≡ b) × ((e.protocol ≡ f.protocol) × (e.port ≡ f.port))
unfolding is_digit
with_port-injective a b e f he hf eq =
    let (hosts, ports) =
      last-injective b':' (a ++ b',' ∷ e.protocol) (b ++ b',' ∷ f.protocol) (itoa he.number)
        (itoa hf.number) (itoa-Lacks b':' he.number refl) (itoa-Lacks b':' hf.number refl)
        (sym (with_port-number a e he) ∙ eq ∙ with_port-number b f hf) in
    let (ips, protocols) =
      last-injective b',' a b e.protocol f.protocol he.protocol hf.protocol hosts in
    (ips, (protocols, he.port ∙ ap pos (itoa-injective he.number hf.number ports) ∙ sym hf.port))

-- The same with a text behind the port.
with_tail-injective :
    (a b t u : Str) (e f : IpSetEntry)
    → IsPrintable e
    → IsPrintable f
    → Lacks b',' t
    → Lacks b',' u
    → with_port a e ++ b',' ∷ t ≡ with_port b f ++ b',' ∷ u
    → (a ≡ b) × ((e.protocol ≡ f.protocol) × ((e.port ≡ f.port) × (t ≡ u)))
with_tail-injective a b t u e f he hf ht hu eq =
    let (heads, tails) = last-injective b',' (with_port a e) (with_port b f) t u ht hu eq in
    let (hosts, (protocols, ports)) = with_port-injective a b e f he hf heads in
    (hosts, (protocols, (ports, tails)))

itoa_int-injective :
    (e f : IpSetEntry)
    → IsPrintable e
    → IsPrintable f
    → itoa_int e.port ≡ itoa_int f.port
    → e.port ≡ f.port
unfolding itoa_int
itoa_int-injective e f he hf eq =
    he.port
    ∙ ap pos
        (itoa-injective he.number hf.number (sym (ap itoa_int he.port) ∙ eq ∙ ap itoa_int hf.port))
    ∙ sym hf.port

-- Two entries of one type that String prints alike agree in every field that a set of that type
-- stores, when the ports are not negative and the protocol, second address and network hold no
-- comma.
pub entry_string-injective :
    (e f : IpSetEntry)
    → IsPrintable e
    → IsPrintable f
    → e.set_type ≡ f.set_type
    → entry_string e ≡ entry_string f
    → stored e ≡ stored f
unfolding entry_string stored
entry_string-injective e f he hf types eq = ground (
  arith,
  types,
  eq,
  with_port-injective e.ip f.ip e f he hf,
  with_port-injective e.subnet f.subnet e f he hf,
  with_tail-injective e.ip f.ip e.ip2 f.ip2 e f he hf he.ip2 hf.ip2,
  with_tail-injective e.ip f.ip e.subnet f.subnet e f he hf he.subnet hf.subnet,
  itoa_int-injective e f he hf,
)
