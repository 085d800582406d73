-- ===== src/Haproxy/Sections.antt =====
-- haproxy/adaptor/adaptor.go: the names of the servers in a section.
use kube_bazellb.Prelude.{
  ℕ, zero, suc, ◌≤◌, false, List, [], ◌∷◌, ◌++◌, Str, length, length-append, string_eq, eq_iff, ◌≡◌,
  refl, ap, sym, subst, ◌∙◌, arith,
}
use kube_bazellb.Prelude.Members.{has, has-append, Distinct}
use kube_bazellb.Text.{itoa}
use kube_bazellb.Text.Decimal.{itoa-injective}
use kube_bazellb.Kube.{Endpoints, Subset, EndpointPort}
use kube_bazellb.Haproxy.Template.{Server}
use kube_bazellb.Haproxy.Adaptor.{
  add_server, port_servers, address_servers, subset_servers, endpoints_servers,
}

abbrev pub names : List Server → List Str
names [] = []
names (s ∷ servers) = s.name ∷ names servers

abbrev server_name : Str → ℕ → Str
server_name svc_name n = svc_name ++ b'-' ∷ itoa n

-- The names of the first `n` servers.
abbrev pub numbered : Str → ℕ → List Str
numbered svc_name zero = []
numbered svc_name (suc n) = numbered svc_name n ++ server_name svc_name n ∷ []

abbrev AreNumbered : Str → List Server → Type 0
AreNumbered svc_name servers = names servers ≡ numbered svc_name (length servers)

names-append : (s t : List Server) → names (s ++ t) ≡ names s ++ names t
names-append [] t = refl
names-append (x ∷ s) t = ap (λ l. x.name ∷ l) (names-append s t)

add_server-AreNumbered :
    (svc_name ip : Str) (port : ℕ) (servers : List Server)
    → AreNumbered svc_name servers
    → AreNumbered svc_name (add_server svc_name ip port servers)
unfolding add_server
add_server-AreNumbered svc_name ip port servers h =
    let n = length servers in
    let s : Server = record { name = server_name svc_name n; ip = ip; port = port } in
    let e : length (servers ++ s ∷ []) ≡ suc n = omega (arith, length-append servers (s ∷ [])) in
    names-append servers (s ∷ [])
    ∙ ap (λ l. l ++ server_name svc_name n ∷ []) h
    ∙ ap (numbered svc_name) (sym e)

port_servers-AreNumbered :
    (svc_name ip : Str) (ports : List EndpointPort) (servers : List Server)
    → AreNumbered svc_name servers
    → AreNumbered svc_name (port_servers svc_name ip ports servers)
unfolding port_servers
port_servers-AreNumbered svc_name ip [] servers h = h
port_servers-AreNumbered svc_name ip (p ∷ ports) servers h =
    port_servers-AreNumbered svc_name ip ports (add_server svc_name ip p.port servers)
      (add_server-AreNumbered svc_name ip p.port servers h)

address_servers-AreNumbered :
    (svc_name : Str) (addresses : List Str) (ports : List EndpointPort) (servers : List Server)
    → AreNumbered svc_name servers
    → AreNumbered svc_name (address_servers svc_name addresses ports servers)
unfolding address_servers
address_servers-AreNumbered svc_name [] ports servers h = h
address_servers-AreNumbered svc_name (ip ∷ addresses) ports servers h =
    address_servers-AreNumbered svc_name addresses ports (port_servers svc_name ip ports servers)
      (port_servers-AreNumbered svc_name ip ports servers h)

subset_servers-AreNumbered :
    (svc_name : Str) (subsets : List Subset) (servers : List Server)
    → AreNumbered svc_name servers
    → AreNumbered svc_name (subset_servers svc_name subsets servers)
unfolding subset_servers
subset_servers-AreNumbered svc_name [] servers h = h
subset_servers-AreNumbered svc_name (x ∷ subsets) servers h =
    subset_servers-AreNumbered svc_name subsets
      (address_servers svc_name x.addresses x.ports servers)
      (address_servers-AreNumbered svc_name x.addresses x.ports servers h)

endpoints_servers-AreNumbered :
    (svc_name : Str) (edpts : List Endpoints) (servers : List Server)
    → AreNumbered svc_name servers
    → AreNumbered svc_name (endpoints_servers svc_name edpts servers)
unfolding endpoints_servers
endpoints_servers-AreNumbered svc_name [] servers h = h
endpoints_servers-AreNumbered svc_name (e ∷ edpts) servers h =
    endpoints_servers-AreNumbered svc_name edpts (subset_servers svc_name e.subsets servers)
      (subset_servers-AreNumbered svc_name e.subsets servers h)

append-cancel : (p s t : Str) → p ++ s ≡ p ++ t → s ≡ t
append-cancel [] s t e = e
append-cancel (c ∷ p) s t e = append-cancel p s t (ground (arith, e))

server_name-injective :
    (svc_name : Str) (m n : ℕ) → server_name svc_name m ≡ server_name svc_name n → m ≡ n
server_name-injective svc_name m n e =
    let tail = append-cancel svc_name (b'-' ∷ itoa m) (b'-' ∷ itoa n) e in
    itoa-injective m n (ground (arith, tail))

numbered-fresh :
    (svc_name : Str) (n k : ℕ) → n ≤ k → has (server_name svc_name k) (numbered svc_name n) ≡ false
numbered-fresh svc_name zero k h = refl
numbered-fresh svc_name (suc n) k h = ground (
  arith,
  has-append (server_name svc_name k) (numbered svc_name n) (server_name svc_name n ∷ []),
  numbered-fresh svc_name n k,
  eq_iff (server_name svc_name n) (server_name svc_name k),
  server_name-injective svc_name n k,
)

Distinct-snoc : (l : List Str) (x : Str) → Distinct l → has x l ≡ false → Distinct (l ++ x ∷ [])
Distinct-snoc [] x d h = (refl, tt)
Distinct-snoc (y ∷ l) x d h =
    ground (arith, Distinct-snoc l x d.1, has-append y l (x ∷ []), d.0, eq_iff x y, eq_iff y x, h)

numbered-Distinct : (svc_name : Str) (n : ℕ) → Distinct (numbered svc_name n)
numbered-Distinct svc_name zero = tt
numbered-Distinct svc_name (suc n) =
    Distinct-snoc (numbered svc_name n) (server_name svc_name n) (numbered-Distinct svc_name n)
      (numbered-fresh svc_name n n (omega arith))

-- The servers of a section are named by the service and their position, counted from zero over
-- all endpoints, subsets, addresses and ports; no two have one name.
pub endpoints_servers-Distinct :
    (svc_name : Str) (edpts : List Endpoints)
    → (names (endpoints_servers svc_name edpts [])
        ≡ numbered svc_name (length (endpoints_servers svc_name edpts [])))
      × Distinct (names (endpoints_servers svc_name edpts []))
endpoints_servers-Distinct svc_name edpts =
    let e = endpoints_servers-AreNumbered svc_name edpts [] refl in
    (
      e,
      subst Distinct (sym e)
          (numbered-Distinct svc_name (length (endpoints_servers svc_name edpts []))),
    )
