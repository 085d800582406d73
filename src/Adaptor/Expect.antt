-- ===== src/Adaptor/Expect.antt =====
-- The real servers that a virtual server should have.
use kube_bazellb.Prelude.{
  ℕ, ◌%◌, ◌^◌, Option, none, some, List, [], ◌∷◌, ◌++◌, Str, nat_eq, string_eq, nat_beq, str_eq,
  if◌then◌else◌,
}
use kube_bazellb.Prelude.Assoc.{Map, insert}
use kube_bazellb.Text.{itoa}
use kube_bazellb.Kube.{Service, ServicePort, Endpoints, EndpointPort, Subset}
use kube_bazellb.Net.{Net}
use kube_bazellb.Lvs.{VirtualServer, RealServer}
use kube_bazellb.Adaptor.Maps.{EndpointsMap, endpoints_of}

-- The service port of the number, whatever its protocol.
unfoldable pub get_target_port : ℕ → List ServicePort → Option ServicePort
get_target_port port [] = none
get_target_port port (p ∷ ps) = if nat_beq p.port port then some p else get_target_port port ps

-- The endpoint port of the same name, or 0.
unfoldable pub get_target_int_port : ServicePort → List EndpointPort → ℕ
get_target_int_port target [] = 0
get_target_int_port target (p ∷ ps) =
    if str_eq p.name target.name then p.port else get_target_int_port target ps

-- `fmt.Sprintf("%s:%d", addr, port)`
unfoldable pub address_port : Str → ℕ → Str
unfolding itoa
address_port addr port = addr ++ b':' ∷ itoa port

module _ (net : Net) where
  open net use {parse}

  abbrev pub Expected : Type 0
  Expected = Map Str (RealServer net)

  unfoldable pub add_addresses : List Str → ℕ → Expected → Expected
  unfolding address_port
  add_addresses [] port m = m
  add_addresses (addr ∷ addrs) port m = add_addresses addrs port (
      insert (address_port addr port)
        (record { address = parse addr; port = port % 2 ^ 16; weight = 1 }) m)

  unfoldable pub add_subsets : ServicePort → List Subset → Expected → Expected
  unfolding get_target_int_port add_addresses
  add_subsets target [] m = m
  add_subsets target (subset ∷ subsets) m =
      let port = get_target_int_port target subset.ports in
      add_subsets target subsets
        (if nat_beq port 0 then m else add_addresses subset.addresses port m)

  unfoldable pub add_endpoints : ServicePort → List Endpoints → Expected → Expected
  unfolding add_subsets
  add_endpoints target [] m = m
  add_endpoints target (e ∷ es) m = add_endpoints target es (add_subsets target e.subsets m)

  unfoldable pub add_expect_rs : Expected → List Endpoints → VirtualServer net → Service → Expected
  unfolding get_target_port add_endpoints
  add_expect_rs m edpts vs svc = elim (get_target_port vs.port svc.ports) [
    | none ↦ m
    | some target ↦ add_endpoints target edpts m
  ]

  -- The loop of `getExpectRSs`.
  unfoldable pub add_services :
      List Service → EndpointsMap → VirtualServer net → Expected → Expected
  unfolding add_expect_rs
  add_services [] em vs m = m
  add_services (svc ∷ svcs) em vs m =
      add_services svcs em vs
        (elim (endpoints_of em svc) [ [] ↦ m | e ∷ es ↦ add_expect_rs m (e ∷ es) vs svc ])

  unfoldable pub get_expect_rss : List Service → EndpointsMap → VirtualServer net → Expected
  unfolding add_services
  get_expect_rss svcs em vs = add_services svcs em vs []
