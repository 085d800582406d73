-- ===== src/Server/Filter.antt =====
-- server/bmlb/bmlb.go, `filter`: the services to balance, and those whose status lacks the address of
-- this server. It writes the address into the cached objects themselves.
use kube_bazellb.Prelude.{
  Bool, true, false, not, List, [], ◌∷◌, ◌++◌, Str, str_eq, string_eq, if◌then◌else◌, map, ◌≡◌,
  refl, arith,
}
use kube_bazellb.Prelude.Members.{has, has-append, has_head}
use kube_bazellb.Kube.{Service}
use kube_bazellb.Watch.{is_load_balancer}

-- What `filter` returns, with the contents that the objects have when it is done, and the cached
-- objects themselves.
pub record Filtered : Type 0 where
  pub filtered : List Service
  pub needs_update : List Service
  pub cache : List Service

-- The loop over the ingress addresses.
unfoldable pub find_lb_ip : Str → List Str → Bool
find_lb_ip bind [] = false
find_lb_ip bind (ip ∷ ingress) =
    let rest = find_lb_ip bind ingress in if str_eq ip bind then true else rest

abbrev pub with_lb_ip : Str → Service → Service
with_lb_ip bind svc = record svc { ingress = svc.ingress ++ bind ∷ [] }

-- The rounds of the loop from one service on.
unfoldable pub filter : Str → List Service → Filtered
unfolding find_lb_ip
filter bind [] = record { filtered = []; needs_update = []; cache = [] }
filter bind (svc ∷ svcs) =
    let rest = filter bind svcs in
    if not (is_load_balancer svc)
    then record rest { cache = svc ∷ rest.cache }
    else if find_lb_ip bind svc.ingress
    then record {
      filtered = svc ∷ rest.filtered;
      needs_update = rest.needs_update;
      cache = svc ∷ rest.cache;
    }
    else record {
      filtered = with_lb_ip bind svc ∷ rest.filtered;
      needs_update = with_lb_ip bind svc ∷ rest.needs_update;
      cache = with_lb_ip bind svc ∷ rest.cache;
    }

-- The services for which a test holds.
abbrev pub select : (Service → Bool) → List Service → List Service
select p [] = []
select p (svc ∷ svcs) = let rest = select p svcs in if p svc then svc ∷ rest else rest

-- The service with the address in its status.
abbrev pub ensured : Str → Service → Service
ensured bind svc = if has bind svc.ingress then svc else with_lb_ip bind svc

find_lb_ip-has : (bind : Str) (ingress : List Str) → find_lb_ip bind ingress ≡ has bind ingress
unfolding find_lb_ip
find_lb_ip-has bind [] = refl
find_lb_ip-has bind (ip ∷ ingress) = ground (arith, find_lb_ip-has bind ingress)

abbrev pub lacks_ip : Str → Service → Bool
lacks_ip bind svc = not (has bind svc.ingress)

-- The filter returns the services of type LoadBalancer in order, all with the address of this
-- server in their status; for an update exactly those of them that lacked it, with the address
-- appended; and it leaves the cached objects changed in the same way.
pub filter_lem :
    (bind : Str) (svcs : List Service)
    → ((filter bind svcs).filtered ≡ map (ensured bind) (select is_load_balancer svcs))
      × ((filter bind svcs).needs_update
          ≡ map (with_lb_ip bind) (select (lacks_ip bind) (select is_load_balancer svcs)))
      × ((filter bind svcs).cache
          ≡ map (λ svc. if is_load_balancer svc then ensured bind svc else svc) svcs)
unfolding filter
filter_lem bind [] = (refl, refl, refl)
filter_lem bind (svc ∷ svcs) =
    let (f, n, c) = filter_lem bind svcs in ground (arith, find_lb_ip-has bind svc.ingress, f, n, c)

has-ensured : (bind : Str) (svc : Service) → has bind (ensured bind svc).ingress ≡ true
has-ensured bind svc = ground (arith, has-append bind svc.ingress (bind ∷ []), has_head bind [])

-- Once the filter has run over the cached services, it finds none of the same objects in need of
-- an update, whether or not the updates of the first round have reached the API server.
pub filter_again :
    (bind : Str) (svcs : List Service) → (filter bind (filter bind svcs).cache).needs_update ≡ []
unfolding filter
filter_again bind [] = refl
filter_again bind (svc ∷ svcs) = ground (
  arith,
  filter_again bind svcs,
  find_lb_ip-has bind svc.ingress,
  find_lb_ip-has bind (svc.ingress ++ bind ∷ []),
  has-append bind svc.ingress (bind ∷ []),
  has_head bind [],
)
