-- ===== src/Server/Events.antt =====
-- server/bmlb/handler.go and watch: which calls of the informers wake the sync loop.
use kube_bazellb.Prelude.{
  Bool, true, false, not, ◌&&◌, [], ◌∷◌, Str, codes, str_eq, if◌then◌else◌, ◌≡◌, ◌≢◌, ◌↔◌, refl,
  ◌∙◌, arith,
}
use kube_bazellb.Kube.{Service, load_balancer}
use kube_bazellb.Kube.Same.{deep_equal_iff}
use kube_bazellb.Watch.{Obj, service, endpoints, other_obj, is_load_balancer}
use kube_bazellb.Server.{
  Server, maybe_sync, compared_copy, skip_service_update, add_service, update_service,
  delete_service, add_endpoints, update_endpoints, delete_endpoints, Event, service_added,
  service_deleted, service_updated, endpoints_added, endpoints_deleted, endpoints_updated, dispatch,
}
use kube_bazellb.Server.Filter.{filter}

-- The old service with the resource version and the ingress addresses of the new one.
abbrev pub with_status_of : Service → Service → Service
with_status_of new old = record old {
  resource_version = new.resource_version;
  ingress = new.ingress;
}

-- An update of a service is skipped exactly when the new service is the old one with another
-- resource version and other ingress addresses at most.
pub skip_service_update_lem :
    (old new : Service) → (skip_service_update old new ≡ true) ↔ (new ≡ with_status_of new old)
unfolding skip_service_update
skip_service_update_lem old new =
    ground (arith, deep_equal_iff (compared_copy old) (compared_copy new))

abbrev pub is_endpoints : Obj → Bool
is_endpoints (endpoints ep) = true
is_endpoints (service svc) = false
is_endpoints other_obj = false

abbrev pub is_balanced : Obj → Bool
is_balanced (service svc) = is_load_balancer svc
is_balanced (endpoints ep) = false
is_balanced other_obj = false

abbrev pub is_system : Obj → Bool
is_system (endpoints ep) = str_eq ep.namespace (codes "kube-system")
is_system (service svc) = false
is_system other_obj = false

-- Both are services, and they differ in more than their status.
abbrev pub is_service_change : Obj → Obj → Bool
is_service_change (service old) (service new) = not (skip_service_update old new)
is_service_change _ _ = false

abbrev pub wakes : Event → Bool
wakes (service_added obj) = is_balanced obj
wakes (service_deleted obj) = is_balanced obj
wakes (service_updated old new) = is_balanced new && is_service_change old new
wakes (endpoints_added obj) = is_endpoints obj
wakes (endpoints_deleted obj) = is_endpoints obj
wakes (endpoints_updated old new) = is_endpoints old && is_endpoints new && not (is_system new)

-- x
pub dispatch_lem : (e : Event) (s : Server) → dispatch e s ≡ (if wakes e then maybe_sync s else s)
unfolding dispatch add_service delete_service update_service add_endpoints delete_endpoints
    update_endpoints
dispatch_lem (service_added (service svc)) s = refl
dispatch_lem (service_added (endpoints ep)) s = refl
dispatch_lem (service_added other_obj) s = refl
dispatch_lem (service_deleted (service svc)) s = refl
dispatch_lem (service_deleted (endpoints ep)) s = refl
dispatch_lem (service_deleted other_obj) s = refl
dispatch_lem (service_updated (service old) (service new)) s = ground arith
dispatch_lem (service_updated (endpoints ep) (service new)) s = ground arith
dispatch_lem (service_updated other_obj (service new)) s = ground arith
dispatch_lem (service_updated old (endpoints ep)) s = refl
dispatch_lem (service_updated old other_obj) s = refl
dispatch_lem (endpoints_added (service svc)) s = refl
dispatch_lem (endpoints_added (endpoints ep)) s = refl
dispatch_lem (endpoints_added other_obj) s = refl
dispatch_lem (endpoints_deleted (service svc)) s = refl
dispatch_lem (endpoints_deleted (endpoints ep)) s = refl
dispatch_lem (endpoints_deleted other_obj) s = refl
dispatch_lem (endpoints_updated (endpoints old) (endpoints new)) s = ground arith
dispatch_lem (endpoints_updated (service svc) (endpoints new)) s = ground arith
dispatch_lem (endpoints_updated other_obj (endpoints new)) s = ground arith
dispatch_lem (endpoints_updated old (service svc)) s = ground arith
dispatch_lem (endpoints_updated old other_obj) s = ground arith

-- The update of a service from type LoadBalancer to another type wakes nothing, although the
-- filter returns another list of services for it.
pub retype_unnoticed :
    (bind : Str) (old new : Service) (s : Server)
    → old.service_type ≡ load_balancer
    → new.service_type ≢ load_balancer
    → (dispatch (service_updated (service old) (service new)) s ≡ s)
      × ((filter bind (new ∷ [])).filtered ≢ (filter bind (old ∷ [])).filtered)
unfolding filter
retype_unnoticed bind old new s lb other = (
  dispatch_lem (service_updated (service old) (service new)) s ∙ ground (arith, other),
  ground (arith, lb, other),
)
