-- ===== src/Watch.antt =====
-- watch/service.go, watch/endpoint.go, watch/type.go: what stands between the informers and the handlers.
-- A handler changes a state `W`; an informer hands over an object of any type.
use kube_bazellb.Prelude.{Bool, Option, none, some, List, [], ◌∷◌, codes, str_eq, if◌then◌else◌}
use kube_bazellb.Kube.{Service, Endpoints, load_balancer}
use kube_bazellb.Kube.Same.{same_type}

pub data Obj : Type 0 where
  service : Service → Obj
  endpoints : Endpoints → Obj
  other_obj : Obj

pub record ServiceHandler (W : Type 0) : Type 0 where
  pub add_service : Service → W → W
  pub delete_service : Service → W → W
  pub update_service : Service → Service → W → W

pub record EndpointsHandler (W : Type 0) : Type 0 where
  pub add_endpoints : Endpoints → W → W
  pub delete_endpoints : Endpoints → W → W
  pub update_endpoints : Endpoints → Endpoints → W → W

-- `obj.(*v1.Service)` and `obj.(*v1.Endpoints)`
abbrev pub as_service : Obj → Option Service
as_service (service svc) = some svc
as_service (endpoints ep) = none
as_service other_obj = none

abbrev pub as_endpoints : Obj → Option Endpoints
as_endpoints (service svc) = none
as_endpoints (endpoints ep) = some ep
as_endpoints other_obj = none

abbrev pub is_load_balancer : Service → Bool
is_load_balancer svc = same_type svc.service_type load_balancer

module _ {W : Type 0} (h : ServiceHandler W) where
  unfoldable pub service_add_event_handler : Obj → W → W
  service_add_event_handler obj w = elim (as_service obj) [
    | none ↦ w
    | some svc ↦ if is_load_balancer svc then h.add_service svc w else w
  ]

  unfoldable pub service_delete_event_handler : Obj → W → W
  service_delete_event_handler obj w = elim (as_service obj) [
    | none ↦ w
    | some svc ↦ if is_load_balancer svc then h.delete_service svc w else w
  ]

  unfoldable pub service_update_event_handler : Obj → Obj → W → W
  service_update_event_handler old_obj new_obj w = elim (as_service new_obj) [
    | none ↦ w
    | some svc ↦ elim (as_service old_obj) [
      | none ↦ w
      | some old ↦ if is_load_balancer svc then h.update_service old svc w else w
    ]
  ]

module _ {W : Type 0} (h : EndpointsHandler W) where
  unfoldable pub endpoints_add_event_handler : Obj → W → W
  endpoints_add_event_handler obj w = elim (as_endpoints obj) [
    | none ↦ w
    | some ep ↦ h.add_endpoints ep w
  ]

  unfoldable pub endpoints_delete_event_handler : Obj → W → W
  endpoints_delete_event_handler obj w = elim (as_endpoints obj) [
    | none ↦ w
    | some ep ↦ h.delete_endpoints ep w
  ]

  unfoldable pub endpoints_update_event_handler : Obj → Obj → W → W
  endpoints_update_event_handler old_obj new_obj w = elim (as_endpoints new_obj) [
    | none ↦ w
    | some ep ↦
        if str_eq ep.namespace (codes "kube-system")
        then w
        else elim (as_endpoints old_obj) [ none ↦ w | some old ↦ h.update_endpoints old ep w ]
  ]

-- `List` of the service watcher; `none` is a panic.
unfoldable pub list_services : List Obj → Option (List Service)
list_services [] = some []
list_services (obj ∷ objs) =
    let rest = list_services objs in
    elim (as_service obj) [
      | none ↦ none
      | some svc ↦ elim rest [ none ↦ none | some svcs ↦ some (svc ∷ svcs) ]
    ]

-- `List` of the endpoints watcher.
unfoldable pub list_endpoints : List Obj → Option (List Endpoints)
list_endpoints [] = some []
list_endpoints (obj ∷ objs) =
    let rest = list_endpoints objs in
    elim (as_endpoints obj) [
      | none ↦ none
      | some ep ↦ elim rest [ none ↦ none | some eps ↦ some (ep ∷ eps) ]
    ]
