-- ===== src/Server.antt =====
-- server/bmlb/bmlb.go, server/bmlb/handler.go, server/bmlb/lb.go: the handlers that wake the sync loop.
pub mod Filter
pub mod Events
pub mod Loop
pub mod Wakeups
use kube_bazellb.Prelude.{
  ℕ, suc, Bool, true, false, Option, none, some, List, [], Str, ltb, if◌then◌else◌,
}
use kube_bazellb.Kube.{Service, Endpoints}
use kube_bazellb.Kube.Same.{deep_equal}
use kube_bazellb.Watch.{
  ServiceHandler, EndpointsHandler, Obj, service_add_event_handler, service_delete_event_handler,
  service_update_event_handler, endpoints_add_event_handler, endpoints_delete_event_handler,
  endpoints_update_event_handler,
}

-- The sync channel is nil until the loop makes it; then it holds that many signals, two at most.
pub record Server : Type 0 where
  pub bind : Str
  pub sync_chan : Option ℕ

-- `make(chan struct{}, 2)`
abbrev pub capacity : ℕ
capacity = 2

unfoldable pub maybe_sync : Server → Server
maybe_sync s = elim s.sync_chan [
  | none ↦ s
  | some n ↦ if ltb n capacity then record s { sync_chan = some (suc n) } else s
]

-- The copy that is compared: without the resource version and the ingress addresses.
unfoldable pub compared_copy : Service → Service
compared_copy svc = record svc { resource_version = []; ingress = [] }

unfoldable pub skip_service_update : Service → Service → Bool
unfolding deep_equal compared_copy
skip_service_update old new = deep_equal (compared_copy old) (compared_copy new)

unfoldable pub add_service : Service → Server → Server
unfolding maybe_sync
add_service svc s = maybe_sync s

unfoldable pub update_service : Service → Service → Server → Server
unfolding maybe_sync skip_service_update
update_service old new s = if skip_service_update old new then s else maybe_sync s

unfoldable pub delete_service : Service → Server → Server
unfolding maybe_sync
delete_service svc s = maybe_sync s

unfoldable pub add_endpoints : Endpoints → Server → Server
unfolding maybe_sync
add_endpoints ep s = maybe_sync s

unfoldable pub update_endpoints : Endpoints → Endpoints → Server → Server
unfolding maybe_sync
update_endpoints old new s = maybe_sync s

unfoldable pub delete_endpoints : Endpoints → Server → Server
unfolding maybe_sync
delete_endpoints ep s = maybe_sync s

abbrev pub service_handler : ServiceHandler Server
service_handler = record {
  add_service = add_service;
  delete_service = delete_service;
  update_service = update_service;
}

abbrev pub endpoints_handler : EndpointsHandler Server
endpoints_handler = record {
  add_endpoints = add_endpoints;
  delete_endpoints = delete_endpoints;
  update_endpoints = update_endpoints;
}

-- The calls that the two informers make.
pub data Event : Type 0 where
  service_added service_deleted endpoints_added endpoints_deleted : Obj → Event
  service_updated endpoints_updated : Obj → Obj → Event

unfoldable pub dispatch : Event → Server → Server
unfolding service_add_event_handler service_delete_event_handler service_update_event_handler
    endpoints_add_event_handler endpoints_delete_event_handler endpoints_update_event_handler
dispatch (service_added obj) = service_add_event_handler service_handler obj
dispatch (service_deleted obj) = service_delete_event_handler service_handler obj
dispatch (service_updated old new) = service_update_event_handler service_handler old new
dispatch (endpoints_added obj) = endpoints_add_event_handler endpoints_handler obj
dispatch (endpoints_deleted obj) = endpoints_delete_event_handler endpoints_handler obj
dispatch (endpoints_updated old new) = endpoints_update_event_handler endpoints_handler old new
