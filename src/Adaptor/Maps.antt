-- ===== src/Adaptor/Maps.antt =====
-- The maps that `Build` makes of its arguments: the services at each port of each protocol, and the
-- endpoints of each service.
use kube_bazellb.Prelude.{
  ℕ, Bool, true, false, Option, none, some, List, [], ◌∷◌, ◌++◌, Str, nat_eq, string_eq,
}
use kube_bazellb.Prelude.Assoc.{Map, lookup, insert}
use kube_bazellb.Kube.{Service, ServicePort, Endpoints, Protocol, tcp, udp, other_protocol}

-- `[]map[int32][]*v1.Service{{}, {}}`: index 0 and index 1.
pub record PortMap : Type 0 where
  pub at0 : Map ℕ (List Service)
  pub at1 : Map ℕ (List Service)

-- Namespace, then name, to endpoints.
abbrev pub EndpointsMap : Type 0
EndpointsMap = Map Str (Map Str (List Endpoints))

-- `protolcolIndex`: true stands for index 1.
unfoldable pub protocol_index : Protocol → Bool
protocol_index udp = true
protocol_index tcp = false
protocol_index other_protocol = false

abbrev pub port_map_at : Bool → PortMap → Map ℕ (List Service)
port_map_at true pm = pm.at1
port_map_at false pm = pm.at0

abbrev pub set_port_map : Bool → Map ℕ (List Service) → PortMap → PortMap
set_port_map true m pm = record pm { at1 = m }
set_port_map false m pm = record pm { at0 = m }

-- A missing slice or map reads as empty.
abbrev pub or_empty : {A : Type 0} → Option (List A) → List A
or_empty none = []
or_empty (some l) = l

-- `protocolMap[port.Port] = append(protocolMap[port.Port], svc)`
unfoldable pub add_port : Service → ServicePort → PortMap → PortMap
unfolding protocol_index
add_port svc p pm =
    let i = protocol_index p.protocol in
    let m = port_map_at i pm in
    set_port_map i (insert p.port (or_empty (lookup p.port m) ++ svc ∷ []) m) pm

unfoldable pub add_ports : Service → List ServicePort → PortMap → PortMap
unfolding add_port
add_ports svc [] pm = pm
add_ports svc (p ∷ ps) pm = add_ports svc ps (add_port svc p pm)

-- An entry with no endpoints for the service.
unfoldable pub declare : Service → EndpointsMap → EndpointsMap
declare svc em = insert svc.namespace (insert svc.name [] (or_empty (lookup svc.namespace em))) em

-- The first loop of `Build`.
unfoldable pub register : List Service → EndpointsMap × PortMap → EndpointsMap × PortMap
unfolding declare add_ports
register [] maps = maps
register (svc ∷ svcs) (em, pm) = register svcs (declare svc em, add_ports svc svc.ports pm)

abbrev place_named : Endpoints → EndpointsMap → Map Str (List Endpoints) → EndpointsMap
place_named enp em names = elim (lookup enp.name names) [
  | none ↦ em
  | some l ↦ insert enp.namespace (insert enp.name (l ++ enp ∷ []) names) em
]

-- Endpoints go to their service, if it is a declared one.
unfoldable pub place : Endpoints → EndpointsMap → EndpointsMap
place enp em = elim (lookup enp.namespace em) [ none ↦ em | some names ↦ place_named enp em names ]

-- The second loop of `Build`.
unfoldable pub place_all : List Endpoints → EndpointsMap → EndpointsMap
unfolding place
place_all [] em = em
place_all (enp ∷ enps) em = place_all enps (place enp em)

-- `endpointsMap[svc.Namespace][svc.Name]`
abbrev pub endpoints_of : EndpointsMap → Service → List Endpoints
endpoints_of em svc = or_empty (lookup svc.name (or_empty (lookup svc.namespace em)))
