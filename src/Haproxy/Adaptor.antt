-- ===== src/Haproxy/Adaptor.antt =====
-- haproxy/adaptor/adaptor.go: the configuration for the services and their endpoints. `declare` and
-- `place_all` are the same loops as in the LVS adaptor.
use kube_bazellb.Prelude.{ℕ, List, [], ◌∷◌, ◌++◌, Str, codes, length, string_eq}
use kube_bazellb.Prelude.Assoc.{lookup}
use kube_bazellb.Text.{itoa}
use kube_bazellb.Kube.{Service, ServicePort, Endpoints, Subset, EndpointPort}
use kube_bazellb.Adaptor.Maps.{EndpointsMap, or_empty, declare, place_all}
use kube_bazellb.Haproxy.Template.{Bind, Server, get_sample_template, frontend_text, backend_text}

-- The first loop of `Build`.
unfoldable pub declare_all : List Service → EndpointsMap → EndpointsMap
unfolding declare
declare_all [] em = em
declare_all (svc ∷ svcs) em = declare_all svcs (declare svc em)

unfoldable pub binds_of : List ServicePort → List Bind
binds_of [] = []
binds_of (p ∷ ports) = record { ip = codes "0.0.0.0"; port = p.port } ∷ binds_of ports

-- `append(servers, haproxy.Server{...})`
unfoldable pub add_server : Str → Str → ℕ → List Server → List Server
unfolding itoa
add_server svc_name ip port servers =
    servers ++ record { name = svc_name ++ b'-' ∷ itoa (length servers); ip = ip; port = port } ∷ []

-- The four loops, from the innermost.
unfoldable pub port_servers : Str → Str → List EndpointPort → List Server → List Server
unfolding add_server
port_servers svc_name ip [] servers = servers
port_servers svc_name ip (p ∷ ports) servers =
    port_servers svc_name ip ports (add_server svc_name ip p.port servers)

unfoldable pub address_servers : Str → List Str → List EndpointPort → List Server → List Server
unfolding port_servers
address_servers svc_name [] ports servers = servers
address_servers svc_name (ip ∷ addresses) ports servers =
    address_servers svc_name addresses ports (port_servers svc_name ip ports servers)

unfoldable pub subset_servers : Str → List Subset → List Server → List Server
unfolding address_servers
subset_servers svc_name [] servers = servers
subset_servers svc_name (subset ∷ subsets) servers =
    subset_servers svc_name subsets (address_servers svc_name subset.addresses subset.ports servers)

unfoldable pub endpoints_servers : Str → List Endpoints → List Server → List Server
unfolding subset_servers
endpoints_servers svc_name [] servers = servers
endpoints_servers svc_name (edpt ∷ edpts) servers =
    endpoints_servers svc_name edpts (subset_servers svc_name edpt.subsets servers)

abbrev section : Service → List Endpoints → Str
section svc [] = []
section svc (edpt ∷ edpts) =
    frontend_text (record {
      name = svc.name;
      binds = binds_of svc.ports;
      mode = [];
      default_backend = svc.name;
    })
    ++ backend_text (record {
      name = svc.name;
      servers = endpoints_servers svc.name (edpt ∷ edpts) [];
      mode = [];
    })

-- The last loop of `Build`.
unfoldable pub sections : EndpointsMap → List Service → Str
unfolding frontend_text backend_text binds_of endpoints_servers lookup
sections em [] = []
sections em (svc ∷ svcs) =
    section svc (or_empty (lookup svc.name (or_empty (lookup svc.namespace em))))
    ++ sections em svcs

unfoldable pub build : List Service → List Endpoints → Str
unfolding sections declare_all place_all get_sample_template
build lb_svcs endpoints =
    get_sample_template ++ sections (place_all endpoints (declare_all lb_svcs [])) lb_svcs
