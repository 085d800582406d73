-- ===== src/Adaptor/Build.antt =====
-- lvs/adaptor/adaptor.go, `Build` as a whole. The maps that it makes have no port twice.
use kube_bazellb.Prelude.{Bool, true, false, List, [], ◌∷◌, ℕ, nat_eq, ◌++◌, codes, pos}
use kube_bazellb.Prelude.Assoc.{lookup, insert}
use kube_bazellb.Prelude.Members.{insert-Distinct}
use kube_bazellb.Kube.{Service, ServicePort, Endpoints}
use kube_bazellb.Net.{Net}
use kube_bazellb.Lvs.Interface.{Interface}
use kube_bazellb.Ipset.Interface.{Interface as Sets}
use kube_bazellb.Iptables.Interface.{Interface as Tables}
use kube_bazellb.Sysctl.{Disk, ensure_sysctl}
use kube_bazellb.Adaptor.{Orders}
use kube_bazellb.Adaptor.Maps.{
  PortMap, EndpointsMap, or_empty, protocol_index, port_map_at, set_port_map, declare, add_port,
  add_ports, register, place_all,
}
use kube_bazellb.Adaptor.Rules.{build_iptables}
use kube_bazellb.Adaptor.Sync.{sync}
use kube_bazellb.Adaptor.Services.{IsPortMap}

abbrev pub no_ports : PortMap
no_ports = record { at0 = []; at1 = [] }

module _ {S : Type 0} (disk : Disk S) where
  -- A failure is only logged.
  unfoldable pub check_sysctl : S → S
  unfolding ensure_sysctl
  check_sysctl s = (ensure_sysctl disk (codes "net/ipv4/vs/conntrack") (pos 1) s).0

-- The maps that the first two loops make.
abbrev pub ports_of : List Service → PortMap
ports_of services = (register services ([], no_ports)).1

abbrev pub endpoints_of : List Service → List Endpoints → EndpointsMap
endpoints_of services endpoints = place_all endpoints (register services ([], no_ports)).0

module _ {net : Net} {S : Type 0} (lvs : Interface net S) (sets : Sets S) (tables : Tables S)
    (disk : Disk S) (orders : Orders net) (virtual_server_address : net.IP) where
  unfoldable pub build : List Service → List Endpoints → S → S
  unfolding check_sysctl register place_all build_iptables sync
  build services endpoints s =
      let pm = ports_of services in
      sync lvs orders virtual_server_address (endpoints_of services endpoints) pm
        (build_iptables sets tables (net.show virtual_server_address) pm (check_sysctl disk s))

-- The index of the protocol does not matter.
put_port-IsPortMap :
    (index : Bool) (port : ℕ) (svcs : List Service) (pm : PortMap)
    → IsPortMap pm
    → IsPortMap (set_port_map index (insert port svcs (port_map_at index pm)) pm)
put_port-IsPortMap true port svcs pm d = (d.0, insert-Distinct port svcs pm.at1 d.1)
put_port-IsPortMap false port svcs pm d = (insert-Distinct port svcs pm.at0 d.0, d.1)

add_ports-IsPortMap :
    (svc : Service) (ps : List ServicePort) (pm : PortMap)
    → IsPortMap pm
    → IsPortMap (add_ports svc ps pm)
unfolding add_ports add_port
add_ports-IsPortMap svc [] pm d = d
add_ports-IsPortMap svc (p ∷ ps) pm d =
    let index = protocol_index p.protocol in
    add_ports-IsPortMap svc ps (add_port svc p pm) (
      put_port-IsPortMap index p.port (or_empty (lookup p.port (port_map_at index pm)) ++ svc ∷ [])
        pm d)

-- The ports that `register` makes of any services.
pub register-IsPortMap :
    (svcs : List Service) (em : EndpointsMap) (pm : PortMap)
    → IsPortMap pm
    → IsPortMap (register svcs (em, pm)).1
unfolding register
register-IsPortMap [] em pm d = d
register-IsPortMap (svc ∷ svcs) em pm d =
    register-IsPortMap svcs (declare svc em) (add_ports svc svc.ports pm)
      (add_ports-IsPortMap svc svc.ports pm d)
