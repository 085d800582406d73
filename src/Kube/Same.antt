-- ===== src/Kube/Same.antt =====
-- `reflect.DeepEqual` on services, field by field. A nil list of ports and an empty one are one list
-- here.
use kube_bazellb.Prelude.{
  Bool, true, false, ◌&&◌, List, [], ◌∷◌, nat_beq, nat_beq_iff, str_eq, str_eq_iff, texts_beq,
  texts_beq_iff, ◌≡◌, ◌↔◌, arith,
}
use kube_bazellb.Kube.{
  Protocol, tcp, udp, other_protocol, ServiceType, cluster_ip, node_port, load_balancer,
  external_name, ServicePort, Service,
}

abbrev pub same_protocol : Protocol → Protocol → Bool
same_protocol tcp tcp = true
same_protocol udp udp = true
same_protocol other_protocol other_protocol = true
same_protocol _ _ = false

abbrev pub same_type : ServiceType → ServiceType → Bool
same_type cluster_ip cluster_ip = true
same_type node_port node_port = true
same_type load_balancer load_balancer = true
same_type external_name external_name = true
same_type _ _ = false

abbrev same_port : ServicePort → ServicePort → Bool
same_port p q = str_eq p.name q.name && same_protocol p.protocol q.protocol && nat_beq p.port q.port

unfoldable pub same_ports : List ServicePort → List ServicePort → Bool
unfolding str_eq
same_ports [] [] = true
same_ports [] (q ∷ qs) = false
same_ports (p ∷ ps) [] = false
same_ports (p ∷ ps) (q ∷ qs) = same_port p q && same_ports ps qs

unfoldable pub deep_equal : Service → Service → Bool
unfolding same_ports str_eq texts_beq
deep_equal a b =
    str_eq a.namespace b.namespace
    && str_eq a.name b.name
    && str_eq a.resource_version b.resource_version
    && same_type a.service_type b.service_type
    && same_ports a.ports b.ports
    && texts_beq a.ingress b.ingress
    && str_eq a.rest b.rest

same_protocol_iff : (p q : Protocol) → (same_protocol p q ≡ true) ↔ (p ≡ q)
same_protocol_iff p q = ground arith

same_type_iff : (p q : ServiceType) → (same_type p q ≡ true) ↔ (p ≡ q)
same_type_iff p q = ground arith

same_port_iff : (p q : ServicePort) → (same_port p q ≡ true) ↔ (p ≡ q)
same_port_iff p q = ground (
  arith,
  str_eq_iff p.name q.name,
  same_protocol_iff p.protocol q.protocol,
  nat_beq_iff p.port q.port,
)

same_ports_iff : (ps qs : List ServicePort) → (same_ports ps qs ≡ true) ↔ (ps ≡ qs)
unfolding same_ports
same_ports_iff [] [] = ground arith
same_ports_iff [] (q ∷ qs) = ground arith
same_ports_iff (p ∷ ps) [] = ground arith
same_ports_iff (p ∷ ps) (q ∷ qs) = ground (arith, same_port_iff p q, same_ports_iff ps qs)

pub deep_equal_iff : (a b : Service) → (deep_equal a b ≡ true) ↔ (a ≡ b)
unfolding deep_equal
deep_equal_iff a b = ground (
  arith,
  str_eq_iff a.namespace b.namespace,
  str_eq_iff a.name b.name,
  str_eq_iff a.resource_version b.resource_version,
  same_type_iff a.service_type b.service_type,
  same_ports_iff a.ports b.ports,
  texts_beq_iff a.ingress b.ingress,
  str_eq_iff a.rest b.rest,
)
