-- ===== src/Kube.antt =====
-- The fields of the Kubernetes objects (k8s.io/api/core/v1) that the program reads or writes.
pub mod Same
use kube_bazellb.Prelude.{ℕ, List, Str}

pub data Protocol : Type 0 where
  tcp udp other_protocol : Protocol

pub data ServiceType : Type 0 where
  cluster_ip node_port load_balancer external_name : ServiceType

pub record ServicePort : Type 0 where
  pub name : Str
  pub protocol : Protocol
  pub port : ℕ

-- `rest` stands for all other fields of the object.
pub record Service : Type 0 where
  pub namespace : Str
  pub name : Str
  pub resource_version : Str
  pub service_type : ServiceType
  pub ports : List ServicePort
  pub ingress : List Str
  pub rest : Str

pub record EndpointPort : Type 0 where
  pub name : Str
  pub port : ℕ

pub record Subset : Type 0 where
  pub addresses : List Str
  pub ports : List EndpointPort

pub record Endpoints : Type 0 where
  pub namespace : Str
  pub name : Str
  pub subsets : List Subset
