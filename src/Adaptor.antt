-- ===== src/Adaptor.antt =====
-- lvs/adaptor/adaptor.go: `LVSAdaptor.Build`, which makes the IPVS table match the services and
-- endpoints of the cluster. Go ranges over a map in any order: `Orders` gives the order.
pub mod Maps
pub mod Expect
pub mod Sync
pub mod Texts
pub mod Added
pub mod Reals
pub mod Expected
pub mod Services
pub mod Loop
pub mod Created
pub mod Converge
pub mod Frame
pub mod Whole
pub mod Build
pub mod Rules
pub mod Entries
pub mod Marked
pub mod PortTexts
use kube_bazellb.Prelude.{ℕ, List, Str}
use kube_bazellb.Prelude.Assoc.{Map}
use kube_bazellb.Kube.{Service}
use kube_bazellb.Net.{Net}
use kube_bazellb.Lvs.{RealServer}

pub record Orders (net : Net) : Type 0 where
  pub ports : Map ℕ (List Service) → List (ℕ × List Service)
  pub reals : Map Str (RealServer net) → List (Str × RealServer net)
