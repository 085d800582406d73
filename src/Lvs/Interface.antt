-- ===== src/Lvs/Interface.antt =====
-- `lvs.Interface`: the operations that the rest of the program calls, over a state `S` of the system.
-- Pointers are taken not to be nil here. The Boolean beside a state says that the error is nil;
-- `none` is an error.
use kube_bazellb.Prelude.{Bool, Option, List}
use kube_bazellb.Net.{Net}
use kube_bazellb.Lvs.{VirtualServer, RealServer}

pub record Interface (net : Net) (S : Type 0) : Type 0 where
  pub flush : S → S × Bool
  pub add_virtual_server : VirtualServer net → S → S × Bool
  pub update_virtual_server : VirtualServer net → S → S × Bool
  pub delete_virtual_server : VirtualServer net → S → S × Bool
  pub get_virtual_server : VirtualServer net → S → Option (VirtualServer net)
  pub get_virtual_servers : S → Option (List (VirtualServer net))
  pub add_real_server : VirtualServer net → RealServer net → S → S × Bool
  pub get_real_servers : VirtualServer net → S → Option (List (RealServer net))
  pub delete_real_server : VirtualServer net → RealServer net → S → S × Bool
