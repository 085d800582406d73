-- ===== src/Ipset/Interface.antt =====
-- utils/ipset/ipset.go, `Interface`, over a state `S` of the system. The Boolean says that the error
-- is nil; `none` is an error. `create_set` fills in the defaults of the set that it is given.
use kube_bazellb.Prelude.{Bool, Option, List, Str}
use kube_bazellb.Ipset.{IpSet, IpSetEntry}

pub record Interface (S : Type 0) : Type 0 where
  pub flush_set : Str → S → S × Bool
  pub destroy_set : Str → S → S × Bool
  pub destroy_all_sets : S → S × Bool
  pub create_set : IpSet → Bool → S → S × (IpSet × Bool)
  pub add_entry : Str → IpSet → Bool → S → S × Bool
  pub del_entry : Str → Str → S → S × Bool
  pub test_entry : Str → Str → S → S × Option Bool
  pub list_entries : Str → S → S × Option (List Str)
  pub list_sets : S → S × Option (List Str)
  pub get_version : S → S × Option Str
  pub add_entry_with_options : IpSetEntry → IpSet → Bool → S → S × Bool
  pub del_entry_with_options : Str → Str → List Str → S → S × Bool
  pub save_all_sets : S → S × Option Str
