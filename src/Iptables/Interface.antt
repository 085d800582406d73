-- ===== src/Iptables/Interface.antt =====
-- utils/iptables/iptables.go, `Interface`, over a state `S` of the system. `SaveInto` answers with the
-- whole buffer.
use kube_bazellb.Prelude.{Bool, List, Str}
use kube_bazellb.Prelude.Result.{Result}
use kube_bazellb.Iptables.{IptablesError}

pub record Interface (S : Type 0) : Type 0 where
  pub get_version : S → S × Result IptablesError Str
  pub ensure_chain : Str → Str → S → S × Result IptablesError Bool
  pub flush_chain : Str → Str → S → S × Result IptablesError Unit
  pub delete_chain : Str → Str → S → S × Result IptablesError Unit
  pub ensure_rule : Str → Str → Str → List Str → S → S × Result IptablesError Bool
  pub delete_rule : Str → Str → List Str → S → S × Result IptablesError Unit
  pub list_rule : Str → Str → List Str → S → S × Result IptablesError (List Str)
  pub is_ipv6 : Bool
  pub save_into : Str → Str → S → S × (Str × Result IptablesError Unit)
  pub ensure_policy : Str → Str → Str → S → S × Result IptablesError Unit
  pub restore : Str → Str → Bool → Bool → S → S × Result IptablesError Unit
  pub restore_all : Str → Bool → Bool → S → S × Result IptablesError Unit
