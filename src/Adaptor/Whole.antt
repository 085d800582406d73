-- ===== src/Adaptor/Whole.antt =====
-- lvs/adaptor: `Build` as a whole, when IPVS, ipset, iptables and sysctl are parts of the system that do
-- not touch one another.
use kube_bazellb.Prelude.{true, List, Str, nat_eq, string_eq, ◌≡◌}
use kube_bazellb.Net.{Net}
use kube_bazellb.Lvs.Interface.{Interface}
use kube_bazellb.Lvs.Spec.{Key, View, Lawful}
use kube_bazellb.Ipset.Interface.{Interface as Sets}
use kube_bazellb.Ipset.Spec.{View as SetsView, Lawful as SetsLawful, Becomes}
use kube_bazellb.Iptables.Interface.{Interface as Tables}
use kube_bazellb.Sysctl.{Disk}
use kube_bazellb.Adaptor.Rules.{ipset_name}
use kube_bazellb.Adaptor.Frame.{LvsKeeps, SetsKeep}

-- A valid state with the virtual servers of another one.
abbrev pub HasTable : {net : Net} {S : Type 0} → View net S → S → S → Type 0
HasTable view s0 s = view.Valid s × ((k : Key) → view.present s k ≡ view.present s0 k)

-- A valid state with the sets of another one.
abbrev pub HasSets : {S : Type 0} → SetsView S → S → S → Type 0
HasSets view s0 s = view.Valid s × ((n e : Str) → view.member s n e ≡ view.member s0 n e)

-- The calls on one part of the system leave the other parts alone.
pub record Apart {net : Net} {S : Type 0} (lvs : Interface net S) (sets : Sets S)
    (tables : Tables S) (disk : Disk S) (view : View net S) (sets_view : SetsView S) : Type 0 where
  pub lvs_sets : (s0 : S) → LvsKeeps lvs (HasSets sets_view s0)
  pub sets_table : (s0 : S) → SetsKeep sets (HasTable view s0)
  pub rules_table :
      (s0 : S) (position table chain : Str) (args : List Str) (s : S)
      → HasTable view s0 s
      → HasTable view s0 (tables.ensure_rule position table chain args s).0
  pub rules_sets :
      (position table chain : Str) (args : List Str) (s : S)
      → sets_view.Valid s
      → sets_view.created s ipset_name ≡ true
      → Becomes sets_view s ipset_name
          (λ e. sets_view.member s ipset_name e)
          (tables.ensure_rule position table chain args s).0
          true
  pub writes_table :
      (s0 : S) (path text : Str) (s : S)
      → HasTable view s0 s
      → HasTable view s0 (disk.write_file path text s).0
  pub writes_sets :
      (s0 : S) (path text : Str) (s : S)
      → HasSets sets_view s0 s
      → HasSets sets_view s0 (disk.write_file path text s).0
