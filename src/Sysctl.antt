-- ===== src/Sysctl.antt =====
-- utils/sysctl/sysctl.go, over a file system.
pub mod Laws
use kube_bazellb.Prelude.{
  ℕ, Bool, true, false, ◌||◌, Option, none, some, List, [], ◌∷◌, ◌++◌, Str, codes, nat_beq,
  if◌then◌else◌, ℤ, pos, negsuc,
}
use kube_bazellb.Text.Trim.{trim}
use kube_bazellb.Ipset.{atoi, itoa_int}

-- Reading answers with the content, or nothing on an error; writing, with whether there was none.
pub record Disk (S : Type 0) : Type 0 where
  pub read_file : Str → S → Option Str
  pub write_file : Str → Str → S → S × Bool

abbrev pub sysctl_base : Str
sysctl_base = codes "/proc/sys"

-- `path.Join(sysctlBase, sysctl)` of a clean name.
abbrev pub sysctl_path : Str → Str
sysctl_path sysctl = sysctl_base ++ b'/' ∷ sysctl

-- The bytes that `strings.Trim(s, " \n")` cuts.
abbrev pub is_cut : ℕ → Bool
is_cut c = nat_beq c b' ' || nat_beq c 10

abbrev pub same_int : ℤ → ℤ → Bool
same_int (pos m) (pos n) = nat_beq m n
same_int (negsuc m) (negsuc n) = nat_beq m n
same_int (pos m) (negsuc n) = false
same_int (negsuc m) (pos n) = false

abbrev read_value : Option Str → Option ℤ
read_value none = none
read_value (some text) = atoi (trim is_cut text)

module _ {S : Type 0} (disk : Disk S) where
  unfoldable pub get_sysctl : Str → S → Option ℤ
  unfolding atoi trim
  get_sysctl sysctl s = read_value (disk.read_file (sysctl_path sysctl) s)

  unfoldable pub set_sysctl : Str → ℤ → S → S × Bool
  unfolding itoa_int
  set_sysctl sysctl new_val = disk.write_file (sysctl_path sysctl) (itoa_int new_val)

  unfoldable pub ensure_sysctl : Str → ℤ → S → S × Bool
  unfolding get_sysctl set_sysctl
  ensure_sysctl sysctl new_val s = elim (get_sysctl sysctl s) [
    | none ↦ (s, false)
    | some old_val ↦ if same_int old_val new_val then (s, true) else set_sysctl sysctl new_val s
  ]
