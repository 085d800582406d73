-- ===== src/Sysctl/Laws.antt =====
-- What a setting is after `EnsureSysctl`.
use kube_bazellb.Prelude.{◌-◌, ◌^◌, ◌≤◌, true, false, some, [], ◌∷◌, ◌++◌, Str, ℤ, pos, negsuc, ◌≡◌}
use kube_bazellb.Ipset.{itoa_int}
use kube_bazellb.Sysctl.{Disk, sysctl_path}

-- It fits an int of 64 bits.
abbrev pub IsInt : ℤ → Type 0
IsInt (pos n) = n ≤ 2 ^ 63 - 1
IsInt (negsuc n) = n ≤ 2 ^ 63 - 1

-- A print of a number with the line feed that the kernel puts behind it.
abbrev pub line_of : ℤ → Str
line_of v = itoa_int v ++ 10 ∷ []

-- The settings of the kernel: each reads as a line with its value, and a write of a number that succeeds
-- sets it alone.
pub record Lawful {S : Type 0} (disk : Disk S) (value : S → Str → ℤ) : Type 0 where
  pub fits : (s : S) (sysctl : Str) → IsInt (value s sysctl)
  pub read_law :
      (sysctl : Str) (s : S)
      → disk.read_file (sysctl_path sysctl) s ≡ some (line_of (value s sysctl))
  pub write_done :
      (sysctl : Str) (v : ℤ) (s : S)
      → (disk.write_file (sysctl_path sysctl) (itoa_int v) s).1 ≡ true
      → value (disk.write_file (sysctl_path sysctl) (itoa_int v) s).0 sysctl ≡ v
  pub write_failed :
      (sysctl : Str) (v : ℤ) (s : S)
      → (disk.write_file (sysctl_path sysctl) (itoa_int v) s).1 ≡ false
      → value (disk.write_file (sysctl_path sysctl) (itoa_int v) s).0 sysctl ≡ value s sysctl
