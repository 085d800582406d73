-- ===== src/Examples/Settings.antt =====
-- utils/sysctl over one setting that can only be switched on.
use kube_bazellb.Prelude.{Bool, true, false, some, codes, str_eq, if◌then◌else◌, ℤ, pos, ◌≡◌, refl}
use kube_bazellb.Sysctl.{Disk, ensure_sysctl}
use kube_bazellb.Sysctl.Laws.{line_of}

abbrev setting : Bool → ℤ
setting true = pos 1
setting false = pos 0

abbrev switch : Disk Bool
switch = record {
  read_file = λ path on. some (line_of (setting on));
  write_file = λ path text on. if str_eq text (codes "1") then (true, true) else (on, false);
}

switch_test : ensure_sysctl switch (codes "net/ipv4/vs/conntrack") (pos 1) false ≡ (true, true)
unfolding ensure_sysctl str_eq
switch_test = refl
