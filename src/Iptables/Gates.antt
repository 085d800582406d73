-- ===== src/Iptables/Gates.antt =====
-- utils/iptables/iptables.go: which flags a version of iptables has, and how the version is read.
use kube_bazellb.Prelude.{
  Bool, true, ◌&&◌, Option, none, some, List, [], ◌∷◌, Str, codes, nat_beq, if◌then◌else◌, nat_eq,
  ◌≡◌, refl,
}
use kube_bazellb.Prelude.Members.{has}
use kube_bazellb.Prelude.Result.{Result, ok, err}
use kube_bazellb.Text.{is_digit}
use kube_bazellb.Version.{Version, at_least, less_than}
use kube_bazellb.Version.Parse.{parse_generic, parse, starts_with, take_runs}
use kube_bazellb.Iptables.{
  ExecError, IptablesError, failed_command, no_version, Protocol, Executor, iptables_command,
  iptables_restore_command, min_check_version, wait_min_version, wait_seconds_min_version,
  wait_string, wait_seconds_string,
}

unfoldable pub get_iptables_has_check_command : Str → Bool
unfolding at_least parse
get_iptables_has_check_command vstring = elim (parse_generic min_check_version) [
  | err e ↦ true
  | ok min_version ↦ elim (parse_generic vstring) [
    | err e ↦ true
    | ok version ↦ at_least version min_version
  ]
]

abbrev wait_seconds_flag : Version → List Str
wait_seconds_flag version = elim (parse_generic wait_seconds_min_version) [
  | err e ↦ []
  | ok min_version ↦
      if less_than version min_version then wait_string ∷ [] else wait_seconds_string ∷ []
]

unfoldable pub get_iptables_wait_flag : Str → List Str
unfolding less_than parse
get_iptables_wait_flag vstring = elim (parse_generic vstring) [
  | err e ↦ []
  | ok version ↦ elim (parse_generic wait_min_version) [
    | err e ↦ []
    | ok min_version ↦ if less_than version min_version then [] else wait_seconds_flag version
  ]
]

-- The group of `v([0-9]+(\.[0-9]+)+)` in its leftmost match. The repetitions are greedy, and a dot is
-- taken only in front of a digit, so there is a match behind a `v` when what they take has a dot.
unfoldable pub find_version_string : Str → Option Str
unfolding is_digit take_runs
find_version_string [] = none
find_version_string (c ∷ s) =
    let rest = find_version_string s in
    let taken = (take_runs is_digit s).0 in
    if nat_beq c b'v' && starts_with is_digit s && has b'.' taken then some taken else rest

abbrev pub read_version : Str × Option ExecError → Result IptablesError Str
read_version (out, some e) = err (failed_command e out)
read_version (out, none) = elim (find_version_string out) [
  | none ↦ err (no_version out)
  | some v ↦ ok v
]

abbrev restore_wait_flag : Result IptablesError Str → List Str
restore_wait_flag (err e) = []
restore_wait_flag (ok []) = []
restore_wait_flag (ok (c ∷ s)) = elim (parse_generic (c ∷ s)) [
  | err e ↦ []
  | ok v ↦ wait_seconds_string ∷ []
]

module _ {S : Type 0} (exec : Executor S) where
  unfoldable pub get_iptables_version_string : Protocol → S → S × Result IptablesError Str
  unfolding find_version_string
  get_iptables_version_string protocol s =
      let (s', result) =
        exec.combined_output (iptables_command protocol) (codes "--version" ∷ []) none s in
      (s', read_version result)

  unfoldable pub get_iptables_restore_version_string : Protocol → S → S × Result IptablesError Str
  unfolding find_version_string
  get_iptables_restore_version_string protocol s =
      let (s', result) =
        exec.combined_output (iptables_restore_command protocol) (codes "--version" ∷ []) (some [])
          s in
      (s', read_version result)

  unfoldable pub get_iptables_restore_wait_flag : Protocol → S → S × List Str
  unfolding get_iptables_restore_version_string parse
  get_iptables_restore_wait_flag protocol s =
      let (s', vstring) = get_iptables_restore_version_string protocol s in
      (s', restore_wait_flag vstring)

find_version_string_test :
    find_version_string (codes "iptables v1.6.0 (legacy)") ≡ some (codes "1.6.0")
unfolding find_version_string
find_version_string_test = refl
