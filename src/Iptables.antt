-- ===== src/Iptables.antt =====
-- utils/iptables/iptables.go: its types and constants. Positions, tables, chains and operations are
-- strings.
pub mod Interface
pub mod Gates
pub mod Check
pub mod Runner
pub mod Answers
pub mod Signals
pub mod Save
pub mod Spec
pub mod Promise
pub mod Versions
pub mod Printed
pub mod Fake
use kube_bazellb.Prelude.{ℕ, Bool, true, false, List, [], Str, codes, Option, if◌then◌else◌}

-- The error of a command: the process exited with a status other than 0, or another error.
pub data ExecError : Type 0 where
  exited : ℕ → ExecError
  other_error : ExecError

-- What the operation was about when it failed; the text of the error is printed from this.
pub data IptablesError : Type 0 where
  creating_chain flushing_chain deleting_chain : Str → ExecError → Str → IptablesError
  appending_rule deleting_rule listing_rule checking_rule : ExecError → Str → IptablesError
  saving : ExecError → IptablesError
  failed_command : ExecError → Str → IptablesError
  no_lock : IptablesError
  no_version : Str → IptablesError

pub data Protocol : Type 0 where
  protocol_ipv4 protocol_ipv6 : Protocol

-- A command with its arguments and, if it is set, its standard input. The output holds both streams.
pub record Executor (S : Type 0) : Type 0 where
  pub combined_output : Str → List Str → Option Str → S → S × (Str × Option ExecError)

abbrev pub prepend : Str
prepend = codes "-I"

abbrev pub append_position : Str
append_position = codes "-A"

abbrev pub table_nat : Str
table_nat = codes "nat"

abbrev pub op_create_chain : Str
op_create_chain = codes "-N"

abbrev pub op_flush_chain : Str
op_flush_chain = codes "-F"

abbrev pub op_delete_chain : Str
op_delete_chain = codes "-X"

abbrev pub op_check_rule : Str
op_check_rule = codes "-C"

abbrev pub op_delete_rule : Str
op_delete_rule = codes "-D"

abbrev pub op_list_rule : Str
op_list_rule = codes "-S"

abbrev pub min_check_version : Str
min_check_version = codes "1.4.11"

abbrev pub wait_min_version : Str
wait_min_version = codes "1.4.20"

abbrev pub wait_seconds_min_version : Str
wait_seconds_min_version = codes "1.4.22"

abbrev pub wait_string : Str
wait_string = codes "-w"

abbrev pub wait_seconds_string : Str
wait_seconds_string = codes "-w5"

abbrev pub lockfile_path_16x : Str
lockfile_path_16x = codes "/run/xtables.lock"

abbrev pub iptables_command : Protocol → Str
iptables_command protocol_ipv6 = codes "ip6tables"
iptables_command protocol_ipv4 = codes "iptables"

abbrev pub iptables_save_command : Protocol → Str
iptables_save_command protocol_ipv6 = codes "ip6tables-save"
iptables_save_command protocol_ipv4 = codes "iptables-save"

abbrev pub iptables_restore_command : Protocol → Str
iptables_restore_command protocol_ipv6 = codes "ip6tables-restore"
iptables_restore_command protocol_ipv4 = codes "iptables-restore"

abbrev pub is_ipv6 : Protocol → Bool
is_ipv6 protocol_ipv6 = true
is_ipv6 protocol_ipv4 = false
