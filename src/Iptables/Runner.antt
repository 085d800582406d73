-- ===== src/Iptables/Runner.antt =====
-- utils/iptables/iptables.go, `runner`: the iptables command line over an executor. The mutex makes each
-- operation one step. `Locks` stands for the file and socket locks of iptables_linux.go.
use kube_bazellb.Prelude.{
  ℕ, Bool, true, false, Option, none, some, List, [], ◌∷◌, ◌++◌, Str, codes, str_eq, if◌then◌else◌,
}
use kube_bazellb.Prelude.Result.{Result, ok, err}
use kube_bazellb.Text.{split}
use kube_bazellb.Iptables.{
  ExecError, IptablesError, flushing_chain, deleting_chain, deleting_rule, saving, failed_command,
  no_lock, Protocol, Executor, op_create_chain, op_flush_chain, op_delete_chain, op_check_rule,
  op_delete_rule, op_list_rule, iptables_command, iptables_save_command, iptables_restore_command,
  is_ipv6, lockfile_path_16x,
}
use kube_bazellb.Iptables.Interface.{Interface}
use kube_bazellb.Iptables.Gates.{
  get_iptables_has_check_command, get_iptables_wait_flag, get_iptables_version_string,
  get_iptables_restore_wait_flag,
}
use kube_bazellb.Iptables.Check.{unpack_args, lines_have_rule}
use kube_bazellb.Iptables.Answers.{
  done_or, created, checked, appended, saved_rule, listed, or_min_version, restore_flags,
}

pub record Runner : Type 0 where
  pub protocol : Protocol
  pub has_check : Bool
  pub wait_flag : List Str
  pub restore_wait_flag : List Str
  pub lockfile_path : Str

-- Taking the locks answers with a handle, or nothing on an error; a failure to close is only logged.
pub record Locks (S : Type 0) : Type 0 where
  pub grab : Str → S → S × Option ℕ
  pub close : ℕ → S → S

unfoldable pub make_full_args : Str → Str → List Str → List Str
make_full_args table chain args = chain ∷ codes "-t" ∷ table ∷ args

module _ {S : Type 0} (exec : Executor S) where
  unfoldable pub run : Runner → Str → List Str → S → S × (Str × Option ExecError)
  run r op args = exec.combined_output (iptables_command r.protocol) (r.wait_flag ++ op ∷ args) none

  unfoldable pub ensure_chain : Runner → Str → Str → S → S × Result IptablesError Bool
  unfolding run make_full_args
  ensure_chain r table chain s =
      let (s', result) = run r op_create_chain (make_full_args table chain []) s in
      (s', created chain result)

  unfoldable pub flush_chain : Runner → Str → Str → S → S × Result IptablesError Unit
  unfolding run make_full_args
  flush_chain r table chain s =
      let (s', result) = run r op_flush_chain (make_full_args table chain []) s in
      (s', done_or (flushing_chain chain) result)

  unfoldable pub delete_chain : Runner → Str → Str → S → S × Result IptablesError Unit
  unfolding run make_full_args
  delete_chain r table chain s =
      let (s', result) = run r op_delete_chain (make_full_args table chain []) s in
      (s', done_or (deleting_chain chain) result)

  unfoldable pub check_rule_without_check :
      Runner → Str → Str → List Str → S → S × Result IptablesError Bool
  unfolding split unpack_args lines_have_rule
  check_rule_without_check r table chain args s =
      let (s', result) =
        exec.combined_output (iptables_save_command r.protocol) (codes "-t" ∷ table ∷ []) none s in
      (s', saved_rule chain args result)

  unfoldable pub check_rule_using_check : Runner → List Str → S → S × Result IptablesError Bool
  unfolding run
  check_rule_using_check r args s =
      let (s', result) = run r op_check_rule args s in (s', checked result)

  unfoldable pub check_rule : Runner → Str → Str → List Str → S → S × Result IptablesError Bool
  unfolding check_rule_using_check check_rule_without_check make_full_args
  check_rule r table chain args =
      if r.has_check
      then check_rule_using_check r (make_full_args table chain args)
      else check_rule_without_check r table chain args

  unfoldable pub append_rule :
      Runner → Str → Str → Str → List Str → S → S × Result IptablesError Bool
  unfolding run make_full_args
  append_rule r position table chain args s =
      let (s', result) = run r position (make_full_args table chain args) s in (s', appended result)

  unfoldable pub ensure_rule :
      Runner → Str → Str → Str → List Str → S → S × Result IptablesError Bool
  unfolding check_rule append_rule
  ensure_rule r position table chain args s =
      let (s', exists) = check_rule r table chain args s in
      elim exists [
        | err e ↦ (s', err e)
        | ok true ↦ (s', ok true)
        | ok false ↦ append_rule r position table chain args s'
      ]

  unfoldable pub delete_rule : Runner → Str → Str → List Str → S → S × Result IptablesError Unit
  unfolding check_rule run make_full_args
  delete_rule r table chain args s =
      let (s', exists) = check_rule r table chain args s in
      elim exists [
        | err e ↦ (s', err e)
        | ok false ↦ (s', ok tt)
        | ok true ↦
            let (s'', result) = run r op_delete_rule (make_full_args table chain args) s' in
            (s'', done_or deleting_rule result)
      ]

  unfoldable pub list_rule : Runner → Str → Str → List Str → S → S × Result IptablesError (List Str)
  unfolding split run make_full_args
  list_rule r table chain args s =
      let (s', result) = run r op_list_rule (make_full_args table chain args) s in
      (s', listed result)

  -- Both streams of the command go to the end of the buffer.
  unfoldable pub save_into : Runner → Str → Str → S → S × (Str × Result IptablesError Unit)
  save_into r table buffer s =
      let (s', (out, e)) =
        exec.combined_output (iptables_save_command r.protocol) (codes "-t" ∷ table ∷ []) none s in
      (s', (buffer ++ out, elim e [ none ↦ ok tt | some error ↦ err (saving error) ]))

  unfoldable pub ensure_policy : Runner → Str → Str → Str → S → S × Result IptablesError Unit
  ensure_policy r table chain policy s =
      let (s', result) =
        exec.combined_output (iptables_command r.protocol)
          (codes "-t" ∷ table ∷ codes "-P" ∷ chain ∷ policy ∷ []) none s in
      (s', done_or failed_command result)

  abbrev restore_command : Runner → List Str → Str → S → S × Result IptablesError Unit
  restore_command r args data_in s =
      let (s', result) =
        exec.combined_output (iptables_restore_command r.protocol) (r.restore_wait_flag ++ args)
          (some data_in) s in
      (s', done_or failed_command result)

  abbrev locked :
      Locks S → (S → S × Result IptablesError Unit) → S × Option ℕ → S × Result IptablesError Unit
  locked locks command (s, none) = (s, err no_lock)
  locked locks command (s, some locker) =
      let (s', result) = command s in (locks.close locker s', result)

  unfoldable pub restore_internal :
      Locks S → Runner → List Str → Str → Bool → Bool → S → S × Result IptablesError Unit
  restore_internal locks r args data_in flush counters s =
      let command = restore_command r (args ++ restore_flags flush counters) data_in in
      elim r.restore_wait_flag [
        | [] ↦ locked locks command (locks.grab r.lockfile_path s)
        | flag ∷ flags ↦ command s
      ]

  unfoldable pub restore :
      Locks S → Runner → Str → Str → Bool → Bool → S → S × Result IptablesError Unit
  unfolding restore_internal
  restore locks r table data_in flush counters =
      restore_internal locks r (codes "-T" ∷ table ∷ []) data_in flush counters

  unfoldable pub restore_all :
      Locks S → Runner → Str → Bool → Bool → S → S × Result IptablesError Unit
  unfolding restore_internal
  restore_all locks r data_in flush counters = restore_internal locks r [] data_in flush counters

  -- Up to the call of `connectToFirewallD`.
  unfoldable pub new_internal : Protocol → Str → S → S × Runner
  unfolding get_iptables_version_string get_iptables_restore_wait_flag
      get_iptables_has_check_command get_iptables_wait_flag
  new_internal protocol lockfile_path s =
      let (s', found) = get_iptables_version_string exec protocol s in
      let (s'', restore_wait_flag) = get_iptables_restore_wait_flag exec protocol s' in
      (
        s'',
        record {
          protocol = protocol;
          has_check = get_iptables_has_check_command (or_min_version found);
          wait_flag = get_iptables_wait_flag (or_min_version found);
          restore_wait_flag = restore_wait_flag;
          lockfile_path = if str_eq lockfile_path [] then lockfile_path_16x else lockfile_path;
        },
      )

  unfoldable pub runner : Locks S → Runner → Interface S
  runner locks r = record {
    get_version = get_iptables_version_string exec r.protocol;
    ensure_chain = ensure_chain r;
    flush_chain = flush_chain r;
    delete_chain = delete_chain r;
    ensure_rule = ensure_rule r;
    delete_rule = delete_rule r;
    list_rule = list_rule r;
    is_ipv6 = is_ipv6 r.protocol;
    save_into = save_into r;
    ensure_policy = ensure_policy r;
    restore = restore locks r;
    restore_all = restore_all locks r;
  }
