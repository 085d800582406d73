-- ===== src/Iptables/Promise.antt =====
-- The runner over a system whose iptables keeps its promise implements the tables.
use kube_bazellb.Prelude.{
  Bool, true, false, Option, none, some, List, [], Str, if◌then◌else◌, ◌≡◌, ◌⊎◌, ap, string_eq,
  Comparable, not, ◌&&◌, ◌≢◌, arith,
}
use kube_bazellb.Prelude.Members.{is_some}
use kube_bazellb.Iptables.{
  ExecError, exited, IptablesError, Executor, prepend, append_position, op_create_chain,
  op_flush_chain, op_check_rule, op_delete_rule, deleting_rule, flushing_chain,
}
use kube_bazellb.Iptables.Answers.{done_or, created, checked, appended}
use kube_bazellb.Iptables.Runner.{
  Runner, Locks, run, make_full_args, check_rule, check_rule_using_check, append_rule, ensure_rule,
  delete_rule, ensure_chain, flush_chain, runner,
}
use kube_bazellb.Iptables.Spec.{
  Tables, has_rule, add_rule, drop_rule, add_chain, clear_chain, succeeds_if, unless_refused,
  Lawful, seen, ensured_rule, deleted_rule, ensured_chain, flushed_chain, Implements,
}

-- What an answer comes to when its command is refused, or succeeds under a condition.
module _ {S T : Type 0} (view : S → T) (v after : T) (result : S × (Str × Option ExecError)) where
  abbrev Ran : Option ExecError → Bool → Type 0
  Ran f b =
      ◌≡◌ {A = T × Option ExecError} (view result.0, result.1.1)
        (unless_refused f v (succeeds_if b v after))

  appended_lem :
      (f : Option ExecError) (b : Bool)
      → Ran f b
      → seen view (result.0, appended result.1)
        ≡ (if not (is_some f) && b then (after, some false) else (v, none))
  appended_lem (some e) b h = ground (arith, h)
  appended_lem none true h = ground (arith, h)
  appended_lem none false h = ground (arith, h)

  created_lem :
      (chain : Str) (f : Option ExecError) (b : Bool)
      → f ≢ some (exited 1)
      → Ran f (not b)
      → seen view (result.0, created chain result.1)
        ≡ (if is_some f then (v, none) else if b then (v, some true) else (after, some false))
  created_lem chain (some e) b g h = ground (arith, g, h)
  created_lem chain none true g h = ground (arith, h)
  created_lem chain none false g h = ground (arith, h)

  done_lem :
      (error : ExecError → Str → IptablesError) (f : Option ExecError) (b : Bool)
      → Ran f b
      → seen view (result.0, done_or error result.1)
        ≡ (if not (is_some f) && b then (after, some tt) else (v, none))
  done_lem error (some e) b h = ground (arith, h)
  done_lem error none true h = ground (arith, h)
  done_lem error none false h = ground (arith, h)

checked_lem :
    {S T : Type 0} (view : S → T) (v : T) (result : S × (Str × Option ExecError))
    (f : Option ExecError) (b : Bool)
    → f ≢ some (exited 1)
    → Ran view v v result f b
    → seen view (result.0, checked result.1) ≡ (v, if is_some f then none else some b)
checked_lem view v result (some e) b g h = ground (arith, g, h)
checked_lem view v result none true g h = ground (arith, h)
checked_lem view v result none false g h = ground (arith, h)

module _ {S Rule : Type 0} ⦃same : Comparable Rule⦄ (exec : Executor S) (r : Runner)
    (view : S → Tables Rule) (rule_of : List Str → Rule)
    (fault : Str → Str → Str → List Str → S → Option ExecError)
    (lawful : Lawful view rule_of fault exec r) where
  abbrev pub ran : Str → Str → Str → List Str → S → S × (Str × Option ExecError)
  ran op table chain args = run exec r op (make_full_args table chain args)

  append_rule_lem :
      (position table chain : Str) (args : List Str) (s : S)
      → (position ≡ prepend) ⊎ (position ≡ append_position)
      → seen view (append_rule exec r position table chain args s) ≡ (
          if not (is_some (fault position table chain args s)) && (view s).has_chain table chain
          then (add_rule (view s) table chain (rule_of args), some false)
          else (view s, none))
  unfolding append_rule
  append_rule_lem position table chain args s p =
      appended_lem view (view s) (add_rule (view s) table chain (rule_of args))
        (ran position table chain args s) (fault position table chain args s)
        ((view s).has_chain table chain) (lawful.add_law position table chain args s p)

  ensure_chain_lem :
      (table chain : Str) (s : S)
      → seen view (ensure_chain exec r table chain s)
        ≡ ensured_chain (fault op_create_chain table chain [] s) (view s) table chain
  unfolding ensure_chain
  ensure_chain_lem table chain s =
      created_lem view (view s) (add_chain (view s) table chain)
        (ran op_create_chain table chain [] s) chain (fault op_create_chain table chain [] s)
        ((view s).has_chain table chain) (lawful.create_status table chain s)
        (lawful.create_law table chain s)

  flush_chain_lem :
      (table chain : Str) (s : S)
      → seen view (flush_chain exec r table chain s)
        ≡ flushed_chain (fault op_flush_chain table chain [] s) (view s) table chain
  unfolding flush_chain
  flush_chain_lem table chain s =
      done_lem view (view s) (clear_chain (view s) table chain)
        (ran op_flush_chain table chain [] s) (flushing_chain chain)
        (fault op_flush_chain table chain [] s) ((view s).has_chain table chain)
        (lawful.flush_law table chain s)

  deleted_lem :
      (table chain : Str) (args : List Str) (s : S)
      → seen view (
        (ran op_delete_rule table chain args s).0,
        done_or deleting_rule (ran op_delete_rule table chain args s).1,
      )
        ≡ (if not (is_some (fault op_delete_rule table chain args s))
              && has_rule (view s) table chain (rule_of args)
            then (drop_rule (view s) table chain (rule_of args), some tt)
            else (view s, none))
  deleted_lem table chain args s =
      done_lem view (view s) (drop_rule (view s) table chain (rule_of args))
        (ran op_delete_rule table chain args s) deleting_rule
        (fault op_delete_rule table chain args s) (has_rule (view s) table chain (rule_of args))
        (lawful.delete_law table chain args s)

  check_rule_lem :
      (table chain : Str) (args : List Str) (s : S)
      → r.has_check ≡ true
      → seen view (check_rule exec r table chain args s) ≡ (
        view s,
        if is_some (fault op_check_rule table chain args s)
            then none
            else some (has_rule (view s) table chain (rule_of args)),
      )
  unfolding check_rule check_rule_using_check
  check_rule_lem table chain args s has_check = rw has_check (
      checked_lem view (view s) (ran op_check_rule table chain args s)
        (fault op_check_rule table chain args s) (has_rule (view s) table chain (rule_of args))
        (lawful.check_status table chain args s) (lawful.check_law table chain args s))

  ensure_rule_lem :
      (position table chain : Str) (args : List Str) (s : S)
      → r.has_check ≡ true
      → (position ≡ prepend) ⊎ (position ≡ append_position)
      → seen view (ensure_rule exec r position table chain args s)
        ≡ ensured_rule
            (fault op_check_rule table chain args s)
            (fault position table chain args (check_rule exec r table chain args s).0)
            (view s)
            table
            chain
            (rule_of args)
  unfolding ensure_rule
  ensure_rule_lem position table chain args s has_check p =
      let q = check_rule_lem table chain args s has_check in
      ground (
        arith,
        ap (λ x. x.0) q,
        ap (λ x. x.1) q,
        append_rule_lem position table chain args (check_rule exec r table chain args s).0 p,
      )

  delete_rule_lem :
      (table chain : Str) (args : List Str) (s : S)
      → r.has_check ≡ true
      → seen view (delete_rule exec r table chain args s)
        ≡ deleted_rule
            (fault op_check_rule table chain args s)
            (fault op_delete_rule table chain args (check_rule exec r table chain args s).0)
            (view s)
            table
            chain
            (rule_of args)
  unfolding delete_rule
  delete_rule_lem table chain args s has_check =
      let q = check_rule_lem table chain args s has_check in
      ground (
        arith,
        ap (λ x. x.0) q,
        ap (λ x. x.1) q,
        deleted_lem table chain args (check_rule exec r table chain args s).0,
      )

-- With an iptables that has the check flag, EnsureRule, DeleteRule, EnsureChain and FlushChain of
-- the runner do to the tables what the interface promises, errors included: where iptables
-- refuses a command, the operation gives an error and changes nothing; a rule is added to a chain
-- that exists only, and not where it is already there; what is not there is deleted without an
-- error; a chain is created once. This is for an iptables each of whose commands is refused with
-- any error, for arguments that it does not accept or in states where it cannot work, and
-- otherwise changes its tables as its manual says, or exits with status 1; a refused -C or -N
-- exits with another status than 1.
pub runner-Implements :
    {S Rule : Type 0} ⦃same : Comparable Rule⦄ (exec : Executor S) (locks : Locks S) (r : Runner)
    (view : S → Tables Rule) (rule_of : List Str → Rule)
    (fault : Str → Str → Str → List Str → S → Option ExecError)
    → Lawful view rule_of fault exec r
    → r.has_check ≡ true
    → Implements view rule_of fault (runner exec locks r)
unfolding runner
runner-Implements exec locks r view rule_of fault lawful has_check = record {
  ensure_rule_law = λ position table chain args s p. (
    (check_rule exec r table chain args s).0,
    ap (λ x. x.0) (check_rule_lem exec r view rule_of fault lawful table chain args s has_check),
    ensure_rule_lem exec r view rule_of fault lawful position table chain args s has_check p,
  );
  delete_rule_law = λ table chain args s. (
    (check_rule exec r table chain args s).0,
    ap (λ x. x.0) (check_rule_lem exec r view rule_of fault lawful table chain args s has_check),
    delete_rule_lem exec r view rule_of fault lawful table chain args s has_check,
  );
  ensure_chain_law = ensure_chain_lem exec r view rule_of fault lawful;
  flush_chain_law = flush_chain_lem exec r view rule_of fault lawful;
}
