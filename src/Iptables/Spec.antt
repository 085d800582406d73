-- ===== src/Iptables/Spec.antt =====
-- What the runner relies on of iptables, and what `iptables.Interface` promises in turn: tables of
-- chains, each with a count of every rule. Which arguments make which rule is a parameter, and so is
-- `fault`, the error of a command that iptables refuses in a state, whatever is in the tables: bad
-- parameters, a table that is not there, a lock that is held.
use kube_bazellb.Prelude.{
  ℕ, suc, ◌-◌, Bool, true, false, ◌&&◌, Option, none, some, List, [], Str, ◌==◌, string_eq,
  Comparable, not, ltb, if◌then◌else◌, ◌≡◌, ◌≢◌, ◌⊎◌,
}
use kube_bazellb.Prelude.Members.{is_some}
use kube_bazellb.Prelude.Result.{Result, ok, err}
use kube_bazellb.Iptables.{
  ExecError, exited, IptablesError, Executor, prepend, append_position, op_create_chain,
  op_flush_chain, op_check_rule, op_delete_rule,
}
use kube_bazellb.Iptables.Interface.{Interface}
use kube_bazellb.Iptables.Runner.{Runner, run, make_full_args}

pub record Tables (Rule : Type 0) : Type 0 where
  pub has_chain : Str → Str → Bool
  pub count : Str → Str → Rule → ℕ

abbrev pub is_chain : Str → Str → Str → Str → Bool
is_chain table chain t c = table == t && chain == c

-- `outcome` if the command is not refused.
abbrev pub unless_refused :
    {T : Type 0} → Option ExecError → T → T × Option ExecError → T × Option ExecError
unless_refused (some e) tables outcome = (tables, some e)
unless_refused none tables outcome = outcome

-- A command changes the tables, or exits with status 1 and changes nothing.
abbrev pub succeeds_if : {T : Type 0} → Bool → T → T → T × Option ExecError
succeeds_if true tables after = (after, none)
succeeds_if false tables after = (tables, some (exited 1))

module _ {Rule : Type 0} ⦃same : Comparable Rule⦄ where
  abbrev pub is_rule : Str → Str → Rule → Str → Str → Rule → Bool
  is_rule table chain rule t c a = is_chain table chain t c && rule == a

  abbrev pub has_rule : Tables Rule → Str → Str → Rule → Bool
  has_rule tables table chain rule =
      tables.has_chain table chain && ltb 0 (tables.count table chain rule)

  abbrev pub change_count : (ℕ → ℕ) → Tables Rule → Str → Str → Rule → Tables Rule
  change_count f tables table chain rule = record {
    has_chain = tables.has_chain;
    count = λ t c a.
        if is_rule table chain rule t c a then f (tables.count t c a) else tables.count t c a;
  }

  abbrev pub add_rule : Tables Rule → Str → Str → Rule → Tables Rule
  add_rule = change_count (λ n. suc n)

  abbrev pub drop_rule : Tables Rule → Str → Str → Rule → Tables Rule
  drop_rule = change_count (λ n. n - 1)

  abbrev pub add_chain : Tables Rule → Str → Str → Tables Rule
  add_chain tables table chain = record {
    has_chain = λ t c. if is_chain table chain t c then true else tables.has_chain t c;
    count = λ t c a. if is_chain table chain t c then 0 else tables.count t c a;
  }

  abbrev pub clear_chain : Tables Rule → Str → Str → Tables Rule
  clear_chain tables table chain = record {
    has_chain = tables.has_chain;
    count = λ t c a. if is_chain table chain t c then 0 else tables.count t c a;
  }

  -- The rule is looked for, and added where it is missing; either command may be refused.
  abbrev pub ensured_rule :
      Option ExecError
      → Option ExecError
      → Tables Rule
      → Str
      → Str
      → Rule
      → Tables Rule × Option Bool
  ensured_rule no_check no_add tables table chain rule =
      if is_some no_check
      then (tables, none)
      else if has_rule tables table chain rule
      then (tables, some true)
      else if not (is_some no_add) && tables.has_chain table chain
      then (add_rule tables table chain rule, some false)
      else (tables, none)

  abbrev pub deleted_rule :
      Option ExecError
      → Option ExecError
      → Tables Rule
      → Str
      → Str
      → Rule
      → Tables Rule × Option {0} Unit
  deleted_rule no_check no_delete tables table chain rule =
      if is_some no_check
      then (tables, none)
      else if not (has_rule tables table chain rule)
      then (tables, some tt)
      else if is_some no_delete
      then (tables, none)
      else (drop_rule tables table chain rule, some tt)

  abbrev pub ensured_chain : Option ExecError → Tables Rule → Str → Str → Tables Rule × Option Bool
  ensured_chain refused tables table chain =
      if is_some refused
      then (tables, none)
      else if tables.has_chain table chain
      then (tables, some true)
      else (add_chain tables table chain, some false)

  abbrev pub flushed_chain :
      Option ExecError → Tables Rule → Str → Str → Tables Rule × Option {0} Unit
  flushed_chain refused tables table chain =
      if not (is_some refused) && tables.has_chain table chain
      then (clear_chain tables table chain, some tt)
      else (tables, none)

abbrev pub value : {A : Type 0} → Result IptablesError A → Option A
value (ok a) = some a
value (err e) = none

-- The tables behind an operation, and its answer.
abbrev pub seen : {S T A : Type 0} → (S → T) → S × Result IptablesError A → T × Option A
seen view (s, answer) = (view s, value answer)

-- The tables behind a command, and its error.
abbrev pub outcome :
    {S T : Type 0}
    → Executor S
    → Runner
    → (S → T)
    → Str
    → Str
    → Str
    → List Str
    → S
    → T × Option ExecError
outcome exec r view op table chain args s =
    let (s', (out, e)) = run exec r op (make_full_args table chain args) s in (view s', e)

module _ {S Rule : Type 0} ⦃same : Comparable Rule⦄ (view : S → Tables Rule)
    (rule_of : List Str → Rule) (fault : Str → Str → Str → List Str → S → Option ExecError) where
  -- The tables that `view` reads off a state follow the commands. The exit status 1 of `-C` and `-N` says
  -- that there is no such rule, or that there is the chain.
  pub record Lawful (exec : Executor S) (r : Runner) : Type 0 where
    pub check_law :
        (table chain : Str) (args : List Str) (s : S)
        → outcome exec r view op_check_rule table chain args s
          ≡ unless_refused
              (fault op_check_rule table chain args s)
              (view s)
              (succeeds_if (has_rule (view s) table chain (rule_of args)) (view s) (view s))
    pub add_law :
        (position table chain : Str) (args : List Str) (s : S)
        → (position ≡ prepend) ⊎ (position ≡ append_position)
        → outcome exec r view position table chain args s
          ≡ unless_refused (fault position table chain args s) (view s) (
              succeeds_if
                ((view s).has_chain table chain)
                (view s)
                (add_rule (view s) table chain (rule_of args)))
    pub delete_law :
        (table chain : Str) (args : List Str) (s : S)
        → outcome exec r view op_delete_rule table chain args s
          ≡ unless_refused (fault op_delete_rule table chain args s) (view s) (
              succeeds_if
                (has_rule (view s) table chain (rule_of args))
                (view s)
                (drop_rule (view s) table chain (rule_of args)))
    pub create_law :
        (table chain : Str) (s : S)
        → outcome exec r view op_create_chain table chain [] s
          ≡ unless_refused (fault op_create_chain table chain [] s) (view s) (
              succeeds_if
                (not ((view s).has_chain table chain))
                (view s)
                (add_chain (view s) table chain))
    pub flush_law :
        (table chain : Str) (s : S)
        → outcome exec r view op_flush_chain table chain [] s
          ≡ unless_refused (fault op_flush_chain table chain [] s) (view s) (
              succeeds_if
                ((view s).has_chain table chain)
                (view s)
                (clear_chain (view s) table chain))
    pub check_status :
        (table chain : Str) (args : List Str) (s : S)
        → fault op_check_rule table chain args s ≢ some (exited 1)
    pub create_status :
        (table chain : Str) (s : S) → fault op_create_chain table chain [] s ≢ some (exited 1)

  -- The second command of an operation runs in a state with the same tables.
  pub record Implements (i : Interface S) : Type 0 where
    pub ensure_rule_law :
        (position table chain : Str) (args : List Str) (s : S)
        → (position ≡ prepend) ⊎ (position ≡ append_position)
        → (s' : S) × (view s' ≡ view s)
          × (seen view (i.ensure_rule position table chain args s)
              ≡ ensured_rule
                  (fault op_check_rule table chain args s)
                  (fault position table chain args s')
                  (view s)
                  table
                  chain
                  (rule_of args))
    pub delete_rule_law :
        (table chain : Str) (args : List Str) (s : S)
        → (s' : S) × (view s' ≡ view s)
          × (seen view (i.delete_rule table chain args s)
              ≡ deleted_rule
                  (fault op_check_rule table chain args s)
                  (fault op_delete_rule table chain args s')
                  (view s)
                  table
                  chain
                  (rule_of args))
    pub ensure_chain_law :
        (table chain : Str) (s : S)
        → seen view (i.ensure_chain table chain s)
          ≡ ensured_chain (fault op_create_chain table chain [] s) (view s) table chain
    pub flush_chain_law :
        (table chain : Str) (s : S)
        → seen view (i.flush_chain table chain s)
          ≡ flushed_chain (fault op_flush_chain table chain [] s) (view s) table chain
