-- ===== src/Examples/Rules.antt =====
-- utils/iptables/iptables.go over a system in memory.
use kube_bazellb.Prelude.{
  true, false, Option, none, some, List, [], ◌∷◌, ◌++◌, Str, codes, str_eq, if◌then◌else◌, inl, inr,
  ◌≡◌, ◌⊎◌, ◌≢◌, ◌==◌, string_eq, texts_eq, refl, arith, not,
}
use kube_bazellb.Prelude.Members.{has}
use kube_bazellb.Text.{itoa, is_digit}
use kube_bazellb.Text.Trim.{trim}
use kube_bazellb.Version.{dotted}
use kube_bazellb.Version.Compare.{padded_order}
use kube_bazellb.Iptables.{
  ExecError, exited, other_error, Executor, protocol_ipv4, prepend, table_nat, wait_string,
  op_check_rule, op_delete_rule, op_create_chain, op_flush_chain, append_position,
}
use kube_bazellb.Iptables.Check.{trimhex, unpack_args, line_has_rule}
use kube_bazellb.Iptables.Runner.{Runner, Locks, run, make_full_args, runner, new_internal}
use kube_bazellb.Iptables.Spec.{
  Tables, has_rule, add_rule, drop_rule, add_chain, clear_chain, succeeds_if, unless_refused,
  outcome, Lawful, Implements,
}
use kube_bazellb.Iptables.Promise.{runner-Implements}
use kube_bazellb.Iptables.Versions.{new_internal-dotted}
use kube_bazellb.Iptables.Printed.{ArePlain, rule_line, line_has_rule-extended}

-- Of the tables there is only nat, and an argument `--bogus` is refused everywhere.
abbrev refusal : Str → Str → Str → List Str → Tables (List Str) → Option ExecError
refusal op table chain args t =
    if has (codes "--bogus") args
    then some (exited 2)
    else if table == table_nat
    then none
    else some (exited 3)

abbrev accepted :
    Str → Str → Str → List Str → Tables (List Str) → Tables (List Str) × Option ExecError
accepted op table chain args t =
    if str_eq op op_check_rule
    then succeeds_if (has_rule t table chain args) t t
    else if str_eq op op_delete_rule
    then succeeds_if (has_rule t table chain args) t (drop_rule t table chain args)
    else if str_eq op op_create_chain
    then succeeds_if (not (t.has_chain table chain)) t (add_chain t table chain)
    else if str_eq op op_flush_chain
    then succeeds_if (t.has_chain table chain) t (clear_chain t table chain)
    else succeeds_if (t.has_chain table chain) t (add_rule t table chain args)

abbrev act : List Str → Tables (List Str) → Tables (List Str) × Option ExecError
act (op ∷ chain ∷ flag ∷ table ∷ args) t =
    unless_refused (refusal op table chain args t) t (accepted op table chain args t)
act args t = (t, some other_error)

abbrev kernel : Executor (Tables (List Str))
kernel = record { combined_output = λ cmd args input t. let (t', e) = act args t in (t', ([], e)) }

abbrev plain : Runner
plain = record {
  protocol = protocol_ipv4;
  has_check = true;
  wait_flag = [];
  restore_wait_flag = [];
  lockfile_path = [];
}

abbrev no_locks : Locks (Tables (List Str))
no_locks = record { grab = λ path t. (t, none); close = λ locker t. t }

added :
    (position table chain : Str) (args : List Str) (s : Tables (List Str))
    → (position ≡ prepend) ⊎ (position ≡ append_position)
    → outcome kernel plain (λ t. t) position table chain args s
      ≡ unless_refused
          (refusal position table chain args s)
          s
          (succeeds_if (s.has_chain table chain) s (add_rule s table chain args))
unfolding run make_full_args str_eq
added position table chain args s (inl e) = rw e refl
added position table chain args s (inr e) = rw e refl

refusal_status :
    (op table chain : Str) (args : List Str) (s : Tables (List Str))
    → refusal op table chain args s ≢ some (exited 1)
refusal_status op table chain args s = ground arith

kernel-Lawful : Lawful (λ t. t) (λ args. args) refusal kernel plain
unfolding run make_full_args str_eq
kernel-Lawful = record {
  check_law = λ table chain args s. refl;
  add_law = λ position table chain args s p. added position table chain args s p;
  delete_law = λ table chain args s. refl;
  create_law = λ table chain s. refl;
  flush_law = λ table chain s. refl;
  check_status = λ table chain args s. refusal_status op_check_rule table chain args s;
  create_status = λ table chain s. refusal_status op_create_chain table chain [] s;
}

runner-Implements_example :
    Implements (λ t. t) (λ args. args) refusal (runner kernel no_locks plain)
runner-Implements_example =
    runner-Implements kernel no_locks plain (λ t. t) (λ args. args) refusal kernel-Lawful refl

abbrev mark_args : List Str
mark_args = codes "-j" ∷ codes "MARK" ∷ []

-- An executor that answers every command with one text.
abbrev prints : Str → Option ExecError → Executor Unit
prints out e = record { combined_output = λ cmd args input s. (tt, (out, e)) }

dotted_test : dotted (1 ∷ 4 ∷ 21 ∷ []) ≡ codes "1.4.21"
unfolding dotted itoa
dotted_test = refl

new_internal-dotted_example :
    let r =
      (new_internal
        (prints (codes "iptables v" ++ dotted (1 ∷ 4 ∷ 21 ∷ []) ++ codes " (legacy)") none)
        protocol_ipv4
        []
        tt).1 in
    (r.has_check ≡ true) × (r.wait_flag ≡ wait_string ∷ [])
unfolding padded_order is_digit
new_internal-dotted_example =
    new_internal-dotted
      (prints (codes "iptables v" ++ dotted (1 ∷ 4 ∷ 21 ∷ []) ++ codes " (legacy)") none)
      protocol_ipv4 [] tt 1 4 (21 ∷ []) (codes "iptables ") (codes " (legacy)")
      (omega arith, (omega arith, (omega arith, tt))) (ground arith) (ground arith) refl

mark_args-ArePlain : ArePlain mark_args
unfolding trim trimhex
mark_args-ArePlain = ((ground arith, refl), ((ground arith, refl), tt))

-- The rule stands in the chain KUBE-SEP, and is found for the chain KUBE; with `-m tcp` it is not.
abbrev tcp_args : List Str
tcp_args = codes "-m" ∷ codes "tcp" ∷ mark_args

line_has_rule-extended_example :
    (line_has_rule (codes "KUBE") (unpack_args mark_args) (rule_line (codes "KUBE-SEP") mark_args)
      ≡ true)
    × (line_has_rule (codes "KUBE") (unpack_args mark_args) (rule_line (codes "KUBE-SEP") tcp_args)
        ≡ false)
line_has_rule-extended_example =
    line_has_rule-extended (codes "KUBE") (codes "-SEP") mark_args tcp_args (ground arith)
      mark_args-ArePlain (ground arith) (ground arith)
