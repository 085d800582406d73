-- ===== src/Iptables/Answers.antt =====
-- utils/iptables/iptables.go: what the operations make of the answer of a command.
use kube_bazellb.Prelude.{
  Bool, true, false, Option, none, some, List, [], ◌∷◌, ◌++◌, Str, codes, nat_beq, if◌then◌else◌,
}
use kube_bazellb.Prelude.Result.{Result, ok, err}
use kube_bazellb.Text.{split}
use kube_bazellb.Iptables.{
  ExecError, exited, other_error, IptablesError, creating_chain, appending_rule, listing_rule,
  checking_rule, saving, min_check_version,
}
use kube_bazellb.Iptables.Check.{unpack_args, lines_have_rule}

-- `ee.Exited() && ee.ExitStatus() == 1`
abbrev pub exited_with_1 : ExecError → Bool
exited_with_1 (exited n) = nat_beq n 1
exited_with_1 other_error = false

-- An operation that only reports whether its command failed.
abbrev pub done_or :
    (ExecError → Str → IptablesError) → Str × Option ExecError → Result IptablesError Unit
done_or error (out, none) = ok tt
done_or error (out, some e) = err (error e out)

abbrev pub created : Str → Str × Option ExecError → Result IptablesError Bool
created chain (out, none) = ok false
created chain (out, some e) = if exited_with_1 e then ok true else err (creating_chain chain e out)

abbrev pub checked : Str × Option ExecError → Result IptablesError Bool
checked (out, none) = ok true
checked (out, some e) = if exited_with_1 e then ok false else err (checking_rule e out)

abbrev pub appended : Str × Option ExecError → Result IptablesError Bool
appended (out, none) = ok false
appended (out, some e) = err (appending_rule e out)

abbrev pub saved_rule : Str → List Str → Str × Option ExecError → Result IptablesError Bool
saved_rule chain args (out, none) = ok (lines_have_rule chain (unpack_args args) (split 10 out))
saved_rule chain args (out, some e) = err (saving e)

abbrev pub listed : Str × Option ExecError → Result IptablesError (List Str)
listed (out, none) = ok (split 10 out)
listed (out, some e) = err (listing_rule e out)

abbrev pub or_min_version : Result IptablesError Str → Str
or_min_version (err e) = min_check_version
or_min_version (ok v) = v

abbrev pub restore_flags : Bool → Bool → List Str
restore_flags flush counters =
    (if flush then [] else codes "--noflush" ∷ [])
    ++ (if counters then codes "--counters" ∷ [] else [])
