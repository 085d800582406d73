-- ===== src/Iptables/Versions.antt =====
-- From the version that iptables prints to the flags that the runner uses.
use kube_bazellb.Prelude.{
  ℕ, Bool, true, not, Option, none, some, List, [], ◌∷◌, ◌++◌, Str, nat_eq, if◌then◌else◌, ℤ, pos,
  negsuc, map, codes, ◌≡◌, zero, suc, str_eq, refl, ap, ◌∙◌, sym, append-nil, arith,
}
use kube_bazellb.Prelude.Members.{has, has-append, has_head}
use kube_bazellb.Prelude.Result.{ok}
use kube_bazellb.Text.{itoa, is_digit, join}
use kube_bazellb.Text.Split.{Lacks}
use kube_bazellb.Version.{
  dotted, to_string, at_least, less_than, compare_internal, compare_pre_release, is_minus_one,
}
use kube_bazellb.Version.Parse.{parse, parse_generic}
use kube_bazellb.Version.Compare.{padded_order, compare_internal-padded, or_else}
use kube_bazellb.Version.Runs.{
  AllFit, Stops, take_runs-join, starts_with-join, dotted-join, itoas-AllRuns,
}
use kube_bazellb.Version.RoundTrip.{generic, parse-to_string-generic}
use kube_bazellb.Iptables.{
  ExecError, Executor, Protocol, iptables_command, wait_string, wait_seconds_string,
  min_check_version, wait_min_version, wait_seconds_min_version,
}
use kube_bazellb.Iptables.Answers.{or_min_version}
use kube_bazellb.Iptables.Runner.{new_internal}
use kube_bazellb.Iptables.Gates.{
  get_iptables_has_check_command, get_iptables_wait_flag, find_version_string,
  get_iptables_version_string, read_version,
}

abbrev pub before : List ℕ → List ℕ → Bool
before ns os = is_minus_one (padded_order ns os)

tie : (ns os : List ℕ) (d : ℤ) → is_minus_one (or_else d (pos 0)) ≡ is_minus_one d
tie ns os (pos zero) = refl
tie ns os (pos (suc n)) = refl
tie ns os (negsuc n) = refl

generic_tie : (ns os : List ℕ) → compare_pre_release (generic ns) (generic os) ≡ pos 0
unfolding compare_pre_release str_eq
generic_tie ns os = refl

compared-generic :
    (ns os : List ℕ) → is_minus_one (compare_internal (generic ns) (generic os)) ≡ before ns os
compared-generic ns os =
    ap is_minus_one (compare_internal-padded (generic ns) (generic os))
    ∙ ap (λ d. is_minus_one (or_else (padded_order ns os) d)) (generic_tie ns os)
    ∙ tie ns os (padded_order ns os)

less_than-generic : (ns os : List ℕ) → less_than (generic ns) (generic os) ≡ before ns os
unfolding less_than
less_than-generic ns os = compared-generic ns os

at_least-generic : (ns os : List ℕ) → at_least (generic ns) (generic os) ≡ not (before ns os)
unfolding at_least
at_least-generic ns os = ap not (compared-generic ns os)

dotted-to_string : (ns : List ℕ) → dotted ns ≡ to_string (generic ns)
unfolding to_string str_eq
dotted-to_string ns = sym (append-nil (dotted ns))

dotted-parse :
    (n m : ℕ) (ns : List ℕ)
    → AllFit (n ∷ m ∷ ns)
    → parse_generic (dotted (n ∷ m ∷ ns)) ≡ ok (generic (n ∷ m ∷ ns))
dotted-parse n m ns fit =
    ap parse_generic (dotted-to_string (n ∷ m ∷ ns)) ∙ parse-to_string-generic n m ns fit

min_check : parse_generic min_check_version ≡ ok (generic (1 ∷ 4 ∷ 11 ∷ []))
unfolding parse
min_check = refl

wait_min : parse_generic wait_min_version ≡ ok (generic (1 ∷ 4 ∷ 20 ∷ []))
unfolding parse
wait_min = refl

wait_seconds_min : parse_generic wait_seconds_min_version ≡ ok (generic (1 ∷ 4 ∷ 22 ∷ []))
unfolding parse
wait_seconds_min = refl

has_check_lem :
    (n m : ℕ) (ns : List ℕ)
    → AllFit (n ∷ m ∷ ns)
    → get_iptables_has_check_command (dotted (n ∷ m ∷ ns))
      ≡ not (before (n ∷ m ∷ ns) (1 ∷ 4 ∷ 11 ∷ []))
unfolding get_iptables_has_check_command
has_check_lem n m ns fit =
    ground
      (arith, min_check, dotted-parse n m ns fit, at_least-generic (n ∷ m ∷ ns) (1 ∷ 4 ∷ 11 ∷ []))

wait_flag_lem :
    (n m : ℕ) (ns : List ℕ)
    → AllFit (n ∷ m ∷ ns)
    → get_iptables_wait_flag (dotted (n ∷ m ∷ ns)) ≡ (
        if before (n ∷ m ∷ ns) (1 ∷ 4 ∷ 20 ∷ [])
        then []
        else if before (n ∷ m ∷ ns) (1 ∷ 4 ∷ 22 ∷ [])
        then wait_string ∷ []
        else wait_seconds_string ∷ [])
unfolding get_iptables_wait_flag
wait_flag_lem n m ns fit = ground (
  arith,
  wait_min,
  wait_seconds_min,
  dotted-parse n m ns fit,
  less_than-generic (n ∷ m ∷ ns) (1 ∷ 4 ∷ 20 ∷ []),
  less_than-generic (n ∷ m ∷ ns) (1 ∷ 4 ∷ 22 ∷ []),
)

dotted_dot : (n m : ℕ) (ns : List ℕ) → has b'.' (dotted (n ∷ m ∷ ns)) ≡ true
unfolding dotted
dotted_dot n m ns =
    has-append b'.' (itoa n) (b'.' ∷ dotted (m ∷ ns))
    ∙ ground (arith, has_head b'.' (dotted (m ∷ ns)))

-- Text in front of the version, and behind it.
find_version_string-dotted :
    (n m : ℕ) (ns : List ℕ) (before_v behind : Str)
    → Lacks b'v' before_v
    → Stops is_digit behind
    → find_version_string (before_v ++ b'v' ∷ dotted (n ∷ m ∷ ns) ++ behind)
      ≡ some (dotted (n ∷ m ∷ ns))
unfolding find_version_string
find_version_string-dotted n m ns [] behind lacks stops =
    let runs = itoas-AllRuns (n ∷ m ∷ ns) in
    let e = dotted-join (n ∷ m ∷ ns) in
    let numbers = join (b'.' ∷ []) (map itoa (n ∷ m ∷ ns)) in
    let dot = sym (ap (has b'.') e) ∙ dotted_dot n m ns in
    rw e (
      ground (
        arith,
        dot,
        starts_with-join is_digit refl (itoa n) (map itoa (m ∷ ns)) behind runs,
        take_runs-join is_digit refl (itoa n) (map itoa (m ∷ ns)) behind runs stops,
      ))
find_version_string-dotted n m ns (c ∷ s) behind lacks stops =
    ground (arith, lacks.0, find_version_string-dotted n m ns s behind lacks.1 stops)

or_min_version-dotted :
    (n m : ℕ) (ns : List ℕ) (before_v behind : Str) (answer : Str × Option ExecError)
    → Lacks b'v' before_v
    → Stops is_digit behind
    → answer ≡ (before_v ++ b'v' ∷ dotted (n ∷ m ∷ ns) ++ behind, none)
    → or_min_version (read_version answer) ≡ dotted (n ∷ m ∷ ns)
or_min_version-dotted n m ns before_v behind answer lacks stops e =
    ap (λ p. or_min_version (read_version p)) e
    ∙ ground (arith, find_version_string-dotted n m ns before_v behind lacks stops)

module _ {S : Type 0} (exec : Executor S) (protocol : Protocol) (lockfile_path : Str) (s : S) where
  abbrev asked : S × (Str × Option ExecError)
  asked = exec.combined_output (iptables_command protocol) (codes "--version" ∷ []) none s

  -- When iptables prints a version of two or more numbers that fit a uint, behind the first `v`
  -- of its output, the runner checks rules with the check flag exactly from 1.4.11 on, waits for
  -- the lock without a bound exactly from 1.4.20 on and before 1.4.22, and for five seconds from
  -- there on.
  pub new_internal-dotted :
      (n m : ℕ) (ns : List ℕ) (before_v behind : Str)
      → AllFit (n ∷ m ∷ ns)
      → Lacks b'v' before_v
      → Stops is_digit behind
      → asked.1 ≡ (before_v ++ b'v' ∷ dotted (n ∷ m ∷ ns) ++ behind, none)
      → let r = (new_internal exec protocol lockfile_path s).1 in
        (r.has_check ≡ not (before (n ∷ m ∷ ns) (1 ∷ 4 ∷ 11 ∷ [])))
        × (r.wait_flag ≡ (
            if before (n ∷ m ∷ ns) (1 ∷ 4 ∷ 20 ∷ [])
            then []
            else if before (n ∷ m ∷ ns) (1 ∷ 4 ∷ 22 ∷ [])
            then wait_string ∷ []
            else wait_seconds_string ∷ []))
  unfolding new_internal get_iptables_version_string
  new_internal-dotted n m ns before_v behind fit lacks stops e =
      rw (or_min_version-dotted n m ns before_v behind asked.1 lacks stops e)
        (has_check_lem n m ns fit, wait_flag_lem n m ns fit)
