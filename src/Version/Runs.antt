-- ===== src/Version/Runs.antt =====
-- What the matchers and the component loop of `parse` make of printed components.
use kube_bazellb.Prelude.{
  ℕ, zero, suc, ◌≤◌, Bool, true, false, List, [], ◌∷◌, ◌++◌, Str, str_eq, map, append_assoc,
  append-nil, ◌≡◌, ◌≢◌, refl, ◌∙◌, ap, arith,
}
use kube_bazellb.Prelude.Result.{ok}
use kube_bazellb.Text.{join, itoa, is_digit, max_uint, has_prefix}
use kube_bazellb.Text.Decimal.{All, itoa-cons, parse_uint-itoa}
use kube_bazellb.Text.Split.{Lacks, AllLack}
use kube_bazellb.Version.{dotted}
use kube_bazellb.Version.Parse.{starts_with, take_runs, has_leading_zero, parse_components}

-- One or more parts, each of one or more bytes of the class.
abbrev pub IsRun : (ℕ → Bool) → Str → Type 0
IsRun p [] = ⊥
IsRun p (c ∷ s) = All p (c ∷ s)

abbrev pub AllRuns : (ℕ → Bool) → List Str → Type 0
AllRuns p [] = Unit
AllRuns p (s ∷ ss) = IsRun p s × AllRuns p ss

-- What follows the runs does not go on with them.
abbrev pub Stops : (ℕ → Bool) → Str → Type 0
Stops p [] = Unit
Stops p (c ∷ s) = (p c ≡ false) × (c ≢ b'.')

module _ (p : ℕ → Bool) (dot : p b'.' ≡ false) where
  pub take_runs-stop : (rest : Str) → Stops p rest → take_runs p rest ≡ ([], rest)
  unfolding take_runs
  take_runs-stop [] h = refl
  take_runs-stop (c ∷ rest) h = ground (arith, h)

  take_runs-run :
      (s t u v : Str) → All p s → take_runs p t ≡ (u, v) → take_runs p (s ++ t) ≡ (s ++ u, v)
  unfolding take_runs
  take_runs-run [] t u v h e = e
  take_runs-run (c ∷ s) t u v h e = ground (arith, take_runs-run s t u v h.1 e, h.0)

  pub starts_with-join :
      (s : Str) (ss : List Str) (rest : Str)
      → AllRuns p (s ∷ ss)
      → starts_with p (join (b'.' ∷ []) (s ∷ ss) ++ rest) ≡ true
  unfolding join
  starts_with-join [] ss rest h = absurd h.0
  starts_with-join (c ∷ s) [] rest h = h.0.0
  starts_with-join (c ∷ s) (t ∷ ss) rest h = h.0.0

  take_runs-dot :
      (t u v : Str)
      → starts_with p t ≡ true
      → take_runs p t ≡ (u, v)
      → take_runs p (b'.' ∷ t) ≡ (b'.' ∷ u, v)
  unfolding take_runs
  take_runs-dot t u v h e = ground (arith, h, e)

  pub run-All : (s : Str) → IsRun p s → All p s
  run-All [] h = absurd h
  run-All (c ∷ s) h = h

  pub take_runs-join :
      (s : Str) (ss : List Str) (rest : Str)
      → AllRuns p (s ∷ ss)
      → Stops p rest
      → take_runs p (join (b'.' ∷ []) (s ∷ ss) ++ rest) ≡ (join (b'.' ∷ []) (s ∷ ss), rest)
  unfolding join
  take_runs-join s [] rest h stop =
      take_runs-run s rest [] rest (run-All s h.0) (take_runs-stop rest stop) ∙ rw append-nil
  take_runs-join s (t ∷ ss) rest h stop =
      let tail = join (b'.' ∷ []) (t ∷ ss) in
      ap (take_runs p) (append_assoc s (b'.' ∷ tail) rest)
      ∙ take_runs-run s (b'.' ∷ tail ++ rest) (b'.' ∷ tail) rest (run-All s h.0) (
          take_runs-dot (tail ++ rest) tail rest (starts_with-join t ss rest h.1)
            (take_runs-join t ss rest h.1 stop))

pub dotted-join : (ns : List ℕ) → dotted ns ≡ join (b'.' ∷ []) (map itoa ns)
unfolding dotted join
dotted-join [] = refl
dotted-join (n ∷ []) = refl
dotted-join (n ∷ m ∷ ns) = ap (λ s. itoa n ++ b'.' ∷ s) (dotted-join (m ∷ ns))

itoa-IsRun : (n : ℕ) → IsRun is_digit (itoa n)
itoa-IsRun n = let (c, s, e, d, all, lead) = itoa-cons n in rw e (d, all)

pub itoas-AllRuns : (ns : List ℕ) → AllRuns is_digit (map itoa ns)
itoas-AllRuns [] = tt
itoas-AllRuns (n ∷ ns) = (itoa-IsRun n, itoas-AllRuns ns)

All-Lacks : (p : ℕ → Bool) (sep : ℕ) → p sep ≡ false → (s : Str) → All p s → Lacks sep s
All-Lacks p sep h [] a = tt
All-Lacks p sep h (c ∷ s) a = ((λ e. ground (arith, ap p e, h, a.0)), All-Lacks p sep h s a.1)

pub runs-AllLack :
    (p : ℕ → Bool) (sep : ℕ) → p sep ≡ false → (ss : List Str) → AllRuns p ss → AllLack sep ss
runs-AllLack p sep h [] a = tt
runs-AllLack p sep h ([] ∷ ss) a = absurd a.0
runs-AllLack p sep h ((c ∷ s) ∷ ss) a = (All-Lacks p sep h (c ∷ s) a.0, runs-AllLack p sep h ss a.1)

-- Every component fits a uint.
abbrev pub AllFit : List ℕ → Type 0
AllFit [] = Unit
AllFit (n ∷ ns) = (n ≤ max_uint) × AllFit ns

itoa-has_leading_zero : (n : ℕ) → has_leading_zero (itoa n) ≡ false
unfolding has_leading_zero itoa has_prefix str_eq
itoa-has_leading_zero zero = refl
itoa-has_leading_zero (suc n) =
    let (c, s, e, d, all, lead) = itoa-cons (suc n) in ground (arith, e, lead (omega arith))

pub parse_components-itoa :
    (semver first : Bool) (ns : List ℕ)
    → AllFit ns
    → parse_components semver first (map itoa ns) ≡ ok ns
unfolding parse_components
parse_components-itoa semver first [] fit = refl
parse_components-itoa semver first (n ∷ ns) fit = ground (
  arith,
  itoa-has_leading_zero n,
  parse_uint-itoa n fit.0,
  parse_components-itoa semver false ns fit.1,
)
