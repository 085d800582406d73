-- ===== src/Version/Groups.antt =====
-- The pre-release and the build metadata of a printed semantic version, read back.
use kube_bazellb.Prelude.{
  ℕ, true, false, some, List, [], ◌∷◌, ◌++◌, Str, nat_beq, str_eq, if◌then◌else◌, append_assoc,
  append-nil, ◌≡◌, ◌≢◌, refl, sym, ◌∙◌, ap, arith,
}
use kube_bazellb.Text.{split, join, is_digit}
use kube_bazellb.Text.Decimal.{All}
use kube_bazellb.Text.Split.{split-join}
use kube_bazellb.Version.{Version}
use kube_bazellb.Version.Parse.{
  is_identifier, starts_with, skip_spaces, one_line, take_group, match_extra, valid_identifiers,
}
use kube_bazellb.Version.Runs.{
  AllRuns, Stops, run-All, take_runs-join, starts_with-join, runs-AllLack,
}

abbrev pub dot : Str
dot = b'.' ∷ []

one_line-append : (s t : Str) → All is_identifier s → one_line (s ++ t) ≡ one_line t
unfolding one_line is_identifier
one_line-append [] t h = refl
one_line-append (c ∷ s) t h = ground (arith, one_line-append s t h.1, h.0)

one_line-dot : (t : Str) → one_line (b'.' ∷ t) ≡ one_line t
unfolding one_line
one_line-dot t = refl

-- Identifiers joined by dots hold no line feed.
join-one_line :
    (ss : List Str) (rest : Str)
    → AllRuns is_identifier ss
    → one_line (join dot ss ++ rest) ≡ one_line rest
unfolding join is_identifier
join-one_line [] rest h = refl
join-one_line (s ∷ []) rest h = one_line-append s rest (run-All is_identifier refl s h.0)
join-one_line (s ∷ t ∷ ss) rest h =
    ap one_line (append_assoc s (dot ++ join dot (t ∷ ss)) rest)
    ∙ one_line-append s (b'.' ∷ join dot (t ∷ ss) ++ rest) (run-All is_identifier refl s h.0)
    ∙ one_line-dot (join dot (t ∷ ss) ++ rest)
    ∙ join-one_line (t ∷ ss) rest h.1

-- A group that is not there takes nothing.
group_absent :
    (mark : ℕ) (rest : Str)
    → starts_with (nat_beq mark) rest ≡ false
    → take_group mark rest ≡ ([], rest)
unfolding take_group
group_absent mark [] h = refl
group_absent mark (c ∷ rest) h = ground arith

group_present :
    (mark : ℕ) (s : Str) (ss : List Str) (rest : Str)
    → AllRuns is_identifier (s ∷ ss)
    → Stops is_identifier rest
    → take_group mark (mark ∷ join dot (s ∷ ss) ++ rest) ≡ (join dot (s ∷ ss), rest)
unfolding take_group is_identifier
group_present mark s ss rest h stop = ground (
  arith,
  starts_with-join is_identifier refl s ss rest h,
  take_runs-join is_identifier refl s ss rest h stop,
)

abbrev pub semantic : List ℕ → List Str → List Str → Version
semantic ns pre build = record {
  components = ns;
  semver = true;
  pre_release = join dot pre;
  build_metadata = join dot build;
}

-- What `String` writes behind the numbers.
abbrev pub marked : ℕ → Str → Str
marked mark s = if str_eq s [] then [] else mark ∷ s

join-ne-nil :
    (s : Str) (ss : List Str)
    → AllRuns is_identifier (s ∷ ss)
    → str_eq (join dot (s ∷ ss)) [] ≡ false
unfolding join str_eq
join-ne-nil [] ss h = absurd h.0
join-ne-nil (c ∷ s) [] h = refl
join-ne-nil (c ∷ s) (t ∷ ss) h = refl

pub marked-join :
    (mark : ℕ) (s : Str) (ss : List Str)
    → AllRuns is_identifier (s ∷ ss)
    → marked mark (join dot (s ∷ ss)) ≡ mark ∷ join dot (s ∷ ss)
marked-join mark s ss h = rw (join-ne-nil s ss h)

pub one_line-marked :
    (mark : ℕ) (ss : List Str) (rest : Str)
    → mark ≢ 10
    → AllRuns is_identifier ss
    → one_line (marked mark (join dot ss) ++ rest) ≡ one_line rest
unfolding one_line str_eq join
one_line-marked mark [] rest h k = refl
one_line-marked mark (s ∷ ss) rest h k =
    ground (arith, join-ne-nil s ss k, join-one_line (s ∷ ss) rest k)

plus_outside : is_identifier b'+' ≡ false
unfolding is_identifier
plus_outside = refl

build_group :
    (build : List Str)
    → AllRuns is_identifier build
    → (take_group b'+' (marked b'+' (join dot build)) ≡ (join dot build, []))
      × (take_group b'-' (marked b'+' (join dot build)) ≡ ([], marked b'+' (join dot build)))
      × Stops is_identifier (marked b'+' (join dot build))
unfolding join str_eq
build_group [] h = (group_absent b'+' [] refl, group_absent b'-' [] refl, tt)
build_group (s ∷ ss) h = rw (marked-join b'+' s ss h) (
    (
      ap (λ t. take_group b'+' (b'+' ∷ t)) (sym (append-nil (join dot (s ∷ ss))))
          ∙ group_present b'+' s ss [] h tt,
      group_absent b'-' (b'+' ∷ join dot (s ∷ ss)) refl,
      plus_stops,
    ))
  where
    plus_stops : (is_identifier b'+' ≡ false) × (◌≢◌ {A = ℕ} b'+' b'.')
    plus_stops = (plus_outside, λ e. cc)

match_two :
    (text t pre build : Str)
    → take_group b'-' text ≡ (pre, t)
    → take_group b'+' t ≡ (build, [])
    → match_extra text ≡ some (pre, build)
unfolding match_extra skip_spaces str_eq
match_two text t pre build minus plus = ground (arith, minus, plus)

pub match_extra-marked :
    (pre build : List Str)
    → AllRuns is_identifier pre
    → AllRuns is_identifier build
    → match_extra (marked b'-' (join dot pre) ++ marked b'+' (join dot build))
      ≡ some (join dot pre, join dot build)
unfolding join str_eq
match_extra-marked [] build hp hb =
    let (plus, minus, stop) = build_group build hb in
    match_two (marked b'+' (join dot build)) (marked b'+' (join dot build)) [] (join dot build)
      minus plus
match_extra-marked (s ∷ ss) build hp hb =
    let (plus, minus, stop) = build_group build hb in
    rw (marked-join b'-' s ss hp) (
      match_two (b'-' ∷ join dot (s ∷ ss) ++ marked b'+' (join dot build))
        (marked b'+' (join dot build)) (join dot (s ∷ ss)) (join dot build)
        (group_present b'-' s ss (marked b'+' (join dot build)) hp stop) plus)

no_identifiers : valid_identifiers (split b'.' (join dot [])) ≡ true
unfolding valid_identifiers split join
no_identifiers = refl

pub valid_identifiers-split :
    (pre : List Str)
    → AllRuns is_identifier pre
    → valid_identifiers pre ≡ true
    → valid_identifiers (split b'.' (join dot pre)) ≡ true
unfolding is_identifier
valid_identifiers-split [] h k = no_identifiers
valid_identifiers-split (s ∷ ss) h k =
    rw (split-join b'.' s ss (runs-AllLack is_identifier b'.' refl (s ∷ ss) h)) k

pub Stops-marked :
    (mark : ℕ) (s t : Str)
    → is_digit mark ≡ false
    → mark ≢ b'.'
    → Stops is_digit t
    → Stops is_digit (marked mark s ++ t)
unfolding str_eq
Stops-marked mark [] t h k st = st
Stops-marked mark (c ∷ s) t h k st = (h, k)
