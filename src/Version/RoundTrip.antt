-- ===== src/Version/RoundTrip.antt =====
-- A version that is printed and read again.
use kube_bazellb.Prelude.{
  ℕ, true, false, some, List, [], ◌∷◌, ◌++◌, Str, str_eq, map, append-nil, ◌≡◌, refl, subst, sym,
  ◌∙◌, ap, arith,
}
use kube_bazellb.Prelude.Result.{ok}
use kube_bazellb.Text.{split, join, itoa, is_digit}
use kube_bazellb.Text.Split.{split-join}
use kube_bazellb.Version.{Version, dotted, to_string}
use kube_bazellb.Version.Parse.{
  is_space, is_identifier, starts_with, skip_spaces, skip_v, one_line, match_version,
  valid_identifiers, parse,
}
use kube_bazellb.Version.Runs.{
  AllRuns, Stops, AllFit, take_runs-join, starts_with-join, dotted-join, itoas-AllRuns,
  runs-AllLack, parse_components-itoa,
}
use kube_bazellb.Version.Groups.{
  dot, semantic, marked, marked-join, one_line-marked, match_extra-marked, valid_identifiers-split,
  Stops-marked,
}

digit_first : (s : Str) → starts_with is_digit s ≡ true → skip_v (skip_spaces s) ≡ s
unfolding skip_v skip_spaces is_space is_digit
digit_first [] h = refl
digit_first (c ∷ s) h = ground arith

-- The version pattern splits a print at the end of its numbers.
match_version-dotted :
    (n : ℕ) (ns : List ℕ) (extra : Str)
    → Stops is_digit extra
    → one_line extra ≡ true
    → match_version (dotted (n ∷ ns) ++ extra) ≡ some (dotted (n ∷ ns), extra)
unfolding match_version is_digit
match_version-dotted n ns extra stop line =
    let e = dotted-join (n ∷ ns) in
    let runs = itoas-AllRuns (n ∷ ns) in
    let starts = starts_with-join is_digit refl (itoa n) (map itoa ns) extra runs in
    rw e (
      ground (
        arith,
        starts,
        line,
        digit_first (join dot (map itoa (n ∷ ns)) ++ extra) starts,
        take_runs-join is_digit refl (itoa n) (map itoa ns) extra runs stop,
      ))

split-dotted : (n : ℕ) (ns : List ℕ) → split b'.' (dotted (n ∷ ns)) ≡ map itoa (n ∷ ns)
unfolding is_digit
split-dotted n ns =
    ap (split b'.') (dotted-join (n ∷ ns))
    ∙ split-join b'.' (itoa n) (map itoa ns)
        (runs-AllLack is_digit b'.' refl (map itoa (n ∷ ns)) (itoas-AllRuns (n ∷ ns)))

abbrev pub generic : List ℕ → Version
generic ns = record { components = ns; semver = false; pre_release = []; build_metadata = [] }

-- A generic version of two or more components that fit a uint, printed by String and parsed by
-- ParseGeneric, comes back.
pub parse-to_string-generic :
    (n m : ℕ) (ns : List ℕ)
    → AllFit (n ∷ m ∷ ns)
    → parse (to_string (generic (n ∷ m ∷ ns))) false ≡ ok (generic (n ∷ m ∷ ns))
unfolding parse to_string str_eq one_line
parse-to_string-generic n m ns fit = ground (
  arith,
  match_version-dotted n (m ∷ ns) [] tt refl,
  split-dotted n (m ∷ ns),
  parse_components-itoa false true (n ∷ m ∷ ns) fit,
)

module _ (a b c : ℕ) (pre build : List Str) (fit : AllFit (a ∷ b ∷ c ∷ []))
    (hp : AllRuns is_identifier pre) (hb : AllRuns is_identifier build)
    (numbered : valid_identifiers pre ≡ true) where
  abbrev extra : Str
  extra = marked b'-' (join dot pre) ++ marked b'+' (join dot build)

  extra-one_line : one_line extra ≡ true
  unfolding one_line
  extra-one_line =
      one_line-marked b'-' pre (marked b'+' (join dot build)) (λ e. cc) hp
      ∙ ap one_line (sym (append-nil (marked b'+' (join dot build))))
      ∙ one_line-marked b'+' build [] (λ e. cc) hb

  extra-Stops : Stops is_digit extra
  unfolding is_digit
  extra-Stops =
      Stops-marked b'-' (join dot pre) (marked b'+' (join dot build)) refl (λ e. cc)
        (subst (Stops is_digit) (append-nil (marked b'+' (join dot build)))
          (Stops-marked b'+' (join dot build) [] refl (λ e. cc) tt))

  reparse :
      str_eq extra [] ≡ false
      → parse (to_string (semantic (a ∷ b ∷ c ∷ []) pre build)) true
        ≡ ok (semantic (a ∷ b ∷ c ∷ []) pre build)
  unfolding parse to_string
  reparse some_extra = ground (
    arith,
    match_version-dotted a (b ∷ c ∷ []) extra extra-Stops extra-one_line,
    split-dotted a (b ∷ c ∷ []),
    some_extra,
    match_extra-marked pre build hp hb,
    valid_identifiers-split pre hp numbered,
    parse_components-itoa true true (a ∷ b ∷ c ∷ []) fit,
  )

-- A semantic version of three components that fit a uint, with pre-release and build metadata
-- made of identifiers and no numeric pre-release identifier that starts with a zero before other
-- digits, printed by String and parsed by ParseSemantic, comes back.
pub parse-to_string-semantic :
    (a b c : ℕ) (pre build : List Str)
    → AllFit (a ∷ b ∷ c ∷ [])
    → AllRuns is_identifier pre
    → AllRuns is_identifier build
    → valid_identifiers pre ≡ true
    → parse (to_string (semantic (a ∷ b ∷ c ∷ []) pre build)) true
      ≡ ok (semantic (a ∷ b ∷ c ∷ []) pre build)
unfolding parse to_string str_eq join one_line
parse-to_string-semantic a b c [] [] fit hp hb numbered = ground (
  arith,
  match_version-dotted a (b ∷ c ∷ []) [] tt refl,
  split-dotted a (b ∷ c ∷ []),
  parse_components-itoa true true (a ∷ b ∷ c ∷ []) fit,
)
parse-to_string-semantic a b c [] (t ∷ ts) fit hp hb numbered =
    reparse a b c [] (t ∷ ts) fit hp hb numbered (rw (marked-join b'+' t ts hb))
parse-to_string-semantic a b c (s ∷ ss) build fit hp hb numbered =
    reparse a b c (s ∷ ss) build fit hp hb numbered (rw (marked-join b'-' s ss hp))
