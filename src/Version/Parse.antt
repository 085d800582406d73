-- ===== src/Version/Parse.antt =====
-- `parse` and `Compare`. The two regular expressions are matched by hand: all their repetitions are
-- greedy, and what follows each cannot start with a byte that it takes, so nothing is tried twice.
use kube_bazellb.Prelude.{
  ℕ, Bool, true, false, ◌&&◌, ◌||◌, not, Option, none, some, List, [], ◌∷◌, ◌++◌, Str, codes, ltb,
  leb, nat_beq, str_eq, if◌then◌else◌, length, ℤ, ◌≡◌, refl,
}
use kube_bazellb.Prelude.Result.{Result, ok, err, ◌>>=◌}
use kube_bazellb.Text.{split, has_prefix, parse_uint, is_digit}
use kube_bazellb.Version.{Version, compare_internal}

pub data ParseError : Type 0 where
  could_not_parse illegal_version zero_prefixed non_numeric bad_extra : ParseError

-- `\s`: tab, line feed, form feed, carriage return, space.
unfoldable pub is_space : ℕ → Bool
is_space c = nat_beq c 9 || nat_beq c 10 || nat_beq c 12 || nat_beq c 13 || nat_beq c 32

-- `[0-9A-Za-z-]`
unfoldable pub is_identifier : ℕ → Bool
unfolding is_digit
is_identifier c =
    is_digit c || leb b'A' c && leb c b'Z' || leb b'a' c && leb c b'z' || nat_beq c b'-'

abbrev pub starts_with : (ℕ → Bool) → Str → Bool
starts_with p [] = false
starts_with p (c ∷ s) = p c

-- `\s*`
unfoldable pub skip_spaces : Str → Str
unfolding is_space
skip_spaces [] = []
skip_spaces (c ∷ s) = if is_space c then skip_spaces s else c ∷ s

-- `v?`
unfoldable pub skip_v : Str → Str
skip_v [] = []
skip_v (c ∷ s) = if nat_beq c b'v' then s else c ∷ s

-- `p+(?:\.p+)*` from inside a run: what it takes, and what is left. A dot is taken only in front of
-- another byte of the class.
unfoldable pub take_runs : (ℕ → Bool) → Str → Str × Str
take_runs p [] = ([], [])
take_runs p (c ∷ s) =
    let rest = take_runs p s in
    if p c || nat_beq c b'.' && starts_with p s then (c ∷ rest.0, rest.1) else ([], c ∷ s)

-- `(.*)*$`: no line feed up to the end of the text.
unfoldable pub one_line : Str → Bool
one_line [] = true
one_line (c ∷ s) = not (nat_beq c 10) && one_line s

-- `^\s*v?([0-9]+(?:\.[0-9]+)*)(.*)*$`: the two groups.
unfoldable pub match_version : Str → Option (Str × Str)
unfolding skip_spaces skip_v take_runs one_line is_digit
match_version s =
    let rest = skip_v (skip_spaces s) in
    let (numbers, extra) = take_runs is_digit rest in
    if starts_with is_digit rest && one_line extra then some (numbers, extra) else none

-- `(?:-([0-9A-Za-z-]+(?:\.[0-9A-Za-z-]+)*))?`, and the same behind a `+`: the group and the rest.
unfoldable pub take_group : ℕ → Str → Str × Str
unfolding take_runs is_identifier
take_group mark [] = ([], [])
take_group mark (c ∷ s) =
    if nat_beq c mark && starts_with is_identifier s then take_runs is_identifier s else ([], c ∷ s)

-- `^(?:-(…))?(?:\+(…))?\s*$`: the two groups.
unfoldable pub match_extra : Str → Option (Str × Str)
unfolding take_group skip_spaces
match_extra s =
    let (pre, s') = take_group b'-' s in
    let (build, s'') = take_group b'+' s' in
    if str_eq (skip_spaces s'') [] then some (pre, build) else none

-- `strings.HasPrefix(comp, "0") && comp != "0"`
unfoldable pub has_leading_zero : Str → Bool
unfolding has_prefix
has_leading_zero comp = has_prefix comp (codes "0") && not (str_eq comp (codes "0"))

abbrev number : Str → Result ParseError ℕ
number comp = elim (parse_uint comp) [ none ↦ err non_numeric | some n ↦ ok n ]

-- The loop over the components; `first` says that the index is 0.
unfoldable pub parse_components : Bool → Bool → List Str → Result ParseError (List ℕ)
unfolding has_leading_zero parse_uint
parse_components semver first [] = ok []
parse_components semver first (comp ∷ comps) =
    if (first || semver) && has_leading_zero comp
    then err zero_prefixed
    else (do n ← number comp; ns ← parse_components semver false comps; ok (n ∷ ns))

-- The loop over the pre-release identifiers: true if each that is a number has no leading zero.
unfoldable pub valid_identifiers : List Str → Bool
unfolding has_leading_zero parse_uint
valid_identifiers [] = true
valid_identifiers (comp ∷ comps) = elim (parse_uint comp) [
  | none ↦ valid_identifiers comps
  | some n ↦ if has_leading_zero comp then false else valid_identifiers comps
]

abbrev parse_extra : Version → Str → Result ParseError Version
parse_extra v extra = elim (match_extra extra) [
  | none ↦ err bad_extra
  | some (pre, build) ↦
      if valid_identifiers (split b'.' pre)
      then ok (record v { pre_release = pre; build_metadata = build })
      else err zero_prefixed
]

abbrev parse_numbers : Bool → Str → Str → Result ParseError Version
parse_numbers semver numbers extra =
    let components = split b'.' numbers in
    if semver && not (nat_beq (length components) 3) || not semver && ltb (length components) 2
    then err illegal_version
    else (do
      ns ← parse_components semver true components
      let v : Version = record {
        components = ns;
        semver = semver;
        pre_release = [];
        build_metadata = [];
      }
      if semver && not (str_eq extra []) then parse_extra v extra else ok v)

unfoldable pub parse : Str → Bool → Result ParseError Version
unfolding match_version split match_extra valid_identifiers parse_components
parse str semver = elim (match_version str) [
  | none ↦ err could_not_parse
  | some (numbers, extra) ↦ parse_numbers semver numbers extra
]

abbrev pub parse_generic : Str → Result ParseError Version
parse_generic str = parse str false

abbrev pub parse_semantic : Str → Result ParseError Version
parse_semantic str = parse str true

-- `Compare` of a version with a string that is read the way the version was.
unfoldable pub compare : Version → Str → Result ParseError ℤ
unfolding parse compare_internal
compare v other = do ov ← parse other v.semver; ok (compare_internal v ov)

abbrev alpha : Version
alpha = record {
  components = 1 ∷ 0 ∷ 2 ∷ [];
  semver = true;
  pre_release = codes "alpha.1";
  build_metadata = codes "001";
}

parse_alpha : parse_semantic (codes "  v1.0.2-alpha.1+001 ") ≡ ok alpha
unfolding parse str_eq
parse_alpha = refl

parse_bad : parse_semantic (codes "1.2.3-01") ≡ err zero_prefixed
unfolding parse str_eq
parse_bad = refl

-- White space at the end is part of the uninterpreted rest, but a line feed there is refused.
parse_line_feed : parse_generic (codes "1.2.3" ++ 10 ∷ []) ≡ err could_not_parse
unfolding parse
parse_line_feed = refl

parse_suffix :
    parse_generic (codes "1.2a.3")
    ≡ ok (record { components = 1 ∷ 2 ∷ []; semver = false; pre_release = []; build_metadata = [] })
unfolding parse
parse_suffix = refl
