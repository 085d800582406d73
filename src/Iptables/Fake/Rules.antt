-- ===== src/Iptables/Fake/Rules.antt =====
-- utils/iptables/testing/fake_iptables.go: the rules of a chain. The texts of rules are normalized when
-- they are added.
pub mod Enough
use kube_bazellb.Prelude.{
  ℕ, zero, suc, ◌+◌, Bool, true, false, Option, none, some, List, [], ◌∷◌, ◌++◌, Str, codes,
  nat_beq, str_eq, string_eq, if◌then◌else◌, map, length, drop,
}
use kube_bazellb.Prelude.Result.{Result, ok, err}
use kube_bazellb.Text.{has_prefix, join, contains}
use kube_bazellb.Text.Trim.{trim_space}
use kube_bazellb.Net.{Net}
use kube_bazellb.Iptables.{prepend, append_position}
use kube_bazellb.Iptables.Fake.{
  FakeChain, FakeIptables, Outcome, done, failed, panicked, unknown_position, mismatched_quotes,
  get_chain, set_rules, ensure_chain_in,
}

-- `findRule`, with none for -1.
unfoldable pub find_rule : List Str → Str → Option ℕ
unfolding str_eq
find_rule [] rule = none
find_rule (candidate ∷ rules) rule =
    let rest = find_rule rules rule in
    if str_eq rule candidate then some 0 else elim rest [ none ↦ none | some i ↦ some (suc i) ]

-- `strings.Index` of one byte.
unfoldable pub index_byte : ℕ → Str → Option ℕ
index_byte byte [] = none
index_byte byte (c ∷ s) =
    let rest = index_byte byte s in
    if nat_beq c byte then some 0 else elim rest [ none ↦ none | some i ↦ some (suc i) ]

abbrev pub first_bytes : ℕ → Str → Str
first_bytes zero s = []
first_bytes (suc n) [] = []
first_bytes (suc n) (c ∷ s) = c ∷ first_bytes n s

-- `strings.Replace(s, "=", " ", 1)`
abbrev pub replace_equals : Str → Str
replace_equals [] = []
replace_equals (c ∷ s) = if nat_beq c b'=' then b' ' ∷ s else c ∷ replace_equals s

unfoldable pub to_destination : Str → Str
unfolding has_prefix
to_destination remaining =
    if has_prefix remaining (codes "--to-destination=") then replace_equals remaining else remaining

-- Where the first argument ends; a quoted one ends behind its second quote. An empty text has no
-- first byte to look at.
pub data End : Type 0 where
  ends_at : ℕ → End
  mismatched : End
  out_of_range : End

unfoldable pub arg_end : Str → End
unfolding index_byte
arg_end [] = out_of_range
arg_end (c ∷ s) =
    if nat_beq c b'"'
    then elim (index_byte b'"' s) [ none ↦ mismatched | some i ↦ ends_at (i + 2) ]
    else elim (index_byte b' ' (c ∷ s)) [ none ↦ ends_at (length (c ∷ s)) | some i ↦ ends_at i ]

pub data Normalized : Type 0 where
  normalized : Str → Normalized
  not_closed : Normalized
  no_fuel : Normalized
  index_panic : Normalized

module _ (net : Net) where
  -- `net.ParseIP(arg) != nil`
  abbrev pub with_mask : Str → Str
  with_mask arg = if net.eq.same (net.parse arg) net.nil then arg else arg ++ codes "/32"

  unfoldable pub add_arg : Str → Str → Str
  unfolding trim_space str_eq
  add_arg so_far arg =
      (if str_eq so_far [] then [] else so_far ++ codes " ") ++ trim_space (with_mask arg)

  unfoldable pub on_end : (Str → Str → Normalized) → Str → Str → End → Normalized
  unfolding add_arg
  on_end next so_far text out_of_range = index_panic
  on_end next so_far text mismatched = not_closed
  on_end next so_far text (ends_at end) =
      let added = add_arg so_far (first_bytes end text) in
      if nat_beq (length text) end then normalized added else next added (drop (suc end) text)

  -- The loop, which takes a byte at least in each round but the last.
  unfoldable pub normalize_from : ℕ → Str → Str → Normalized
  unfolding arg_end to_destination on_end
  normalize_from zero so_far remaining = no_fuel
  normalize_from (suc fuel) so_far remaining =
      let text = to_destination remaining in on_end (normalize_from fuel) so_far text (arg_end text)

  unfoldable pub normalize_rule : Str → Normalized
  unfolding normalize_from trim_space
  normalize_rule rule =
      let remaining = trim_space rule in normalize_from (suc (length remaining)) [] remaining

  unfoldable pub place_rule : Str → Str → Str → FakeChain → Str → FakeIptables → Outcome Bool
  unfolding find_rule set_rules str_eq
  place_rule position table chain c rule f = elim (find_rule c.rules rule) [
    | some i ↦ done f true
    | none ↦
        (if str_eq position prepend
          then done (set_rules table chain c (rule ∷ c.rules) f) false
          else if str_eq position append_position
          then done (set_rules table chain c (c.rules ++ rule ∷ []) f) false
          else failed f (unknown_position position))
  ]

  -- `ensureRule`. The chain is created first, whatever becomes of the rule.
  unfoldable pub ensure_rule_text : Str → Str → Str → Str → FakeIptables → Outcome Bool
  unfolding ensure_chain_in normalize_rule place_rule
  ensure_rule_text position table chain rule f =
      let ensured = ensure_chain_in table chain f in
      elim (normalize_rule rule) [
        | index_panic ↦ panicked
        | no_fuel ↦ panicked
        | not_closed ↦ failed ensured.0 mismatched_quotes
        | normalized text ↦ place_rule position table chain ensured.1.1 text ensured.0
      ]

  unfoldable pub quote_args : List Str → List Str
  unfolding contains
  quote_args [] = []
  quote_args (arg ∷ args) =
      (if contains arg (codes " ") then codes "\"" ++ arg ++ codes "\"" else arg) ∷ quote_args args

  unfoldable pub ensure_rule : Str → Str → Str → List Str → FakeIptables → Outcome Bool
  unfolding ensure_rule_text quote_args join
  ensure_rule position table chain args f =
      ensure_rule_text position table chain (join (codes " ") (quote_args args)) f

abbrev pub remove_at : ℕ → List Str → List Str
remove_at i [] = []
remove_at zero (r ∷ rules) = rules
remove_at (suc i) (r ∷ rules) = r ∷ remove_at i rules

unfoldable pub delete_rule : Str → Str → List Str → FakeIptables → Outcome Unit
unfolding get_chain find_rule set_rules join
delete_rule table chain args f = elim (get_chain table chain f) [
  | none ↦ done f tt
  | some c ↦ elim (find_rule c.rules (join (codes " ") args)) [
    | none ↦ done f tt
    | some i ↦ done (set_rules table chain c (remove_at i c.rules) f) tt
  ]
]
