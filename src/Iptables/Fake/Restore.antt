-- ===== src/Iptables/Fake/Restore.antt =====
-- utils/iptables/testing/fake_iptables.go, `restore`.
use kube_bazellb.Prelude.{
  Bool, ◌&&◌, ◌||◌, not, none, some, List, [], ◌∷◌, ◌++◌, Str, codes, str_eq, if◌then◌else◌, length,
  drop,
}
use kube_bazellb.Text.{has_prefix, split, contains}
use kube_bazellb.Net.{Net}
use kube_bazellb.Iptables.{prepend, append_position}
use kube_bazellb.Iptables.Fake.{
  FakeIptables, Outcome, done, failed, panicked, invalid_rule, get_chain, drop_chain,
  ensure_chain_in, flush_chain, delete_chain, is_builtin_chain,
}
use kube_bazellb.Iptables.Fake.Rules.{ensure_rule_text}

-- What `ReadString` gives line by line: a last line without an end is not read.
unfoldable pub whole_lines : List Str → List Str
whole_lines [] = []
whole_lines (s ∷ []) = []
whole_lines (s ∷ t ∷ rest) = s ∷ whole_lines (t ∷ rest)

-- What a line does: the loop goes on with the table, or it is left.
pub data Control : Type 0 where
  goes_on : Str → FakeIptables → Control
  leaves : Outcome Unit → Control

abbrev pub then_on : {A : Type 0} → Str → Outcome A → Control
then_on table (done f a) = goes_on table f
then_on table (failed f e) = leaves (failed f e)
then_on table panicked = leaves panicked

abbrev pub first_part : List Str → Str
first_part [] = []
first_part (p ∷ parts) = p

-- `strings.TrimPrefix`
unfoldable pub trim_prefix : Str → Str → Str
unfolding has_prefix
trim_prefix [] prefix = []
trim_prefix (c ∷ s) [] = c ∷ s
trim_prefix (c ∷ s) (p ∷ ps) =
    if has_prefix (c ∷ s) (p ∷ ps) then drop (length (p ∷ ps)) (c ∷ s) else c ∷ s

-- With the flag, a chain that is there is taken away first.
unfoldable pub flushed_table : Bool → Str → Str → FakeIptables → FakeIptables
unfolding get_chain drop_chain
flushed_table flush table chain f = elim (get_chain table chain f) [
  | none ↦ f
  | some c ↦ (if flush then drop_chain table chain f else f)
]

unfoldable pub declare_chain : Str → Bool → Str → Str → FakeIptables → Control
unfolding flushed_table ensure_chain_in flush_chain is_builtin_chain contains
declare_chain all_lines flush table chain f =
    let ensured = (ensure_chain_in table chain (flushed_table flush table chain f)).0 in
    if not (is_builtin_chain table chain ensured) && not (contains all_lines (codes "-X " ++ chain))
    then then_on table (flush_chain table chain ensured)
    else goes_on table ensured

module _ (net : Net) where
  unfoldable pub add_line : Str → Str → Str → List Str → FakeIptables → Control
  unfolding ensure_rule_text trim_prefix
  add_line position table line (op ∷ chain ∷ rule ∷ rest) f = then_on table (
      ensure_rule_text net position table chain
        (trim_prefix line (position ++ codes " " ++ chain ++ codes " ")) f)
  add_line position table line parts f = leaves (failed f (invalid_rule line))

  unfoldable pub delete_line : Str → Str → List Str → FakeIptables → Control
  unfolding delete_chain
  delete_line table line (op ∷ chain ∷ rest) f = then_on table (delete_chain table chain f)
  delete_line table line parts f = leaves (failed f (invalid_rule line))

  unfoldable pub table_line : Str → Bool → Str → Str → Str → FakeIptables → Control
  unfolding has_prefix declare_chain add_line delete_line split str_eq
  table_line all_lines flush wanted table line f =
      if has_prefix line (codes ":")
      then declare_chain all_lines flush table (first_part (split 32 (drop 1 line))) f
      else if has_prefix line append_position
      then add_line append_position table line (split 32 line) f
      else if has_prefix line prepend
      then add_line prepend table line (split 32 line) f
      else if has_prefix line (codes "-X")
      then delete_line table line (split 32 line) f
      else if str_eq line (codes "COMMIT")
      then (if str_eq wanted table then leaves (done f tt) else goes_on [] f)
      else goes_on table f

  unfoldable pub restore_line : Str → Bool → Str → Str → Str → FakeIptables → Control
  unfolding table_line str_eq has_prefix
  restore_line all_lines flush wanted table line f =
      if has_prefix line (codes "#")
      then goes_on table f
      else (let now = if has_prefix line (codes "*") then drop 1 line else table in
          if str_eq now [] || not (str_eq wanted []) && not (str_eq wanted now)
          then goes_on now f
          else table_line all_lines flush wanted now line f)

  unfoldable pub restore_lines : Str → Bool → Str → Str → List Str → FakeIptables → Outcome Unit
  unfolding restore_line
  restore_lines all_lines flush wanted table [] f = done f tt
  restore_lines all_lines flush wanted table (line ∷ lines) f =
      elim (restore_line all_lines flush wanted table line f) [
        | leaves outcome ↦ outcome
        | goes_on now g ↦ restore_lines all_lines flush wanted now lines g
      ]

  unfoldable pub restore_data : Str → Str → Bool → FakeIptables → Outcome Unit
  unfolding restore_lines whole_lines split
  restore_data wanted data_bytes flush f =
      restore_lines data_bytes flush wanted [] (whole_lines (split 10 data_bytes)) f

  unfoldable pub restore : Str → Str → Bool → Bool → FakeIptables → Outcome Unit
  unfolding restore_data
  restore table data_bytes flush counters f = restore_data table data_bytes flush f

  unfoldable pub restore_all : Str → Bool → Bool → FakeIptables → Outcome Unit
  unfolding restore_data
  restore_all data_bytes flush counters f = restore_data [] data_bytes flush f
