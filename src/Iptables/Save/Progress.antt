-- ===== src/Iptables/Save/Progress.antt =====
-- `ReadLine` always moves on and stays in the buffer, so the loops of `GetChainLines` end.
use kube_bazellb.Prelude.{
  ℕ, zero, suc, ◌+◌, ◌≤◌, ◌<◌, Option, none, some, [], ◌∷◌, Str, string_eq, if◌then◌else◌, ltb,
  length, drop, ◌≡◌, ◌≢◌, refl, arith,
}
use kube_bazellb.Prelude.Assoc.{Map, insert}
use kube_bazellb.Prelude.Result.{Result, ok, err}
use kube_bazellb.Iptables.Save.{
  skip_left, scan_line, or_here, read_line, Stop, no_fuel, find_table, parse_lines, line_kind,
  on_line, on_chain, chain_name, LineKind, last_line, no_chain, chain_line, get_chain_lines,
}

length-skip_left : (s : Str) → (skip_left s).0 + length (skip_left s).1 ≡ length s
unfolding skip_left
length-skip_left [] = refl
length-skip_left (c ∷ s) = ground (arith, length-skip_left s)

scan_line-within :
    (text : Str) (k : ℕ) (right : Option ℕ) (s : Str)
    → (k ≤ (scan_line text k right s).1) × ((scan_line text k right s).1 ≤ k + length s)
unfolding scan_line
scan_line-within text k right [] = (omega arith, omega arith)
scan_line-within text k right (c ∷ s) = ground (
  arith,
  scan_line-within text (suc k) (some (or_here right k)) s,
  scan_line-within text (suc k) none s,
)

scan_line-moves :
    (text : Str) (k : ℕ) (right : Option ℕ) (c : ℕ) (s : Str)
    → k < (scan_line text k right (c ∷ s)).1
unfolding scan_line
scan_line-moves text k right c s = ground (
  arith,
  scan_line-within text (suc k) (some (or_here right k)) s,
  scan_line-within text (suc k) none s,
)

length-drop : (n : ℕ) (s : Str) → n ≤ length s → n + length (drop n s) ≡ length s
length-drop zero s h = omega arith
length-drop (suc n) [] h = omega arith
length-drop (suc n) (c ∷ s) h = omega (arith, length-drop n s (omega arith))

rest_moves : (n : ℕ) (text : Str) → 0 < n + length text → 0 < n + (scan_line text 0 none text).1
rest_moves n [] h = ground arith
rest_moves n (c ∷ s) h = omega (arith, scan_line-moves (c ∷ s) 0 none c s)

-- ReadLine from an index inside the buffer goes on to a larger index, which is at most the length
-- of the buffer.
pub read_line-within :
    (i : ℕ) (bytes : Str)
    → i < length bytes
    → (i < (read_line i bytes).1) × ((read_line i bytes).1 ≤ length bytes)
unfolding read_line
read_line-within i bytes h =
    let rest = drop i bytes in
    let dropped = length-drop i bytes (omega arith) in
    let skipped = length-skip_left rest in
    let text = (skip_left rest).1 in
    let moved = rest_moves (skip_left rest).0 text (omega (arith, dropped, skipped)) in
    let within = scan_line-within text 0 none text in
    (omega (arith, moved), omega (arith, dropped, skipped, within.1))

find_table-ends :
    (fuel : ℕ) (table_prefix : Str) (i : ℕ) (save : Str)
    → length save ≤ fuel + i
    → find_table fuel table_prefix i save ≢ err no_fuel
unfolding find_table
find_table-ends zero table_prefix i save h = ground arith
find_table-ends (suc fuel) table_prefix i save h =
    ground
      (arith, read_line-within i save, find_table-ends fuel table_prefix (read_line i save).1 save)

-- A line goes on with the loop on some map, or ends it.
module _ (rest : Map Str Str → Result Stop (Map Str Str))
    (h : (m : Map Str Str) → rest m ≢ err no_fuel) where
  chain_ends :
      (name : Option Str) (line : Str) (m : Map Str Str) → on_chain rest name line m ≢ err no_fuel
  chain_ends none line m = ground arith
  chain_ends (some chain) line m = h (insert chain line m)

  kind_ends :
      (kind : LineKind) (line : Str) (m : Map Str Str) → on_line rest kind line m ≢ err no_fuel
  kind_ends last_line line m = ground arith
  kind_ends no_chain line m = h m
  kind_ends (chain_line s) line m = chain_ends (chain_name s) line m

guarded_ends :
    (i n : ℕ) (m : Map Str Str) (next : Result Stop (Map Str Str))
    → (i < n → next ≢ err no_fuel)
    → (if ltb i n then next else ok m) ≢ err no_fuel
guarded_ends i n m next h = ground (arith, h)

parse_lines-ends :
    (fuel i : ℕ) (save : Str) (m : Map Str Str)
    → length save ≤ fuel + i
    → parse_lines fuel i save m ≢ err no_fuel
unfolding parse_lines
parse_lines-ends zero i save m h = ground arith
parse_lines-ends (suc fuel) i save m h =
    let (line, n) = read_line i save in
    guarded_ends i (length save) m (on_line (parse_lines fuel n save) (line_kind line) line m)
      (λ inside.
        kind_ends (parse_lines fuel n save)
          (λ m'. parse_lines-ends fuel n save m' (omega (arith, read_line-within i save inside)))
          (line_kind line) line m)

both_end :
    (found : Result Stop ℕ) (lines : ℕ → Result Stop (Map Str Str))
    → found ≢ err no_fuel
    → ((i : ℕ) → lines i ≢ err no_fuel)
    → elim found [ err e ↦ err e | ok i ↦ lines i ] ≢ err no_fuel
both_end (ok i) lines h g = g i
both_end (err e) lines h g = ground (arith, h)

-- GetChainLines of any text and any table ends, with the chains or in a panic, within one round
-- for each byte.
pub get_chain_lines-ends : (table save : Str) → get_chain_lines table save ≢ err no_fuel
unfolding get_chain_lines
get_chain_lines-ends table save =
    let found = find_table (length save) (b'*' ∷ table) 0 save in
    both_end found (λ i. parse_lines (length save) i save [])
      (find_table-ends (length save) (b'*' ∷ table) 0 save (omega arith))
      (λ i. parse_lines-ends (length save) i save [] (omega arith))
