-- ===== src/Iptables/Save.antt =====
-- utils/iptables/save_restore.go: chains read from the output of iptables-save. An index into the bytes
-- is a number; within a line it counts from the left end of the trimmed line.
pub mod Progress
pub mod Lines
pub mod Tables
pub mod Lost
use kube_bazellb.Prelude.{
  ℕ, zero, suc, ◌+◌, ◌-◌, Bool, true, false, not, ◌||◌, ◌&&◌, Option, none, some, List, [], ◌∷◌,
  ◌++◌, Str, codes, nat_beq, ltb, if◌then◌else◌, length, drop, ◌≡◌, refl, string_eq,
}
use kube_bazellb.Prelude.Assoc.{Map, insert}
use kube_bazellb.Prelude.Result.{Result, ok, err}
use kube_bazellb.Text.{has_prefix}

unfoldable pub make_chain_line : Str → Str
make_chain_line chain = b':' ∷ chain ++ codes " - [0:0]"

abbrev pub take : ℕ → Str → Str
take zero s = []
take (suc n) [] = []
take (suc n) (c ∷ s) = c ∷ take n s

-- How many spaces there are on the left, and the bytes behind them.
unfoldable pub skip_left : Str → ℕ × Str
skip_left [] = (0, [])
skip_left (c ∷ s) =
    let (n, rest) = skip_left s in if nat_beq c b' ' then (suc n, rest) else (0, c ∷ s)

abbrev pub is_empty : Str → Bool
is_empty [] = true
is_empty (c ∷ s) = false

abbrev pub or_here : Option ℕ → ℕ → ℕ
or_here none k = k
or_here (some right) k = right

-- The right end of a line that ends at index `k` with byte `c`.
abbrev pub line_end : Option ℕ → ℕ → ℕ → ℕ
line_end (some right) c k = right
line_end none c k = if nat_beq c 10 then k else k + 1

-- The second loop of `ReadLine`, at index `k` of the line `text`: the line, and the index behind it.
unfoldable pub scan_line : Str → ℕ → Option ℕ → Str → Str × ℕ
scan_line text k right [] = ([], k)
scan_line text k right (c ∷ s) =
    let on_space = scan_line text (suc k) (some (or_here right k)) s in
    let on_ink = scan_line text (suc k) none s in
    if nat_beq c b' '
    then on_space
    else if nat_beq c 10 || is_empty s
    then (if nat_beq k 0 then [] else take (line_end right c k) text, k + 1)
    else on_ink

unfoldable pub read_line : ℕ → Str → Str × ℕ
unfolding skip_left scan_line
read_line read_index bytes =
    let (spaces, text) = skip_left (drop read_index bytes) in
    let (line, k) = scan_line text 0 none text in (line, read_index + spaces + k)

-- How a reading can fail.
pub data Stop : Type 0 where
  panic no_fuel : Stop

-- The loop to the beginning of the table.
unfoldable pub find_table : ℕ → Str → ℕ → Str → Result Stop ℕ
unfolding read_line has_prefix
find_table zero table_prefix read_index save =
    if ltb read_index (length save) then err no_fuel else ok read_index
find_table (suc fuel) table_prefix read_index save =
    let (line, n) = read_line read_index save in
    let rest = find_table fuel table_prefix n save in
    if ltb read_index (length save)
    then (if has_prefix line table_prefix then ok n else rest)
    else ok read_index

-- `line[1:strings.Index(line, " ")]` behind the first byte; `none` is a panic.
unfoldable pub chain_name : Str → Option Str
chain_name [] = none
chain_name (c ∷ s) =
    let rest = chain_name s in
    if nat_beq c b' ' then some [] else elim rest [ none ↦ none | some name ↦ some (c ∷ name) ]

pub data LineKind : Type 0 where
  last_line no_chain : LineKind
  chain_line : Str → LineKind

abbrev pub line_kind : Str → LineKind
line_kind [] = no_chain
line_kind (c ∷ s) =
    if has_prefix (c ∷ s) (codes "COMMIT") || nat_beq c b'*'
    then last_line
    else if nat_beq c b'#'
    then no_chain
    else if nat_beq c b':' && not (is_empty s)
    then chain_line s
    else no_chain

-- What the loop does at a chain line of that name, if it has one; `rest` goes on with the loop.
abbrev pub on_chain :
    (Map Str Str → Result Stop (Map Str Str))
    → Option Str
    → Str
    → Map Str Str
    → Result Stop (Map Str Str)
on_chain rest none line chains_map = err panic
on_chain rest (some chain) line chains_map = rest (insert chain line chains_map)

abbrev pub on_line :
    (Map Str Str → Result Stop (Map Str Str))
    → LineKind
    → Str
    → Map Str Str
    → Result Stop (Map Str Str)
on_line rest last_line line chains_map = ok chains_map
on_line rest no_chain line chains_map = rest chains_map
on_line rest (chain_line s) line chains_map = on_chain rest (chain_name s) line chains_map

-- The loop over the lines of the table.
unfoldable pub parse_lines : ℕ → ℕ → Str → Map Str Str → Result Stop (Map Str Str)
unfolding read_line chain_name has_prefix
parse_lines zero read_index save chains_map =
    if ltb read_index (length save) then err no_fuel else ok chains_map
parse_lines (suc fuel) read_index save chains_map =
    let (line, n) = read_line read_index save in
    if ltb read_index (length save)
    then on_line (parse_lines fuel n save) (line_kind line) line chains_map
    else ok chains_map

unfoldable pub get_chain_lines : Str → Str → Result Stop (Map Str Str)
unfolding find_table parse_lines
get_chain_lines table save = elim (find_table (length save) (b'*' ∷ table) 0 save) [
  | err e ↦ err e
  | ok read_index ↦ parse_lines (length save) read_index save []
]

chains_test :
    get_chain_lines (codes "nat") (
      codes "*filter"
      ++ 10 ∷ codes " *nat "
      ++ 10 ∷ codes "# x"
      ++ 10 ∷ codes ":OUT - [1:2] "
      ++ 10 ∷ codes "-A OUT"
      ++ 10 ∷ codes "COMMIT")
    ≡ ok ((codes "OUT", codes ":OUT - [1:2]") ∷ [])
unfolding get_chain_lines insert
chains_test = refl

-- Without a space the slice has no right end.
panic_test : get_chain_lines [] (codes "*" ++ 10 ∷ codes ":OUT" ++ 10 ∷ []) ≡ err panic
unfolding get_chain_lines
panic_test = refl

-- The last byte of the buffer is no line of its own.
one_byte_test : read_line 0 (codes "x") ≡ ([], 1)
unfolding read_line
one_byte_test = refl
