-- ===== src/Iptables/Save/Tables.antt =====
-- What `GetChainLines` makes of a table that iptables-save has printed.
use kube_bazellb.Prelude.{
  ℕ, zero, suc, ◌+◌, ◌<◌, ◌≤◌, true, false, Option, map, ◌==◌, none, some, List, [], ◌∷◌, ◌++◌, Str,
  string_eq, ltb, length, length-append, drop, if◌then◌else◌, codes, ◌≡◌, ◌≢◌, refl, ap, ◌∙◌, arith,
}
use kube_bazellb.Prelude.Assoc.{Map, insert, lookup, lookup-insert}
use kube_bazellb.Prelude.Result.{Result, ok}
use kube_bazellb.Text.{has_prefix}
use kube_bazellb.Text.Split.{Lacks}
use kube_bazellb.Iptables.Save.{
  read_line, find_table, parse_lines, chain_name, line_kind, on_line, chain_line, no_chain, Stop,
  get_chain_lines,
}
use kube_bazellb.Iptables.Save.Lines.{EndsInk, IsLine, read_line-line, drop_line, inside}

has_prefix_self : (s : Str) → has_prefix s s ≡ true
unfolding has_prefix
has_prefix_self [] = refl
has_prefix_self (c ∷ s) = ground (arith, has_prefix_self s)

EndsInk-append : (s : Str) (c : ℕ) (t : Str) → Lacks 10 s → EndsInk (c ∷ t) → EndsInk (s ++ c ∷ t)
EndsInk-append [] c t h ink = ink
EndsInk-append (a ∷ []) c t h ink = (h.0, ink)
EndsInk-append (a ∷ b ∷ s) c t h ink = (h.0, EndsInk-append (b ∷ s) c t h.1 ink)

lacking-IsLine : (c : ℕ) (s : Str) → c ≢ b' ' → c ≢ 10 → Lacks b' ' s → Lacks 10 s → IsLine (c ∷ s)
lacking-IsLine c [] h g l m = (h, (h, g))
lacking-IsLine c (d ∷ s) h g l m = (h, (g, (lacking-IsLine d s l.0 m.0 l.1 m.1).1))

chain_name-line : (chain t : Str) → Lacks b' ' chain → chain_name (chain ++ b' ' ∷ t) ≡ some chain
unfolding chain_name
chain_name-line [] t h = refl
chain_name-line (c ∷ chain) t h = ground (arith, chain_name-line chain t h.1, h.0)

-- A line of a table: a chain with its policy and its counters, or anything else.
pub data Printed : Type 0 where
  declared : Str → Str → Printed
  other : Str → Printed

abbrev pub printed_line : Printed → Str
printed_line (declared chain rest) = b':' ∷ chain ++ b' ' ∷ rest
printed_line (other line) = line

-- The names of chains have neither spaces nor line feeds; other lines are rules or comments.
abbrev pub IsPrinted : Printed → Type 0
IsPrinted (declared chain rest) = (Lacks b' ' chain × Lacks 10 chain) × EndsInk rest
IsPrinted (other line) = IsLine line × (line_kind line ≡ no_chain)

abbrev pub ArePrinted : List Printed → Type 0
ArePrinted [] = Unit
ArePrinted (l ∷ ls) = IsPrinted l × ArePrinted ls

-- Lines of other tables, none of which begins like the first line of the table.
abbrev pub AreBefore : Str → List Str → Type 0
AreBefore first [] = Unit
AreBefore first (l ∷ ls) = (IsLine l × (has_prefix l first ≡ false)) × AreBefore first ls

abbrev pub text_of : List Str → Str → Str
text_of [] tail = tail
text_of (l ∷ ls) tail = l ++ 10 ∷ text_of ls tail

-- The output from the first line of the table on.
abbrev pub table_text : Str → List Printed → Str → Str
table_text table lines tail =
    b'*' ∷ table ++ 10 ∷ text_of (map printed_line lines) (codes "COMMIT" ++ 10 ∷ tail)

-- The last line that declares the chain, or what is known of it before.
abbrev pub declaration : Str → List Printed → Option Str → Option Str
declaration name [] known = known
declaration name (declared chain rest ∷ ls) known =
    declaration name ls (if chain == name then some (printed_line (declared chain rest)) else known)
declaration name (other line ∷ ls) known = declaration name ls known

abbrev add_all : List Printed → Map Str Str → Map Str Str
add_all [] m = m
add_all (declared chain rest ∷ ls) m =
    add_all ls (insert chain (printed_line (declared chain rest)) m)
add_all (other line ∷ ls) m = add_all ls m

lookup-add_all :
    (name : Str) (lines : List Printed) (m : Map Str Str)
    → lookup name (add_all lines m) ≡ declaration name lines (lookup name m)
lookup-add_all name [] m = refl
lookup-add_all name (declared chain rest ∷ ls) m =
    let line = printed_line (declared chain rest) in
    lookup-add_all name ls (insert chain line m)
    ∙ ap (declaration name ls) (lookup-insert chain name line m)
lookup-add_all name (other line ∷ ls) m = lookup-add_all name ls m

EndsInk-space : (rest : Str) → EndsInk rest → EndsInk (b' ' ∷ rest)
EndsInk-space [] h = absurd h
EndsInk-space (c ∷ s) h = (ground arith, h)

printed_line-IsLine : (l : Printed) → IsPrinted l → IsLine (printed_line l)
printed_line-IsLine (declared chain rest) h = (
  ground arith,
  EndsInk-append (b':' ∷ chain) b' ' rest (ground arith, h.0.1) (EndsInk-space rest h.1),
)
printed_line-IsLine (other line) h = h.0

parse_lines-step :
    (fuel i : ℕ) (save line : Str) (n : ℕ) (m : Map Str Str)
    → i < length save
    → read_line i save ≡ (line, n)
    → parse_lines (suc fuel) i save m ≡ on_line (parse_lines fuel n save) (line_kind line) line m
unfolding parse_lines
parse_lines-step fuel i save line n m h e =
    ap
      (λ p.
        if ltb i (length save)
        then on_line (parse_lines fuel p.1 save) (line_kind p.0) p.0 m
        else ok m)
      e
    ∙ ground (arith, h)

chain_line_kind :
    (chain rest : Str)
    → line_kind (printed_line (declared chain rest)) ≡ chain_line (chain ++ b' ' ∷ rest)
unfolding has_prefix
chain_line_kind [] rest = refl
chain_line_kind (c ∷ chain) rest = refl

on_printed_line :
    (go : Map Str Str → Result Stop (Map Str Str)) (l : Printed) (ls : List Printed)
    (m : Map Str Str)
    → IsPrinted l
    → ((n : Map Str Str) → go n ≡ ok (add_all ls n))
    → on_line go (line_kind (printed_line l)) (printed_line l) m ≡ ok (add_all (l ∷ ls) m)
on_printed_line go (declared chain rest) ls m h g =
    rw (chain_line_kind chain rest, chain_name-line chain rest h.0.0)
      (g (insert chain (printed_line (declared chain rest)) m))
on_printed_line go (other line) ls m h g = rw (h.1) (g m)

line_inside :
    (i : ℕ) (save line rest : Str) → IsLine line → drop i save ≡ line ++ rest → i < length save
line_inside i save [] rest h e = absurd h
line_inside i save (c ∷ s) rest h e = inside i save c (s ++ rest) e

on_commit :
    (rest : Map Str Str → Result Stop (Map Str Str)) (m : Map Str Str)
    → on_line rest (line_kind (codes "COMMIT")) (codes "COMMIT") m ≡ ok m
unfolding has_prefix
on_commit rest m = refl

parse_table :
    (fuel i : ℕ) (save : Str) (lines : List Printed) (tail : Str) (m : Map Str Str)
    → length lines < fuel
    → ArePrinted lines
    → drop i save ≡ text_of (map printed_line lines) (codes "COMMIT" ++ 10 ∷ tail)
    → parse_lines fuel i save m ≡ ok (add_all lines m)
parse_table zero i save lines tail m h printed e = absurd (omega arith)
parse_table (suc fuel) i save [] tail m h printed e =
    parse_lines-step fuel i save (codes "COMMIT") (i + 6 + 1) m
      (inside i save b'C' (codes "OMMIT" ++ 10 ∷ tail) e)
      (read_line-line i save (codes "COMMIT") tail (ground arith) e)
    ∙ on_commit (parse_lines fuel (i + 6 + 1) save) m
parse_table (suc fuel) i save (l ∷ lines) tail m h printed e =
    let line = printed_line l in
    let rest = text_of (map printed_line lines) (codes "COMMIT" ++ 10 ∷ tail) in
    let is_line = printed_line-IsLine l printed.0 in
    parse_lines-step fuel i save line (i + length line + 1) m
      (line_inside i save line (10 ∷ rest) is_line e) (read_line-line i save line rest is_line e)
    ∙ on_printed_line (parse_lines fuel (i + length line + 1) save) l lines m printed.0 (λ n.
      parse_table fuel (i + length line + 1) save lines tail n (omega arith) printed.1
        (drop_line i save line rest e))

find_step :
    (fuel i : ℕ) (save first line : Str) (n : ℕ)
    → i < length save
    → read_line i save ≡ (line, n)
    → has_prefix line first ≡ false
    → find_table (suc fuel) first i save ≡ find_table fuel first n save
unfolding find_table
find_step fuel i save first line n h e p = ground (arith, h, p, ap (λ q. q.0) e, ap (λ q. q.1) e)

find_first :
    (fuel i : ℕ) (save line : Str) (n : ℕ)
    → 0 < fuel
    → i < length save
    → read_line i save ≡ (line, n)
    → find_table fuel line i save ≡ ok n
unfolding find_table
find_first zero i save line n f h e = absurd (omega arith)
find_first (suc fuel) i save line n f h e =
    ground (arith, h, has_prefix_self line, ap (λ p. p.0) e, ap (λ p. p.1) e)

-- The table is found behind the lines before it.
find_behind :
    (fuel i : ℕ) (save first : Str) (before : List Str) (rest : Str)
    → length before < fuel
    → AreBefore first before
    → IsLine first
    → drop i save ≡ text_of before (first ++ 10 ∷ rest)
    → (n : ℕ) × (find_table fuel first i save ≡ ok n) × (drop n save ≡ rest)
find_behind zero i save first before rest h b l e = absurd (omega arith)
find_behind (suc fuel) i save first [] rest h b l e = (
  i + length first + 1,
  find_first (suc fuel) i save first (i + length first + 1) (omega arith)
      (line_inside i save first (10 ∷ rest) l e) (read_line-line i save first rest l e),
  drop_line i save first rest e,
)
find_behind (suc fuel) i save first (line ∷ before) rest h b l e =
    let more = text_of before (first ++ 10 ∷ rest) in
    let (n, found, at) =
      find_behind fuel (i + length line + 1) save first before rest (omega arith) b.1 l
        (drop_line i save line more e) in
    (
      n,
      find_step fuel i save first line (i + length line + 1)
            (line_inside i save line (10 ∷ more) b.0.0 e) (read_line-line i save line more b.0.0 e)
            b.0.1
          ∙ found,
      at,
    )

length-text_of : (ls : List Str) (tail : Str) → length ls + length tail ≤ length (text_of ls tail)
length-text_of [] tail = omega arith
length-text_of (l ∷ ls) tail =
    omega (arith, length-text_of ls tail, length-append l (10 ∷ text_of ls tail))

length-printed : (ls : List Printed) → length (map printed_line ls) ≡ length ls
length-printed [] = refl
length-printed (l ∷ ls) = ground (arith, length-printed ls)

fuel_enough :
    (table : Str) (before : List Str) (lines : List Printed) (tail : Str)
    → (length before < length (text_of before (table_text table lines tail)))
      × (length lines < length (text_of before (table_text table lines tail)))
fuel_enough table before lines tail =
    let outer = length-text_of before (table_text table lines tail) in
    let inner = length-text_of (map printed_line lines) (codes "COMMIT" ++ 10 ∷ tail) in
    let middle =
      length-append table (10 ∷ text_of (map printed_line lines) (codes "COMMIT" ++ 10 ∷ tail)) in
    let same = length-printed lines in (omega arith, omega arith)

-- GetChainLines reads from a text exactly the chains that the lines of the table declare, each
-- with the last line that declares it. The text has lines before the table, none of which begins
-- like its first line, then the first line, lines of chains with any policy and counters or of
-- rules and comments between them, a COMMIT line, and anything behind it; no line read is empty
-- or has a space at either end, and names have neither spaces nor line feeds.
pub get_chain_lines-table :
    (table : Str) (before : List Str) (lines : List Printed) (tail : Str)
    → Lacks b' ' table
    → Lacks 10 table
    → AreBefore (b'*' ∷ table) before
    → ArePrinted lines
    → (m : Map Str Str) × (get_chain_lines table (text_of before (table_text table lines tail))
        ≡ ok m)
      × ((name : Str) → lookup name m ≡ declaration name lines none)
unfolding get_chain_lines lookup
get_chain_lines-table table before lines tail space feed others printed =
    let save = text_of before (table_text table lines tail) in
    let fuel = fuel_enough table before lines tail in
    let (n, found, at) =
      find_behind (length save) 0 save (b'*' ∷ table) before
        (text_of (map printed_line lines) (codes "COMMIT" ++ 10 ∷ tail)) fuel.0 others
        (lacking-IsLine b'*' table (ground arith) (ground arith) space feed) refl in
    let parsed = parse_table (length save) n save lines tail [] fuel.1 printed at in
    (add_all lines [], ground (arith, found, parsed), λ name. lookup-add_all name lines [])
