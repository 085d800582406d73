-- ===== src/Examples/Saves.antt =====
-- utils/iptables/save_restore.go at small buffers.
use kube_bazellb.Prelude.{
  ◌+◌, ◌≤◌, ◌<◌, none, List, [], ◌∷◌, Str, codes, string_eq, length, ◌≡◌, ◌≢◌, refl, arith,
}
use kube_bazellb.Prelude.Assoc.{Map, lookup}
use kube_bazellb.Prelude.Result.{ok, err}
use kube_bazellb.Text.{has_prefix}
use kube_bazellb.Iptables.Save.{make_chain_line, read_line, no_fuel, get_chain_lines}
use kube_bazellb.Iptables.Save.Progress.{read_line-within, get_chain_lines-ends}
use kube_bazellb.Iptables.Save.Tables.{
  printed_line, declared, other, Printed, text_of, table_text, declaration, get_chain_lines-table,
}
use kube_bazellb.Iptables.Save.Lost.{read_line-EndsSpace}

read_line-within_example :
    (2 < (read_line 2 (codes "ab cd")).1)
    × ((read_line 2 (codes "ab cd")).1 ≤ length (codes "ab cd"))
read_line-within_example = read_line-within 2 (codes "ab cd") (omega arith)

get_chain_lines-ends_example : get_chain_lines (codes "nat") (codes "*nat") ≢ err no_fuel
get_chain_lines-ends_example = get_chain_lines-ends (codes "nat") (codes "*nat")

-- The filter table stands before it; a rule stands behind the chains.
abbrev before_nat : List Str
before_nat = codes "*filter" ∷ codes ":INPUT ACCEPT [3:180]" ∷ codes "COMMIT" ∷ []

abbrev nat_lines : List Printed
nat_lines =
    declared (codes "OUTPUT") (codes "ACCEPT [5:300]")
    ∷ declared (codes "KUBE") (codes "- [0:0]")
    ∷ other (codes "-A KUBE -j MARK")
    ∷ []

-- The line that the program writes for a chain is one that declares it.
make_chain_line_test :
    make_chain_line (codes "KUBE") ≡ printed_line (declared (codes "KUBE") (codes "- [0:0]"))
unfolding make_chain_line
make_chain_line_test = refl

get_chain_lines-table_example :
    (m : Map Str Str) × (get_chain_lines
        (codes "nat")
        (text_of before_nat (table_text (codes "nat") nat_lines (codes "# end")))
      ≡ ok m)
    × ((name : Str) → lookup name m ≡ declaration name nat_lines none)
unfolding has_prefix
get_chain_lines-table_example =
    get_chain_lines-table (codes "nat") before_nat nat_lines (codes "# end") (ground arith)
      (ground arith) ((ground arith, refl), ((ground arith, refl), ((ground arith, refl), tt)))
      ((ground arith, ground arith), ((ground arith, ground arith), ((ground arith, refl), tt)))

read_line-EndsSpace_example : read_line 1 (codes "xCOMMIT ") ≡ ([], 1 + 7)
read_line-EndsSpace_example = read_line-EndsSpace 1 (codes "xCOMMIT ") (ground arith)
