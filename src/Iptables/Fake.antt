-- ===== src/Iptables/Fake.antt =====
-- utils/iptables/testing/fake_iptables.go: iptables in memory. Its maps are in the order of insertion;
-- the pointers to a table or a chain are its keys, under which it is written back.
pub mod Rules
pub mod Restore
use kube_bazellb.Prelude.{
  ℕ, Bool, true, false, ◌&&◌, Option, none, some, List, [], ◌∷◌, ◌++◌, Str, codes, string_eq, map,
  if◌then◌else◌,
}
use kube_bazellb.Prelude.Assoc.{Map, lookup, insert, remove}
use kube_bazellb.Prelude.Members.{has}
use kube_bazellb.Text.Sort.{sort}

pub record FakeChain : Type 0 where
  pub name : Str
  pub rules : List Str

pub record FakeTable : Type 0 where
  pub name : Str
  pub chains : Map Str FakeChain

pub record FakeIptables : Type 0 where
  pub tables : Map Str FakeTable
  pub builtin_chains : Map Str (List Str)

pub data FakeError : Type 0 where
  no_table : Str → FakeError
  no_chain : Str → Str → FakeError
  mismatched_quotes : FakeError
  unknown_position : Str → FakeError
  invalid_rule : Str → FakeError

-- A call returns a value or an error, in the state it leaves, or panics.
pub data Outcome (A : Type 0) : Type 0 where
  done : FakeIptables → A → Outcome A
  failed : FakeIptables → FakeError → Outcome A
  panicked : Outcome A

abbrev pub get_table : Str → FakeIptables → Option FakeTable
get_table table f = lookup table f.tables

-- The chain; without one, the table is there or it is not.
unfoldable pub get_chain : Str → Str → FakeIptables → Option FakeChain
unfolding lookup
get_chain table chain f = elim (get_table table f) [ none ↦ none | some t ↦ lookup chain t.chains ]

unfoldable pub chain_error : Str → Str → FakeIptables → FakeError
unfolding lookup
chain_error table chain f = elim (lookup table f.tables) [
  | none ↦ no_table table
  | some t ↦ no_chain table chain
]

abbrev pub new_table : Str → FakeTable
new_table table = record { name = table; chains = [] }

-- The table as it is, or as it is created.
unfoldable pub table_of : Str → FakeIptables → FakeTable
unfolding lookup
table_of table f = elim (lookup table f.tables) [ none ↦ new_table table | some t ↦ t ]

abbrev pub with_chains : Map Str FakeChain → FakeTable → FakeTable
with_chains chains t = record t { chains = chains }

-- What `table.chains[chain] = c` leaves.
unfoldable pub put_chain : Str → Str → FakeChain → FakeIptables → FakeIptables
unfolding insert table_of
put_chain table chain c f =
    let t = table_of table f in
    record f { tables = insert table (with_chains (insert chain c t.chains) t) f.tables }

unfoldable pub set_rules : Str → Str → FakeChain → List Str → FakeIptables → FakeIptables
unfolding put_chain
set_rules table chain c rules f = put_chain table chain (record c { rules = rules }) f

abbrev pub new_chain : Str → FakeChain
new_chain chain = record { name = chain; rules = [] }

unfoldable pub ensure_chain_in : Str → Str → FakeIptables → FakeIptables × (Bool × FakeChain)
unfolding get_chain put_chain
ensure_chain_in table chain f = elim (get_chain table chain f) [
  | some c ↦ (f, (true, c))
  | none ↦ (put_chain table chain (new_chain chain) f, (false, new_chain chain))
]

unfoldable pub ensure_chains : Str → List Str → FakeIptables → FakeIptables
unfolding ensure_chain_in
ensure_chains table [] f = f
ensure_chains table (c ∷ cs) f = ensure_chains table cs (ensure_chain_in table c f).0

abbrev pub builtins : Map Str (List Str)
builtins =
    (codes "filter", codes "INPUT" ∷ codes "FORWARD" ∷ codes "OUTPUT" ∷ [])
    ∷ (codes "nat", codes "PREROUTING" ∷ codes "INPUT" ∷ codes "OUTPUT" ∷ codes "POSTROUTING" ∷ [])
    ∷ (
      codes "mangle",
      codes "PREROUTING"
          ∷ codes "INPUT"
          ∷ codes "FORWARD"
          ∷ codes "OUTPUT"
          ∷ codes "POSTROUTING"
          ∷ [],
    )
    ∷ []

unfoldable pub ensure_tables : Map Str (List Str) → FakeIptables → FakeIptables
unfolding ensure_chains sort
ensure_tables [] f = f
ensure_tables ((table, chains) ∷ rest) f = ensure_tables rest (ensure_chains table (sort chains) f)

unfoldable pub new_fake_iptables : FakeIptables
unfolding ensure_tables
new_fake_iptables = ensure_tables builtins (record { tables = []; builtin_chains = builtins })

abbrev pub get_version : FakeIptables → Outcome Str
get_version f = done f (codes "1.4.21")

unfoldable pub ensure_chain : Str → Str → FakeIptables → Outcome Bool
unfolding ensure_chain_in
ensure_chain table chain f =
    let ensured = ensure_chain_in table chain f in done ensured.0 ensured.1.0

unfoldable pub flush_chain : Str → Str → FakeIptables → Outcome Unit
unfolding get_chain set_rules chain_error
flush_chain table chain f = elim (get_chain table chain f) [
  | none ↦ failed f (chain_error table chain f)
  | some c ↦ done (set_rules table chain c [] f) tt
]

-- `delete(table.chains, chain)`
unfoldable pub drop_chain : Str → Str → FakeIptables → FakeIptables
unfolding insert remove table_of
drop_chain table chain f =
    let t = table_of table f in
    record f { tables = insert table (with_chains (remove chain t.chains) t) f.tables }

unfoldable pub delete_chain : Str → Str → FakeIptables → Outcome Unit
unfolding get_chain drop_chain chain_error
delete_chain table chain f = elim (get_chain table chain f) [
  | none ↦ failed f (chain_error table chain f)
  | some c ↦ done (drop_chain table chain f) tt
]

abbrev pub is_ipv6 : FakeIptables → Bool
is_ipv6 f = false

unfoldable pub is_builtin_chain : Str → Str → FakeIptables → Bool
unfolding lookup
is_builtin_chain table chain f = elim (lookup table f.builtin_chains) [
  | none ↦ false
  | some chains ↦ has chain chains
]

unfoldable pub list_rule : Str → Str → List Str → FakeIptables → Outcome (List Str)
unfolding get_chain chain_error
list_rule table chain args f = elim (get_chain table chain f) [
  | none ↦ failed f (chain_error table chain f)
  | some c ↦ done f c.rules
]

abbrev pub ensure_policy : Str → Str → Str → FakeIptables → Outcome Unit
ensure_policy table chain policy f = done f tt

unfoldable pub save_chain : Str → List Str → Str
save_chain name [] = []
save_chain name (rule ∷ rules) =
    codes "-A " ++ name ++ codes " " ++ rule ++ codes "\n" ++ save_chain name rules

abbrev pub chain_lines : List Str → Str
chain_lines [] = []
chain_lines (name ∷ names) = codes ":" ++ name ++ codes " - [0:0]\n" ++ chain_lines names

-- The rules of the chains of these names; a name that is not a key is a nil pointer.
unfoldable pub all_rules : Map Str FakeChain → List Str → Option Str
unfolding save_chain lookup
all_rules chains [] = some []
all_rules chains (name ∷ names) =
    let rest = all_rules chains names in
    elim (lookup name chains) [
      | none ↦ none
      | some c ↦ elim rest [ none ↦ none | some text ↦ some (save_chain c.name c.rules ++ text) ]
    ]

abbrev pub chain_names : Map Str FakeChain → List Str
chain_names [] = []
chain_names ((key, c) ∷ m) = c.name ∷ chain_names m

unfoldable pub save_into : Str → Str → FakeIptables → Outcome Str
unfolding all_rules lookup sort
save_into table buffer f = elim (get_table table f) [
  | none ↦ failed f (no_table table)
  | some t ↦
      let names = sort (chain_names t.chains) in
      elim (all_rules t.chains names) [
        | none ↦ panicked
        | some rules ↦ done f (
            buffer
            ++ codes "*"
            ++ t.name
            ++ codes "\n"
            ++ chain_lines names
            ++ rules
            ++ codes "COMMIT\n")
      ]
]
