-- ===== src/Ipset/Fake.antt =====
-- utils/ipset/testing/fake.go: sets in memory. A nil map is `none`: it reads as empty, and a write to
-- it panics. The listings of a Go map or set come in any order; here they come in the order in which
-- the entries were added. `sets.String` is a list without repetition.
pub mod Laws
use kube_bazellb.Prelude.{
  Bool, true, false, not, Option, none, some, List, [], ◌∷◌, ◌++◌, Str, codes, string_eq,
  if◌then◌else◌,
}
use kube_bazellb.Prelude.Assoc.{Map, lookup, insert, remove}
use kube_bazellb.Prelude.Members.{has, keys, is_some}
use kube_bazellb.Text.{join}
use kube_bazellb.Text.Sort.{sort}
use kube_bazellb.Ipset.{IpSet, IpSetEntry}
use kube_bazellb.Ipset.Entry.{entry_string}
use kube_bazellb.Ipset.Interface.{Interface}

pub record FakeIpSet : Type 0 where
  pub version : Str
  pub sets : Option (Map Str IpSet)
  pub entries : Option (Map Str (List Str))

-- A state of the program, or a run-time panic.
pub data State : Type 0 where
  running : FakeIpSet → State
  panicked : State

unfoldable pub new_fake : Str → State
new_fake version = running (record { version = version; sets = some []; entries = some [] })

abbrev pub or_nil : {V : Type 0} → Option (Map Str V) → Map Str V
or_nil none = []
or_nil (some m) = m

-- `f.Entries[set]`; a missing set of strings is nil, which reads as empty.
abbrev pub members : FakeIpSet → Str → List Str
members f set = elim (lookup set (or_nil f.entries)) [ none ↦ [] | some l ↦ l ]

abbrev pub without : Str → List Str → List Str
without entry [] = []
without entry (x ∷ xs) =
    let rest = without entry xs in if string_eq.same x entry then rest else x ∷ rest

abbrev put : FakeIpSet → Map Str (List Str) → State
put f m = running (record f { entries = some m })

-- Popping until nothing is left. A nil set of strings has nothing to pop.
unfoldable pub flush_set : Str → State → State × Bool
flush_set set panicked = (panicked, false)
flush_set set (running f) = elim f.entries [
  | none ↦ (running f, false)
  | some m ↦ (if is_some (lookup set m) then put f (insert set [] m) else running f, true)
]

unfoldable pub destroy_set : Str → State → State × Bool
destroy_set set panicked = (panicked, false)
destroy_set set (running f) = (
  running (record {
    version = f.version;
    sets = elim f.sets [ none ↦ none | some m ↦ some (remove set m) ];
    entries = elim f.entries [ none ↦ none | some m ↦ some (remove set m) ];
  }),
  true,
)

unfoldable pub destroy_all_sets : State → State × Bool
destroy_all_sets panicked = (panicked, false)
destroy_all_sets (running f) = (running (record f { sets = none; entries = none }), true)

abbrev create : FakeIpSet → IpSet → Option (Map Str IpSet) → Option (Map Str (List Str)) → State
create f set (some sets) (some entries) = running (record {
  version = f.version;
  sets = some (insert set.name set sets);
  entries = some (insert set.name [] entries);
})
create f set (some sets) none = panicked
create f set none entries = panicked

unfoldable pub create_set : IpSet → Bool → State → State × (IpSet × Bool)
create_set set ignore panicked = (panicked, (set, false))
create_set set ignore (running f) =
    if is_some (lookup set.name (or_nil f.sets))
    then (running f, (set, ignore))
    else let after = create f set f.sets f.entries in
      (after, (set, elim after [ running g ↦ true | panicked ↦ false ]))

-- An insertion into the nil set of strings of a set that was not created is a panic.
abbrev insert_entry : Str → FakeIpSet → Str → Option (List Str) → State
insert_entry set f entry none = panicked
insert_entry set f entry (some l) = put f (insert set (l ++ entry ∷ []) (or_nil f.entries))

unfoldable pub add_entry : Str → IpSet → Bool → State → State × Bool
add_entry entry set ignore panicked = (panicked, false)
add_entry entry set ignore (running f) =
    if has entry (members f set.name)
    then (running f, ignore)
    else let after = insert_entry set.name f entry (lookup set.name (or_nil f.entries)) in
      (after, elim after [ running g ↦ true | panicked ↦ false ])

unfoldable pub del_entry : Str → Str → State → State × Bool
del_entry entry set panicked = (panicked, false)
del_entry entry set (running f) = elim f.entries [
  | none ↦ (running f, false)
  | some m ↦ elim (lookup set m) [
    | none ↦ (running f, true)
    | some l ↦ (put f (insert set (without entry l) m), true)
  ]
]

unfoldable pub test_entry : Str → Str → State → State × Option Bool
test_entry entry set panicked = (panicked, none)
test_entry entry set (running f) =
    (running f, if is_some f.entries then some (has entry (members f set)) else none)

unfoldable pub list_entries : Str → State → State × Option (List Str)
list_entries set panicked = (panicked, none)
list_entries set (running f) = (running f, if is_some f.entries then some (members f set) else none)

unfoldable pub list_sets : State → State × Option (List Str)
list_sets panicked = (panicked, none)
list_sets (running f) = (running f, some (keys (or_nil f.sets)))

unfoldable pub get_version : State → State × Option Str
get_version panicked = (panicked, none)
get_version (running f) = (running f, some f.version)

unfoldable pub add_entry_with_options : IpSetEntry → IpSet → Bool → State → State × Bool
unfolding add_entry entry_string join
add_entry_with_options entry = add_entry (join (codes " ") (entry_string entry ∷ entry.options))

unfoldable pub del_entry_with_options : Str → Str → List Str → State → State × Bool
unfolding del_entry join
del_entry_with_options set entry options = del_entry (join (codes " ") (entry ∷ options)) set

abbrev lines : List Str → Str
lines [] = []
lines (l ∷ ls) = l ++ (10 ∷ lines ls)

abbrev save_set : FakeIpSet → Str → Option IpSet → Str
save_set f name none = []
save_set f name (some set) = lines (
    (codes "Name: " ++ name)
    ∷ (codes "Type: " ++ set.set_type)
    ∷ codes "Members:"
    ∷ (sort (members f name) ++ [] ∷ []))

abbrev save_all : FakeIpSet → List Str → Str
save_all f [] = []
save_all f (name ∷ names) = save_set f name (lookup name (or_nil f.sets)) ++ save_all f names

abbrev drop_last : Str → Str
drop_last [] = []
drop_last (c ∷ []) = []
drop_last (c ∷ d ∷ s) = c ∷ drop_last (d ∷ s)

unfoldable pub save_all_sets : State → State × Option Str
unfolding sort
save_all_sets panicked = (panicked, none)
save_all_sets (running f) = (running f, some (drop_last (save_all f (sort (keys (or_nil f.sets))))))

unfoldable pub fake : Interface State
fake = record {
  flush_set = flush_set;
  destroy_set = destroy_set;
  destroy_all_sets = destroy_all_sets;
  create_set = create_set;
  add_entry = add_entry;
  del_entry = del_entry;
  test_entry = test_entry;
  list_entries = list_entries;
  list_sets = list_sets;
  get_version = get_version;
  add_entry_with_options = add_entry_with_options;
  del_entry_with_options = del_entry_with_options;
  save_all_sets = save_all_sets;
}
