-- ===== src/Ipset/Runner.antt =====
-- utils/ipset/ipset.go, `runner`: the ipset command line over an executor.
use kube_bazellb.Prelude.{
  Bool, false, not, ◌||◌, Option, none, some, List, [], ◌∷◌, ◌++◌, Str, codes, str_eq,
  if◌then◌else◌, ℤ, pos, negsuc, nat_beq,
}
use kube_bazellb.Text.{split, contains, is_digit}
use kube_bazellb.Text.Fields.{non_empty}
use kube_bazellb.Ipset.{
  IpSet, IpSetEntry, hash_ip_port, hash_ip_port_ip, bitmap_port, default_port_range,
  protocol_family_ipv4, itoa_int,
}
use kube_bazellb.Ipset.Validate.{validate_set}
use kube_bazellb.Ipset.Entry.{entry_string}
use kube_bazellb.Ipset.Interface.{Interface}

-- What `exec.Command(cmd, args...).CombinedOutput()` does: the output, and whether the error is nil.
pub record Executor (S : Type 0) : Type 0 where
  pub combined_output : Str → List Str → S → S × (Str × Bool)

abbrev pub ipset_cmd : Str
ipset_cmd = codes "ipset"

-- On the text of the error.
unfoldable pub is_not_found_error : Str → Bool
unfolding contains
is_not_found_error es =
    contains es (codes "does not exist") || contains es (codes "element is missing")

abbrev is_zero : ℤ → Bool
is_zero (pos n) = nat_beq n 0
is_zero (negsuc n) = false

unfoldable pub with_defaults : IpSet → IpSet
with_defaults set = record {
  name = set.name;
  set_type = if str_eq set.set_type [] then hash_ip_port else set.set_type;
  hash_family = if str_eq set.hash_family [] then protocol_family_ipv4 else set.hash_family;
  hash_size = if is_zero set.hash_size then pos 1024 else set.hash_size;
  max_elem = if is_zero set.max_elem then pos 65536 else set.max_elem;
  port_range = if str_eq set.port_range [] then default_port_range else set.port_range;
}

abbrev exist_flag : Bool → List Str
exist_flag ignore = if ignore then codes "-exist" ∷ [] else []

unfoldable pub create_args : IpSet → Bool → List Str
unfolding itoa_int
create_args set ignore =
    codes "create"
      ∷ set.name
      ∷ set.set_type
      ∷ (if str_eq set.set_type hash_ip_port_ip || str_eq set.set_type hash_ip_port
          then codes "family"
            ∷ set.hash_family
            ∷ codes "hashsize"
            ∷ itoa_int set.hash_size
            ∷ codes "maxelem"
            ∷ itoa_int set.max_elem
            ∷ []
          else [])
    ++ (if str_eq set.set_type bitmap_port then codes "range" ∷ set.port_range ∷ [] else [])
    ++ exist_flag ignore

-- The lines behind the last full line `Members:`, which the greedy `(?m)^(.*\n)*Members:\n` ends with.
unfoldable pub after_members : List Str → Option (List Str)
after_members [] = none
after_members (l ∷ []) = none
after_members (l ∷ m ∷ rest) = elim (after_members (m ∷ rest)) [
  | some found ↦ some found
  | none ↦ if str_eq l (codes "Members:") then some (m ∷ rest) else none
]

-- What `ListEntries` makes of the output.
unfoldable pub read_entries : Str → List Str
unfolding split after_members
read_entries out =
    let lines = split 10 out in
    non_empty (elim (after_members lines) [ none ↦ lines | some found ↦ found ])

-- One or more digits, and what follows them.
abbrev take_digits : Str → Str × Str
take_digits [] = ([], [])
take_digits (c ∷ s) =
    let (d, rest) = take_digits s in if is_digit c then (c ∷ d, rest) else ([], c ∷ s)

abbrev minor_after : Str → Str × Str → Option Str
minor_after major ([], rest) = none
minor_after major (d ∷ ds, rest) = some (b'v' ∷ major ++ b'.' ∷ d ∷ ds)

abbrev major_after : Str × Str → Option Str
major_after ([], rest) = none
major_after (d ∷ ds, []) = none
major_after (d ∷ ds, c ∷ rest) =
    if nat_beq c b'.' then minor_after (d ∷ ds) (take_digits rest) else none

-- `v[0-9]+\.[0-9]+`, leftmost.
unfoldable pub find_version : Str → Option Str
unfolding is_digit
find_version [] = none
find_version (c ∷ s) =
    let rest = find_version s in
    let here = if nat_beq c b'v' then major_after (take_digits s) else none in
    elim here [ some v ↦ some v | none ↦ rest ]

module _ {S : Type 0} (exec : Executor S) where
  abbrev run : List Str → S → S × Bool
  run args s = let (s', (out, done)) = exec.combined_output ipset_cmd args s in (s', done)

  abbrev read {ℓ} : {A : Type ℓ} → (Str → Option A) → List Str → S → S × Option A
  read f args s =
      let (s', (out, done)) = exec.combined_output ipset_cmd args s in
      (s', if done then f out else none)

  unfoldable pub create_set : IpSet → Bool → S → S × (IpSet × Bool)
  unfolding with_defaults validate_set create_args
  create_set set ignore s =
      let set' = with_defaults set in
      if not (validate_set set')
      then (s, (set', false))
      else let (s', done) = run (create_args set' ignore) s in (s', (set', done))

  unfoldable pub add_entry : Str → IpSet → Bool → S → S × Bool
  add_entry entry set ignore = run (codes "add" ∷ set.name ∷ entry ∷ exist_flag ignore)

  unfoldable pub add_entry_with_options : IpSetEntry → IpSet → Bool → S → S × Bool
  unfolding entry_string
  add_entry_with_options entry set ignore =
      run (codes "add" ∷ exist_flag ignore ++ (set.name ∷ entry_string entry ∷ []) ++ entry.options)

  unfoldable pub del_entry : Str → Str → S → S × Bool
  del_entry entry set = run (codes "del" ∷ set ∷ entry ∷ [])

  unfoldable pub del_entry_with_options : Str → Str → List Str → S → S × Bool
  del_entry_with_options set entry options = run (codes "del" ∷ set ∷ entry ∷ [])

  unfoldable pub test_entry : Str → Str → S → S × Option Bool
  unfolding contains
  test_entry entry set =
      read (λ out. some (not (contains out (codes "NOT")))) (codes "test" ∷ set ∷ entry ∷ [])

  unfoldable pub flush_set : Str → S → S × Bool
  flush_set set = run (codes "flush" ∷ set ∷ [])

  unfoldable pub destroy_set : Str → S → S × Bool
  destroy_set set = run (codes "destroy" ∷ set ∷ [])

  unfoldable pub destroy_all_sets : S → S × Bool
  destroy_all_sets = run (codes "destroy" ∷ [])

  unfoldable pub list_sets : S → S × Option (List Str)
  unfolding split
  list_sets = read (λ out. some (split 10 out)) (codes "list" ∷ codes "-n" ∷ [])

  unfoldable pub list_entries : Str → S → S × Option (List Str)
  unfolding read_entries
  list_entries set s =
      if str_eq set []
      then (s, none)
      else read (λ out. some (read_entries out)) (codes "list" ∷ set ∷ []) s

  unfoldable pub get_version : S → S × Option Str
  unfolding find_version
  get_version = read find_version (codes "--version" ∷ [])

  unfoldable pub save_all_sets : S → S × Option Str
  save_all_sets = read some (codes "list" ∷ [])

  unfoldable pub runner : Interface S
  runner = record {
    flush_set = flush_set;
    destroy_set = destroy_set;
    destroy_all_sets = destroy_all_sets;
    create_set = create_set;
    add_entry = add_entry;
    del_entry = del_entry;
    test_entry = test_entry;
    list_entries = list_entries;
    list_sets = list_sets;
    get_version = get_version;
    add_entry_with_options = add_entry_with_options;
    del_entry_with_options = del_entry_with_options;
    save_all_sets = save_all_sets;
  }
