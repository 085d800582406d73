-- ===== src/Ipset/Fake/Laws.antt =====
-- utils/ipset/testing/fake.go keeps the promise of `Ipset.Spec`.
use kube_bazellb.Prelude.{
  Bool-cases, Option-cases, inl, inr, Bool, true, false, ◌||◌, some, List, [], ◌∷◌, ◌++◌, Str,
  string_eq, ◌==◌, eq_iff, if◌then◌else◌, ◌≡◌, refl, arith,
}
use kube_bazellb.Prelude.Assoc.{Map, lookup, insert, lookup-insert}
use kube_bazellb.Prelude.Members.{has, Distinct, is_some, has-append}
use kube_bazellb.Ipset.{IpSet}
use kube_bazellb.Ipset.Spec.{View, Becomes, Lawful}
use kube_bazellb.Ipset.Fake.{
  FakeIpSet, State, running, panicked, or_nil, members, without, create_set, list_entries,
  add_entry, del_entry, fake,
}

-- Both maps are there and name the same sets, and no set holds an entry twice.
pub record IsFake (f : FakeIpSet) : Type 0 where
  pub sets : Map Str IpSet
  pub entries : Map Str (List Str)
  pub sets_are : f.sets ≡ some sets
  pub entries_are : f.entries ≡ some entries
  pub agree : (n : Str) → is_some (lookup n sets) ≡ is_some (lookup n entries)
  pub distinct : (n : Str) → Distinct (members f n)

abbrev pub Valid : State → Type 0
Valid panicked = ⊥
Valid (running f) = IsFake f

abbrev pub created : State → Str → Bool
created panicked n = false
created (running f) n = is_some (lookup n (or_nil f.entries))

abbrev pub member : State → Str → Str → Bool
member panicked n e = false
member (running f) n e = has e (members f n)

abbrev pub fake_view : View State
fake_view = record { Valid = Valid; created = created; member = member; Accepts = λ set. Unit }

has-without : (x e : Str) (l : List Str) → has e (without x l) ≡ (if x == e then false else has e l)
has-without x e [] = ground arith
has-without x e (y ∷ l) = ground (arith, has-without x e l, eq_iff y x, eq_iff y e, eq_iff x e)

without-Distinct : (x : Str) (l : List Str) → Distinct l → Distinct (without x l)
without-Distinct x [] d = tt
without-Distinct x (y ∷ l) d = ground (arith, without-Distinct x l d.1, has-without x y l, d.0)

append-Distinct : (x : Str) (l : List Str) → has x l ≡ false → Distinct l → Distinct (l ++ x ∷ [])
append-Distinct x [] h d = (refl, tt)
append-Distinct x (y ∷ l) h d =
    ground
      (arith, append-Distinct x l, has-append y l (x ∷ []), eq_iff x y, eq_iff y x, d.0, d.1, h)

-- The members of one created set replaced.
changed :
    (f : FakeIpSet) (name : Str) (l : List Str) (texts : Str → Bool)
    → IsFake f
    → created (running f) name ≡ true
    → Distinct l
    → ((e : Str) → has e l ≡ texts e)
    → Becomes fake_view
        (running f)
        name
        texts
        (running (record f { entries = some (insert name l (or_nil f.entries)) }))
        true
changed f name l texts v c d is = record {
  done = refl;
  valid = record {
    sets = v.sets;
    entries = insert name l (or_nil f.entries);
    sets_are = v.sets_are;
    entries_are = refl;
    agree = λ n. ground (
      arith,
      v.entries_are,
      v.agree n,
      lookup-insert name n l (or_nil f.entries),
      eq_iff name n,
      c,
    );
    distinct = λ n. ground (arith, v.distinct n, d, lookup-insert name n l (or_nil f.entries));
  };
  created_at = λ n. ground (arith, lookup-insert name n l (or_nil f.entries));
  member_at = λ n e. ground (arith, is e, lookup-insert name n l (or_nil f.entries));
}

-- Nothing changed.
unchanged :
    (f : FakeIpSet) (name : Str)
    → IsFake f
    → created (running f) name ≡ true
    → (texts : Str → Bool) → ((e : Str) → member (running f) name e ≡ texts e)
    → Becomes fake_view (running f) name texts (running f) true
unchanged f name v c texts is = record {
  done = refl;
  valid = v;
  created_at = λ n. ground (arith, c, eq_iff name n);
  member_at = λ n e. ground (arith, is e, eq_iff name n);
}

list_law :
    (name : Str) (s : State)
    → Valid s
    → created s name ≡ true
    → ((list_entries name s).0 ≡ s)
      × ((l : List Str) × ((list_entries name s).1 ≡ some l)
          × Distinct l
          × ((e : Str) → has e l ≡ member s name e))
unfolding list_entries
list_law name panicked v c = absurd v
list_law name (running f) v c =
    (refl, (members f name, ground (arith, v.entries_are), v.distinct name, λ e. refl))

-- A set made where there was none.
made :
    (f : FakeIpSet) (set : IpSet) (v : IsFake f)
    → is_some (lookup set.name v.entries) ≡ false
    → Becomes fake_view
        (running f)
        set.name
        (λ e. member (running f) set.name e)
        (running (record {
          version = f.version;
          sets = some (insert set.name set v.sets);
          entries = some (insert set.name [] v.entries);
        }))
        true
made f set v new = record {
  done = refl;
  valid = record {
    sets = insert set.name set v.sets;
    entries = insert set.name [] v.entries;
    sets_are = refl;
    entries_are = refl;
    agree = λ n. ground (
      arith,
      v.agree n,
      lookup-insert set.name n set v.sets,
      lookup-insert set.name n [] v.entries,
    );
    distinct =
        λ n. ground (arith, v.distinct n, v.entries_are, lookup-insert set.name n [] v.entries);
  };
  created_at = λ n. ground (arith, v.entries_are, lookup-insert set.name n [] v.entries);
  member_at = λ n e.
      ground (arith, v.entries_are, lookup-insert set.name n [] v.entries, eq_iff set.name n, new);
}

create_new :
    (f : FakeIpSet) (set : IpSet) (v : IsFake f)
    → is_some (lookup set.name v.entries) ≡ false
    → create_set set true (running f) ≡ (
      running (record {
        version = f.version;
        sets = some (insert set.name set v.sets);
        entries = some (insert set.name [] v.entries);
      }),
      (set, true),
    )
unfolding create_set
create_new f set v new = ground (arith, v.sets_are, v.entries_are, v.agree set.name, new)

create_old :
    (f : FakeIpSet) (set : IpSet) (v : IsFake f)
    → is_some (lookup set.name v.entries) ≡ true
    → create_set set true (running f) ≡ (running f, (set, true))
unfolding create_set
create_old f set v old = ground (arith, v.sets_are, v.entries_are, v.agree set.name, old)

create_law :
    (set : IpSet) (s : State)
    → Valid s
    → Becomes fake_view s set.name
        (λ e. member s set.name e)
        (create_set set true s).0
        (create_set set true s).1.1
create_law set panicked v = absurd v
create_law set (running f) v = elim (Bool-cases (is_some (lookup set.name v.entries))) [
  | inl old ↦ rw (create_old f set v old) (
      unchanged f set.name v (ground (arith, v.entries_are, old))
        (λ e. member (running f) set.name e) (λ e. refl))
  | inr new ↦ rw (create_new f set v new) (made f set v new)
]

create_name : (set : IpSet) (s : State) → (create_set set true s).1.0.name ≡ set.name
unfolding create_set
create_name set panicked = refl
create_name set (running f) = ground arith

create_type : (set : IpSet) (s : State) → (create_set set true s).1.0.set_type ≡ set.set_type
unfolding create_set
create_type set panicked = refl
create_type set (running f) = ground arith

add_law :
    (entry : Str) (set : IpSet) (s : State)
    → Valid s
    → created s set.name ≡ true
    → Becomes fake_view s set.name
        (λ e. (entry == e) || member s set.name e)
        (add_entry entry set true s).0
        (add_entry entry set true s).1
unfolding add_entry
add_law entry set panicked v c = absurd v
add_law entry set (running f) v c = elim (Option-cases (lookup set.name (or_nil f.entries))) [
  | inl e ↦ absurd (ground (arith, c, e))
  | inr (l, e) ↦ elim (Bool-cases (has entry (members f set.name))) [
    | inl old ↦ rw old (
        unchanged f set.name v c (λ x. (entry == x) || member (running f) set.name x)
          (λ x. ground (arith, eq_iff entry x, old)))
    | inr new ↦
        rw (new, e)
          (changed f set.name (l ++ entry ∷ []) (λ x. (entry == x) || member (running f) set.name x)
            v c
            (append-Distinct entry l (ground (arith, new, e))
              (ground (arith, v.distinct set.name, e)))
            (λ x. ground (arith, has-append x l (entry ∷ []), e)))
  ]
]

del_from :
    (entry name : Str) (f : FakeIpSet) (l : List Str)
    → IsFake f
    → lookup name (or_nil f.entries) ≡ some l
    → del_entry entry name (running f) ≡ (
      running (record f { entries = some (insert name (without entry l) (or_nil f.entries)) }),
      true,
    )
unfolding del_entry
del_from entry name f l v e = ground (arith, v.entries_are, e)

del_law :
    (entry name : Str) (s : State)
    → Valid s
    → created s name ≡ true
    → member s name entry ≡ true
    → Becomes fake_view s name
        (λ e. if entry == e then false else member s name e)
        (del_entry entry name s).0
        (del_entry entry name s).1
del_law entry name panicked v c there = absurd v
del_law entry name (running f) v c there = elim (Option-cases (lookup name (or_nil f.entries))) [
  | inl e ↦ absurd (ground (arith, c, e))
  | inr (l, e) ↦ rw (del_from entry name f l v e) (
      changed f name (without entry l)
        (λ x. if entry == x then false else member (running f) name x) v c
        (without-Distinct entry l (ground (arith, v.distinct name, e)))
        (λ x. ground (arith, has-without entry x l, e)))
]

pub fake_sets-Lawful : Lawful fake fake_view
unfolding fake
fake_sets-Lawful = record {
  create_law = λ set s v a. create_law set s v;
  create_name = create_name;
  create_type = λ set s h. create_type set s;
  list_law = list_law;
  add_law = add_law;
  del_law = del_law;
}
