-- ===== src/Adaptor/Entries.antt =====
-- lvs/adaptor/iptables.go: what the set holds once `buildIptables` is done.
use kube_bazellb.Prelude.{
  Bool, true, false, not, ◌&&◌, ◌||◌, List, [], ◌∷◌, Str, string_eq, nat_eq, ◌==◌, eq_iff, ◌≡◌,
  refl, arith, Bool-cases, inl, inr,
}
use kube_bazellb.Prelude.Members.{has, Distinct}
use kube_bazellb.Ipset.{IpSet}
use kube_bazellb.Ipset.Interface.{Interface}
use kube_bazellb.Ipset.Spec.{View, Becomes, Lawful}
use kube_bazellb.Adaptor.Rules.{ipset_name, delete_text, prune_entries, add_entries}

has-delete_text : (x e : Str) (l : List Str) → has e (delete_text x l) ≡ (not (x == e) && has e l)
has-delete_text x e [] = ground arith
has-delete_text x e (y ∷ l) =
    ground (arith, has-delete_text x e l, eq_iff y x, eq_iff y e, eq_iff x e)

module _ {S : Type 0} (i : Interface S) (view : View S) (law : Lawful i view) where
  -- One change of the set after another.
  pub and_then :
      {s s' s'' : S} {name : Str} {texts texts' : Str → Bool} {ok ok' : Bool}
      → Becomes view s name texts s' ok
      → Becomes view s' name texts' s'' ok'
      → Becomes view s name texts' s'' ok'
  and_then {s} {s'} {s''} {name} b c = record {
    done = c.done;
    valid = c.valid;
    created_at = λ n. ground (arith, b.created_at n, c.created_at n);
    member_at = λ n e. ground (arith, b.member_at n e, c.member_at n e);
  }

  pub same_texts :
      {s s' : S} {name : Str} {texts texts' : Str → Bool} {ok : Bool}
      → Becomes view s name texts s' ok
      → ((e : Str) → texts e ≡ texts' e)
      → Becomes view s name texts' s' ok
  same_texts {s} {s'} {name} b same = record {
    done = b.done;
    valid = b.valid;
    created_at = b.created_at;
    member_at = λ n e. ground (arith, b.member_at n e, same e);
  }

  pub nothing :
      (s : S) (name : Str)
      → view.Valid s
      → view.created s name ≡ true
      → Becomes view s name (λ e. view.member s name e) s true
  nothing s name v c = record {
    done = refl;
    valid = v;
    created_at = λ n. ground (arith, c, eq_iff name n);
    member_at = λ n e. ground (arith, eq_iff name n);
  }

  pub still_created :
      {s s' : S} {name : Str} {texts : Str → Bool} {ok : Bool}
      → Becomes view s name texts s' ok
      → view.created s' name ≡ true
  still_created {s} {s'} {name} b = ground (arith, b.created_at name, eq_iff name name)

  pub add_entries_lem :
      (set : IpSet) (entries : List Str) (s : S)
      → view.Valid s
      → view.created s set.name ≡ true
      → Becomes view s set.name
          (λ e. has e entries || view.member s set.name e)
          (add_entries i set entries s)
          true
  unfolding add_entries
  add_entries_lem set [] s v c = nothing s set.name v c
  add_entries_lem set (x ∷ entries) s v c =
      let b = law.add_law x set s v c in
      same_texts
        (and_then b
          (add_entries_lem set entries (i.add_entry x set true s).0 b.valid (still_created b)))
        (λ e. ground (arith, b.member_at set.name e, eq_iff set.name set.name))

  prune_none : (expected : List Str) (s : S) → prune_entries i [] (expected, s) ≡ (expected, s)
  unfolding prune_entries
  prune_none expected s = refl

  prune_wanted :
      (x : Str) (existing expected : List Str) (s : S)
      → has x expected ≡ true
      → prune_entries i (x ∷ existing) (expected, s)
        ≡ prune_entries i existing (delete_text x expected, s)
  unfolding prune_entries
  prune_wanted x existing expected s h = rw h refl

  prune_gone :
      (x : Str) (existing expected : List Str) (s : S)
      → has x expected ≡ false
      → prune_entries i (x ∷ existing) (expected, s)
        ≡ prune_entries i existing (expected, (i.del_entry x ipset_name s).0)
  unfolding prune_entries
  prune_gone x existing expected s h = rw h refl

  -- Of the entries that were there, the expected ones stay; what is left to add was not there.
  pub prune_entries_lem :
      (existing expected : List Str) (s : S)
      → view.Valid s
      → view.created s ipset_name ≡ true
      → Distinct existing
      → ((e : Str) → has e existing ≡ true → view.member s ipset_name e ≡ true)
      → Becomes view s ipset_name
          (λ e. view.member s ipset_name e && (not (has e existing) || has e expected))
          (prune_entries i existing (expected, s)).1
          true
        × ((e : Str)
            → has e (prune_entries i existing (expected, s)).0
              ≡ (has e expected && not (has e existing)))
  prune_entries_lem [] expected s v c d there =
      rw (prune_none expected s)
        (same_texts (nothing s ipset_name v c) (λ e. ground arith), λ e. ground arith)
  prune_entries_lem (x ∷ existing) expected s v c d there = elim (Bool-cases (has x expected)) [
    | inl wanted ↦
        let (b, left) =
          prune_entries_lem existing (delete_text x expected) s v c d.1
            (λ e h. there e (ground (arith, h))) in
        rw (prune_wanted x existing expected s wanted) (
          same_texts b (λ e. ground (arith, has-delete_text x e expected, eq_iff x e, d.0, wanted)),
          λ e. ground (arith, left e, has-delete_text x e expected, eq_iff x e, d.0, wanted),
        )
    | inr gone ↦
        let b = law.del_law x ipset_name s v c (there x (ground (arith, eq_iff x x))) in
        let (b', left) =
          prune_entries_lem existing expected (i.del_entry x ipset_name s).0 b.valid
            (still_created b) d.1
            (λ e h. ground (
              arith,
              there e,
              b.member_at ipset_name e,
              eq_iff ipset_name ipset_name,
              eq_iff x e,
              d.0,
              h,
            )) in
        rw (prune_gone x existing expected s gone) (
          same_texts (and_then b b') (λ e. ground (
            arith,
            b.member_at ipset_name e,
            eq_iff ipset_name ipset_name,
            eq_iff x e,
            d.0,
            gone,
          )),
          λ e. ground (arith, left e, eq_iff x e, gone),
        )
  ]
