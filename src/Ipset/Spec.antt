-- ===== src/Ipset/Spec.antt =====
-- What an implementation of `ipset.Interface` promises of the operations that the adaptor calls: named
-- sets of texts.
use kube_bazellb.Prelude.{
  Bool, true, false, ◌||◌, some, List, Str, string_eq, ◌==◌, if◌then◌else◌, ◌≡◌, ◌≢◌, [],
}
use kube_bazellb.Prelude.Members.{has, Distinct}
use kube_bazellb.Ipset.{IpSet}
use kube_bazellb.Ipset.Interface.{Interface}

pub record View (S : Type 0) : Type 1 where
  pub Valid : S → Type 0
  pub created : S → Str → Bool
  pub member : S → Str → Str → Bool
  -- The sets that can be created.
  pub Accepts : IpSet → Type 0

-- A call that succeeds, keeps every set that there is, and changes the members of one.
pub record Becomes {S : Type 0} (v : View S) (s : S) (name : Str) (texts : Str → Bool) (after : S)
    (ok : Bool) : Type 0 where
  pub done : ok ≡ true
  pub valid : v.Valid after
  pub created_at : (n : Str) → v.created after n ≡ (if name == n then true else v.created s n)
  pub member_at : (n e : Str) → v.member after n e ≡ (if name == n then texts e else v.member s n e)

pub record Lawful {S : Type 0} (i : Interface S) (view : View S) : Type 0 where
  pub create_law :
      (set : IpSet) (s : S)
      → view.Valid s
      → view.Accepts set
      → Becomes view s set.name
          (λ e. view.member s set.name e)
          (i.create_set set true s).0
          (i.create_set set true s).1.1
  pub create_name : (set : IpSet) (s : S) → (i.create_set set true s).1.0.name ≡ set.name
  pub create_type :
      (set : IpSet) (s : S)
      → set.set_type ≢ []
      → (i.create_set set true s).1.0.set_type ≡ set.set_type
  pub list_law :
      (name : Str) (s : S)
      → view.Valid s
      → view.created s name ≡ true
      → ((i.list_entries name s).0 ≡ s)
        × ((l : List Str) × ((i.list_entries name s).1 ≡ some l)
            × Distinct l
            × ((e : Str) → has e l ≡ view.member s name e))
  pub add_law :
      (entry : Str) (set : IpSet) (s : S)
      → view.Valid s
      → view.created s set.name ≡ true
      → Becomes view s set.name
          (λ e. (entry == e) || view.member s set.name e)
          (i.add_entry entry set true s).0
          (i.add_entry entry set true s).1
  pub del_law :
      (entry name : Str) (s : S)
      → view.Valid s
      → view.created s name ≡ true
      → view.member s name entry ≡ true
      → Becomes view s name
          (λ e. if entry == e then false else view.member s name e)
          (i.del_entry entry name s).0
          (i.del_entry entry name s).1
