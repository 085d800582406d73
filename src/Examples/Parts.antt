-- ===== src/Examples/Parts.antt =====
-- Two implementations side by side, each on its own part of a state.
use kube_bazellb.Prelude.{
  Bool, true, false, ◌||◌, some, List, Str, string_eq, nat_eq, pair_eq, ◌==◌, if◌then◌else◌, ◌≡◌,
  ap,
}
use kube_bazellb.Prelude.Members.{has, Distinct}
use kube_bazellb.Net.{Net}
use kube_bazellb.Lvs.Interface.{Interface}
use kube_bazellb.Lvs.Spec.{Key, RealKey, vs_key, rs_id, View, Becomes, Lawful}
use kube_bazellb.Ipset.Interface.{Interface as Sets}
use kube_bazellb.Ipset.Spec.{View as SetsView, Becomes as SetBecomes, Lawful as SetsLawful}

module _ {A B : Type 0} where
  abbrev on_first : {R : Type 0} → (A → A × R) → A × B → (A × B) × R
  on_first f (a, b) = let (a', r) = f a in ((a', b), r)

  abbrev on_second : {R : Type 0} → (B → B × R) → A × B → (A × B) × R
  on_second f (a, b) = let (b', r) = f b in ((a, b'), r)

  abbrev pub lvs_first : {net : Net} → Interface net A → Interface net (A × B)
  lvs_first i = record {
    flush = on_first i.flush;
    add_virtual_server = λ vs. on_first (i.add_virtual_server vs);
    update_virtual_server = λ vs. on_first (i.update_virtual_server vs);
    delete_virtual_server = λ vs. on_first (i.delete_virtual_server vs);
    get_virtual_server = λ vs s. i.get_virtual_server vs s.0;
    get_virtual_servers = λ s. i.get_virtual_servers s.0;
    add_real_server = λ vs rs. on_first (i.add_real_server vs rs);
    get_real_servers = λ vs s. i.get_real_servers vs s.0;
    delete_real_server = λ vs rs. on_first (i.delete_real_server vs rs);
  }

  abbrev pub view_first : {net : Net} → View net A → View net (A × B)
  view_first v = record {
    Valid = λ s. v.Valid s.0;
    present = λ s. v.present s.0;
    serves = λ s. v.serves s.0;
  }

  abbrev pub sets_second : Sets B → Sets (A × B)
  sets_second i = record {
    flush_set = λ set. on_second (i.flush_set set);
    destroy_set = λ set. on_second (i.destroy_set set);
    destroy_all_sets = on_second i.destroy_all_sets;
    create_set = λ set ignore. on_second (i.create_set set ignore);
    add_entry = λ entry set ignore. on_second (i.add_entry entry set ignore);
    del_entry = λ entry set. on_second (i.del_entry entry set);
    test_entry = λ entry set. on_second (i.test_entry entry set);
    list_entries = λ set. on_second (i.list_entries set);
    list_sets = on_second i.list_sets;
    get_version = on_second i.get_version;
    add_entry_with_options =
        λ entry set ignore. on_second (i.add_entry_with_options entry set ignore);
    del_entry_with_options =
        λ set entry options. on_second (i.del_entry_with_options set entry options);
    save_all_sets = on_second i.save_all_sets;
  }

  abbrev pub view_second : SetsView B → SetsView (A × B)
  view_second v = record {
    Valid = λ s. v.Valid s.1;
    created = λ s. v.created s.1;
    member = λ s. v.member s.1;
    Accepts = v.Accepts;
  }

  module _ {net : Net} (v : View net A) where
    becomes_first :
        (a : A) (b : B) (key : Key) (there : Bool) (reals : RealKey → Bool) (after : A × Bool)
        → Becomes v a key there reals after
        → Becomes (view_first v) (a, b) key there reals ((after.0, b), after.1)
    becomes_first a b key there reals after h = record {
      done = h.done;
      valid = h.valid;
      present_at = h.present_at;
      serves_at = h.serves_at;
    }

    pub lvs_first-Lawful : (i : Interface net A) → Lawful i v → Lawful (lvs_first i) (view_first v)
    lvs_first-Lawful i law = record {
      add_law = λ vs s p q.
          becomes_first s.0 s.1 (vs_key vs) true (λ r. false) (i.add_virtual_server vs s.0)
            (law.add_law vs s.0 p q);
      delete_law = λ vs s p q.
          becomes_first s.0 s.1 (vs_key vs) false (λ r. false) (i.delete_virtual_server vs s.0)
            (law.delete_law vs s.0 p q);
      list_law = λ s p. law.list_law s.0 p;
      add_real_law = λ vs rs s p q r.
          becomes_first s.0 s.1 (vs_key vs) true
            (λ k. if rs_id rs == k then true else v.serves s.0 (vs_key vs) k)
            (i.add_real_server vs rs s.0) (law.add_real_law vs rs s.0 p q r);
      delete_real_law = λ vs rs s p q r.
          becomes_first s.0 s.1 (vs_key vs) true
            (λ k. if rs_id rs == k then false else v.serves s.0 (vs_key vs) k)
            (i.delete_real_server vs rs s.0) (law.delete_real_law vs rs s.0 p q r);
      list_real_law = λ vs s p q. law.list_real_law vs s.0 p q;
    }

  module _ (v : SetsView B) where
    becomes_second :
        (a : A) (b : B) (name : Str) (texts : Str → Bool) (after : B) (ok : Bool)
        → SetBecomes v b name texts after ok
        → SetBecomes (view_second v) (a, b) name texts (a, after) ok
    becomes_second a b name texts after ok h = record {
      done = h.done;
      valid = h.valid;
      created_at = h.created_at;
      member_at = h.member_at;
    }

    listed_second :
        (i : Sets B)
        → SetsLawful i v
        → (name : Str) (s : A × B) → v.Valid s.1
        → v.created s.1 name ≡ true
        → (((sets_second i).list_entries name s).0 ≡ s)
          × ((l : List Str) × (((sets_second i).list_entries name s).1 ≡ some l)
              × Distinct l
              × ((e : Str) → has e l ≡ v.member s.1 name e))
    listed_second i law name (a, b) p c =
        let (same, listed) = law.list_law name b p c in (ap (λ x. (a, x)) same, listed)

    pub sets_second-Lawful :
        (i : Sets B) → SetsLawful i v → SetsLawful (sets_second i) (view_second v)
    sets_second-Lawful i law = record {
      create_law = λ set s p q.
          becomes_second s.0 s.1 set.name (λ e. v.member s.1 set.name e)
            (i.create_set set true s.1).0 (i.create_set set true s.1).1.1
            (law.create_law set s.1 p q);
      create_name = λ set s. law.create_name set s.1;
      create_type = λ set s h. law.create_type set s.1 h;
      list_law = listed_second i law;
      add_law = λ entry set s p q.
          becomes_second s.0 s.1 set.name (λ e. (entry == e) || v.member s.1 set.name e)
            (i.add_entry entry set true s.1).0 (i.add_entry entry set true s.1).1
            (law.add_law entry set s.1 p q);
      del_law = λ entry name s p q r.
          becomes_second s.0 s.1 name (λ e. if entry == e then false else v.member s.1 name e)
            (i.del_entry entry name s.1).0 (i.del_entry entry name s.1).1
            (law.del_law entry name s.1 p q r);
    }
