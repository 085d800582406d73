-- ===== src/Lvs/Fake.antt =====
-- lvs/testing/fake.go: `FakeIPVS`, the in-memory implementation. `none` is a nil map, which `Flush`
-- leaves: it reads as empty, and a write to it panics.
pub mod Laws
pub mod Promise
use kube_bazellb.Prelude.{
  ℕ, Bool, true, false, Option, none, some, List, [], ◌∷◌, ◌++◌, Str, Comparable, nat_eq, string_eq,
  pair_eq, ◌==◌, str_eq, if◌then◌else◌,
}
use kube_bazellb.Prelude.Assoc.{Map, lookup, insert, remove}
use kube_bazellb.Prelude.Members.{values}
use kube_bazellb.Text.{itoa}
use kube_bazellb.Net.{Net}
use kube_bazellb.Lvs.{VirtualServer, RealServer, rs_string}
use kube_bazellb.Lvs.Interface.{Interface}
use kube_bazellb.Lvs.Spec.{Key, vs_key}

module _ (net : Net) where
  pub record FakeIpvs : Type 0 where
    pub services : Option (Map Key (VirtualServer net))
    pub destinations : Option (Map Key (List (RealServer net)))

  pub data Fake : Type 0 where
    running : FakeIpvs → Fake
    panicked : Fake

-- `m[k]` of a map that may be nil.
abbrev pub find : {V : Type 0} → Key → Option (Map Key V) → Option V
find k none = none
find k (some m) = lookup k m

-- A slice that is not there is nil.
abbrev pub slice : {A : Type 0} → Option (List A) → List A
slice none = []
slice (some l) = l

-- `delete` on a nil map does nothing.
abbrev without : {V : Type 0} → Key → Option (Map Key V) → Option (Map Key V)
without key none = none
without key (some m) = some (remove key m)

abbrev all_values : {V : Type 0} → Option (Map Key V) → List V
all_values none = []
all_values (some m) = values m

module _ {net : Net} where
  unfoldable pub new_fake : Fake net
  new_fake = running (record { services = some []; destinations = some [] })

  abbrev set_both :
      Key
      → VirtualServer net
      → FakeIpvs net
      → Option (Map Key (VirtualServer net))
      → Option (Map Key (List (RealServer net)))
      → Fake net × Bool
  set_both key vs f (some m) (some d) = (
    running (record { services = some (insert key vs m); destinations = some (insert key [] d) }),
    true,
  )
  set_both key vs f none d = (panicked, false)
  set_both key vs f (some m) none = (panicked, false)

  unfoldable pub add_virtual_server : VirtualServer net → Fake net → Fake net × Bool
  add_virtual_server vs panicked = (panicked, false)
  add_virtual_server vs (running f) = set_both (vs_key vs) vs f f.services f.destinations

  abbrev set_service :
      Key
      → VirtualServer net
      → FakeIpvs net
      → Option (Map Key (VirtualServer net))
      → Fake net × Bool
  set_service key vs f none = (panicked, false)
  set_service key vs f (some m) = (running (record f { services = some (insert key vs m) }), true)

  unfoldable pub update_virtual_server : VirtualServer net → Fake net → Fake net × Bool
  update_virtual_server vs panicked = (panicked, false)
  update_virtual_server vs (running f) = set_service (vs_key vs) vs f f.services

  abbrev clear_destinations :
      Key → FakeIpvs net → Option (Map Key (List (RealServer net))) → Fake net × Bool
  clear_destinations key f none = (panicked, false)
  clear_destinations key f (some d) = (
    running (record { services = without key f.services; destinations = some (insert key [] d) }),
    true,
  )

  unfoldable pub delete_virtual_server : VirtualServer net → Fake net → Fake net × Bool
  delete_virtual_server vs panicked = (panicked, false)
  delete_virtual_server vs (running f) = clear_destinations (vs_key vs) f f.destinations

  unfoldable pub get_virtual_server : VirtualServer net → Fake net → Option (VirtualServer net)
  get_virtual_server vs panicked = none
  get_virtual_server vs (running f) = find (vs_key vs) f.services

  unfoldable pub get_virtual_servers : Fake net → Option (List (VirtualServer net))
  get_virtual_servers panicked = none
  get_virtual_servers (running f) = some (all_values f.services)

  unfoldable pub flush : Fake net → Fake net × Bool
  flush panicked = (panicked, false)
  flush (running f) = (running (record { services = none; destinations = none }), true)

  abbrev append_real :
      Key
      → RealServer net
      → FakeIpvs net
      → Option (Map Key (List (RealServer net)))
      → Fake net × Bool
  append_real key rs f none = (panicked, false)
  append_real key rs f (some d) = (
    running (record f { destinations = some (insert key (slice (lookup key d) ++ rs ∷ []) d) }),
    true,
  )

  abbrev if_service : Option (VirtualServer net) → FakeIpvs net → Fake net × Bool → Fake net × Bool
  if_service none f after = (running f, false)
  if_service (some vs) f after = after

  unfoldable pub add_real_server : VirtualServer net → RealServer net → Fake net → Fake net × Bool
  add_real_server vs rs panicked = (panicked, false)
  add_real_server vs rs (running f) =
      if_service (find (vs_key vs) f.services) f (append_real (vs_key vs) rs f f.destinations)

  unfoldable pub get_real_servers : VirtualServer net → Fake net → Option (List (RealServer net))
  get_real_servers vs panicked = none
  get_real_servers vs (running f) = elim (find (vs_key vs) f.services) [
    | none ↦ none
    | some found ↦ some (slice (find (vs_key vs) f.destinations))
  ]

  -- The loop of `DeleteRealServer`: the first real server with the same text goes; `none` if there
  -- is no such one.
  unfoldable pub drop_real : RealServer net → List (RealServer net) → Option (List (RealServer net))
  unfolding rs_string
  drop_real rs [] = none
  drop_real rs (x ∷ xs) =
      if str_eq (rs_string x) (rs_string rs)
      then some xs
      else elim (drop_real rs xs) [ none ↦ none | some rest ↦ some (x ∷ rest) ]

  abbrev put_rest :
      Key
      → FakeIpvs net
      → Option (Map Key (List (RealServer net)))
      → Option (List (RealServer net))
      → Fake net × Bool
  put_rest key f d none = (running f, false)
  put_rest key f none (some rest) = (panicked, false)
  put_rest key f (some d) (some rest) =
      (running (record f { destinations = some (insert key rest d) }), true)

  unfoldable pub delete_real_server :
      VirtualServer net → RealServer net → Fake net → Fake net × Bool
  unfolding drop_real
  delete_real_server vs rs panicked = (panicked, false)
  delete_real_server vs rs (running f) =
      let key = vs_key vs in
      if_service (find key f.services) f
        (put_rest key f f.destinations (drop_real rs (slice (find key f.destinations))))

  unfoldable pub fake : Interface net (Fake net)
  fake = record {
    flush = flush;
    add_virtual_server = add_virtual_server;
    update_virtual_server = update_virtual_server;
    delete_virtual_server = delete_virtual_server;
    get_virtual_server = get_virtual_server;
    get_virtual_servers = get_virtual_servers;
    add_real_server = add_real_server;
    get_real_servers = get_real_servers;
    delete_real_server = delete_real_server;
  }
