-- ===== src/Lvs/Spec.antt =====
-- What an implementation of `lvs.Interface` promises: a table of virtual servers, each with a set of
-- real servers. The order of listings, schedulers and weights are forgotten.
use kube_bazellb.Prelude.{
  ℕ, Bool, true, false, some, List, Str, nat_eq, string_eq, pair_eq, ◌==◌, map, if◌then◌else◌, ◌≡◌,
}
use kube_bazellb.Prelude.Members.{has, Distinct, is_some}
use kube_bazellb.Net.{Net}
use kube_bazellb.Lvs.{VirtualServer, RealServer}
use kube_bazellb.Lvs.Interface.{Interface}

-- The text of the address, the port and the protocol identify a virtual server.
abbrev pub Key : Type 0
Key = Str × (ℕ × Str)

-- The text of the address and the port identify a real server of a virtual server.
abbrev pub RealKey : Type 0
RealKey = Str × ℕ

abbrev pub vs_key : {net : Net} → VirtualServer net → Key
vs_key {net} vs = (net.show vs.address, (vs.port, vs.protocol))

abbrev pub rs_id : {net : Net} → RealServer net → RealKey
rs_id {net} rs = (net.show rs.address, rs.port)

-- The table of a state: the keys that are present, and the real servers behind each.
pub record View (net : Net) (S : Type 0) : Type 1 where
  pub Valid : S → Type 0
  pub present : S → Key → Bool
  pub serves : S → Key → RealKey → Bool

-- A call that succeeds and changes the table at one key only.
pub record Becomes {net : Net} {S : Type 0} (v : View net S) (s : S) (key : Key) (there : Bool)
    (reals : RealKey → Bool) (after : S × Bool) : Type 0 where
  pub done : after.1 ≡ true
  pub valid : v.Valid after.0
  pub present_at : (k : Key) → v.present after.0 k ≡ (if key == k then there else v.present s k)
  pub serves_at :
      (k : Key) (r : RealKey)
      → v.serves after.0 k r ≡ (if key == k then reals r else v.serves s k r)

pub record Lawful {net : Net} {S : Type 0} (i : Interface net S) (view : View net S) : Type 0 where
  pub add_law :
      (vs : VirtualServer net) (s : S)
      → view.Valid s
      → view.present s (vs_key vs) ≡ false
      → Becomes view s (vs_key vs) true (λ r. false) (i.add_virtual_server vs s)
  pub delete_law :
      (vs : VirtualServer net) (s : S)
      → view.Valid s
      → view.present s (vs_key vs) ≡ true
      → Becomes view s (vs_key vs) false (λ r. false) (i.delete_virtual_server vs s)
  pub list_law :
      (s : S)
      → view.Valid s
      → (l : List (VirtualServer net)) × (i.get_virtual_servers s ≡ some l)
        × Distinct (map vs_key l)
        × ((k : Key) → has k (map vs_key l) ≡ view.present s k)
  pub add_real_law :
      (vs : VirtualServer net) (rs : RealServer net) (s : S)
      → view.Valid s
      → view.present s (vs_key vs) ≡ true
      → view.serves s (vs_key vs) (rs_id rs) ≡ false
      → Becomes view s
          (vs_key vs)
          true
          (λ r. if rs_id rs == r then true else view.serves s (vs_key vs) r)
          (i.add_real_server vs rs s)
  pub delete_real_law :
      (vs : VirtualServer net) (rs : RealServer net) (s : S)
      → view.Valid s
      → view.present s (vs_key vs) ≡ true
      → view.serves s (vs_key vs) (rs_id rs) ≡ true
      → Becomes view s
          (vs_key vs)
          true
          (λ r. if rs_id rs == r then false else view.serves s (vs_key vs) r)
          (i.delete_real_server vs rs s)
  pub list_real_law :
      (vs : VirtualServer net) (s : S)
      → view.Valid s
      → view.present s (vs_key vs) ≡ true
      → (l : List (RealServer net)) × (i.get_real_servers vs s ≡ some l)
        × Distinct (map rs_id l)
        × ((r : RealKey) → has r (map rs_id l) ≡ view.serves s (vs_key vs) r)

-- The promise with the operations that `Build` does not call: a virtual server that is there is
-- updated, with its real servers kept, and looked up.
pub record Complete {net : Net} {S : Type 0} (i : Interface net S) (view : View net S)
    : Type 0 where
  pub lawful : Lawful i view
  pub update_law :
      (vs : VirtualServer net) (s : S)
      → view.Valid s
      → view.present s (vs_key vs) ≡ true
      → Becomes view s
          (vs_key vs)
          true
          (λ r. view.serves s (vs_key vs) r)
          (i.update_virtual_server vs s)
        × (i.get_virtual_server vs (i.update_virtual_server vs s).0 ≡ some vs)
  pub get_law :
      (vs : VirtualServer net) (s : S)
      → view.Valid s
      → is_some (i.get_virtual_server vs s) ≡ view.present s (vs_key vs)
