-- ===== src/Examples/Build.antt =====
-- lvs/adaptor/adaptor.go at one service and a table with one virtual server.
use kube_bazellb.Prelude.{
  sym, subst, ◌∙◌, ℕ, ◌<◌, ◌^◌, Bool, true, false, some, [], ◌∷◌, codes, str_eq, nat_eq, string_eq,
  pair_eq, ◌==◌, eq_iff, ◌≡◌, refl, ap, arith, inl, inr, Bool-cases, if◌then◌else◌,
}
use kube_bazellb.Prelude.Assoc.{lookup, insert, remove}
use kube_bazellb.Prelude.Members.{is_some}
use kube_bazellb.Kube.{Service, Endpoints, tcp, cluster_ip}
use kube_bazellb.Lvs.Spec.{Key, vs_key, Becomes}
use kube_bazellb.Lvs.Fake.{
  Fake, new_fake, add_virtual_server, get_virtual_servers, delete_virtual_server, add_real_server,
  fake,
}
use kube_bazellb.Lvs.Fake.Laws.{is_present, table}
use kube_bazellb.Lvs.Fake.Promise.{fake-Lawful, new_fake-IsValid}
use kube_bazellb.Adaptor.{Orders}
use kube_bazellb.Adaptor.Maps.{PortMap, EndpointsMap, port_map_at, register, place_all}
use kube_bazellb.Adaptor.Sync.{sync}
use kube_bazellb.Adaptor.Texts.{IsFair}
use kube_bazellb.Adaptor.Expected.{IsClean}
use kube_bazellb.Adaptor.Services.{IsProtocol, IsPortMap}
use kube_bazellb.Adaptor.Build.{no_ports, register-IsPortMap}
use kube_bazellb.Adaptor.Converge.{Converged, sync_lem}
use kube_bazellb.Examples.Servers.{texts, web}

abbrev pub as_listed : Orders texts
as_listed = record { ports = λ m. m; reals = λ m. m }

pub as_listed-IsFair : IsFair as_listed
as_listed-IsFair = record { reals = λ m d. (d, λ t. refl); ports = λ m d. (d, λ p. refl) }

abbrev pub shop : Service
shop = record {
  namespace = codes "a";
  name = codes "shop";
  resource_version = [];
  service_type = cluster_ip;
  ports = record { name = codes "http"; protocol = tcp; port = 8080 } ∷ [];
  ingress = [];
  rest = [];
}

abbrev pub shop_endpoints : Endpoints
shop_endpoints = record {
  namespace = codes "a";
  name = codes "shop";
  subsets =
      record {
        addresses = codes "10.1.0.7" ∷ [];
        ports = record { name = codes "http"; port = 80 } ∷ [];
      }
      ∷ [];
}

abbrev pub shop_map : EndpointsMap
shop_map = (codes "a", (codes "shop", shop_endpoints ∷ []) ∷ []) ∷ []

abbrev pub shop_ports : PortMap
shop_ports = record { at0 = (8080, shop ∷ []) ∷ []; at1 = [] }

-- The maps that `Build` makes.
pub maps_test :
    register (shop ∷ []) ([], record { at0 = []; at1 = [] })
    ≡ ((codes "a", (codes "shop", []) ∷ []) ∷ [], shop_ports)
unfolding register lookup insert str_eq
maps_test = refl

pub place_test :
    place_all (shop_endpoints ∷ []) ((codes "a", (codes "shop", []) ∷ []) ∷ []) ≡ shop_map
unfolding place_all lookup insert str_eq
place_test = refl

pub shop_map-IsClean : IsClean texts shop_map
unfolding lookup
shop_map-IsClean svc = elim (Bool-cases (str_eq (codes "a") svc.namespace)) [
  | inr e ↦ rw e tt
  | inl e ↦ elim (Bool-cases (str_eq (codes "shop") svc.name)) [
    | inr e' ↦ rw (e, e') tt
    | inl e' ↦ rw (e, e') (((refl, tt), ((omega arith, tt), tt)), tt)
  ]
]

-- A table with a virtual server that no service has.
abbrev pub stale : Fake texts
stale = (add_virtual_server web new_fake).0

nothing_new : (k : Key) → is_present (new_fake {net = texts}) k ≡ false
unfolding new_fake lookup
nothing_new k = refl

pub stale_lem :
    Becomes table new_fake
      (vs_key web)
      true
      (λ r. false)
      (add_virtual_server {net = texts} web new_fake)
unfolding add_virtual_server fake
stale_lem = fake-Lawful.add_law web new_fake (new_fake-IsValid texts) (nothing_new (vs_key web))

only_web :
    (k : Key) (b : Bool)
    → (vs_key web == k) ≡ b
    → (if b then true else false) ≡ true
    → IsProtocol k.1.1
only_web k true e h = inl (ap (λ (x : Key). x.1.1) (sym ((eq_iff (vs_key web) k).0 e)))
only_web k false e h = absurd (ground (arith, h))

pub web_alone : (k : Key) → is_present stale k ≡ true → IsProtocol k.1.1
web_alone k h = only_web k (vs_key web == k) refl (
    ap (λ b. if vs_key web == k then true else b) (sym (nothing_new k))
    ∙ sym (stale_lem.present_at k)
    ∙ h)

pub shop_ports_fit :
    (index : Bool) (p : ℕ) → is_some (lookup p (port_map_at index shop_ports)) ≡ true → p < 2 ^ 16
unfolding lookup
shop_ports_fit true p h = ground (arith, h)
shop_ports_fit false p h = ground (arith, h, eq_iff 8080 p)

shop_ports-IsPortMap : IsPortMap shop_ports
unfolding register
shop_ports-IsPortMap =
    subst (λ (maps : EndpointsMap × PortMap). IsPortMap maps.1) maps_test
      (register-IsPortMap (shop ∷ []) [] no_ports (tt, tt))

sync_lem_example :
    Converged texts
      (codes "10.0.0.2")
      fake
      table
      fake-Lawful
      as_listed
      as_listed-IsFair
      shop_map
      shop_map-IsClean
      shop_ports
      (sync fake as_listed (codes "10.0.0.2") shop_map shop_ports stale)
sync_lem_example =
    sync_lem texts (codes "10.0.0.2") fake table fake-Lawful as_listed as_listed-IsFair shop_map
      shop_map-IsClean shop_ports stale stale_lem.valid web_alone ((refl, tt), tt) shop_ports_fit

-- The stale virtual server goes, and that of the service comes.
sync_test :
    get_virtual_servers (sync fake as_listed (codes "10.0.0.2") shop_map shop_ports stale)
    ≡ some (record web { port = 8080 } ∷ [])
unfolding sync fake get_virtual_servers str_eq lookup insert remove new_fake add_virtual_server
    delete_virtual_server add_real_server
sync_test = refl
