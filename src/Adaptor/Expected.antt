-- ===== src/Adaptor/Expected.antt =====
-- lvs/adaptor/adaptor.go, `getExpectRSs`: each real server stands under its own text, once.
use kube_bazellb.Prelude.{
  Option, ◌∙◌, ℕ, ◌%◌, ◌^◌, ◌<◌, none, some, List, [], ◌∷◌, Str, string_eq, eq_iff, ◌≡◌, refl, ap,
  arith, nat_beq, Bool-cases, inl, inr,
}
use kube_bazellb.Prelude.Assoc.{lookup, insert, lookup-insert}
use kube_bazellb.Prelude.Members.{Distinct, keys, insert-Distinct}
use kube_bazellb.Kube.{Service, ServicePort, Endpoints, EndpointPort, Subset}
use kube_bazellb.Net.{Net}
use kube_bazellb.Lvs.{VirtualServer, RealServer}
use kube_bazellb.Lvs.Spec.{rs_id}
use kube_bazellb.Adaptor.Maps.{EndpointsMap, endpoints_of}
use kube_bazellb.Adaptor.Expect.{
  Expected, address_port, get_target_port, get_target_int_port, add_addresses, add_subsets,
  add_endpoints, add_expect_rs, add_services, get_expect_rss,
}
use kube_bazellb.Adaptor.Texts.{IsCanonical, text_of}

module _ (net : Net) where
  open net use {parse, show}

  -- The addresses are printed as they are written, and the ports are ports.
  abbrev pub AddressesClean : List Str → Type 0
  AddressesClean [] = Unit
  AddressesClean (a ∷ addrs) = (show (parse a) ≡ a) × AddressesClean addrs

  abbrev pub PortsClean : List EndpointPort → Type 0
  PortsClean [] = Unit
  PortsClean (p ∷ ps) = (p.port < 2 ^ 16) × PortsClean ps

  abbrev pub SubsetsClean : List Subset → Type 0
  SubsetsClean [] = Unit
  SubsetsClean (u ∷ us) = AddressesClean u.addresses × (PortsClean u.ports × SubsetsClean us)

  abbrev pub EndpointsClean : List Endpoints → Type 0
  EndpointsClean [] = Unit
  EndpointsClean (e ∷ es) = SubsetsClean e.subsets × EndpointsClean es

  abbrev pub IsClean : EndpointsMap → Type 0
  IsClean em = (svc : Service) → EndpointsClean (endpoints_of em svc)

  abbrev pub IsExpected : Expected net → Type 0
  IsExpected m = IsCanonical m × Distinct (keys m)

  insert-IsExpected :
      (t : Str) (rs : RealServer net) (m : Expected net)
      → t ≡ text_of (rs_id rs)
      → IsExpected m
      → IsExpected (insert t rs m)
  insert-IsExpected t rs m own h = (
    λ t' rs' e. ground (
      arith,
      h.0 t' rs',
      lookup-insert t t' rs m,
      e,
      eq_iff t t',
      own,
      ap (λ (x : RealServer net). text_of (rs_id x)) {x = rs} {y = rs'},
    ),
    insert-Distinct t rs m h.1,
  )

  add_addresses-IsExpected :
      (addrs : List Str) (port : ℕ) (m : Expected net)
      → AddressesClean addrs
      → port < 2 ^ 16
      → IsExpected m
      → IsExpected (add_addresses net addrs port m)
  unfolding add_addresses
  add_addresses-IsExpected [] port m a p h = h
  add_addresses-IsExpected (addr ∷ addrs) port m a p h =
      add_addresses-IsExpected addrs port
        (insert (address_port addr port)
          (record { address = parse addr; port = port % 2 ^ 16; weight = 1 }) m)
        a.1 p
        (insert-IsExpected (address_port addr port)
          (record { address = parse addr; port = port % 2 ^ 16; weight = 1 }) m
          (ground (arith, a.0, p)) h)

  target_port_bound :
      (target : ServicePort) (ports : List EndpointPort)
      → PortsClean ports
      → get_target_int_port target ports < 2 ^ 16
  unfolding get_target_int_port
  target_port_bound target [] c = omega arith
  target_port_bound target (p ∷ ps) c = ground (arith, target_port_bound target ps c.1, c.0)

  add_subsets-IsExpected :
      (target : ServicePort) (us : List Subset) (m : Expected net)
      → SubsetsClean us
      → IsExpected m
      → IsExpected (add_subsets net target us m)
  unfolding add_subsets
  add_subsets-IsExpected target [] m c h = h
  add_subsets-IsExpected target (u ∷ us) m c h =
      let port = get_target_int_port target u.ports in
      elim (Bool-cases (nat_beq port 0)) [
        | inl e ↦ rw e (add_subsets-IsExpected target us m c.1.1 h)
        | inr e ↦ rw e (
            add_subsets-IsExpected target us (add_addresses net u.addresses port m) c.1.1 (
              add_addresses-IsExpected u.addresses port m c.0
                (target_port_bound target u.ports c.1.0) h))
      ]

  add_endpoints-IsExpected :
      (target : ServicePort) (es : List Endpoints) (m : Expected net)
      → EndpointsClean es
      → IsExpected m
      → IsExpected (add_endpoints net target es m)
  unfolding add_endpoints
  add_endpoints-IsExpected target [] m c h = h
  add_endpoints-IsExpected target (e ∷ es) m c h =
      add_endpoints-IsExpected target es (add_subsets net target e.subsets m) c.1
        (add_subsets-IsExpected target e.subsets m c.0 h)

  from_target :
      (o : Option ServicePort) (m : Expected net) (es : List Endpoints)
      → EndpointsClean es
      → IsExpected m
      → IsExpected (elim o [ none ↦ m | some target ↦ add_endpoints net target es m ])
  from_target none m es c h = h
  from_target (some target) m es c h = add_endpoints-IsExpected target es m c h

  add_expect_rs-IsExpected :
      (m : Expected net) (es : List Endpoints) (vs : VirtualServer net) (svc : Service)
      → EndpointsClean es
      → IsExpected m
      → IsExpected (add_expect_rs net m es vs svc)
  unfolding add_expect_rs
  add_expect_rs-IsExpected m es vs svc c h =
      from_target (get_target_port vs.port svc.ports) m es c h

  -- One service of the loop.
  add_service-IsExpected :
      (es : List Endpoints) (m : Expected net) (vs : VirtualServer net) (svc : Service)
      → EndpointsClean es
      → IsExpected m
      → IsExpected (elim es [ [] ↦ m | e ∷ es' ↦ add_expect_rs net m (e ∷ es') vs svc ])
  add_service-IsExpected [] m vs svc c h = h
  add_service-IsExpected (e ∷ es) m vs svc c h = add_expect_rs-IsExpected m (e ∷ es) vs svc c h

  add_services-IsExpected :
      (svcs : List Service) (em : EndpointsMap) (vs : VirtualServer net) (m : Expected net)
      → IsClean em
      → IsExpected m
      → IsExpected (add_services net svcs em vs m)
  unfolding add_services
  add_services-IsExpected [] em vs m c h = h
  add_services-IsExpected (svc ∷ svcs) em vs m c h =
      add_services-IsExpected svcs em vs
        (elim (endpoints_of em svc) [ [] ↦ m | e ∷ es ↦ add_expect_rs net m (e ∷ es) vs svc ]) c
        (add_service-IsExpected (endpoints_of em svc) m vs svc (c svc) h)

  pub get_expect_rss-IsExpected :
      (svcs : List Service) (em : EndpointsMap) (vs : VirtualServer net)
      → IsClean em
      → IsExpected (get_expect_rss net svcs em vs)
  unfolding get_expect_rss lookup
  get_expect_rss-IsExpected svcs em vs c =
      add_services-IsExpected svcs em vs [] c ((λ t rs e. ground arith), tt)

  add_service-port :
      (es : List Endpoints) (m : Expected net) (vs vs' : VirtualServer net) (svc : Service)
      → vs.port ≡ vs'.port
      → elim es [ [] ↦ m | e ∷ es' ↦ add_expect_rs net m (e ∷ es') vs svc ]
        ≡ elim es [ [] ↦ m | e ∷ es' ↦ add_expect_rs net m (e ∷ es') vs' svc ]
  unfolding add_expect_rs
  add_service-port [] m vs vs' svc eq = refl
  add_service-port (e ∷ es) m vs vs' svc eq =
      ap
        (λ p. elim (get_target_port p svc.ports) [
          | none ↦ m
          | some target ↦ add_endpoints net target (e ∷ es) m
        ])
        eq

  add_services-port :
      (svcs : List Service) (em : EndpointsMap) (vs vs' : VirtualServer net) (m : Expected net)
      → vs.port ≡ vs'.port
      → add_services net svcs em vs m ≡ add_services net svcs em vs' m
  unfolding add_services
  add_services-port [] em vs vs' m e = refl
  add_services-port (svc ∷ svcs) em vs vs' m e =
      ap (add_services net svcs em vs) (add_service-port (endpoints_of em svc) m vs vs' svc e)
      ∙ add_services-port svcs em vs vs'
          (elim (endpoints_of em svc) [ [] ↦ m | x ∷ es ↦ add_expect_rs net m (x ∷ es) vs' svc ]) e

  -- Of the virtual server, only its port matters.
  pub get_expect_rss-port :
      (svcs : List Service) (em : EndpointsMap) (vs vs' : VirtualServer net)
      → vs.port ≡ vs'.port
      → get_expect_rss net svcs em vs ≡ get_expect_rss net svcs em vs'
  unfolding get_expect_rss
  get_expect_rss-port svcs em vs vs' e = add_services-port svcs em vs vs' [] e
