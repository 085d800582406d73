-- ===== src/Adaptor/Created.antt =====
-- lvs/adaptor/adaptor.go, `Build`: the loop that makes the virtual servers that were not there.
use kube_bazellb.Prelude.{
  ℕ, ◌^◌, ◌<◌, Bool, true, false, ◌&&◌, ◌||◌, Option, none, some, List, [], ◌∷◌, Str, codes, nat_eq,
  string_eq, pair_eq, ◌==◌, eq_iff, if◌then◌else◌, ◌≡◌, refl, ap, subst, sym, ◌∙◌, arith,
}
use kube_bazellb.Prelude.Assoc.{Map, lookup}
use kube_bazellb.Prelude.Members.{has, Distinct, keys, is_some, has-keys}
use kube_bazellb.Kube.{Service}
use kube_bazellb.Net.{Net}
use kube_bazellb.Lvs.{VirtualServer}
use kube_bazellb.Lvs.Interface.{Interface}
use kube_bazellb.Lvs.Spec.{Key, RealKey, vs_key, View, Becomes, Lawful}
use kube_bazellb.Adaptor.{Orders}
use kube_bazellb.Adaptor.Maps.{EndpointsMap}
use kube_bazellb.Adaptor.Expect.{get_expect_rss}
use kube_bazellb.Adaptor.Sync.{new_virtual_server, add_real_servers, create_virtual_servers}
use kube_bazellb.Adaptor.Texts.{text_of, IsFair}
use kube_bazellb.Adaptor.Added.{and_then, same_reals, still_present, add_real_servers_lem}
use kube_bazellb.Adaptor.Expected.{IsClean, get_expect_rss-IsExpected, get_expect_rss-port}
use kube_bazellb.Adaptor.Services.{is_wanted, server_at}

abbrev pub protocol_at : Bool → Str
protocol_at index = if index then codes "UDP" else codes "TCP"

-- Every port fits a uint16.
abbrev pub PortsFit : Map ℕ (List Service) → Type 0
PortsFit [] = Unit
PortsFit ((p, svcs) ∷ m) = (p < 2 ^ 16) × PortsFit m

module _ (net : Net) (vip : net.IP) where
  abbrev pub port_key : Bool → ℕ → Key
  port_key index port = (net.show vip, (port, protocol_at index))

  -- The services for which the loop makes the virtual server of a key.
  abbrev pub made : Bool → Map ℕ (List Service) → Key → Option (List Service)
  made index list (host, (port, protocol)) =
      if (host == net.show vip) && (protocol == protocol_at index) then lookup port list else none

  made_cons :
      (index : Bool) (port : ℕ) (svcs : List Service) (list : Map ℕ (List Service)) (k : Key)
      → made index ((port, svcs) ∷ list) k
        ≡ (if port_key index port == k then some svcs else made index list k)
  unfolding lookup
  made_cons index port svcs list (host, (p, protocol)) = ground (
    arith,
    eq_iff host (net.show vip),
    eq_iff (net.show vip) host,
    eq_iff protocol (protocol_at index),
    eq_iff (protocol_at index) protocol,
  )

  made_fresh :
      (index : Bool) (port : ℕ) (list : Map ℕ (List Service))
      → has port (keys list) ≡ false
      → made index list (port_key index port) ≡ none
  made_fresh index port list h = ground (arith, has-keys port list, h)

  module _ {S : Type 0} (i : Interface net S) (view : View net S) (law : Lawful i view)
      (orders : Orders net) (fair : IsFair orders) (em : EndpointsMap)
      (clean : IsClean net em) where
    pub record Made (index : Bool) (list : Map ℕ (List Service)) (s s' : S) : Type 0 where
      pub valid : view.Valid s'
      pub present_at :
          (k : Key) → view.present s' k ≡ (is_some (made index list k) || view.present s k)
      pub serves_at :
          (k : Key) (r : RealKey)
          → view.serves s' k r ≡ (
              if is_some (made index list k)
              then is_wanted net vip em k.1.0 (made index list k) r
              else view.serves s k r)

    new_server :
        (vs : VirtualServer net) (svcs : List Service) (s : S)
        → view.Valid s
        → view.present s (vs_key vs) ≡ false
        → ((i.add_virtual_server vs s).1 ≡ true)
          × Becomes view s (vs_key vs) true (is_wanted net vip em vs.port (some svcs)) (
            add_real_servers i vs
                (orders.reals (get_expect_rss net svcs em vs))
                (i.add_virtual_server vs s).0,
            true,
          )
    new_server vs svcs s v absent =
        let b = law.add_law vs s v absent in
        let expected = get_expect_rss-IsExpected net svcs em vs clean in
        let ordered = fair.reals (get_expect_rss net svcs em vs) expected.1 in
        (
          b.done,
          same_reals i view law
              (and_then i view law b (
                add_real_servers_lem i view law vs (orders.reals (get_expect_rss net svcs em vs))
                  (i.add_virtual_server vs s).0 b.valid (still_present i view law b) ordered.0
                  (λ t rs e. expected.0 t rs (sym (ordered.1 t) ∙ e))
                  (λ r h.
                    ground (arith, b.serves_at (vs_key vs) r, eq_iff (vs_key vs) (vs_key vs)))))
              (λ r. ground (
                arith,
                b.serves_at (vs_key vs) r,
                eq_iff (vs_key vs) (vs_key vs),
                has-keys (text_of r) (orders.reals (get_expect_rss net svcs em vs)),
                ordered.1 (text_of r),
                get_expect_rss-port net svcs em vs (server_at net vip vs.port) refl,
              )),
        )

    new_at_port :
        (index : Bool) (port : ℕ)
        → port < 2 ^ 16
        → vs_key (new_virtual_server {net = net} vip index port) ≡ port_key index port
    new_at_port index port h = ground (arith, h)

    Made-more :
        (index : Bool) (port : ℕ) (svcs : List Service) (list : Map ℕ (List Service)) (s s' s'' : S)
        → has port (keys list) ≡ false
        → Becomes view s
            (port_key index port)
            true
            (is_wanted net vip em port (some svcs))
            (s', true)
        → Made index list s' s''
        → Made index ((port, svcs) ∷ list) s s''
    Made-more index port svcs list s s' s'' fresh b rest = record {
      valid = rest.valid;
      present_at = λ k. ground (
        arith,
        rest.present_at k,
        b.present_at k,
        made_cons index port svcs list k,
        eq_iff (port_key index port) k,
      );
      serves_at = λ k r. ground (
        arith,
        rest.serves_at k r,
        b.serves_at k r,
        made_cons index port svcs list k,
        eq_iff (port_key index port) k,
        made_fresh index port list fresh,
        ap (made index list) {x = port_key index port} {y = k},
        ap (λ (x : Key). is_wanted net vip em x.1.0 (some svcs) r) {x = port_key index port}
            {y = k},
      );
    }

    create_more :
        (index : Bool) (port : ℕ) (svcs : List Service) (list : Map ℕ (List Service)) (s : S)
        → (i.add_virtual_server (new_virtual_server vip index port) s).1 ≡ true
        → create_virtual_servers i orders vip em index ((port, svcs) ∷ list) s
          ≡ create_virtual_servers i orders vip em index list (
              add_real_servers i
                (new_virtual_server vip index port)
                (orders.reals (get_expect_rss net svcs em (new_virtual_server vip index port)))
                (i.add_virtual_server (new_virtual_server vip index port) s).0)
    unfolding create_virtual_servers
    create_more index port svcs list s done =
        ap (create_virtual_servers i orders vip em index list) (ground (arith, done))

    create_none : (index : Bool) (s : S) → create_virtual_servers i orders vip em index [] s ≡ s
    unfolding create_virtual_servers
    create_none index s = refl

    still_absent :
        (index : Bool) (port : ℕ) (svcs : List Service) (list : Map ℕ (List Service)) (s s' : S)
        → has port (keys list) ≡ false
        → Becomes view s
            (port_key index port)
            true
            (is_wanted net vip em port (some svcs))
            (s', true)
        → ((k : Key)
            → is_some (made index ((port, svcs) ∷ list) k) ≡ true
            → view.present s k ≡ false)
        → (k : Key) → is_some (made index list k) ≡ true
        → view.present s' k ≡ false
    still_absent index port svcs list s s' fresh b absent k h = ground (
      arith,
      b.present_at k,
      absent k,
      made_cons index port svcs list k,
      h,
      eq_iff (port_key index port) k,
      made_fresh index port list fresh,
      ap (made index list) {x = port_key index port} {y = k},
    )

    -- The virtual server of a port, made under the key of the port.
    new_port :
        (index : Bool) (port : ℕ) (svcs : List Service) (s : S)
        → port < 2 ^ 16
        → view.Valid s
        → view.present s (port_key index port) ≡ false
        → ((i.add_virtual_server (new_virtual_server vip index port) s).1 ≡ true)
          × Becomes view s (port_key index port) true (is_wanted net vip em port (some svcs)) (
            add_real_servers i
                (new_virtual_server vip index port)
                (orders.reals (get_expect_rss net svcs em (new_virtual_server vip index port)))
                (i.add_virtual_server (new_virtual_server vip index port) s).0,
            true,
          )
    new_port index port svcs s fits v absent =
        let vs = new_virtual_server {net = net} vip index port in
        let key = new_at_port index port fits in
        let (done, b) = new_server vs svcs s v (ap (view.present s) key ∙ absent) in
        (
          done,
          subst
              (λ (k : Key). Becomes view s k true (is_wanted net vip em k.1.0 (some svcs)) (
                add_real_servers i vs (orders.reals (get_expect_rss net svcs em vs))
                    (i.add_virtual_server vs s).0,
                true,
              ))
              key b,
        )

    pub create_virtual_servers_lem :
        (index : Bool) (list : Map ℕ (List Service)) (s : S)
        → view.Valid s
        → PortsFit list
        → Distinct (keys list)
        → ((k : Key) → is_some (made index list k) ≡ true → view.present s k ≡ false)
        → Made index list s (create_virtual_servers i orders vip em index list s)
    unfolding lookup
    create_virtual_servers_lem index [] s v fit d absent =
        subst (Made index [] s) (sym (create_none index s))
          (record { valid = v; present_at = λ k. ground arith; serves_at = λ k r. ground arith })
    create_virtual_servers_lem index ((port, svcs) ∷ list) s v fit d absent =
        let (done, b) = new_port index port svcs s fit.0 v (
          absent (port_key index port) (
            ground (
              arith,
              made_cons index port svcs list (port_key index port),
              eq_iff (port_key index port) (port_key index port),
            ))) in
        let vs = new_virtual_server {net = net} vip index port in
        let s' =
          add_real_servers i vs (orders.reals (get_expect_rss net svcs em vs))
            (i.add_virtual_server vs s).0 in
        subst (Made index ((port, svcs) ∷ list) s) (sym (create_more index port svcs list s done)) (
          Made-more index port svcs list s s' (create_virtual_servers i orders vip em index list s')
            d.0 b
            (create_virtual_servers_lem index list s' b.valid fit.1 d.1
              (still_absent index port svcs list s s' d.0 b absent)))
