-- ===== src/Adaptor/Marked.antt =====
-- lvs/adaptor/iptables.go, `buildIptables`: one entry for each port of each protocol, and no other.
use kube_bazellb.Prelude.{
  ℕ, Bool, true, ◌||◌, some, List, [], ◌∷◌, Str, string_eq, nat_eq, eq_iff, ◌≡◌, refl, ap, sym,
  subst, ◌∙◌, arith,
}
use kube_bazellb.Prelude.Members.{has, is_some}
use kube_bazellb.Prelude.Assoc.{lookup}
use kube_bazellb.Text.Sort.{sort, has-sort}
use kube_bazellb.Ipset.{IpSet, hash_ip_port}
use kube_bazellb.Ipset.Interface.{Interface}
use kube_bazellb.Ipset.Spec.{View, Becomes, Lawful}
use kube_bazellb.Iptables.Interface.{Interface as Tables}
use kube_bazellb.Adaptor.Maps.{PortMap, port_map_at}
use kube_bazellb.Adaptor.Rules.{
  Rule, ipset_name, vip_set, const_rules, ensure_rules, prune_entries, add_entries, expect_entries,
  sync_entries, build_iptables,
}
use kube_bazellb.Adaptor.Entries.{
  and_then, same_texts, nothing, still_created, add_entries_lem, prune_entries_lem,
}
use kube_bazellb.Adaptor.PortTexts.{port_text, has-expect_entries}

module _ {S : Type 0} (i : Interface S) (view : View S) (law : Lawful i view) (t : Tables S)
    (accepts : view.Accepts vip_set)
    (frame : (position table chain : Str) (rules : List Str) (s : S)
      → view.Valid s
      → view.created s ipset_name ≡ true
      → Becomes view s ipset_name
          (λ e. view.member s ipset_name e)
          (t.ensure_rule position table chain rules s).0
          true) where
  ensure_rules_lem :
      (rules : List Rule) (s : S)
      → view.Valid s
      → view.created s ipset_name ≡ true
      → Becomes view s ipset_name (λ e. view.member s ipset_name e) (ensure_rules t rules s) true
  unfolding ensure_rules
  ensure_rules_lem [] s v c = nothing i view law s ipset_name v c
  ensure_rules_lem (r ∷ rules) s v c =
      let b = frame r.position r.table r.chain r.rules s v c in
      same_texts i view law
        (and_then i view law b (
          ensure_rules_lem rules (t.ensure_rule r.position r.table r.chain r.rules s).0 b.valid
            (still_created i view law b)))
        (λ e. ground (arith, b.member_at ipset_name e, eq_iff ipset_name ipset_name))

  sync_listed :
      (ip : Str) (pm : PortMap) (set : IpSet) (s : S) (l : List Str)
      → set.set_type ≡ hash_ip_port
      → (i.list_entries ipset_name s).0 ≡ s
      → (i.list_entries ipset_name s).1 ≡ some l
      → sync_entries i ip pm set s
        ≡ add_entries i set
            (sort (prune_entries i l (expect_entries ip hash_ip_port pm, s)).0)
            (prune_entries i l (expect_entries ip hash_ip_port pm, s)).1
  unfolding sync_entries
  sync_listed ip pm set s l type same listed = ground (arith, type, same, listed)

  add_left :
      (set : IpSet) (left : List Str) (s : S)
      → view.Valid s
      → view.created s ipset_name ≡ true
      → set.name ≡ ipset_name
      → Becomes view s ipset_name
          (λ e. has e left || view.member s ipset_name e)
          (add_entries i set (sort left) s)
          true
  add_left set left s v c name =
      same_texts i view law
        (subst
          (λ n.
            Becomes view s n (λ e. has e (sort left) || view.member s n e)
              (add_entries i set (sort left) s) true)
          name (add_entries_lem i view law set (sort left) s v (ap (view.created s) name ∙ c)))
        (λ e. rw (has-sort e left) refl)

  sync_entries_lem :
      (ip : Str) (pm : PortMap) (set : IpSet) (s : S)
      → view.Valid s
      → view.created s ipset_name ≡ true
      → set.name ≡ ipset_name
      → set.set_type ≡ hash_ip_port
      → Becomes view s ipset_name
          (λ e. has e (expect_entries ip hash_ip_port pm))
          (sync_entries i ip pm set s)
          true
  sync_entries_lem ip pm set s v c name type =
      let (same, (l, listed, d, is)) = law.list_law ipset_name s v c in
      let expected = expect_entries ip hash_ip_port pm in
      let (b, left) = prune_entries_lem i view law l expected s v c d (λ e h. sym (is e) ∙ h) in
      let r = prune_entries i l (expected, s) in
      let b' = add_left set r.0 r.1 b.valid (still_created i view law b) name in
      rw (sync_listed ip pm set s l type same listed) (
        same_texts i view law (and_then i view law b b') (λ e.
          ground (arith, left e, is e, b.member_at ipset_name e, eq_iff ipset_name ipset_name)))

  build_created :
      (ip : Str) (pm : PortMap) (s : S)
      → (i.create_set vip_set true s).1.1 ≡ true
      → build_iptables i t ip pm s
        ≡ sync_entries i ip pm
            (i.create_set vip_set true s).1.0
            (ensure_rules t const_rules (i.create_set vip_set true s).0)
  unfolding build_iptables
  build_created ip pm s done = rw done refl

  -- What `build_iptables` leaves in its set.
  marked :
      (ip : Str) (pm : PortMap) (s : S)
      → view.Valid s
      → Becomes view s ipset_name
          (λ e. has e (expect_entries ip hash_ip_port pm))
          (build_iptables i t ip pm s)
          true
  marked ip pm s v =
      let b = law.create_law vip_set s v accepts in
      let rules =
        ensure_rules_lem const_rules (i.create_set vip_set true s).0 b.valid
          (still_created i view law b) in
      rw (build_created ip pm s b.done) (
        and_then i view law b (
          and_then i view law rules (
            sync_entries_lem ip pm (i.create_set vip_set true s).1.0
              (ensure_rules t const_rules (i.create_set vip_set true s).0) rules.valid
              (still_created i view law rules) (law.create_name vip_set s)
              (law.create_type vip_set s (λ e. cc)))))

  -- With an ipset implementation that keeps its promise and lets the set be created, and rules
  -- whose insertion leaves all sets alone, buildIptables leaves in its set exactly the expected
  -- entries, whatever was in it, and no other set changed; the entry of a port of a protocol is
  -- in it exactly when the services use that port.
  pub build_iptables_lem :
      (ip : Str) (pm : PortMap) (s : S)
      → view.Valid s
      → Becomes view s ipset_name
          (λ e. has e (expect_entries ip hash_ip_port pm))
          (build_iptables i t ip pm s)
          true
        × ((index : Bool) (p : ℕ)
            → view.member (build_iptables i t ip pm s) ipset_name (port_text ip index p)
              ≡ is_some (lookup p (port_map_at index pm)))
  build_iptables_lem ip pm s v =
      let b = marked ip pm s v in
      (
        b,
        λ index p. ground (
          arith,
          b.member_at ipset_name (port_text ip index p),
          eq_iff ipset_name ipset_name,
          has-expect_entries ip pm index p,
        ),
      )
