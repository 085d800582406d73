-- ===== src/Adaptor/Frame.antt =====
-- lvs/adaptor: what every call that `Build` makes keeps, `Build` keeps.
use kube_bazellb.Prelude.{
  ℤ, ℕ, Bool, true, false, not, Option, none, some, List, [], ◌∷◌, Str, codes, nat_eq, string_eq,
  str_eq, if◌then◌else◌,
}
use kube_bazellb.Prelude.Assoc.{lookup, remove}
use kube_bazellb.Prelude.Members.{has}
use kube_bazellb.Text.Sort.{sort}
use kube_bazellb.Kube.{Service}
use kube_bazellb.Net.{Net}
use kube_bazellb.Lvs.{VirtualServer, RealServer}
use kube_bazellb.Lvs.Interface.{Interface}
use kube_bazellb.Ipset.{IpSet, itoa_int}
use kube_bazellb.Ipset.Interface.{Interface as Sets}
use kube_bazellb.Iptables.Interface.{Interface as Tables}
use kube_bazellb.Sysctl.{Disk, sysctl_path, same_int, get_sysctl, set_sysctl, ensure_sysctl}
use kube_bazellb.Adaptor.{Orders}
use kube_bazellb.Adaptor.Maps.{PortMap, EndpointsMap, port_map_at, set_port_map}
use kube_bazellb.Adaptor.Expect.{Expected, address_port, get_expect_rss}
use kube_bazellb.Adaptor.Sync.{
  add_real_servers, sync_real_server, sync_real_servers, new_virtual_server, sync_virtual_server,
  sync_virtual_servers, create_virtual_servers, sync,
}
use kube_bazellb.Adaptor.Rules.{
  Rule, ipset_name, vip_set, const_rules, delete_text, ensure_rules, prune_entries, add_entries,
  expect_entries, sync_entries, build_iptables,
}

keep_option {ℓ} :
    {A B : Type 0} (Q : B → Type ℓ) (o : Option A) (n : B) (f : A → B)
    → Q n
    → ((a : A) → Q (f a))
    → Q (elim o [ none ↦ n | some a ↦ f a ])
keep_option Q none n f qn qf = qn
keep_option Q (some a) n f qn qf = qf a

keep_if {ℓ} :
    {B : Type 0} (Q : B → Type ℓ) (b : Bool) (x y : B) → Q x → Q y → Q (if b then x else y)
keep_if Q true x y qx qy = qx
keep_if Q false x y qx qy = qy

pub record LvsKeeps {net : Net} {S : Type 0} (i : Interface net S) (P : S → Type 0) : Type 0 where
  pub add_virtual_server : (vs : VirtualServer net) (s : S) → P s → P (i.add_virtual_server vs s).0
  pub delete_virtual_server :
      (vs : VirtualServer net) (s : S) → P s → P (i.delete_virtual_server vs s).0
  pub add_real_server :
      (vs : VirtualServer net) (rs : RealServer net) (s : S) → P s → P (i.add_real_server vs rs s).0
  pub delete_real_server :
      (vs : VirtualServer net) (rs : RealServer net) (s : S)
      → P s
      → P (i.delete_real_server vs rs s).0

pub record SetsKeep {S : Type 0} (i : Sets S) (P : S → Type 0) : Type 0 where
  pub create_set : (set : IpSet) (ignore : Bool) (s : S) → P s → P (i.create_set set ignore s).0
  pub list_entries : (set : Str) (s : S) → P s → P (i.list_entries set s).0
  pub add_entry :
      (entry : Str) (set : IpSet) (ignore : Bool) (s : S)
      → P s
      → P (i.add_entry entry set ignore s).0
  pub del_entry : (entry set : Str) (s : S) → P s → P (i.del_entry entry set s).0

module _ {net : Net} {S : Type 0} (i : Interface net S) (P : S → Type 0)
    (keeps : LvsKeeps i P) where
  add_real_servers-keeps :
      (vs : VirtualServer net) (l : List (Str × RealServer net)) (s : S)
      → P s
      → P (add_real_servers i vs l s)
  unfolding add_real_servers
  add_real_servers-keeps vs [] s p = p
  add_real_servers-keeps vs ((str, rs) ∷ l) s p =
      add_real_servers-keeps vs l (i.add_real_server vs rs s).0 (keeps.add_real_server vs rs s p)

  sync_real_servers-keeps :
      (vs : VirtualServer net) (rss : List (RealServer net)) (expected : Expected net) (s : S)
      → P s
      → P (sync_real_servers i vs rss (expected, s)).1
  unfolding sync_real_servers sync_real_server
  sync_real_servers-keeps vs [] expected s p = p
  sync_real_servers-keeps vs (rs ∷ rss) expected s p =
      let text = address_port (net.show rs.address) rs.port in
      keep_option (λ acc. P (sync_real_servers i vs rss acc).1) (lookup text expected)
        (expected, (i.delete_real_server vs rs s).0) (λ found. (remove text expected, s))
        (sync_real_servers-keeps vs rss expected (i.delete_real_server vs rs s).0
          (keeps.delete_real_server vs rs s p))
        (λ found. sync_real_servers-keeps vs rss (remove text expected) s p)

  module _ (orders : Orders net) (vip : net.IP) (em : EndpointsMap) where
    sync_virtual_server-keeps :
        (vs : VirtualServer net) (pm : PortMap) (s : S)
        → P s
        → P (sync_virtual_server i orders vip em vs (pm, s)).1
    unfolding sync_virtual_server
    sync_virtual_server-keeps vs pm s p =
        let index = str_eq vs.protocol (codes "UDP") in
        let gone = (i.delete_virtual_server vs s).0 in
        let kept = keeps.delete_virtual_server vs s p in
        let pm' = set_port_map index (remove vs.port (port_map_at index pm)) pm in
        let known : List Service → List (RealServer net) → PortMap × S = λ svcs rss.
          let (left, s') = sync_real_servers i vs rss (get_expect_rss net svcs em vs, s) in
          (pm', add_real_servers i vs (orders.reals left) s') in
        let found : List Service → PortMap × S =
          λ svcs. elim (i.get_real_servers vs s) [ none ↦ (pm', s) | some rss ↦ known svcs rss ] in
        let looked = lookup vs.port (port_map_at index pm) in
        let Q : PortMap × S → Type 0 = λ acc. P acc.1 in
        keep_if Q (not (net.eq.same vs.address vip)) (pm, gone)
          (elim looked [ none ↦ (pm, gone) | some svcs ↦ found svcs ]) kept
          (keep_option Q looked (pm, gone) found kept
            (λ svcs.
              keep_option Q (i.get_real_servers vs s) (pm', s) (known svcs) p
                (λ rss.
                  let acc = sync_real_servers i vs rss (get_expect_rss net svcs em vs, s) in
                  add_real_servers-keeps vs (orders.reals acc.0) acc.1
                    (sync_real_servers-keeps vs rss (get_expect_rss net svcs em vs) s p))))

    sync_virtual_servers-keeps :
        (vss : List (VirtualServer net)) (pm : PortMap) (s : S)
        → P s
        → P (sync_virtual_servers i orders vip em vss (pm, s)).1
    unfolding sync_virtual_servers
    sync_virtual_servers-keeps [] pm s p = p
    sync_virtual_servers-keeps (vs ∷ vss) pm s p =
        let acc = sync_virtual_server i orders vip em vs (pm, s) in
        sync_virtual_servers-keeps vss acc.0 acc.1 (sync_virtual_server-keeps vs pm s p)

    create_virtual_servers-keeps :
        (index : Bool) (l : List (ℕ × List Service)) (s : S)
        → P s
        → P (create_virtual_servers i orders vip em index l s)
    unfolding create_virtual_servers
    create_virtual_servers-keeps index [] s p = p
    create_virtual_servers-keeps index ((port, svcs) ∷ l) s p =
        let vs : VirtualServer net = new_virtual_server vip index port in
        let (s', done) = i.add_virtual_server vs s in
        let p' = keeps.add_virtual_server vs s p in
        let reals = orders.reals (get_expect_rss net svcs em vs) in
        let after = if done then add_real_servers i vs reals s' else s' in
        create_virtual_servers-keeps index l after (
          keep_if P done (add_real_servers i vs reals s') s' (add_real_servers-keeps vs reals s' p')
            p')

    -- The work of `Build` on IPVS keeps what its calls keep.
    pub sync-keeps : (pm : PortMap) (s : S) → P s → P (sync i orders vip em pm s)
    unfolding sync
    sync-keeps pm s p =
        let all : List (VirtualServer net) → S = λ vss.
          let (pm', s') = sync_virtual_servers i orders vip em vss (pm, s) in
          create_virtual_servers i orders vip em true (orders.ports pm'.at1)
            (create_virtual_servers i orders vip em false (orders.ports pm'.at0) s') in
        keep_option P (i.get_virtual_servers s) s all p (λ vss.
          let (pm', s') = sync_virtual_servers i orders vip em vss (pm, s) in
          create_virtual_servers-keeps true (orders.ports pm'.at1)
            (create_virtual_servers i orders vip em false (orders.ports pm'.at0) s')
            (create_virtual_servers-keeps false (orders.ports pm'.at0) s'
              (sync_virtual_servers-keeps vss pm s p)))

module _ {S : Type 0} (i : Sets S) (t : Tables S) (P : S → Type 0) (keeps : SetsKeep i P)
    (rules_keep : (position table chain : Str) (args : List Str) (s : S)
      → P s
      → P (t.ensure_rule position table chain args s).0) where
  ensure_rules-keeps : (rules : List Rule) (s : S) → P s → P (ensure_rules t rules s)
  unfolding ensure_rules
  ensure_rules-keeps [] s p = p
  ensure_rules-keeps (r ∷ rules) s p =
      ensure_rules-keeps rules (t.ensure_rule r.position r.table r.chain r.rules s).0
        (rules_keep r.position r.table r.chain r.rules s p)

  prune_entries-keeps :
      (existing expected : List Str) (s : S) → P s → P (prune_entries i existing (expected, s)).1
  unfolding prune_entries
  prune_entries-keeps [] expected s p = p
  prune_entries-keeps (e ∷ existing) expected s p =
      let gone = (i.del_entry e ipset_name s).0 in
      keep_if (λ acc. P (prune_entries i existing acc).1) (not (has e expected)) (expected, gone)
        (delete_text e expected, s)
        (prune_entries-keeps existing expected gone (keeps.del_entry e ipset_name s p))
        (prune_entries-keeps existing (delete_text e expected) s p)

  add_entries-keeps :
      (set : IpSet) (entries : List Str) (s : S) → P s → P (add_entries i set entries s)
  unfolding add_entries
  add_entries-keeps set [] s p = p
  add_entries-keeps set (e ∷ entries) s p =
      add_entries-keeps set entries (i.add_entry e set true s).0 (keeps.add_entry e set true s p)

  sync_entries-keeps :
      (ip : Str) (pm : PortMap) (set : IpSet) (s : S) → P s → P (sync_entries i ip pm set s)
  unfolding sync_entries
  sync_entries-keeps ip pm set s p =
      let (s', listed) = i.list_entries ipset_name s in
      let p' = keeps.list_entries ipset_name s p in
      let expected = expect_entries ip set.set_type pm in
      let pruned : List Str → S = λ existing.
        let (left, s2) = prune_entries i existing (expected, s') in
        add_entries i set (sort left) s2 in
      keep_option P listed s' pruned p' (λ existing.
        let (left, s2) = prune_entries i existing (expected, s') in
        add_entries-keeps set (sort left) s2 (prune_entries-keeps existing expected s' p'))

  -- The work of `Build` on iptables and ipset keeps what its calls keep.
  pub build_iptables-keeps :
      (ip : Str) (pm : PortMap) (s : S) → P s → P (build_iptables i t ip pm s)
  unfolding build_iptables
  build_iptables-keeps ip pm s p =
      let (s', (set, done)) = i.create_set vip_set true s in
      let p' = keeps.create_set vip_set true s p in
      keep_if P done (sync_entries i ip pm set (ensure_rules t const_rules s')) s'
        (sync_entries-keeps ip pm set (ensure_rules t const_rules s')
          (ensure_rules-keeps const_rules s' p'))
        p'

module _ {S : Type 0} (disk : Disk S) (P : S → Type 0)
    (writes_keep : (path text : Str) (s : S) → P s → P (disk.write_file path text s).0) where
  pub ensure_sysctl-keeps :
      (sysctl : Str) (v : ℤ) (s : S) → P s → P (ensure_sysctl disk sysctl v s).0
  unfolding ensure_sysctl set_sysctl
  ensure_sysctl-keeps sysctl v s p =
      let Q : S × Bool → Type 0 = λ r. P r.0 in
      let wrote = set_sysctl disk sysctl v s in
      let p' = writes_keep (sysctl_path sysctl) (itoa_int v) s p in
      keep_option Q (get_sysctl disk sysctl s) (s, false)
        (λ old. if same_int old v then (s, true) else wrote) p
        (λ old. keep_if Q (same_int old v) (s, true) wrote p p')
