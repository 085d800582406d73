-- ===== src/Adaptor/Rules.antt =====
-- lvs/adaptor/iptables.go: the rules that mark traffic to the virtual servers, and the set of their
-- addresses and ports.
use kube_bazellb.Prelude.{
  ℕ, pos, Bool, true, false, not, none, some, List, [], ◌∷◌, Str, codes, string_eq, if◌then◌else◌,
}
use kube_bazellb.Prelude.Members.{has, keys}
use kube_bazellb.Text.Sort.{sort}
use kube_bazellb.Ipset.{IpSet, IpSetEntry, hash_ip_port, protocol_tcp, protocol_udp}
use kube_bazellb.Ipset.Entry.{entry_string}
use kube_bazellb.Ipset.Interface.{Interface}
use kube_bazellb.Iptables.{prepend, table_nat}
use kube_bazellb.Iptables.Interface.{Interface as Tables}
use kube_bazellb.Adaptor.Maps.{PortMap}

abbrev pub ipset_name : Str
ipset_name = codes "bmlb-vip-vport"

abbrev pub mark : Str
mark = codes "0x4000/0x4000"

pub record Rule : Type 0 where
  pub position : Str
  pub table : Str
  pub chain : Str
  pub rules : List Str

abbrev mark_rule : Str → Rule
mark_rule chain = record {
  position = prepend;
  table = table_nat;
  chain = chain;
  rules =
      codes "-p"
      ∷ codes "all"
      ∷ codes "-m"
      ∷ codes "set"
      ∷ codes "--match-set"
      ∷ ipset_name
      ∷ codes "dst,dst"
      ∷ codes "-j"
      ∷ codes "MARK"
      ∷ codes "--set-xmark"
      ∷ mark
      ∷ [];
}

abbrev pub const_rules : List Rule
const_rules =
    mark_rule (codes "OUTPUT")
    ∷ mark_rule (codes "PREROUTING")
    ∷ record {
      position = prepend;
      table = table_nat;
      chain = codes "POSTROUTING";
      rules =
          codes "-m" ∷ codes "mark" ∷ codes "--mark" ∷ mark ∷ codes "-j" ∷ codes "MASQUERADE" ∷ [];
    }
    ∷ []

-- `&ipset.IPSet{Name: ipsetName, SetType: ipset.HashIPPort}`
abbrev pub vip_set : IpSet
vip_set = record {
  name = ipset_name;
  set_type = hash_ip_port;
  hash_family = [];
  hash_size = pos 0;
  max_elem = pos 0;
  port_range = [];
}

abbrev pub port_entry : Str → Bool → ℕ → Str → IpSetEntry
port_entry ip index port set_type = record {
  ip = ip;
  port = pos port;
  protocol = if index then protocol_udp else protocol_tcp;
  subnet = [];
  ip2 = [];
  set_type = set_type;
  options = [];
}

-- `sets.String.Insert`, with the elements as a list without repetition.
abbrev pub insert_text : Str → List Str → List Str
insert_text x l = if has x l then l else x ∷ l

-- `delete(expectEntries, existEntry)`
abbrev pub delete_text : Str → List Str → List Str
delete_text x [] = []
delete_text x (y ∷ l) = let rest = delete_text x l in if string_eq.same y x then rest else y ∷ rest

-- The entries of the ports of one protocol, put into the set.
unfoldable pub port_entries : Str → Str → Bool → List ℕ → List Str → List Str
unfolding entry_string
port_entries ip set_type index [] expected = expected
port_entries ip set_type index (p ∷ ports) expected =
    port_entries ip set_type index ports
      (insert_text (entry_string (port_entry ip index p set_type)) expected)

unfoldable pub expect_entries : Str → Str → PortMap → List Str
unfolding port_entries
expect_entries ip set_type pm =
    port_entries ip set_type true (keys pm.at1) (port_entries ip set_type false (keys pm.at0) [])

module _ {S : Type 0} (t : Tables S) where
  unfoldable pub ensure_rules : List Rule → S → S
  ensure_rules [] s = s
  ensure_rules (r ∷ rules) s =
      ensure_rules rules (t.ensure_rule r.position r.table r.chain r.rules s).0

module _ {S : Type 0} (i : Interface S) where
  -- The loop over the entries that are there: what is not expected is deleted, and what is need not
  -- be added.
  unfoldable pub prune_entries : List Str → List Str × S → List Str × S
  prune_entries [] (expected, s) = (expected, s)
  prune_entries (e ∷ existing) (expected, s) = prune_entries existing (
      if not (has e expected)
      then (expected, (i.del_entry e ipset_name s).0)
      else (delete_text e expected, s))

  unfoldable pub add_entries : IpSet → List Str → S → S
  add_entries set [] s = s
  add_entries set (e ∷ entries) s = add_entries set entries (i.add_entry e set true s).0

  unfoldable pub sync_entries : Str → PortMap → IpSet → S → S
  unfolding prune_entries add_entries expect_entries sort
  sync_entries ip pm set s =
      let (s', listed) = i.list_entries ipset_name s in
      elim listed [
        | none ↦ s'
        | some existing ↦
            let (left, s2) = prune_entries existing (expect_entries ip set.set_type pm, s') in
            add_entries set (sort left) s2
      ]

module _ {S : Type 0} (i : Interface S) (t : Tables S) where
  -- `ip` is the text of the virtual server address.
  unfoldable pub build_iptables : Str → PortMap → S → S
  unfolding ensure_rules sync_entries
  build_iptables ip pm s =
      let (s', (set, done)) = i.create_set vip_set true s in
      if done then sync_entries i ip pm set (ensure_rules t const_rules s') else s'
