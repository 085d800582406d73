-- ===== src/Examples/Ipsets.antt =====
-- utils/ipset at small sets.
use kube_bazellb.Prelude.{
  pos, Bool, true, false, some, none, List, [], ◌∷◌, Str, codes, str_eq, ◌≡◌, refl, arith,
}
use kube_bazellb.Prelude.Members.{is_some}
use kube_bazellb.Text.{itoa, join}
use kube_bazellb.Ipset.{IpSet, IpSetEntry, hash_ip_port, hash_ip_port_ip}
use kube_bazellb.Ipset.Validate.{
  validate_set, validate_entry, validate_port_range, parse_port_range,
}
use kube_bazellb.Ipset.Entry.{entry_string}
use kube_bazellb.Ipset.Ranges.{validate_port_range-parse, parse_port_range-itoa}
use kube_bazellb.Ipset.Printing.{IsPrintable, stored, entry_string-injective}
use kube_bazellb.Ipset.Listing.{read_entries-listed}
use kube_bazellb.Ipset.Runner.{read_entries, with_defaults, find_version}
use kube_bazellb.Ipset.Spec.{Becomes}
use kube_bazellb.Ipset.Fake.{FakeIpSet, running, fake, list_entries, create_set, add_entry}
use kube_bazellb.Ipset.Fake.Laws.{IsFake, fake_sets-Lawful, fake_view}
use kube_bazellb.Prelude.Result.{ok}
use kube_bazellb.Iptables.Interface.{Interface as Tables}
use kube_bazellb.Adaptor.Maps.{PortMap, port_map_at}
use kube_bazellb.Adaptor.Rules.{ipset_name, expect_entries, build_iptables}
use kube_bazellb.Adaptor.Entries.{nothing}
use kube_bazellb.Adaptor.PortTexts.{port_text}
use kube_bazellb.Adaptor.Marked.{build_iptables_lem}
use kube_bazellb.Prelude.{ℕ, nat_eq, string_eq}
use kube_bazellb.Prelude.Members.{has}
use kube_bazellb.Prelude.Assoc.{lookup, insert}
use kube_bazellb.Examples.Servers.{texts}

abbrev vip_set : IpSet
vip_set = record {
  name = codes "bmlb-vip-vport";
  set_type = hash_ip_port;
  hash_family = [];
  hash_size = pos 0;
  max_elem = pos 0;
  port_range = [];
}

validate_set_test : validate_set vip_set ≡ false
unfolding validate_set str_eq
validate_set_test = refl

with_defaults_test : validate_set (with_defaults vip_set) ≡ true
unfolding validate_set with_defaults str_eq
with_defaults_test = refl

abbrev dns : IpSetEntry
dns = record {
  ip = codes "192.168.1.1";
  port = pos 53;
  protocol = codes "udp";
  subnet = [];
  ip2 = codes "10.0.0.1";
  set_type = hash_ip_port_ip;
  options = [];
}

entry_string_test : entry_string dns ≡ codes "192.168.1.1,udp:53,10.0.0.1"
unfolding entry_string str_eq
entry_string_test = refl

validate_entry_test : (validate_entry texts (λ s. true) dns none).1 ≡ true
unfolding validate_entry str_eq
validate_entry_test = refl

find_version_test : find_version (codes "ipset v6.29, protocol version: 6") ≡ some (codes "v6.29")
unfolding find_version
find_version_test = refl

dns-IsPrintable : IsPrintable dns
dns-IsPrintable = record {
  number = 53;
  port = refl;
  protocol = ground arith;
  ip2 = ground arith;
  subnet = tt;
}

-- The same entry with an option.
abbrev dns' : IpSetEntry
dns' = record dns { options = codes "timeout" ∷ [] }

entry_string-injective_example : stored dns ≡ stored dns'
unfolding entry_string
entry_string-injective_example =
    entry_string-injective dns dns' dns-IsPrintable
      (record {
        number = 53;
        port = refl;
        protocol = dns-IsPrintable.protocol;
        ip2 = dns-IsPrintable.ip2;
        subnet = tt;
      })
      refl refl

validate_port_range-parse_example :
    validate_port_range (codes "100-1") ≡ is_some (parse_port_range (codes "100-1"))
validate_port_range-parse_example = validate_port_range-parse (codes "100-1") (λ e. cc)

parse_port_range-itoa_example : parse_port_range (codes "100-1") ≡ some (pos 1, pos 100)
unfolding itoa
parse_port_range-itoa_example = parse_port_range-itoa 100 1 (omega arith) (omega arith)

abbrev members : List Str
members = codes "a" ∷ codes "b" ∷ []

read_entries-listed_example : read_entries (codes "N: f\nMembers:\na\nb\n") ≡ members
unfolding join str_eq
read_entries-listed_example =
    read_entries-listed (codes "N: f" ∷ []) members (ground arith) refl refl

abbrev pub no_sets : FakeIpSet
no_sets = record { version = []; sets = some []; entries = some [] }

pub no_sets-IsFake : IsFake no_sets
unfolding lookup
no_sets-IsFake = record {
  sets = [];
  entries = [];
  sets_are = refl;
  entries_are = refl;
  agree = λ n. refl;
  distinct = λ n. tt;
}

-- Rules that are always there.
abbrev pub steady : {S : Type 0} → Tables S
steady = record {
  get_version = λ s. (s, ok []);
  ensure_chain = λ table chain s. (s, ok true);
  flush_chain = λ table chain s. (s, ok tt);
  delete_chain = λ table chain s. (s, ok tt);
  ensure_rule = λ position table chain rules s. (s, ok true);
  delete_rule = λ table chain rules s. (s, ok tt);
  list_rule = λ table chain rules s. (s, ok []);
  is_ipv6 = false;
  save_into = λ table buffer s. (s, (buffer, ok tt));
  ensure_policy = λ table chain policy s. (s, ok tt);
  restore = λ table rules flush counters s. (s, ok tt);
  restore_all = λ rules flush counters s. (s, ok tt);
}

abbrev two_ports : PortMap
two_ports = record { at0 = (80, []) ∷ []; at1 = (53, []) ∷ [] }

build_iptables_lem_example :
    Becomes fake_view
      (running no_sets)
      ipset_name
      (λ e. has e (expect_entries (codes "10.0.0.2") hash_ip_port two_ports))
      (build_iptables fake steady (codes "10.0.0.2") two_ports (running no_sets))
      true
    × ((index : Bool) (p : ℕ)
        → fake_view.member
            (build_iptables fake steady (codes "10.0.0.2") two_ports (running no_sets))
            ipset_name
            (port_text (codes "10.0.0.2") index p)
          ≡ is_some (lookup p (port_map_at index two_ports)))
build_iptables_lem_example =
    build_iptables_lem fake fake_view fake_sets-Lawful steady tt
      (λ position table chain rules s v c. nothing fake fake_view fake_sets-Lawful s ipset_name v c)
      (codes "10.0.0.2") two_ports (running no_sets) no_sets-IsFake

build_iptables_test :
    (list_entries ipset_name
      (build_iptables fake steady (codes "10.0.0.2") two_ports (running no_sets))).1
    ≡ some (codes "10.0.0.2,tcp:80" ∷ codes "10.0.0.2,udp:53" ∷ [])
unfolding build_iptables fake list_entries str_eq create_set lookup insert add_entry
build_iptables_test = refl
