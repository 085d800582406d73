-- ===== src/Ipset/Validate.antt =====
-- utils/ipset/ipset.go: the checks of sets and entries. `cidr` stands for `net.ParseCIDR` and says
-- whether it gives a network.
use kube_bazellb.Prelude.{
  ℤ, Bool, true, false, ◌&&◌, ◌||◌, not, Option, none, some, List, [], ◌∷◌, Str, str_eq, string_eq,
  if◌then◌else◌,
}
use kube_bazellb.Prelude.Members.{has}
use kube_bazellb.Text.{split}
use kube_bazellb.Net.{Net}
use kube_bazellb.Ipset.{
  IpSet, IpSetEntry, hash_ip, hash_ip_port, hash_ip_port_ip, hash_ip_port_net, bitmap_port,
  hash_net, hash_net_port, default_port_range, protocol_tcp, protocol_udp, protocol_family_ipv4,
  protocol_family_ipv6, valid_ipset_types, atoi, is_negative, is_positive, lt_int,
}

unfoldable pub validate_hash_family : Str → Bool
validate_hash_family family =
    str_eq family protocol_family_ipv4 || str_eq family protocol_family_ipv6

unfoldable pub validate_ipset_type : Str → Bool
validate_ipset_type t = has t valid_ipset_types

unfoldable pub validate_protocol : Str → Bool
validate_protocol protocol = str_eq protocol protocol_tcp || str_eq protocol protocol_udp

abbrev is_port : Option ℤ → Bool
is_port none = false
is_port (some n) = not (is_negative n)

-- The loop of `validatePortRange`.
unfoldable pub all_ports : List Str → Bool
unfolding atoi
all_ports [] = true
all_ports (s ∷ strs) = is_port (atoi s) && all_ports strs

unfoldable pub validate_port_range : Str → Bool
unfolding all_ports split
validate_port_range port_range = elim (split b'-' port_range) [
  | a ∷ b ∷ [] ↦ all_ports (a ∷ b ∷ [])
  | _ ↦ false
]

abbrev in_order : ℤ → ℤ → ℤ × ℤ
in_order a b = if lt_int b a then (b, a) else (a, b)

abbrev port_pair : Option ℤ → Option ℤ → Option (ℤ × ℤ)
port_pair none b = none
port_pair (some a) none = none
port_pair (some a) (some b) = if is_negative a || is_negative b then none else some (in_order a b)

-- The smaller port first.
unfoldable pub parse_port_range : Str → Option (ℤ × ℤ)
unfolding atoi split
parse_port_range port_range =
    elim (split b'-' (if str_eq port_range [] then default_port_range else port_range)) [
      | a ∷ b ∷ [] ↦ port_pair (atoi a) (atoi b)
      | _ ↦ none
    ]

unfoldable pub validate_set : IpSet → Bool
unfolding validate_hash_family validate_ipset_type validate_port_range
validate_set set =
    let t = set.set_type in
    if (str_eq t hash_ip_port
        || str_eq t hash_ip_port_ip
        || str_eq t hash_ip_port_net
        || str_eq t hash_net
        || str_eq t hash_net_port)
      && not (validate_hash_family set.hash_family)
    then false
    else if not (validate_ipset_type t)
    then false
    else if str_eq t bitmap_port && not (validate_port_range set.port_range)
    then false
    else if not (is_positive set.hash_size)
    then false
    else is_positive set.max_elem

-- "set default protocol to tcp if empty"
abbrev pub with_protocol : IpSetEntry → IpSetEntry
with_protocol e = if str_eq e.protocol [] then record e { protocol = protocol_tcp } else e

unfoldable pub in_port_range : ℤ → Option IpSet → Bool
unfolding parse_port_range
in_port_range port none = false
in_port_range port (some set) = elim (parse_port_range set.port_range) [
  | none ↦ false
  | some range ↦ not (lt_int port range.0 || lt_int range.1 port)
]

module _ (net : Net) (cidr : Str → Bool) where
  abbrev pub is_ip : Str → Bool
  is_ip s = not (net.eq.same (net.parse s) net.nil)

  -- The entry with its protocol filled in, and the answer. A nil set is `none`.
  unfoldable pub validate_entry : IpSetEntry → Option IpSet → IpSetEntry × Bool
  unfolding validate_protocol in_port_range
  validate_entry e set =
      let t = e.set_type in
      let e' = with_protocol e in
      let protocol = validate_protocol e'.protocol in
      if is_negative e.port
      then (e, false)
      else if str_eq t hash_ip
      then (e, is_ip e.ip)
      else if str_eq t hash_ip_port
      then (e', is_ip e.ip && protocol)
      else if str_eq t hash_ip_port_ip
      then (e', is_ip e.ip && protocol && is_ip e.ip2)
      else if str_eq t hash_ip_port_net
      then (e', is_ip e.ip && protocol && cidr e.subnet)
      else if str_eq t bitmap_port
      then (e, in_port_range e.port set)
      else if str_eq t hash_net
      then (e, cidr e.subnet)
      else if str_eq t hash_net_port
      then (e', protocol && cidr e.subnet)
      else (e, true)
