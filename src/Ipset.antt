-- ===== src/Ipset.antt =====
-- utils/ipset/types.go and the types of utils/ipset/ipset.go. A Go int is an integer; `Type` is a
-- string.
pub mod Interface
pub mod Spec
pub mod Validate
pub mod Entry
pub mod Ranges
pub mod Printing
pub mod Runner
pub mod Listing
pub mod Fake
use kube_bazellb.Prelude.{
  ℕ, suc, ℤ, pos, negsuc, ◌-◌, ◌^◌, Bool, true, false, Option, none, some, List, [], ◌∷◌, Str,
  codes, leb, nat_beq, if◌then◌else◌,
}
use kube_bazellb.Text.{itoa, parse_uint}

pub record IpSet : Type 0 where
  pub name : Str
  pub set_type : Str
  pub hash_family : Str
  pub hash_size : ℤ
  pub max_elem : ℤ
  pub port_range : Str

pub record IpSetEntry : Type 0 where
  pub ip : Str
  pub port : ℤ
  pub protocol : Str
  pub subnet : Str
  pub ip2 : Str
  pub set_type : Str
  pub options : List Str

abbrev pub hash_ip : Str
hash_ip = codes "hash:ip"

abbrev pub hash_ip_port : Str
hash_ip_port = codes "hash:ip,port"

abbrev pub hash_ip_port_ip : Str
hash_ip_port_ip = codes "hash:ip,port,ip"

abbrev pub hash_ip_port_net : Str
hash_ip_port_net = codes "hash:ip,port,net"

abbrev pub bitmap_port : Str
bitmap_port = codes "bitmap:port"

abbrev pub hash_net : Str
hash_net = codes "hash:net"

abbrev pub hash_net_port : Str
hash_net_port = codes "hash:net,port"

abbrev pub default_port_range : Str
default_port_range = codes "0-65535"

abbrev pub protocol_tcp : Str
protocol_tcp = codes "tcp"

abbrev pub protocol_udp : Str
protocol_udp = codes "udp"

abbrev pub protocol_family_ipv4 : Str
protocol_family_ipv4 = codes "inet"

abbrev pub protocol_family_ipv6 : Str
protocol_family_ipv6 = codes "inet6"

abbrev pub valid_ipset_types : List Str
valid_ipset_types =
    hash_ip ∷ hash_ip_port ∷ hash_ip_port_ip ∷ bitmap_port ∷ hash_ip_port_net ∷ hash_net
    ∷ hash_net_port ∷ []

-- `strconv.Itoa`
unfoldable pub itoa_int : ℤ → Str
unfolding itoa
itoa_int (pos n) = itoa n
itoa_int (negsuc n) = b'-' ∷ itoa (suc n)

abbrev signed : Bool → Option ℕ → Option ℤ
signed minus none = none
signed false (some n) = if leb n (2 ^ 63 - 1) then some (pos n) else none
signed true (some n) =
    if nat_beq n 0 then some (pos 0) else if leb n (2 ^ 63) then some (negsuc (n - 1)) else none

-- `strconv.Atoi`: a sign, then decimal digits that fit an int of 64 bits.
unfoldable pub atoi : Str → Option ℤ
unfolding parse_uint
atoi [] = none
atoi (c ∷ s) =
    if nat_beq c b'+'
    then signed false (parse_uint s)
    else if nat_beq c b'-'
    then signed true (parse_uint s)
    else signed false (parse_uint (c ∷ s))

abbrev pub is_negative : ℤ → Bool
is_negative (pos n) = false
is_negative (negsuc n) = true

-- `n > 0`
abbrev pub is_positive : ℤ → Bool
is_positive (pos n) = leb 1 n
is_positive (negsuc n) = false

abbrev pub lt_int : ℤ → ℤ → Bool
lt_int (pos m) (pos n) = leb (suc m) n
lt_int (pos m) (negsuc n) = false
lt_int (negsuc m) (pos n) = true
lt_int (negsuc m) (negsuc n) = leb (suc n) m
