-- ===== src/Lvs/Convert.antt =====
-- The runner: virtual servers as services of the IPVS library. Its handle is a parameter, since the
-- library is vendored; `Option` in an argument is a pointer that may be nil.
use kube_bazellb.Prelude.{
  ℕ, ◌+◌, ◌-◌, ◌*◌, ◌/◌, ◌%◌, Bool, ◌&&◌, Option, none, some, List, [], ◌∷◌, Str, codes, leb,
  nat_beq, str_eq, if◌then◌else◌,
}
use kube_bazellb.Prelude.Result.{Result, ok, err}
use kube_bazellb.Net.{Net}
use kube_bazellb.Lvs.{VirtualServer, RealServer}

pub data ConvertError : Type 0 where
  nil_pointer flags_not_hashed : ConvertError

abbrev pub tcp_number : ℕ
tcp_number = 6

abbrev pub udp_number : ℕ
udp_number = 17

abbrev pub af_inet : ℕ
af_inet = 2

abbrev pub af_inet6 : ℕ
af_inet6 = 10

-- `strings.ToLower` on ASCII.
unfoldable pub to_lower : Str → Str
to_lower [] = []
to_lower (c ∷ s) = (if leb b'A' c && leb c b'Z' then c + 32 else c) ∷ to_lower s

unfoldable pub string_to_protocol_number : Str → ℕ
unfolding to_lower
string_to_protocol_number protocol =
    if str_eq (to_lower protocol) (codes "tcp")
    then tcp_number
    else if str_eq (to_lower protocol) (codes "udp")
    then udp_number
    else 0

unfoldable pub protocol_number_to_string : ℕ → Str
protocol_number_to_string proto =
    if nat_beq proto tcp_number
    then codes "TCP"
    else if nat_beq proto udp_number
    then codes "UDP"
    else []

-- Bit 1 of the flags, `flags & FlagHashed != 0`.
abbrev pub is_hashed : ℕ → Bool
is_hashed flags = nat_beq (flags / 2 % 2) 1

-- `flags &^ FlagHashed`
abbrev pub clear_hashed : ℕ → ℕ
clear_hashed flags = flags - 2 * (flags / 2 % 2)

-- `flags | FlagHashed`, as the kernel reports a service.
abbrev pub set_hashed : ℕ → ℕ
set_hashed flags = clear_hashed flags + 2

module _ (net : Net) where
  open net use {IP}

  -- The fields of `ipvs.Service` that are read or written.
  pub record IpvsService : Type 0 where
    pub address : IP
    pub protocol : ℕ
    pub port : ℕ
    pub sched_name : Str
    pub flags : ℕ
    pub timeout : ℕ
    pub netmask : ℕ
    pub address_family : ℕ

  pub record IpvsDestination : Type 0 where
    pub address : IP
    pub port : ℕ
    pub weight : ℕ

  -- `ipvs.Handle`, over a state `H` of the kernel.
  pub record Handle (H : Type 0) : Type 0 where
    pub new_service : IpvsService → H → H × Bool
    pub update_service : IpvsService → H → H × Bool
    pub del_service : IpvsService → H → H × Bool
    pub get_service : IpvsService → H → Option (Option IpvsService)
    pub get_services : H → Option (List (Option IpvsService))
    pub flush : H → H × Bool
    pub new_destination : IpvsService → IpvsDestination → H → H × Bool
    pub del_destination : IpvsService → IpvsDestination → H → H × Bool
    pub get_destinations : IpvsService → H → Option (List (Option IpvsDestination))

module _ {net : Net} where
  open net use {eq, nil, v4_zero, v6_zero, to4}

  unfoldable pub to_virtual_server :
      Option (IpvsService net) → Result ConvertError (VirtualServer net)
  unfolding protocol_number_to_string
  to_virtual_server none = err nil_pointer
  to_virtual_server (some svc) =
      if is_hashed svc.flags
      then ok (record {
        address =
            if eq.same svc.address nil
            then (if nat_beq svc.address_family af_inet then v4_zero else v6_zero)
            else svc.address;
        protocol = protocol_number_to_string svc.protocol;
        port = svc.port;
        scheduler = svc.sched_name;
        flags = clear_hashed svc.flags;
        timeout = svc.timeout;
      })
      else err flags_not_hashed

  unfoldable pub to_real_server :
      Option (IpvsDestination net) → Result ConvertError (RealServer net)
  to_real_server none = err nil_pointer
  to_real_server (some dst) =
      ok (record { address = dst.address; port = dst.port; weight = dst.weight })

  unfoldable pub to_backend_service :
      Option (VirtualServer net) → Result ConvertError (IpvsService net)
  unfolding string_to_protocol_number
  to_backend_service none = err nil_pointer
  to_backend_service (some vs) = ok (record {
    address = vs.address;
    protocol = string_to_protocol_number vs.protocol;
    port = vs.port;
    sched_name = vs.scheduler;
    flags = vs.flags;
    timeout = vs.timeout;
    netmask = if to4 vs.address then 0xffffffff else 128;
    address_family = if to4 vs.address then af_inet else af_inet6;
  })

  unfoldable pub to_backend_destination :
      Option (RealServer net) → Result ConvertError (IpvsDestination net)
  to_backend_destination none = err nil_pointer
  to_backend_destination (some rs) =
      ok (record { address = rs.address; port = rs.port; weight = rs.weight })

abbrev cons_ok {ℓ} : {E B : Type ℓ} → Result E B → Option (List B) → Option (List B)
cons_ok (ok y) (some ys) = some (y ∷ ys)
cons_ok (ok y) none = none
cons_ok (err e) r = none

-- The loops of `GetVirtualServers` and `GetRealServers`: an error ends them with no result.
unfoldable pub convert_all {ℓ} : {E A B : Type ℓ} → (A → Result E B) → List A → Option (List B)
convert_all f [] = some []
convert_all f (x ∷ xs) = cons_ok (f x) (convert_all f xs)
