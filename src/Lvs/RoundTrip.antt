-- ===== src/Lvs/RoundTrip.antt =====
-- A virtual server sent to the kernel and listed again.
use kube_bazellb.Prelude.{
  ℕ, true, false, Option, some, List, [], ◌∷◌, Str, codes, str_eq, ◌≡◌, ◌≢◌, ◌⊎◌, refl, arith, inl,
  inr,
}
use kube_bazellb.Prelude.Result.{Result, ok, ◌>>=◌}
use kube_bazellb.Net.{Net}
use kube_bazellb.Lvs.{VirtualServer}
use kube_bazellb.Lvs.Convert.{
  IpvsService, Handle, ConvertError, to_backend_service, to_virtual_server, convert_all, is_hashed,
  clear_hashed, set_hashed, string_to_protocol_number, protocol_number_to_string,
}
use kube_bazellb.Lvs.Runner.{get_virtual_servers}

-- What the program may ask the kernel for: a protocol that is read back, an address, no hash flag.
pub record IsPlain {net : Net} (vs : VirtualServer net) : Type 0 where
  pub protocol : (vs.protocol ≡ codes "TCP") ⊎ (vs.protocol ≡ codes "UDP")
  pub address : vs.address ≢ net.nil
  pub flags : is_hashed vs.flags ≡ false

-- The kernel hashes every service that it keeps.
abbrev pub kept : {net : Net} → IpvsService net → IpvsService net
kept svc = record svc { flags = set_hashed svc.flags }

protocol_back :
    (s : Str)
    → (s ≡ codes "TCP") ⊎ (s ≡ codes "UDP")
    → protocol_number_to_string (string_to_protocol_number s) ≡ s
unfolding protocol_number_to_string string_to_protocol_number str_eq
protocol_back s (inl e) = rw e
protocol_back s (inr e) = rw e

clear_set_hashed : (flags : ℕ) → is_hashed flags ≡ false → clear_hashed (set_hashed flags) ≡ flags
clear_set_hashed flags h = ground arith

is_hashed-set : (flags : ℕ) → is_hashed (set_hashed flags) ≡ true
is_hashed-set flags = ground arith

abbrev pub sent : {net : Net} → VirtualServer net → Result ConvertError (VirtualServer net)
sent vs = do svc ← to_backend_service (some vs); to_virtual_server (some (kept svc))

-- Sending and listing gives the virtual server back.
pub to_virtual_server-backend : {net : Net} (vs : VirtualServer net) → IsPlain vs → sent vs ≡ ok vs
unfolding to_backend_service to_virtual_server
to_virtual_server-backend {net} vs plain = ground (
  arith,
  protocol_back vs.protocol plain.protocol,
  clear_set_hashed vs.flags plain.flags,
  is_hashed-set vs.flags,
  net.eq.same_iff vs.address net.nil,
  plain.address,
)

-- The kernel's list for virtual servers that were sent one by one.
abbrev pub Listed :
    {net : Net} → List (VirtualServer net) → List (Option (IpvsService net)) → Type 0
Listed [] [] = Unit
Listed [] (svc ∷ svcs) = ⊥
Listed (vs ∷ vss) [] = ⊥
Listed {net} (vs ∷ vss) (svc ∷ svcs) =
    IsPlain vs
    × ((b : IpvsService net) × (to_backend_service (some vs) ≡ ok b) × (svc ≡ some (kept b)))
    × Listed vss svcs

convert-Listed :
    {net : Net} (vss : List (VirtualServer net)) (svcs : List (Option (IpvsService net)))
    → Listed vss svcs
    → convert_all to_virtual_server svcs ≡ some vss
unfolding convert_all
convert-Listed [] [] l = refl
convert-Listed [] (svc ∷ svcs) l = absurd l
convert-Listed (vs ∷ vss) [] l = absurd l
convert-Listed (vs ∷ vss) (svc ∷ svcs) (plain, (b, sent_as, kept_as), l) =
    ground (arith, to_virtual_server-backend vs plain, sent_as, kept_as, convert-Listed vss svcs l)

-- GetVirtualServers lists exactly the virtual servers that were translated and sent, in the order
-- of the kernel, when the kernel lists them with the hash flag set and each has protocol TCP or
-- UDP, a non-nil address and no hash flag of its own.
pub get_virtual_servers-Listed :
    {net : Net} {H : Type 0} (h : Handle net H) (s : H) (vss : List (VirtualServer net))
    (svcs : List (Option (IpvsService net)))
    → h.get_services s ≡ some svcs
    → Listed vss svcs
    → get_virtual_servers h s ≡ some vss
unfolding get_virtual_servers
get_virtual_servers-Listed h s vss svcs found l = ground (arith, found, convert-Listed vss svcs l)
