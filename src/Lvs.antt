-- ===== src/Lvs.antt =====
-- lvs/lvs.go: virtual and real servers, and their translation to and from the IPVS library's
-- services and destinations. A uint16 or uint32 is a natural number below the power.
pub mod Convert
pub mod Interface
pub mod HostPort
pub mod Runner
pub mod Spec
pub mod Fake
pub mod RoundTrip
use kube_bazellb.Prelude.{
  ℕ, zero, suc, ◌+◌, ◌%◌, ◌^◌, Bool, true, false, ◌&&◌, ◌||◌, not, Option, none, some, List, [],
  ◌∷◌, ◌++◌, Str, codes, leb, nat_beq, str_eq, Comparable, if◌then◌else◌,
}
use kube_bazellb.Text.{itoa}
use kube_bazellb.Net.{Net}

module _ (net : Net) where
  open net use {IP}

  pub record VirtualServer : Type 0 where
    pub address : IP
    pub protocol : Str
    pub port : ℕ
    pub scheduler : Str
    pub flags : ℕ
    pub timeout : ℕ

  pub record RealServer : Type 0 where
    pub address : IP
    pub port : ℕ
    pub weight : ℕ

-- `net.JoinHostPort`: a host with a colon in it goes into brackets.
unfoldable pub has_colon : Str → Bool
has_colon [] = false
has_colon (c ∷ s) = nat_beq c b':' || has_colon s

unfoldable pub join_host_port : Str → Str → Str
unfolding has_colon
join_host_port host port =
    if has_colon host then b'[' ∷ host ++ b']' ∷ b':' ∷ port else host ++ b':' ∷ port

module _ {net : Net} where
  open net use {eq, show}

  -- `VirtualServer.Equal`
  unfoldable pub vs_equal : VirtualServer net → VirtualServer net → Bool
  vs_equal a b =
      eq.same a.address b.address
      && (str_eq a.protocol b.protocol
          && (nat_beq a.port b.port
              && (str_eq a.scheduler b.scheduler
                  && (nat_beq a.flags b.flags && nat_beq a.timeout b.timeout))))

  -- `VirtualServer.String`
  unfoldable pub vs_string : VirtualServer net → Str
  unfolding join_host_port itoa
  vs_string v = join_host_port (show v.address) (itoa v.port) ++ b'/' ∷ v.protocol

  -- `RealServer.Equal`
  unfoldable pub rs_equal : RealServer net → RealServer net → Bool
  rs_equal a b = eq.same a.address b.address && (nat_beq a.port b.port && nat_beq a.weight b.weight)

  -- `RealServer.String`
  unfoldable pub rs_string : RealServer net → Str
  unfolding join_host_port itoa
  rs_string r = join_host_port (show r.address) (itoa r.port)
