-- ===== src/Adaptor/PortTexts.antt =====
-- lvs/adaptor/iptables.go: the texts of the entries of ports, which differ where the ports do.
use kube_bazellb.Prelude.{
  ℕ, Bool, true, false, not, ◌&&◌, ◌||◌, List, [], ◌∷◌, Str, string_eq, nat_eq, ◌==◌, eq_iff, ◌≡◌,
  refl, ◌∙◌, arith, str_eq,
}
use kube_bazellb.Prelude.Members.{has, keys, is_some, has-keys}
use kube_bazellb.Prelude.Assoc.{lookup}
use kube_bazellb.Ipset.{hash_ip_port}
use kube_bazellb.Ipset.Entry.{entry_string}
use kube_bazellb.Ipset.Printing.{IsPrintable, stored, entry_string-injective}
use kube_bazellb.Adaptor.Maps.{PortMap, port_map_at}
use kube_bazellb.Adaptor.Rules.{insert_text, port_entry, port_entries, expect_entries}

-- The entry of a port.
abbrev pub port_text : Str → Bool → ℕ → Str
port_text ip index p = entry_string (port_entry ip index p hash_ip_port)

port_entry-IsPrintable :
    (ip : Str) (index : Bool) (p : ℕ) → IsPrintable (port_entry ip index p hash_ip_port)
port_entry-IsPrintable ip true p = record {
  number = p;
  port = refl;
  protocol = ground arith;
  ip2 = tt;
  subnet = tt;
}
port_entry-IsPrintable ip false p = record {
  number = p;
  port = refl;
  protocol = ground arith;
  ip2 = tt;
  subnet = tt;
}

port_stored :
    (ip : Str) (a b : Bool) (p q : ℕ)
    → stored (port_entry ip a p hash_ip_port) ≡ stored (port_entry ip b q hash_ip_port)
    → (a ≡ b) × (p ≡ q)
unfolding stored str_eq
port_stored ip true true p q e = ground (arith, e)
port_stored ip true false p q e = ground (arith, e)
port_stored ip false true p q e = ground (arith, e)
port_stored ip false false p q e = ground (arith, e)

port_text-injective :
    (ip : Str) (a b : Bool) (p q : ℕ) → port_text ip a p ≡ port_text ip b q → (a ≡ b) × (p ≡ q)
port_text-injective ip a b p q e = port_stored ip a b p q (
    entry_string-injective (port_entry ip a p hash_ip_port) (port_entry ip b q hash_ip_port)
      (port_entry-IsPrintable ip a p) (port_entry-IsPrintable ip b q) refl e)

abbrev same_index : Bool → Bool → Bool
same_index true b = b
same_index false b = not b

port_text_same :
    (ip : Str) (a b : Bool) (p q : ℕ)
    → (port_text ip a p == port_text ip b q) ≡ (same_index a b && (p == q))
port_text_same ip true true p q = ground (
  arith,
  eq_iff (port_text ip true p) (port_text ip true q),
  port_text-injective ip true true p q,
  eq_iff p q,
)
port_text_same ip true false p q = ground (
  arith,
  eq_iff (port_text ip true p) (port_text ip false q),
  port_text-injective ip true false p q,
)
port_text_same ip false true p q = ground (
  arith,
  eq_iff (port_text ip false p) (port_text ip true q),
  port_text-injective ip false true p q,
)
port_text_same ip false false p q = ground (
  arith,
  eq_iff (port_text ip false p) (port_text ip false q),
  port_text-injective ip false false p q,
  eq_iff p q,
)

has-insert_text : (x e : Str) (l : List Str) → has e (insert_text x l) ≡ ((x == e) || has e l)
has-insert_text x e l = ground (arith, eq_iff x e)

has-port_entries :
    (ip : Str) (a b : Bool) (q : ℕ) (ports : List ℕ) (expected : List Str)
    → has (port_text ip b q) (port_entries ip hash_ip_port a ports expected)
      ≡ (has (port_text ip b q) expected || (same_index a b && has q ports))
unfolding port_entries
has-port_entries ip a b q [] expected = ground arith
has-port_entries ip a b q (p ∷ ports) expected =
    has-port_entries ip a b q ports (insert_text (port_text ip a p) expected)
    ∙ ground (
      arith,
      has-insert_text (port_text ip a p) (port_text ip b q) expected,
      port_text_same ip a b p q,
    )

pub has-expect_entries :
    (ip : Str) (pm : PortMap) (index : Bool) (p : ℕ)
    → has (port_text ip index p) (expect_entries ip hash_ip_port pm)
      ≡ is_some (lookup p (port_map_at index pm))
unfolding expect_entries
has-expect_entries ip pm true p = ground (
  arith,
  has-port_entries ip true true p (keys pm.at1)
      (port_entries ip hash_ip_port false (keys pm.at0) []),
  has-port_entries ip false true p (keys pm.at0) [],
  has-keys p pm.at1,
)
has-expect_entries ip pm false p = ground (
  arith,
  has-port_entries ip true false p (keys pm.at1)
      (port_entries ip hash_ip_port false (keys pm.at0) []),
  has-port_entries ip false false p (keys pm.at0) [],
  has-keys p pm.at0,
)
