-- ===== src/Net.antt =====
-- What the program uses of Go's `net.IP`: equality, reading and printing.
use kube_bazellb.Prelude.{Bool, Str, Comparable, ◌≡◌}

-- `IP` is an address up to `net.IP.Equal`, with `nil` for no address; `parse` gives `nil` where
-- `net.ParseIP` does, and `to4` says whether `To4` gives an address.
pub record Net : Type 1 where
  pub IP : Type 0
  pub eq : Comparable IP
  pub nil : IP
  pub v4_zero : IP
  pub v6_zero : IP
  pub to4 : IP → Bool
  pub parse : Str → IP
  pub show : IP → Str
  pub show_injective : (a b : IP) → show a ≡ show b → a ≡ b
