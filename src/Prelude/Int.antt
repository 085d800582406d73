-- ===== src/Prelude/Int.antt =====
-- Signed integers over the native naturals, and int32 in offset form.
use Prim.Native.Nat.{ℕ, ◌+◌, ◌-◌, ◌%◌, ◌^◌}
use kube_bazellb.Prelude.Tests.{ltb, if◌then◌else◌}

-- `negsuc n` is -(n + 1).
pub data ℤ : Type 0 where
  pos : ℕ → ℤ
  negsuc : ℕ → ℤ

-- An int32 `x` stands as the natural `x + 2 ^ 31`, which keeps the order. The difference of two of
-- them wraps around as in Go.
unfoldable pub sub32 : ℕ → ℕ → ℤ
sub32 x y =
    let d = (x + 2 ^ 32 - y) % 2 ^ 32 in if ltb d (2 ^ 31) then pos d else negsuc (2 ^ 32 - d - 1)

-- `i++` on an int32.
unfoldable pub inc32 : ℕ → ℕ
inc32 x = (x + 1) % 2 ^ 32
