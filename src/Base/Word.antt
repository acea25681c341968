-- ===== src/Base/Word.antt =====
-- Machine words as native numbers: `uint32_t` and `uint16_t` wrap, and a cast to `int32_t` reads
-- the sign from the top bit.
use Prim.Native.Nat.{ℕ, ◌+◌, ◌-◌, ◌%◌, ◌^◌}
use mathlib.Core.Bool.{Bool}
use protura.Base.Tests.{leb}

abbrev pub u32_mod : ℕ
u32_mod = 2 ^ 32

abbrev pub add32 : ℕ → ℕ → ℕ
add32 a b = (a + b) % u32_mod

abbrev pub sub32 : ℕ → ℕ → ℕ
sub32 a b = (a + u32_mod - b) % u32_mod

-- `(int32_t)w < 0`.
abbrev pub is_negative32 : ℕ → Bool
is_negative32 w = leb (2 ^ 31) w
