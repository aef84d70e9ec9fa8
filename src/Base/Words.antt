-- ===== src/Base/Words.antt =====
-- The fixed-width integers of the firmware as native numbers, with their wrap-around written out.
-- A signed word is its bit pattern.
use Prim.Native.Nat.{ℕ, ◌+◌, ◌-◌, ◌/◌, ◌%◌, ◌^◌}
use led_orchestra.Base.Tests.{ltb, if◌then◌else◌}

abbrev pub u8 : ℕ → ℕ
u8 n = n % 2 ^ 8

abbrev pub u16 : ℕ → ℕ
u16 n = n % 2 ^ 16

abbrev pub u32 : ℕ → ℕ
u32 n = n % 2 ^ 32

abbrev pub u64 : ℕ → ℕ
u64 n = n % 2 ^ 64

-- `x >> k`.
infixl 75 ◌>>>◌
abbrev pub ◌>>>◌ : ℕ → ℕ → ℕ
x >>> k = x / 2 ^ k

-- `a - b` on `uint64_t`.
abbrev pub sub64 : ℕ → ℕ → ℕ
sub64 a b = (a + 2 ^ 64 - b) % 2 ^ 64

-- An `int32_t` bit pattern widened to the `int64_t` one.
abbrev pub sign_extend32 : ℕ → ℕ
sign_extend32 w = if ltb w (2 ^ 31) then w else w + (2 ^ 64 - 2 ^ 32)
