-- ===== src/Common/Ints.antt =====
-- Signed numbers over the native numbers: Go's `int`, `int32` and `time.Duration`, whose range is
-- not modelled.
use Prim.Native.Nat.{ℕ, ◌-◌, ◌%◌, ◌^◌}
use mathlib.Core.Bool.{Bool, false}
use astradns_agent.Common.Tests.{leb, if◌then◌else◌}

-- `negsuc n` is -(n + 1).
pub data ℤ : Type 0 where
  pos : ℕ → ℤ
  negsuc : ℕ → ℤ

abbrev pub pos_part : ℤ → ℕ
pos_part (pos n) = n
pos_part (negsuc n) = 0

-- `z <= 0` and `z == 0`.
abbrev pub not_positive : ℤ → Bool
not_positive z = leb (pos_part z) 0

abbrev pub is_zero : ℤ → Bool
is_zero (pos n) = leb n 0
is_zero (negsuc n) = false

-- `int32(z)` keeps the lowest 32 bits, the highest of them as the sign.
abbrev pub int32_of : ℕ → ℤ
int32_of n = if leb (2 ^ 31) n then negsuc (2 ^ 32 - 1 - n) else pos n

unfoldable pub to_int32 : ℤ → ℤ
to_int32 (pos n) = int32_of (n % 2 ^ 32)
to_int32 (negsuc n) = int32_of (2 ^ 32 - 1 - n % 2 ^ 32)

-- Times are nanoseconds since a moment before the program starts, durations are nanoseconds.
abbrev pub microsecond : ℕ
microsecond = 1000

abbrev pub second : ℕ
second = 1000000000

abbrev pub minute : ℕ
minute = 60000000000
