-- ===== src/Base/Words.antt =====
-- C integers as bit patterns: an `int` is a number below 2 ^ 32 in two's complement.
use Prim.Native.Nat.{ℕ, ◌+◌, ◌%◌}
use mathlib.Core.Bool.{Bool}
use tiny_mon.Base.Tests.{leb}

-- `-1` as an `int`.
abbrev pub minus_one : ℕ
minus_one = 0xffff_ffff

-- `n < 0` for an `int`.
abbrev pub is_negative : ℕ → Bool
is_negative n = leb 0x8000_0000 n

-- `n + 1` and `n - 1` for an `int`, and a conversion to `uint16_t`.
abbrev pub int_inc : ℕ → ℕ
int_inc n = (n + 1) % 0x1_0000_0000

abbrev pub int_dec : ℕ → ℕ
int_dec n = (n + 0xffff_ffff) % 0x1_0000_0000

abbrev pub uint16 : ℕ → ℕ
uint16 n = n % 0x1_0000
