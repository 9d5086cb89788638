-- ===== src/Common/Int.antt =====
-- Signed integers, and the machine's of 32 and 64 bits.
use Prim.Native.Nat.{ℕ, suc, ◌-◌, ◌*◌, ◌/◌, ◌%◌}
use mathlib.Core.Bool.{Bool, false}
use cc_tunnel.Common.Tests.{if◌then◌else◌, ltb, ◌==◌}

-- `negsuc n` is -(n + 1).
pub data ℤ : Type 0 where
  pos : ℕ → ℤ
  negsuc : ℕ → ℤ

abbrev pub is_zero : ℤ → Bool
is_zero (pos n) = n == 0
is_zero (negsuc n) = false

-- The product with a number that is not 0.
abbrev pub times : ℤ → ℕ → ℤ
times (pos n) k = pos (n * k)
times (negsuc n) k = negsuc (suc n * k - 1)

-- The bits of a word that can hold `m` values, and the integer that they stand for.
abbrev bits : ℕ → ℤ → ℕ
bits m (pos n) = n % m
bits m (negsuc n) = m - 1 - n % m

abbrev signed : ℕ → ℕ → ℤ
signed m b = if ltb b (m / 2) then pos b else negsuc (m - 1 - b)

unfoldable pub int64 : ℤ → ℤ
int64 x = signed 18446744073709551616 (bits 18446744073709551616 x)

unfoldable pub int32 : ℤ → ℤ
int32 x = signed 4294967296 (bits 4294967296 x)
