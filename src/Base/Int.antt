-- ===== src/Base/Int.antt =====
-- Signed numbers, for the functions that test the sign of an int64 argument.
use Prim.Native.Nat.{ℕ, zero, suc}
use mathlib.Core.Bool.{Bool, true, false}

-- `negsuc n` is -(n + 1).
pub data ℤ : Type 0 where
  pos : ℕ → ℤ
  negsuc : ℕ → ℤ

abbrev pub pos_part : ℤ → ℕ
pos_part (pos n) = n
pos_part (negsuc n) = 0

abbrev pub is_negative : ℤ → Bool
is_negative (pos n) = false
is_negative (negsuc n) = true

-- n <= 0
abbrev pub at_most_zero : ℤ → Bool
at_most_zero (pos zero) = true
at_most_zero (pos (suc n)) = false
at_most_zero (negsuc n) = true

-- math.MaxInt64
abbrev pub max_int64 : ℕ
max_int64 = 9223372036854775807
