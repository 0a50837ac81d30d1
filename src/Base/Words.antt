-- ===== src/Base/Words.antt =====
-- Package math/bits: products and quotients of 64-bit words in two words.
use Prim.Native.Nat.{ℕ, ◌+◌, ◌*◌, ◌/◌, ◌%◌, ◌^◌}

-- bits.Mul64: the high word and the low word.
abbrev pub mul64_high : ℕ → ℕ → ℕ
mul64_high a b = a * b / 2 ^ 64

abbrev pub mul64_low : ℕ → ℕ → ℕ
mul64_low a b = a * b % 2 ^ 64

-- bits.Div64, which panics unless the high word is below the divisor.
abbrev pub div64 : ℕ → ℕ → ℕ → ℕ
div64 high low y = (high * 2 ^ 64 + low) / y
