-- ===== src/Base/Division.antt =====
-- Quotients by a variable, as tests.
use Prim.Native.Nat.{ℕ, ◌*◌, ◌/◌, ◌<◌}
use mathlib.Core.Path.{◌≡◌}
use native.Mathlib.Omega.{arith}
use native.Mathlib.Nat.{mod-lt, div-add-mod}
use crawlledger.Base.Tests.{ltb, Bool-ext, ltb→lt, lt→ltb}

div_lt_mul : (a b m : ℕ) → 0 < b → m / b < a → m < a * b
div_lt_mul a b m h k = grind (arith, div-add-mod m b, mod-lt m h)

mul_lt_div : (a b m : ℕ) → 0 < b → m < a * b → m / b < a
mul_lt_div a b m h k = grind (arith, div-add-mod m b, mod-lt m h)

-- A product is tested by a division, and that test is exact.
pub div_test : (a b m : ℕ) → 0 < b → ltb (m / b) a ≡ ltb m (a * b)
div_test a b m h =
    Bool-ext (ltb (m / b) a) (ltb m (a * b))
      (λ e. lt→ltb m (a * b) (div_lt_mul a b m h (ltb→lt (m / b) a e)))
      (λ e. lt→ltb (m / b) a (mul_lt_div a b m h (ltb→lt m (a * b) e)))
