-- ===== src/Protect/Compare.antt =====
-- internal/protect/detector.go, `ratioAtLeast` and `productAtLeast`: comparisons of 128-bit products.
use crawlledger.Base.{
  ℕ, ◌*◌, ◌≤◌, ◌<◌, ◌≡◌, ◌↔◌, Bool, true, false, ◌&&◌, ◌||◌, arith, ltb, leb, ◌==◌, if◌then◌else◌,
  ℤ, pos, pos_part, is_negative, mul64_high, mul64_low,
}

abbrev pub ratio_scale : ℕ
ratio_scale = 1000000

unfoldable pub product_at_least : ℤ → ℤ → ℤ → ℤ → Bool
product_at_least (pos a) (pos b) (pos c) (pos d) =
    ltb (mul64_high c d) (mul64_high a b)
    || (mul64_high a b == mul64_high c d && leb (mul64_low c d) (mul64_low a b))
product_at_least _ _ _ _ = false

unfoldable pub ratio_at_least : ℤ → ℤ → ℤ → Bool
unfolding product_at_least
ratio_at_least (pos n) (pos d) (pos ppm) =
    if d == 0 then false else product_at_least (pos n) (pos ratio_scale) (pos d) (pos ppm)
ratio_at_least _ _ _ = false

-- For operands that are not negative the comparison by high and low words is the comparison of
-- the products.
pub product_at_least-exact :
    (a b c d : ℕ) → product_at_least (pos a) (pos b) (pos c) (pos d) ≡ leb (c * d) (a * b)
unfolding product_at_least
product_at_least-exact a b c d = ground arith

-- The ratio test holds exactly where every argument is non-negative, the denominator is not zero
-- and numerator / denominator is at least the given parts per million.
pub ratio_at_least_iff :
    (n d ppm : ℤ)
    → (ratio_at_least n d ppm ≡ true) ↔ (
        (is_negative n ≡ false)
        × (is_negative d ≡ false)
        × (is_negative ppm ≡ false)
        × (0 < pos_part d)
        × (pos_part d * pos_part ppm ≤ pos_part n * 1000000))
unfolding ratio_at_least
ratio_at_least_iff (pos n) (pos d) (pos ppm) = ground arith
ratio_at_least_iff _ _ _ = ground arith
