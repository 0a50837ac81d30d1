-- ===== src/Domain/Math.antt =====
-- internal/domain/math.go: a ratio in parts per million, through a 128-bit product.
use crawlledger.Base.{
  ℕ, ◌*◌, ◌/◌, ◌<◌, min, ◌≡◌, ◌||◌, arith, leb, ◌==◌, if◌then◌else◌, ℤ, pos, negsuc, pos_part,
  mul64_high, mul64_low, div64, div_test, nat_key, bytes_key,
}

unfoldable pub ratio_ppm : ℤ → ℤ → ℕ
ratio_ppm (pos n) (pos d) =
    if n == 0 || d == 0
    then 0
    else if leb d n
    then 1000000
    else div64 (mul64_high n 1000000) (mul64_low n 1000000) d
ratio_ppm _ _ = 0

-- For every numerator and every denominator above zero the ratio is the exact quotient rounded down
-- and capped at a million, with a negative numerator taken as zero; and where the division runs, for
-- a numerator below the denominator, its high word is below the divisor, as it must be.
pub ratio_ppm-exact :
    (n : ℤ) (d : ℕ)
    → 0 < d
    → (ratio_ppm n (pos d) ≡ min 1000000 (pos_part n * 1000000 / d))
      × (pos_part n < d → mul64_high (pos_part n) 1000000 < d)
unfolding ratio_ppm
ratio_ppm-exact (negsuc n) d h =
    let zero_quotient = div_test 1 d 0 h in (ground (arith, zero_quotient), λ k. omega arith)
ratio_ppm-exact (pos n) d h =
    let above = div_test 1000000 d (n * 1000000) h in
    let least = div_test 1000001 d (n * 1000000) h in
    (ground (arith, above, least), λ k. omega arith)
