-- ===== src/Protect/Baseline/Threshold.antt =====
-- `effectiveThreshold`: the request threshold of a window.
use crawlledger.Base.{
  ℕ, ◌+◌, ◌*◌, ◌/◌, ◌%◌, ◌<◌, max, ◌≡◌, Bool, true, ◌||◌, arith, ltb, leb, ◌==◌, if◌then◌else◌,
  Result, ok, err, ℤ, pos, negsuc, pos_part, is_negative, max_int64, div_test,
}

pub data ThresholdError : Type 0 where
  invalid_inputs scaling_overflows multiplication_overflows : ThresholdError

not_positive : ℤ → Bool
not_positive (pos n) = n == 0
not_positive (negsuc n) = true

-- What follows the tests of the signs.
unfoldable pub scale_threshold : ℕ → ℕ → ℕ → ℕ → Result ThresholdError ℕ
scale_threshold p99 floor multiplier window =
    if ltb (max_int64 / window) p99
    then err scaling_overflows
    else let product = p99 * window in
      let scaled = if product % 60 == 0 then product / 60 else product / 60 + 1 in
      if ltb (max_int64 / multiplier) scaled
      then err multiplication_overflows
      else let threshold = scaled * multiplier in
        ok (if ltb threshold floor then floor else threshold)

unfoldable pub effective_threshold : ℤ → ℤ → ℤ → ℤ → Result ThresholdError ℕ
unfolding not_positive scale_threshold
effective_threshold p99 floor multiplier window =
    if is_negative p99 || not_positive floor || not_positive multiplier || not_positive window
    then err invalid_inputs
    else scale_threshold (pos_part p99) (pos_part floor) (pos_part multiplier) (pos_part window)

ceiling : (n : ℕ) → (if n % 60 == 0 then n / 60 else n / 60 + 1) ≡ (n + 59) / 60
ceiling n = ground arith

-- For a rate that is not negative and positive settings the threshold is the rate of the window,
-- rounded up, times the multiplier, and at least the floor; each overflow is an error, exactly
-- where the product passes the largest int64.
pub effective_threshold-exact :
    (p f m w : ℕ)
    → 0 < f
    → 0 < m
    → 0 < w
    → effective_threshold (pos p) (pos f) (pos m) (pos w) ≡ (
        if leb (p * w) max_int64
        then if leb ((p * w + 59) / 60 * m) max_int64
          then ok (max f ((p * w + 59) / 60 * m))
          else err multiplication_overflows
        else err scaling_overflows)
unfolding effective_threshold
effective_threshold-exact p f m w hf hm hw =
    ground (
      arith,
      div_test p w max_int64 hw,
      div_test ((p * w + 59) / 60) m max_int64 hm,
      ceiling (p * w),
    )
