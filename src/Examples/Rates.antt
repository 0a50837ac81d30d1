-- ===== src/Examples/Rates.antt =====
-- The token buckets, the thresholds and the comparisons at concrete inputs.
use crawlledger.Aggregate.Rate.{
  Profile, new_bucket, capacity, token_scale, refill, run, count_allowed,
}
use crawlledger.Aggregate.Rate.Bounds.{refill-min, count_allowed_bound, count_allowed_unordered}
use crawlledger.Protect.Compare.{ratio_at_least, ratio_at_least_iff}
use crawlledger.Protect.Baseline.Threshold.{effective_threshold, effective_threshold-exact}
use crawlledger.Protect.Baseline.Quantile.{
  nearest_rank_p99, IsPercentile, nearest_rank_p99-IsPercentile,
}
use crawlledger.Base.{
  ℕ, ◌+◌, ◌-◌, ◌*◌, ◌≤◌, ◌<◌, min, ◌≡◌, ◌↔◌, true, false, List, [], ◌∷◌, arith, ok, pos,
  is_negative, bytes, nat_key, bytes_key,
}

abbrev strict : Profile
strict = record { name = bytes "strict"; rate = 10; burst = 5 }

refill-min_example :
    refill strict 1000000 500000 ≡ min (capacity strict) (1000000 + 500000 * strict.rate)
refill-min_example = refill-min strict 1000000 500000 (omega arith) (omega arith) (omega arith)

abbrev requests : List ℕ
requests = 1100 ∷ 1050 ∷ 90000000 ∷ []

count_allowed_bound_example :
    count_allowed new_bucket (1000 ∷ requests) strict * token_scale
    ≤ capacity strict
      + ((run new_bucket (1000 ∷ requests) strict).last_timestamp_us - 1000) * strict.rate
count_allowed_bound_example = count_allowed_bound strict (omega arith) (omega arith) 1000 requests

count_allowed_unordered_example :
    count_allowed (run new_bucket (1000 ∷ 1100 ∷ []) strict) (1050 ∷ 90000000 ∷ []) strict ≡ 0
count_allowed_unordered_example =
    count_allowed_unordered new_bucket (1000 ∷ []) [] (90000000 ∷ []) 1100 1050 strict (omega arith)

ratio_at_least_iff_example : (ratio_at_least (pos 1) (pos 4) (pos 250000) ≡ true) ↔ (
    (is_negative (pos 1) ≡ false)
    × (is_negative (pos 4) ≡ false)
    × (is_negative (pos 250000) ≡ false)
    × (0 < 4)
    × (4 * 250000 ≤ 1 * 1000000))
ratio_at_least_iff_example = ratio_at_least_iff (pos 1) (pos 4) (pos 250000)

effective_threshold-exact_example : effective_threshold (pos 61) (pos 100) (pos 5) (pos 60) ≡ ok 305
effective_threshold-exact_example =
    effective_threshold-exact 61 100 5 60 (omega arith) (omega arith) (omega arith)

nearest_rank_p99-IsPercentile_example :
    IsPercentile (3 ∷ 8 ∷ []) 10 (nearest_rank_p99 (3 ∷ 8 ∷ []) 10)
nearest_rank_p99-IsPercentile_example =
    nearest_rank_p99-IsPercentile (3 ∷ 8 ∷ []) 10 ((omega arith, tt), (tt, tt)) (omega arith)
      (omega arith) (omega arith)
