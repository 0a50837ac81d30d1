-- ===== src/Protect/Detector/Buckets.antt =====
-- The counters by time: `bucketEnd`, `addBucketCount`, `sumCounts` and `pruneCounts`. Times are
-- microseconds since 1970 and far below the largest int64, so a sum of a time and an interval
-- is taken as it is; the tests that the source writes for the counters are kept.
use native.Mathlib.Decide.{dec_le}
use native.Mathlib.Nat.{mul-mod_left}
use crawlledger.Base.{
  ℕ, ◌+◌, ◌-◌, ◌*◌, ◌/◌, ◌%◌, ◌≤◌, ◌<◌, ◌≡◌, ap, Bool, not, ◌&&◌, ◌||◌, Option, none, some, [], ◌∷◌,
  arith, ltb, leb, if◌then◌else◌, leb→le, le→leb, Bool-ext, max_int64, Assoc, lookup, insert,
  div_test, keep_keys, nat_key, bytes_key,
}

abbrev pub Buckets : Type 0
Buckets = Assoc ℕ ℕ

unfoldable pub bucket_end : ℕ → ℕ → ℕ
bucket_end interval_us timestamp_us = ((timestamp_us - 1) / interval_us + 1) * interval_us

-- buckets[bucket], zero where it is missing
unfoldable pub count_at : ℕ → Buckets → ℕ
count_at bucket buckets = elim (lookup bucket buckets) [ none ↦ 0 | some n ↦ n ]

-- `none` is the error of an overflow. The value is never negative.
unfoldable pub add_bucket_count : Buckets → ℕ → ℕ → Option Buckets
unfolding count_at
add_bucket_count buckets bucket value =
    if ltb (max_int64 - value) (count_at bucket buckets)
    then none
    else some (insert bucket (count_at bucket buckets + value) buckets)

-- The loop of `sumCounts`, from a total that is at most the largest int64.
unfoldable pub sum_counts_from : ℕ → Buckets → Option ℕ
sum_counts_from total [] = some total
sum_counts_from total ((b, value) ∷ rest) =
    let more = sum_counts_from (total + value) rest in
    if ltb (max_int64 - total) value then none else more

unfoldable pub sum_counts : Buckets → Option ℕ
unfolding sum_counts_from
sum_counts = sum_counts_from 0

-- bucket > cutoff && bucket <= evaluationUS, where the cutoff may be negative.
unfoldable pub in_window : ℕ → ℕ → ℕ → Bool
in_window window_us evaluation_us bucket =
    not (leb (bucket + window_us) evaluation_us || ltb evaluation_us bucket)

unfoldable pub prune_counts : ℕ → ℕ → Buckets → Buckets
unfolding in_window
prune_counts window_us evaluation_us = keep_keys (in_window window_us evaluation_us)

pub total_of : Buckets → ℕ
total_of [] = 0
total_of ((b, value) ∷ rest) = value + total_of rest

sum_counts_from-exact :
    (total : ℕ) (m : Buckets)
    → total ≤ max_int64
    → sum_counts_from total m
      ≡ (if leb (total + total_of m) max_int64 then some (total + total_of m) else none)
unfolding sum_counts_from total_of
sum_counts_from-exact total [] h = ground arith
sum_counts_from-exact total ((b, v) ∷ m) h = ground (arith, sum_counts_from-exact (total + v) m)

-- The sum of the counters is exact, whatever order the map is visited in, and it is refused
-- exactly when it passes the largest int64.
pub sum_counts-exact :
    (m : Buckets) → sum_counts m ≡ (if leb (total_of m) max_int64 then some (total_of m) else none)
unfolding sum_counts
sum_counts-exact m = ground (arith, sum_counts_from-exact 0 m (omega arith))

-- For a positive interval and time a bucket ends at the first multiple of the interval that is
-- not before the event.
pub bucket_end_bounds :
    (i t : ℕ)
    → 0 < i
    → 0 < t
    → (t ≤ bucket_end i t) × (bucket_end i t < t + i) × (bucket_end i t % i ≡ 0)
unfolding bucket_end
bucket_end_bounds i t hi ht =
    let q = (t - 1) / i in
    let low = div_test q i (t - 1) hi in
    let high = div_test (q + 1) i (t - 1) hi in
    (ground (arith, high), ground (arith, low), mul-mod_left ((t - 1) / i + 1) i)

le_mul_cancel : (a b i : ℕ) → 0 < i → leb (a * i) (b * i) ≡ leb a b
le_mul_cancel a b i h =
    Bool-ext (leb (a * i) (b * i)) (leb a b) (λ e. le→leb a b (cancel (leb→le (a * i) (b * i) e)))
      (λ e. le→leb (a * i) (b * i) (scale (leb→le a b e)))
  where
    cancel : a * i ≤ b * i → a ≤ b
    cancel k = grind arith

    scale : a ≤ b → a * i ≤ b * i
    scale k = grind arith

not_after :
    (i q t e : ℕ)
    → 0 < i
    → 0 < t
    → ltb q e ≡ ltb (t - 1) (e * i)
    → ltb (e * i) ((q + 1) * i) ≡ not (leb t (e * i))
not_after i q t e hi ht div = ground (arith, div, le_mul_cancel (q + 1) e i hi)

before_window :
    (i q t w e : ℕ)
    → 0 < i
    → 0 < t
    → ltb q (e - w) ≡ ltb (t - 1) ((e - w) * i)
    → leb ((q + 1) * i + w * i) (e * i) ≡ leb (t + w * i) (e * i)
before_window i q t w e hi ht div = elim (dec_le w e) [
  | yes inside ↦
      let split : e - w + w ≡ e = omega arith in
      let scaled = ap (λ (x : ℕ). x * i) split in
      let sum = le_mul_cancel (q + 1 + w) e i hi in ground (arith, div, scaled, sum)
  | no beyond ↦ let over = le_mul_cancel w e i hi in ground (arith, over)
]

negated : (a b t : ℕ) → not (leb a b || not (leb t b)) ≡ (ltb b a && leb t b)
negated a b t = ground arith

-- For a positive interval and event time: at an evaluation time that is a multiple of the interval, with a window that is one too, an
-- event is in the window through its bucket exactly when its own time lies in the half-open
-- window before the evaluation.
pub in_window-bucket_end :
    (i t w e : ℕ)
    → 0 < i
    → 0 < t
    → in_window (w * i) (e * i) (bucket_end i t) ≡ (ltb (e * i) (t + w * i) && leb t (e * i))
unfolding in_window bucket_end
in_window-bucket_end i t w e hi ht = cc (
  before_window i ((t - 1) / i) t w e hi ht (div_test (e - w) i (t - 1) hi),
  not_after i ((t - 1) / i) t e hi ht (div_test e i (t - 1) hi),
  negated (t + w * i) (e * i) t,
)
