-- ===== src/Cost.antt =====
-- internal/cost/calculate.go: what the traffic of a window costs. The times are the positive ones
-- of validated events; every other int64 may be negative until the guards. `math/big` is exact, so
-- a big.Int is a natural number.
pub mod Rounding
use crawlledger.Base.{
  ℕ, ◌+◌, ◌-◌, ◌*◌, ◌/◌, ◌%◌, ◌^◌, Bool, true, false, not, ◌||◌, Option, none, some, ltb, leb, ◌==◌,
  if◌then◌else◌, Result, ok, err, ◌>>=◌, ◌>>◌, ℤ, pos, negsuc, pos_part, is_negative, max_int64,
}

abbrev pub month_seconds : ℕ
month_seconds = 2629746

abbrev pub gib_bytes : ℕ
gib_bytes = 2 ^ 30

pub data CostError : Type 0 where
  invalid_input invalid_hosting invalid_fraction result_overflow cost_overflow : CostError

pub record Inputs : Type 0 where
  pub first_event_us : ℕ
  pub last_event_us : ℕ
  pub bytes_sent : ℤ
  pub upstream_us : Option ℤ
  pub upstream_coverage_ppm : ℤ
  pub monthly_hosting_kopecks : ℤ
  pub egress_kopecks_per_gib : ℤ

pub record AvoidedInputs : Type 0 where
  pub first_event_us : ℕ
  pub last_event_us : ℕ
  pub bytes_avoided : ℤ
  pub upstream_us_avoided : Option ℤ
  pub total_upstream_us : Option ℤ
  pub upstream_coverage_ppm : ℤ
  pub monthly_hosting_kopecks : ℤ
  pub egress_kopecks_per_gib : ℤ

-- domain.CostAllocation without the constant names of its currency and model.
pub record CostAllocation : Type 0 where
  pub egress_kopecks : Option ℕ
  pub allocated_hosting_kopecks : Option ℕ
  pub total_allocated_kopecks : Option ℕ

-- A fraction rounded to the nearest, a half up.
unfoldable pub rounded_fraction : ℕ → ℕ → Result CostError ℕ
rounded_fraction n d =
    if d == 0
    then err invalid_fraction
    else let quotient = if leb d (2 * (n % d)) then n / d + 1 else n / d in
      if ltb max_int64 quotient then err result_overflow else ok quotient

unfoldable pub window_seconds : ℕ → ℕ → ℕ
window_seconds first last =
    let delta = last - first in
    let seconds = if delta % 1000000 == 0 then delta / 1000000 else delta / 1000000 + 1 in
    if ltb seconds 1 then 1 else seconds

not_positive : ℤ → Bool
not_positive (pos n) = n == 0
not_positive (negsuc n) = true

unfoldable pub allocate_hosting : ℤ → ℕ → ℤ → ℤ → Result CostError ℕ
unfolding not_positive
allocate_hosting monthly seconds group total =
    if is_negative monthly || is_negative group || not_positive total
    then err invalid_hosting
    else rounded_fraction (pos_part monthly * seconds * pos_part group)
        (month_seconds * pos_part total)

negative_option : Option ℤ → Bool
negative_option none = false
negative_option (some n) = is_negative n

is_full : ℤ → Bool
is_full (pos n) = n == 1000000
is_full (negsuc n) = false

above_full : ℤ → Bool
above_full (pos n) = ltb 1000000 n
above_full (negsuc n) = false

lift_some : Result CostError ℕ → Result CostError (Option ℕ)
lift_some (ok n) = ok (some n)
lift_some (err e) = err e

-- The egress of some bytes, where it has a price.
unfoldable pub egress_of : ℤ → ℤ → Result CostError (Option ℕ)
unfolding not_positive lift_some
egress_of sent price =
    if not_positive price
    then ok none
    else lift_some (rounded_fraction (pos_part sent * pos_part price) gib_bytes)

-- The hosting of a group, where it has a price and the upstream time is fully covered.
unfoldable pub hosting_of : ℤ → ℤ → ℕ → Option ℤ → Option ℤ → Result CostError (Option ℕ)
unfolding not_positive is_full lift_some
hosting_of monthly coverage seconds (some group) (some total) =
    if not_positive monthly || not (is_full coverage)
    then ok none
    else lift_some (allocate_hosting monthly seconds group total)
hosting_of monthly coverage seconds _ _ = ok none

-- The sum of the parts that are there, if one is.
unfoldable pub total_of : Option ℕ → Option ℕ → Result CostError (Option ℕ)
total_of none none = ok none
total_of (some a) none = ok (some a)
total_of none (some b) = ok (some b)
total_of (some a) (some b) = if ltb (max_int64 - b) a then err cost_overflow else ok (some (a + b))

-- What follows the guards of `Calculate`.
unfoldable pub allocate : Inputs → Result CostError CostAllocation
allocate i = do
  egress ← egress_of i.bytes_sent i.egress_kopecks_per_gib
  hosting ←
      hosting_of i.monthly_hosting_kopecks i.upstream_coverage_ppm
        (window_seconds i.first_event_us i.last_event_us) i.upstream_us i.upstream_us
  total ← total_of egress hosting
  ok (record {
    egress_kopecks = egress;
    allocated_hosting_kopecks = hosting;
    total_allocated_kopecks = total;
  })

unfoldable pub calculate : Inputs → Result CostError CostAllocation
unfolding negative_option above_full
calculate i =
    if is_negative i.bytes_sent
      || is_negative i.monthly_hosting_kopecks
      || is_negative i.egress_kopecks_per_gib
      || is_negative i.upstream_coverage_ppm
      || above_full i.upstream_coverage_ppm
      || ltb i.last_event_us i.first_event_us
      || negative_option i.upstream_us
    then err invalid_input
    else allocate i

-- *input.TotalUpstreamUS > 0
positive_total : Option ℤ → Option ℤ
unfolding not_positive
positive_total none = none
positive_total (some n) = if not_positive n then none else some n

unfoldable pub calculate_avoided : AvoidedInputs → Result CostError (Option ℕ)
unfolding negative_option above_full positive_total
calculate_avoided i =
    if is_negative i.bytes_avoided
      || is_negative i.upstream_coverage_ppm
      || above_full i.upstream_coverage_ppm
      || ltb i.last_event_us i.first_event_us
      || is_negative i.monthly_hosting_kopecks
      || is_negative i.egress_kopecks_per_gib
      || negative_option i.upstream_us_avoided
      || negative_option i.total_upstream_us
    then err invalid_input
    else do
      egress ← egress_of i.bytes_avoided i.egress_kopecks_per_gib
      hosting ←
          hosting_of i.monthly_hosting_kopecks i.upstream_coverage_ppm
            (window_seconds i.first_event_us i.last_event_us) i.upstream_us_avoided
            (positive_total i.total_upstream_us)
      total_of egress hosting
