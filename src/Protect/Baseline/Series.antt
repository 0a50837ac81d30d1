-- ===== src/Protect/Baseline/Series.antt =====
-- `Baseline`, `BuildBaseline` and the thresholds of a method and path.
use crawlledger.Domain.Text.{valid_method, valid_actionable, lower_digest}
use crawlledger.Protect.Config.{Config}
use crawlledger.Protect.Baseline.Threshold.{ThresholdError, effective_threshold}
use crawlledger.Protect.Baseline.Quantile.{nearest_rank_p99}
use crawlledger.Base.{
  ℕ, ◌+◌, ◌-◌, ◌*◌, ◌/◌, ◌%◌, ◌≡◌, ◌↔◌, Bool, true, not, ◌&&◌, ◌||◌, Option, none, some, List, [],
  ◌∷◌, ◌++◌, arith, ltb, leb, ◌==◌, if◌then◌else◌, Result, ok, err, ◌>>=◌, ◌>>◌, length, pos,
  max_int64, Bytes, bytes, bytes_eq, bytes_eq_iff, bytes_eq_refl, Key, Assoc, lookup, insert,
  sort_by, nat_key, bytes_key,
}

pub record SeriesKey : Type 0 where
  pub method : Bytes
  pub path : Bytes

unfoldable pub series_same : SeriesKey → SeriesKey → Bool
series_same a b = bytes_eq a.method b.method && bytes_eq a.path b.path

pub series_same_iff : (a b : SeriesKey) → (series_same a b ≡ true) ↔ (a ≡ b)
unfolding series_same
series_same_iff a b = (
  (λ h. ground (arith, bytes_eq_iff a.method b.method, bytes_eq_iff a.path b.path)),
  (λ e. simp (e, bytes_eq_refl)),
)

instance abbrev pub series_key : Key SeriesKey
series_key = record { same = series_same; same_iff = series_same_iff }

-- domain.ProtectionCell and domain.ProtectionHistory
pub record ProtectionCell : Type 0 where
  pub bucket_minute_us : ℕ
  pub route : Bytes
  pub actionable_prefix : Option Bytes
  pub route_overflow : Bool
  pub method : Bytes
  pub requests : ℕ
  pub upstream_duration_us : ℕ
  pub upstream_samples : ℕ

pub record ProtectionHistory : Type 0 where
  pub input_format : Bytes
  pub first_event_us : ℕ
  pub last_event_us : ℕ
  pub route_overflow_requests : ℕ
  pub cells : List ProtectionCell

pub record Baseline : Type 0 where
  pub manifest_sha256 : Bytes
  pub complete_start_us : ℕ
  pub complete_end_us : ℕ
  pub complete_minutes : ℕ
  pub eligible : Bool
  pub ineligibility_reasons : List Bytes
  pub prefix_requests : Assoc SeriesKey ℕ
  pub route_requests : Assoc SeriesKey ℕ
  pub route_upstream : Assoc SeriesKey ℕ

pub data BaselineError : Type 0 where
  manifest_digest event_range event_range_overflows : BaselineError
  historical_aggregate actionable_prefix aggregate_overflows : BaselineError
  -- an index out of range in `nearestRankP99`, where Go would panic
  rank_out_of_range : BaselineError

abbrev pub minute_us : ℕ
minute_us = 60000000

-- The start, the end and the number of the complete minutes.
unfoldable pub complete_minute_range : ℕ → ℕ → Result BaselineError (ℕ × ℕ × ℕ)
complete_minute_range first last =
    let floor = first / minute_us * minute_us in
    let start = if first % minute_us == 0 then floor else floor + minute_us in
    let end_ = last / minute_us * minute_us in
    if first == 0 || ltb last first
    then err event_range
    else if not (first % minute_us == 0) && ltb (max_int64 - minute_us) floor
    then err event_range_overflows
    else if leb end_ start
    then ok (start, end_, 0)
    else ok (start, end_, (end_ - start) / minute_us)

validate_prefix : Option Bytes → Result BaselineError (Unit {0})
validate_prefix none = ok tt
validate_prefix (some p) = if valid_actionable p then ok tt else err actionable_prefix

unfoldable pub validate_cell : ProtectionCell → Result BaselineError (Unit {0})
unfolding validate_prefix
validate_cell c =
    if not (c.bucket_minute_us % minute_us == 0)
      || not (valid_method c.method)
      || length c.route == 0
      || c.requests == 0
      || (c.upstream_samples == 0 && not (c.upstream_duration_us == 0))
    then err historical_aggregate
    else validate_prefix c.actionable_prefix

abbrev pub SparseSeries : Type 0
SparseSeries = Assoc SeriesKey (Assoc ℕ ℕ)

abbrev or_empty : Option (Assoc ℕ ℕ) → Assoc ℕ ℕ
or_empty none = []
or_empty (some m) = m

abbrev or_zero : Option ℕ → ℕ
or_zero none = 0
or_zero (some n) = n

unfoldable pub ensure_series : SparseSeries → SeriesKey → SparseSeries
ensure_series s key = insert key (or_empty (lookup key s)) s

unfoldable pub add_series_value :
    SparseSeries → SeriesKey → ℕ → ℕ → Result BaselineError SparseSeries
add_series_value s key bucket value =
    let series = or_empty (lookup key s) in
    let current = or_zero (lookup bucket series) in
    if ltb (max_int64 - current) value
    then err aggregate_overflows
    else ok (insert key (insert bucket (current + value) series) s)

pub record SeriesSet : Type 0 where
  pub prefix_requests : SparseSeries
  pub route_requests : SparseSeries
  pub route_upstream : SparseSeries
  pub overflow : Bool

abbrev prefix_key : ProtectionCell → Bytes → SeriesKey
prefix_key c p = record { method = c.method; path = p }

ensure_prefix : ProtectionCell → Option Bytes → SparseSeries → SparseSeries
ensure_prefix c none s = s
ensure_prefix c (some p) s = ensure_series s (prefix_key c p)

add_prefix : ProtectionCell → Option Bytes → SparseSeries → Result BaselineError SparseSeries
add_prefix c none s = ok s
add_prefix c (some p) s = add_series_value s (prefix_key c p) c.bucket_minute_us c.requests

-- One round of the loop over the cells.
unfoldable pub add_cell : ℕ → ℕ → ProtectionCell → SeriesSet → Result BaselineError SeriesSet
unfolding ensure_prefix add_prefix
add_cell start end_ c s = do
  validate_cell c
  let key : SeriesKey = record { method = c.method; path = c.route }
  let ensured : SeriesSet = record {
    prefix_requests = ensure_prefix c c.actionable_prefix s.prefix_requests;
    route_requests = ensure_series s.route_requests key;
    route_upstream = ensure_series s.route_upstream key;
    overflow = s.overflow || c.route_overflow;
  }
  if ltb c.bucket_minute_us start || leb end_ c.bucket_minute_us then ok ensured else do
    requests ← add_series_value ensured.route_requests key c.bucket_minute_us c.requests
    upstream ← add_series_value ensured.route_upstream key c.bucket_minute_us c.upstream_duration_us
    prefixes ← add_prefix c c.actionable_prefix ensured.prefix_requests
    ok (record {
      prefix_requests = prefixes;
      route_requests = requests;
      route_upstream = upstream;
      overflow = ensured.overflow;
    })

unfoldable pub add_cells : ℕ → ℕ → List ProtectionCell → SeriesSet → Result BaselineError SeriesSet
add_cells start end_ [] s = ok s
add_cells start end_ (c ∷ cs) s = do t ← add_cell start end_ c s; add_cells start end_ cs t

-- The values above zero, ascending.
positive_values : Assoc ℕ ℕ → List ℕ
positive_values [] = []
positive_values ((b, v) ∷ m) = let rest = positive_values m in if ltb 0 v then v ∷ rest else rest

or_panic : Option ℕ → Result BaselineError ℕ
or_panic none = err rank_out_of_range
or_panic (some v) = ok v

unfoldable pub calculate_p99 : SparseSeries → ℕ → Result BaselineError (Assoc SeriesKey ℕ)
unfolding positive_values or_panic
calculate_p99 [] minutes = ok []
calculate_p99 ((key, buckets) ∷ s) minutes = do
  v ← or_panic (nearest_rank_p99 (sort_by ltb (positive_values buckets)) minutes)
  rest ← calculate_p99 s minutes
  ok ((key, v) ∷ rest)

unfoldable pub baseline_ineligibility : Bytes → ℕ → Bool → List Bytes
baseline_ineligibility input_format minutes route_overflow =
    (if bytes_eq input_format (bytes "nginx-json")
      then []
      else bytes "input-format-is-not-nginx-json" ∷ [])
    ++ ((if ltb minutes 1440 then bytes "fewer-than-1440-complete-minutes" ∷ [] else [])
        ++ (if route_overflow then bytes "route-overflow" ∷ [] else []))

unfoldable pub build_baseline : ProtectionHistory → Bytes → Result BaselineError Baseline
build_baseline h manifest = if not (lower_digest manifest) then err manifest_digest else do
  range ← complete_minute_range h.first_event_us h.last_event_us
  s ← add_cells range.0 range.1 h.cells (record {
    prefix_requests = [];
    route_requests = [];
    route_upstream = [];
    overflow = ltb 0 h.route_overflow_requests;
  })
  prefixes ← calculate_p99 s.prefix_requests range.2
  requests ← calculate_p99 s.route_requests range.2
  upstream ← calculate_p99 s.route_upstream range.2
  ok (record {
    manifest_sha256 = manifest;
    complete_start_us = range.0;
    complete_end_us = range.1;
    complete_minutes = range.2;
    eligible = length (baseline_ineligibility h.input_format range.2 s.overflow) == 0;
    ineligibility_reasons = baseline_ineligibility h.input_format range.2 s.overflow;
    prefix_requests = prefixes;
    route_requests = requests;
    route_upstream = upstream;
  })

unfoldable pub p99_of : Assoc SeriesKey ℕ → Bytes → Bytes → ℕ
p99_of series method path = or_zero (lookup (record { method = method; path = path }) series)

abbrev threshold_of : Config → ℕ → ℕ → Result ThresholdError ℕ
threshold_of c p99 floor =
    effective_threshold (pos p99) (pos floor) (pos c.detection.baseline_multiplier)
      (pos c.detection.window_seconds)

unfoldable pub prefix_request_threshold :
    Baseline → Config → Bytes → Bytes → Result ThresholdError ℕ
prefix_request_threshold b c method prefix =
    threshold_of c (p99_of b.prefix_requests method prefix) c.detection.volume_min_requests

unfoldable pub route_request_threshold : Baseline → Config → Bytes → Bytes → Result ThresholdError ℕ
route_request_threshold b c method route =
    threshold_of c (p99_of b.route_requests method route) c.detection.distributed_min_requests

unfoldable pub route_upstream_threshold :
    Baseline → Config → Bytes → Bytes → Result ThresholdError ℕ
route_upstream_threshold b c method route =
    threshold_of c (p99_of b.route_upstream method route) c.detection.distributed_min_upstream_us
