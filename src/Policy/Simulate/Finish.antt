-- ===== src/Policy/Simulate/Finish.antt =====
-- policy/simulate.go: Finish, which adds what the rate model allowed and limited and closes the
-- simulation; and Conserves of policy/simulation_load.go. SHA-256 gives the id of the run, so
-- `run_id` is a parameter, and so is none if the ids are not valid. The assumptions are constants.
use crawlledger.Domain.Event.{TrafficClass}
use crawlledger.Domain.Math.{ratio_ppm}
use crawlledger.Policy.Matcher.{PolicyCell, matches}
use crawlledger.Policy.Simulate.{
  SimulationError, invalid_run, SimulationTotals, RuleImpact, RouteImpact, RuleRow, Shared,
  Simulator, checked_add, int_eq, is_rate_limit, flush_route,
}
use crawlledger.Policy.Simulate.Cells.{add_optional}
use crawlledger.Policy.Simulate.Risks.{
  Risk, SimulationStatus, blocked, safe, requires_ack, analysis_only, risks, status_for,
}
use crawlledger.Base.{
  ℕ, ◌+◌, ◌-◌, Bool, true, false, not, ◌&&◌, ◌||◌, Option, none, some, List, [], ◌∷◌, ◌++◌, map,
  ltb, ◌==◌, if◌then◌else◌, Result, ok, err, ◌>>=◌, length, any, ℤ, pos, max_int64, Bytes, bytes,
  bytes_eq, bytes_lt, has_prefix, sort_by, nat_key, bytes_key,
}

pub record RateProfileImpact : Type 0 where
  pub claim_name : Option Bytes
  pub claim_category : Option TrafficClass
  pub profile : Bytes
  pub modeled_requests : ℤ
  pub allowed_requests : ℤ
  pub limited_requests : ℤ
  pub limited_bytes : ℤ
  pub limited_upstream_us : Option ℤ
  pub limited_upstream_samples : ℤ

abbrev pub rate_cell : RateProfileImpact → PolicyCell
rate_cell rate = record {
  actionable_prefix = none;
  method = [];
  claim_name = rate.claim_name;
  claim_category = rate.claim_category;
}

unfoldable pub has_profile : Bytes → Option Bytes → Bool
has_profile profile none = false
has_profile profile (some p) = bytes_eq p profile

unfoldable pub rate_matches : RuleRow → RateProfileImpact → Bool
unfolding has_profile
rate_matches row rate =
    is_rate_limit row.rule.action.kind
    && has_profile rate.profile row.rule.action.rate_profile
    && matches row.rule.match_ (rate_cell rate)

unfoldable pub limited_sample : RateProfileImpact → Option ℤ
limited_sample rate = elim rate.limited_upstream_us [
  | none ↦ none
  | some us ↦ if int_eq rate.limited_upstream_samples rate.limited_requests then some us else none
]

-- The sums of one row of the rate model.
unfoldable pub add_rate :
    Shared → RuleRow → RateProfileImpact → Result SimulationError (Shared × RuleRow)
unfolding limited_sample
add_rate s row rate = do
  modeled ← checked_add row.modeled rate.modeled_requests
  allowed ← checked_add row.impact.allowed rate.allowed_requests
  limited ← checked_add row.impact.rate_limited rate.limited_requests
  bytes_avoided ← checked_add row.impact.bytes_avoided rate.limited_bytes
  total_allowed ← checked_add s.totals.allowed_requests rate.allowed_requests
  total_limited ← checked_add s.totals.rate_limited_requests rate.limited_requests
  total_bytes ← checked_add s.totals.bytes_avoided rate.limited_bytes
  avoided_requests ← checked_add row.avoided_requests rate.limited_requests
  avoided_samples ← checked_add row.avoided_samples rate.limited_upstream_samples
  total_avoided ← checked_add s.total_avoided rate.limited_requests
  total_samples ← checked_add s.total_samples rate.limited_upstream_samples
  upstream ← add_optional row.impact.upstream_us_avoided (limited_sample rate)
  total_upstream ← add_optional s.totals.upstream_us_avoided (limited_sample rate)
  ok (
    record s {
      totals = record s.totals {
        allowed_requests = total_allowed;
        rate_limited_requests = total_limited;
        bytes_avoided = total_bytes;
        upstream_us_avoided = total_upstream;
      };
      total_avoided = total_avoided;
      total_samples = total_samples;
    },
    record row {
      modeled = modeled;
      impact = record row.impact {
        allowed = allowed;
        rate_limited = limited;
        bytes_avoided = bytes_avoided;
        upstream_us_avoided = upstream;
      };
      avoided_requests = avoided_requests;
      avoided_samples = avoided_samples;
    },
  )

-- The first rate limit with the profile that matches.
unfoldable pub settle_rate :
    Shared → List RuleRow → RateProfileImpact → Result SimulationError (Shared × List RuleRow)
settle_rate s [] rate = ok (s, [])
settle_rate s (row ∷ rows) rate =
    let rest = settle_rate s rows rate in
    if rate_matches row rate
    then (do (s', row') ← add_rate s row rate; ok (s', row' ∷ rows))
    else do (s', rows') ← rest; ok (s', row ∷ rows')

unfoldable pub settle :
    Shared → List RuleRow → List RateProfileImpact → Result SimulationError (Shared × List RuleRow)
settle s rows [] = ok (s, rows)
settle s rows (rate ∷ rates) = do (s', rows') ← settle_rate s rows rate; settle s' rows' rates

unfoldable pub coverage_of : RuleRow → ℕ
coverage_of row =
    if is_rate_limit row.rule.action.kind
    then (if ltb 0 row.rate_matched
        then ratio_ppm (pos row.modeled) (pos row.rate_matched)
        else 1000000)
    else if ltb 0 row.impact.matched_requests
    then 1000000
    else row.impact.metric_coverage_ppm

unfoldable pub route_of : RouteImpact → Bytes
route_of r = r.route

-- The names, the routes and the coverage of an impact.
unfoldable pub close_row : RuleRow → RuleRow
unfolding coverage_of route_of
close_row row = record row {
  impact = record row.impact {
    claimed_crawlers_affected = sort_by bytes_lt row.crawler_set;
    top_routes_affected = row.impact.top_routes_affected ++ map route_of row.top_routes;
    metric_coverage_ppm = coverage_of row;
    upstream_us_avoided =
        if row.avoided_samples == row.avoided_requests
        then row.impact.upstream_us_avoided
        else none;
  };
}

unfoldable pub close_totals : Shared → Shared
close_totals s =
    if s.total_samples == s.total_avoided
    then s
    else record s { totals = record s.totals { upstream_us_avoided = none } }

-- The sums over the rate limits.
unfoldable pub rate_sums : ℕ → ℕ → List RuleRow → Result SimulationError (ℕ × ℕ)
rate_sums total modeled [] = ok (total, modeled)
rate_sums total modeled (row ∷ rows) =
    let skipped = rate_sums total modeled rows in
    if is_rate_limit row.rule.action.kind
    then (do
      next ← checked_add total (pos row.rate_matched)
      next_modeled ← checked_add modeled (pos row.modeled)
      rate_sums next next_modeled rows)
    else skipped

unfoldable pub path_coverage : Simulator → Option ℕ
path_coverage s =
    let t = s.shared.totals in
    if s.path_policy
    then some (
        if ltb 0 t.observed_requests
        then ratio_ppm (pos s.shared.path_actionable) (pos t.observed_requests)
        else 1000000)
    else none

unfoldable pub cover_row : Option ℕ → RuleRow → RuleRow
cover_row coverage row =
    if ltb 0 (length row.rule.match_.path_prefixes)
    then record row { impact = record row.impact { path_policy_coverage_ppm = coverage } }
    else row

pub record Simulation : Type 0 where
  pub run_id : Bytes
  pub analysis_id : Bytes
  pub policy_hash : Bytes
  pub status : SimulationStatus
  pub rate_model_ppm : ℕ
  pub path_policy_coverage : Option ℕ
  pub totals : SimulationTotals
  pub rule_impacts : List RuleImpact
  pub risks : List Risk

unfoldable pub impact_of : RuleRow → RuleImpact
impact_of row = row.impact

-- The simulator behind the loop over the rate model, when the risks are found.
unfoldable pub close : Simulator → List RateProfileImpact → Result SimulationError Simulator
unfolding close_row close_totals
close s rates =
    let flushed = flush_route s in
    do
      (shared, rows) ← settle flushed.shared flushed.rows rates
      ok (record flushed { shared = close_totals shared; rows = map close_row rows })

module _ (run_id : Bytes → Bytes → Option Bytes) where
  unfoldable pub run_of : Simulator → Result SimulationError Bytes
  run_of s = elim (run_id s.analysis_id s.policy_hash) [ none ↦ err invalid_run | some id ↦ ok id ]

  -- What follows the risks.
  unfoldable pub report : Simulator → Result SimulationError Simulation
  unfolding run_of rate_sums path_coverage cover_row impact_of
  report s = do
    run ← elim (run_id s.analysis_id s.policy_hash) [ none ↦ err invalid_run | some id ↦ ok id ]
    (total, modeled) ← rate_sums 0 0 s.rows
    ok (record {
      run_id = run;
      analysis_id = s.analysis_id;
      policy_hash = s.policy_hash;
      status = status_for (risks s);
      rate_model_ppm = if ltb 0 total then ratio_ppm (pos modeled) (pos total) else 1000000;
      path_policy_coverage = path_coverage s;
      totals = s.shared.totals;
      rule_impacts =
          map impact_of
            (if s.path_policy then map (cover_row (path_coverage s)) s.rows else s.rows);
      risks = risks s;
    })

  unfoldable pub finish : Simulator → List RateProfileImpact → Result SimulationError Simulation
  unfolding report
  finish s rates = do closed ← close s rates; report closed

unfoldable pub is_incomplete : Risk → Bool
is_incomplete r = not r.acknowledgeable && has_prefix r.id (bytes "rate-coverage-incomplete:")

unfoldable pub is_blocked : SimulationStatus → Bool
is_blocked blocked = true
is_blocked safe = false
is_blocked requires_ack = false
is_blocked analysis_only = false

unfoldable pub conserves : Simulation → Bool
unfolding is_incomplete is_blocked
conserves v =
    let t = v.totals in
    let classified = t.allowed_requests + t.denied_requests + t.rate_limited_requests in
    if ltb (max_int64 - t.denied_requests) t.allowed_requests
    then false
    else if ltb (max_int64 - t.rate_limited_requests) (t.allowed_requests + t.denied_requests)
    then false
    else if classified == t.observed_requests
    then true
    else if not (is_blocked v.status) || ltb t.observed_requests classified
    then false
    else any is_incomplete v.risks
