-- ===== src/Policy/Simulate.antt =====
-- internal/policy/simulate.go: the counters of a simulation and how a cell of traffic changes
-- them. The slices that run parallel to the rules are one row for each rule, a Go map that is a set
-- is the list of its values, and a counter, which no sum makes negative, is a natural number. An
-- error ends the simulation, so the simulator that the code leaves behind then is not returned. The
-- fields that no step sets, the allocated cost and the warnings, are left out.
pub mod Cells
pub mod Risks
pub mod Finish
pub mod Sums
pub mod Rows
pub mod Status
pub mod Blocked
pub mod Conserved
pub mod Outcome
use crawlledger.Domain.Event.{
  TrafficClass, CacheState, hit, miss, bypass, expired, stale, unknown, unclassified,
}
use crawlledger.Policy.Matcher.{PolicyMatch, PolicyCell, matches, segment_prefix}
use crawlledger.Policy.Model.{
  ActionKind, action_allow, action_deny, action_rate_limit, action_cache, action_other, PolicyRule,
  Policy, crawler_terms,
}
use crawlledger.Base.{
  ℕ, ◌+◌, ◌-◌, Bool, true, false, not, ◌&&◌, Option, none, some, List, [], ◌∷◌, ◌++◌, map, ltb,
  ◌==◌, if◌then◌else◌, Result, ok, err, ◌>>=◌, ◌>>◌, length, take, any, ℤ, pos, negsuc, max_int64,
  Bytes, bytes, bytes_eq, bytes_lt, contains, Assoc, lookup, insert, sort_by, nat_key, bytes_key,
}

pub data SimulationError : Type 0 where
  invalid_cell integer_overflow nil_profile invalid_run : SimulationError

-- The fields of domain.TrafficCell that the simulation reads.
pub record TrafficCell : Type 0 where
  pub route : Bytes
  pub actionable_prefix : Option Bytes
  pub method : Bytes
  pub claim_name : Option Bytes
  pub claim_category : Option TrafficClass
  pub protected_default : Bool
  pub primary_class : TrafficClass
  pub cache_state : CacheState
  pub requests : ℤ
  pub bytes_sent : ℤ
  pub upstream_us : Option ℤ
  pub upstream_samples : ℤ

pub record SimulationTotals : Type 0 where
  pub observed_requests : ℕ
  pub allowed_requests : ℕ
  pub denied_requests : ℕ
  pub rate_limited_requests : ℕ
  pub cache_candidate_requests : ℕ
  pub bytes_avoided : ℕ
  pub upstream_us_avoided : Option ℕ

pub record RuleImpact : Type 0 where
  pub matched_requests : ℕ
  pub allowed : ℕ
  pub denied : ℕ
  pub rate_limited : ℕ
  pub bytes_avoided : ℕ
  pub upstream_us_avoided : Option ℕ
  pub claimed_crawlers_affected : List Bytes
  pub top_routes_affected : List Bytes
  pub metric_coverage_ppm : ℕ
  pub path_policy_coverage_ppm : Option ℕ
  pub eligible_observed : ℕ
  pub cache_misses_observed : ℕ

pub record RouteImpact : Type 0 where
  pub route : Bytes
  pub requests : ℕ

-- A rule with its entries in the slices. `modeled` is the local of `Finish`, zero before.
pub record RuleRow : Type 0 where
  pub rule : PolicyRule
  pub impact : RuleImpact
  pub rate_matched : ℕ
  pub modeled : ℕ
  pub crawler_set : List Bytes
  pub avoided_requests : ℕ
  pub avoided_samples : ℕ
  pub current_route_row : ℕ
  pub top_routes : List RouteImpact

-- What the rules share.
pub record Shared : Type 0 where
  pub totals : SimulationTotals
  pub path_actionable : ℕ
  pub protected : List Bytes
  pub path_unclassified : List Bytes
  pub path_ambiguous : List Bytes
  pub total_avoided : ℕ
  pub total_samples : ℕ

-- The current route is none as long as there was no cell.
pub record Simulator : Type 0 where
  pub analysis_id : Bytes
  pub policy_hash : Bytes
  pub path_policy : Bool
  pub shared : Shared
  pub rows : List RuleRow
  pub observed_states : Assoc Bytes ℕ
  pub current_route : Option Bytes
  pub route_overflow : ℕ

unfoldable pub checked_add : ℕ → ℤ → Result SimulationError ℕ
checked_add left (negsuc n) = err integer_overflow
checked_add left (pos right) =
    if ltb (max_int64 - right) left then err integer_overflow else ok (left + right)

unfoldable pub add_nullable : Option ℕ → ℤ → Result SimulationError (Option ℕ)
unfolding checked_add
add_nullable target (negsuc n) = err integer_overflow
add_nullable none (pos n) = ok (some n)
add_nullable (some target) (pos n) = do sum ← checked_add target (pos n); ok (some sum)

abbrev pub int_eq : ℤ → ℤ → Bool
int_eq (pos a) (pos b) = a == b
int_eq (negsuc a) (negsuc b) = a == b
int_eq _ _ = false

-- A value is put into a set.
unfoldable pub add_value : Bytes → List Bytes → List Bytes
add_value v values = if any (bytes_eq v) values then values else v ∷ values

abbrev pub no_impact : RuleImpact
no_impact = record {
  matched_requests = 0;
  allowed = 0;
  denied = 0;
  rate_limited = 0;
  bytes_avoided = 0;
  upstream_us_avoided = none;
  claimed_crawlers_affected = [];
  top_routes_affected = [];
  metric_coverage_ppm = 0;
  path_policy_coverage_ppm = none;
  eligible_observed = 0;
  cache_misses_observed = 0;
}

abbrev pub new_row : PolicyRule → RuleRow
new_row r = record {
  rule = r;
  impact = no_impact;
  rate_matched = 0;
  modeled = 0;
  crawler_set = [];
  avoided_requests = 0;
  avoided_samples = 0;
  current_route_row = 0;
  top_routes = [];
}

abbrev pub no_sums : Shared
no_sums = record {
  totals = record {
    observed_requests = 0;
    allowed_requests = 0;
    denied_requests = 0;
    rate_limited_requests = 0;
    cache_candidate_requests = 0;
    bytes_avoided = 0;
    upstream_us_avoided = none;
  };
  path_actionable = 0;
  protected = [];
  path_unclassified = [];
  path_ambiguous = [];
  total_avoided = 0;
  total_samples = 0;
}

unfoldable pub new_simulator : Policy → Bytes → Bytes → Simulator
new_simulator p analysis_id policy_hash = record {
  analysis_id = analysis_id;
  policy_hash = policy_hash;
  path_policy = any (λ (r : PolicyRule). ltb 0 (length r.match_.path_prefixes)) p.rules;
  shared = no_sums;
  rows = map new_row p.rules;
  observed_states = [];
  current_route = none;
  route_overflow = 0;
}

unfoldable pub set_route_overflow : Simulator → ℤ → Simulator
set_route_overflow s (pos n) = if ltb 0 n then record s { route_overflow = n } else s
set_route_overflow s (negsuc n) = s

unfoldable pub is_rate_limit : ActionKind → Bool
is_rate_limit action_rate_limit = true
is_rate_limit action_allow = false
is_rate_limit action_deny = false
is_rate_limit action_cache = false
is_rate_limit (action_other name) = false

-- A missing entry of the map counts as zero.
states_of : Bytes → Assoc Bytes ℕ → ℕ
states_of profile states = elim (lookup profile states) [ none ↦ 0 | some n ↦ n ]

count_profile : Option Bytes → Assoc Bytes ℕ → Result SimulationError (Assoc Bytes ℕ)
unfolding states_of
count_profile none states = err nil_profile
count_profile (some profile) states = do
  value ← checked_add (states_of profile states) (pos 1)
  ok (insert profile value states)

-- The first rate limit that matches the subject counts it.
unfoldable pub count_state :
    PolicyCell → List RuleRow → Assoc Bytes ℕ → Result SimulationError (Assoc Bytes ℕ)
unfolding count_profile is_rate_limit
count_state cell [] states = ok states
count_state cell (row ∷ rows) states =
    let rest = count_state cell rows states in
    if is_rate_limit row.rule.action.kind && matches row.rule.match_ cell
    then count_profile row.rule.action.rate_profile states
    else rest

unfoldable pub add_subject_state :
    Simulator → Option Bytes → Option TrafficClass → Result SimulationError Simulator
unfolding count_state
add_subject_state s name category = do
  states ←
      count_state
        (record {
          actionable_prefix = none;
          method = [];
          claim_name = name;
          claim_category = category;
        })
        s.rows s.observed_states
  ok (record s { observed_states = states })

route_before : RouteImpact → RouteImpact → Bool
route_before a b =
    if not (a.requests == b.requests) then ltb b.requests a.requests else bytes_lt a.route b.route

unfoldable pub flush_row : Bytes → RuleRow → RuleRow
unfolding route_before
flush_row route row = if row.current_route_row == 0 then row else record row {
  top_routes = take 20 (
      sort_by route_before
        (row.top_routes ++ (record { route = route; requests = row.current_route_row } ∷ [])));
  current_route_row = 0;
}

unfoldable pub flush_rows : Option Bytes → List RuleRow → List RuleRow
flush_rows none rows = rows
flush_rows (some route) rows = map (flush_row route) rows

unfoldable pub flush_route : Simulator → Simulator
unfolding flush_rows
flush_route s = record s { rows = flush_rows s.current_route s.rows }

unfoldable pub is_other : Option Bytes → Bytes → Bool
is_other none route = false
is_other (some current) route = not (bytes_eq route current)

-- The part of Add for the route; the current route is the route of the cell then.
unfoldable pub enter_route : Simulator → Bytes → Simulator
unfolding flush_route is_other
enter_route s route = record s {
  rows = if is_other s.current_route route then (flush_route s).rows else s.rows;
  current_route = some route;
}

unfoldable pub ambiguous_dynamic_path : PolicyRule → TrafficCell → Bool
ambiguous_dynamic_path r cell = elim cell.actionable_prefix [
  | none ↦ false
  | some actual ↦
      contains cell.route (bytes "{")
      && any (λ prefix. segment_prefix prefix actual && not (segment_prefix actual prefix))
          r.match_.path_prefixes
]
