-- ===== src/Policy/Simulate/Cells.antt =====
-- policy/simulate.go: Add, which gives a cell of traffic to the first rule that matches it.
use crawlledger.Domain.Event.{
  TrafficClass, CacheState, hit, miss, bypass, expired, stale, unknown, unclassified,
  claimed_ai_crawler, claimed_search_crawler, claimed_other_crawler, security_probe,
}
use crawlledger.Policy.Matcher.{PolicyCell, matches}
use crawlledger.Policy.Model.{
  ActionKind, action_allow, action_deny, action_rate_limit, action_cache, action_other,
  crawler_terms,
}
use crawlledger.Policy.Simulate.{
  SimulationError, invalid_cell, TrafficCell, RuleRow, Shared, Simulator, checked_add, add_nullable,
  int_eq, add_value, enter_route, ambiguous_dynamic_path,
}
use crawlledger.Base.{
  ℕ, Bool, true, false, ◌&&◌, ◌||◌, Option, none, some, List, [], ◌∷◌, ltb, ◌==◌, if◌then◌else◌,
  Result, ok, err, ◌>>=◌, length, ℤ, is_negative, Bytes, nat_key, bytes_key,
}

abbrev pub policy_cell : TrafficCell → PolicyCell
policy_cell cell = record {
  actionable_prefix = cell.actionable_prefix;
  method = cell.method;
  claim_name = cell.claim_name;
  claim_category = cell.claim_category;
}

is_restrictive : ActionKind → Bool
is_restrictive action_deny = true
is_restrictive action_rate_limit = true
is_restrictive action_allow = false
is_restrictive action_cache = false
is_restrictive (action_other name) = false

is_unclassified : TrafficClass → Bool
is_unclassified unclassified = true
is_unclassified claimed_ai_crawler = false
is_unclassified claimed_search_crawler = false
is_unclassified claimed_other_crawler = false
is_unclassified security_probe = false

is_miss : CacheState → Bool
is_miss miss = true
is_miss bypass = true
is_miss expired = true
is_miss hit = false
is_miss stale = false
is_miss unknown = false

unfoldable pub allow_cell :
    Shared → RuleRow → TrafficCell → Result SimulationError (Shared × RuleRow)
unfolding checked_add
allow_cell s row cell = do
  allowed ← checked_add row.impact.allowed cell.requests
  total ← checked_add s.totals.allowed_requests cell.requests
  ok (
    record s { totals = record s.totals { allowed_requests = total } },
    record row { impact = record row.impact { allowed = allowed } },
  )

-- The upstream time counts only if every request has a sample.
sampled : TrafficCell → Option ℤ
sampled cell = elim cell.upstream_us [
  | none ↦ none
  | some us ↦ if int_eq cell.upstream_samples cell.requests then some us else none
]

unfoldable pub add_optional : Option ℕ → Option ℤ → Result SimulationError (Option ℕ)
add_optional target none = ok target
add_optional target (some value) = add_nullable target value

unfoldable pub deny_cell :
    Shared → RuleRow → TrafficCell → Result SimulationError (Shared × RuleRow)
unfolding sampled is_unclassified
deny_cell s row cell = do
  denied ← checked_add row.impact.denied cell.requests
  bytes_avoided ← checked_add row.impact.bytes_avoided cell.bytes_sent
  total_denied ← checked_add s.totals.denied_requests cell.requests
  total_bytes ← checked_add s.totals.bytes_avoided cell.bytes_sent
  avoided_requests ← checked_add row.avoided_requests cell.requests
  avoided_samples ← checked_add row.avoided_samples cell.upstream_samples
  total_avoided ← checked_add s.total_avoided cell.requests
  total_samples ← checked_add s.total_samples cell.upstream_samples
  upstream ← add_optional row.impact.upstream_us_avoided (sampled cell)
  total_upstream ← add_optional s.totals.upstream_us_avoided (sampled cell)
  ok (
    record s {
      totals = record s.totals {
        denied_requests = total_denied;
        bytes_avoided = total_bytes;
        upstream_us_avoided = total_upstream;
      };
      total_avoided = total_avoided;
      total_samples = total_samples;
      path_unclassified =
          if ltb 0 (length row.rule.match_.path_prefixes)
            && crawler_terms row.rule.match_ == 0
            && is_unclassified cell.primary_class
          then add_value row.rule.id s.path_unclassified
          else s.path_unclassified;
    },
    record row {
      impact = record row.impact {
        denied = denied;
        bytes_avoided = bytes_avoided;
        upstream_us_avoided = upstream;
      };
      avoided_requests = avoided_requests;
      avoided_samples = avoided_samples;
    },
  )

unfoldable pub rate_limit_cell :
    Shared → RuleRow → TrafficCell → Result SimulationError (Shared × RuleRow)
rate_limit_cell s row cell = do
  matched ← checked_add row.rate_matched cell.requests
  ok (s, record row { rate_matched = matched })

unfoldable pub cache_cell :
    Shared → RuleRow → TrafficCell → Result SimulationError (Shared × RuleRow)
unfolding is_miss
cache_cell s row cell = do
  allowed ← checked_add row.impact.allowed cell.requests
  eligible ← checked_add row.impact.eligible_observed cell.requests
  (misses, candidates) ←
      if is_miss cell.cache_state
      then (do
        misses ← checked_add row.impact.cache_misses_observed cell.requests
        candidates ← checked_add s.totals.cache_candidate_requests cell.requests
        ok (misses, candidates))
      else ok (row.impact.cache_misses_observed, s.totals.cache_candidate_requests)
  total ← checked_add s.totals.allowed_requests cell.requests
  ok (
    record s {
      totals = record s.totals { allowed_requests = total; cache_candidate_requests = candidates };
    },
    record row {
      impact = record row.impact {
        allowed = allowed;
        eligible_observed = eligible;
        cache_misses_observed = misses;
      };
    },
  )

-- The switch over the kinds of the action.
unfoldable pub act_as :
    ActionKind → Shared → RuleRow → TrafficCell → Result SimulationError (Shared × RuleRow)
unfolding allow_cell deny_cell rate_limit_cell cache_cell
act_as action_allow s row cell = allow_cell s row cell
act_as action_deny s row cell = deny_cell s row cell
act_as action_rate_limit s row cell = rate_limit_cell s row cell
act_as action_cache s row cell = cache_cell s row cell
act_as (action_other name) s row cell = ok (s, row)

abbrev pub act : Shared → RuleRow → TrafficCell → Result SimulationError (Shared × RuleRow)
act s row cell = act_as row.rule.action.kind s row cell

-- The sets of the crawlers.
unfoldable pub note_crawler : RuleRow → TrafficCell → RuleRow
note_crawler row cell = elim cell.claim_name [
  | none ↦ row
  | some name ↦ record row { crawler_set = add_value name row.crawler_set }
]

unfoldable pub note_protected : Shared → RuleRow → TrafficCell → Shared
unfolding is_restrictive
note_protected s row cell = elim cell.claim_name [
  | none ↦ s
  | some name ↦
      if cell.protected_default && is_restrictive row.rule.action.kind
      then record s { protected = add_value name s.protected }
      else s
]

-- The rule that matched.
unfoldable pub add_matched :
    Shared → RuleRow → TrafficCell → Result SimulationError (Shared × RuleRow)
unfolding act_as note_crawler note_protected
add_matched s row cell = do
  matched ← checked_add row.impact.matched_requests cell.requests
  routed ← checked_add row.current_route_row cell.requests
  act (note_protected s row cell)
      (record (note_crawler row cell) {
        impact = record row.impact { matched_requests = matched };
        current_route_row = routed;
      })
      cell

unfoldable pub note_ambiguous : Shared → RuleRow → TrafficCell → Shared
note_ambiguous s row cell =
    if matches (record row.rule.match_ { path_prefixes = [] }) (policy_cell cell)
      && ambiguous_dynamic_path row.rule cell
    then record s { path_ambiguous = add_value row.rule.id s.path_ambiguous }
    else s

-- The loop over the rules, up to the first that matches; without one the cell is allowed.
unfoldable pub add_rules :
    Shared → List RuleRow → TrafficCell → Result SimulationError (Shared × List RuleRow)
unfolding note_ambiguous add_matched
add_rules s [] cell = do
  total ← checked_add s.totals.allowed_requests cell.requests
  ok (record s { totals = record s.totals { allowed_requests = total } }, [])
add_rules s (row ∷ rows) cell =
    let noted = note_ambiguous s row cell in
    let rest = add_rules noted rows cell in
    if matches row.rule.match_ (policy_cell cell)
    then (do (s', row') ← add_matched noted row cell; ok (s', row' ∷ rows))
    else do (s', rows') ← rest; ok (s', row ∷ rows')

unfoldable pub actionable : Bool → Option Bytes → Bool
actionable path_policy none = false
actionable path_policy (some prefix) = path_policy

unfoldable pub add : Simulator → TrafficCell → Result SimulationError Simulator
unfolding add_rules actionable
add s cell =
    let entered = enter_route s cell.route in
    if is_negative cell.requests || is_negative cell.bytes_sent then err invalid_cell else do
      observed ← checked_add s.shared.totals.observed_requests cell.requests
      path_actionable ←
          if actionable s.path_policy cell.actionable_prefix
          then checked_add s.shared.path_actionable cell.requests
          else ok s.shared.path_actionable
      (shared, rows) ←
          add_rules
            (record s.shared {
              totals = record s.shared.totals { observed_requests = observed };
              path_actionable = path_actionable;
            })
            entered.rows cell
      ok (record entered { shared = shared; rows = rows })

unfoldable pub add_all : Simulator → List TrafficCell → Result SimulationError Simulator
add_all s [] = ok s
add_all s (cell ∷ cells) = do next ← add s cell; add_all next cells
