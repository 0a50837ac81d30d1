-- ===== src/Policy/Simulate/Risks.antt =====
-- policy/simulate.go: the risks of a simulation and the status that they give. The map `byID` is
-- sorted by its keys at the end.
use crawlledger.Policy.Model.{
  ActionKind, action_allow, action_deny, action_rate_limit, action_cache, action_other,
  crawler_terms,
}
use crawlledger.Policy.Simulate.{RuleRow, Shared, Simulator, is_rate_limit}
use crawlledger.Base.{
  ℕ, zero, suc, ◌+◌, ◌-◌, ◌*◌, ◌/◌, ◌%◌, ◌^◌, max, Bool, true, false, not, ◌&&◌, ◌||◌, List, [],
  ◌∷◌, ◌++◌, map, ltb, leb, ◌==◌, if◌then◌else◌, length, any, Bytes, bytes, bytes_eq, bytes_lt,
  has_prefix, Assoc, insert, sort_by, nat_key, bytes_key,
}

pub data Severity : Type 0 where
  info medium high : Severity

pub record Risk : Type 0 where
  pub id : Bytes
  pub severity : Severity
  pub acknowledgeable : Bool
  pub message : Bytes

pub data SimulationStatus : Type 0 where
  safe requires_ack blocked analysis_only : SimulationStatus

abbrev pub RiskMap : Type 0
RiskMap = Assoc Bytes Risk

unfoldable pub put : Bytes → Severity → Bool → Bytes → RiskMap → RiskMap
put id severity acknowledgeable message m =
    insert id
      (record {
        id = id;
        severity = severity;
        acknowledgeable = acknowledgeable;
        message = message;
      })
      m

unfoldable pub put_if : Bool → Bytes → Severity → Bool → Bytes → RiskMap → RiskMap
put_if test id severity acknowledgeable message m =
    if test then put id severity acknowledgeable message m else m

unfoldable pub has_paths : RuleRow → Bool
has_paths row = ltb 0 (length row.rule.match_.path_prefixes)

unfoldable pub overflow_risk : Simulator → RiskMap → RiskMap
unfolding has_paths
overflow_risk s =
    put_if (ltb 0 s.route_overflow && any has_paths s.rows) (bytes "cardinality-overflow:route")
      high false (bytes "Route cardinality overflow affects a policy matcher dimension.")

unfoldable pub protected_risks : List Bytes → RiskMap → RiskMap
protected_risks [] m = m
protected_risks (name ∷ names) m = protected_risks names (
    put (bytes "protected-crawler:" ++ name) high true
      (bytes "Policy affects a protected claimed crawler.") m)

unfoldable pub is_allow : ActionKind → Bool
is_allow action_allow = true
is_allow action_deny = false
is_allow action_rate_limit = false
is_allow action_cache = false
is_allow (action_other name) = false

unfoldable pub is_deny : ActionKind → Bool
is_deny action_deny = true
is_deny action_allow = false
is_deny action_rate_limit = false
is_deny action_cache = false
is_deny (action_other name) = false

unfoldable pub is_cache : ActionKind → Bool
is_cache action_cache = true
is_cache action_allow = false
is_cache action_deny = false
is_cache action_rate_limit = false
is_cache (action_other name) = false

unfoldable pub restricts : RuleRow → Bool
unfolding is_deny
restricts row = is_deny row.rule.action.kind || is_rate_limit row.rule.action.kind

-- The risk of the paths is graver where a prefix enters a dynamic segment.
unfoldable pub drift_risk : Shared → RuleRow → RiskMap → RiskMap
unfolding has_paths
drift_risk s row m =
    let id = bytes "path-normalization-drift:" ++ row.rule.id in
    let partial = has_paths row && ltb s.path_actionable s.totals.observed_requests in
    if has_paths row && any (bytes_eq row.rule.id) s.path_ambiguous
    then put id high false
        (bytes
          "A policy prefix enters a normalized dynamic segment and cannot be simulated safely.")
        m
    else put_if partial id medium true
        (bytes "Some observed paths are not safely translatable to server matchers.") m

unfoldable pub path_risks : Shared → RuleRow → RiskMap → RiskMap
path_risks s row m =
    let id = row.rule.id in
    put_if (any (bytes_eq id) s.path_unclassified) (bytes "path-deny-unclassified:" ++ id) high true
      (bytes "Path-only deny affects unclassified traffic.")
      (put_if (any (λ prefix. bytes_eq prefix (bytes "/")) row.rule.match_.path_prefixes)
        (bytes "broad-root-match:" ++ id) high true (bytes "Rule matches the root path.") m)

unfoldable pub impact_risk : Shared → RuleRow → RiskMap → RiskMap
unfolding restricts
impact_risk s row =
    put_if (ltb (s.totals.observed_requests / 2) row.impact.matched_requests && restricts row)
      (bytes "high-impact:" ++ row.rule.id) high true
      (bytes "Rule affects more than half of observed requests.")

unfoldable pub bypass_risk : RuleRow → List RuleRow → RiskMap → RiskMap
unfolding is_allow restricts
bypass_risk row later =
    put_if
      (is_allow row.rule.action.kind
        && ltb 0 (crawler_terms row.rule.match_)
        && any restricts later)
      (bytes "claimed-allow-bypass:" ++ row.rule.id) medium true
      (bytes "A spoofable claimed User-Agent may bypass a later restrictive rule.")

unfoldable pub coverage_risk : RuleRow → RiskMap → RiskMap
coverage_risk row =
    put_if (is_rate_limit row.rule.action.kind && not (row.modeled == row.rate_matched))
      (bytes "rate-coverage-incomplete:" ++ row.rule.id) high false
      (bytes "Rate model coverage is incomplete for this rule.")

unfoldable pub cache_risk : RuleRow → RiskMap → RiskMap
unfolding is_cache
cache_risk row =
    put_if (is_cache row.rule.action.kind) (bytes "analysis-only-cache:" ++ row.rule.id) info false
      (bytes "Cache impact is an upper bound and cannot be rendered.")

-- One turn of the loop over the rules, with the rules behind.
unfoldable pub rule_risks : Shared → RuleRow → List RuleRow → RiskMap → RiskMap
unfolding path_risks impact_risk bypass_risk drift_risk coverage_risk cache_risk
rule_risks s row later m = cache_risk row (
    coverage_risk row
      (drift_risk s row (bypass_risk row later (impact_risk s row (path_risks s row m)))))

unfoldable pub all_rule_risks : Shared → List RuleRow → RiskMap → RiskMap
unfolding rule_risks
all_rule_risks s [] m = m
all_rule_risks s (row ∷ rows) m = all_rule_risks s rows (rule_risks s row rows m)

-- The product is an int64, which wraps; below zero the quotient is below one.
unfoldable pub zone_mib : ℕ → ℕ
zone_mib states =
    let value = (states * 512 + (2 ^ 20 - 1)) % 2 ^ 64 in
    if leb (2 ^ 63) value then 1 else max 1 (value / 2 ^ 20)

-- strconv.FormatInt in base ten; an int64 has at most nineteen digits.
unfoldable pub digits : ℕ → ℕ → Bytes → Bytes
digits zero n rest = rest
digits (suc fuel) n rest =
    let more = digits fuel (n / 10) ((b'0' + n % 10) ∷ rest) in
    if ltb n 10 then (b'0' + n) ∷ rest else more

unfoldable pub format_int : ℕ → Bytes
unfolding digits
format_int n = digits 20 n []

unfoldable pub zone_risk : Bytes → ℕ → RiskMap → RiskMap
zone_risk profile zone m =
    if ltb 256 zone
    then put (bytes "nginx-zone-too-large:" ++ profile) high false
        (bytes "Calculated Nginx rate zone exceeds 256 MiB.") m
    else put_if (ltb 32 zone)
        (bytes "nginx-zone-memory:" ++ profile ++ bytes ":" ++ format_int zone) high true
        (bytes "Calculated Nginx rate zone exceeds 32 MiB.") m

unfoldable pub zone_risks : Assoc Bytes ℕ → RiskMap → RiskMap
unfolding zone_risk
zone_risks [] m = m
zone_risks ((profile, states) ∷ rest) m = zone_risks rest (zone_risk profile (zone_mib states) m)

unfoldable pub risk_less : Risk → Risk → Bool
risk_less a b = bytes_lt a.id b.id

unfoldable pub risk_map : Simulator → RiskMap
unfolding overflow_risk protected_risks all_rule_risks zone_risks
risk_map s =
    zone_risks s.observed_states
      (all_rule_risks s.shared s.rows (protected_risks s.shared.protected (overflow_risk s [])))

unfoldable pub risks : Simulator → List Risk
unfolding risk_map risk_less
risks s = sort_by risk_less (map (λ (entry : Bytes × Risk). entry.1) (risk_map s))

unfoldable pub is_analysis_only : Risk → Bool
is_analysis_only r = has_prefix r.id (bytes "analysis-only-cache:")

-- The loop, with the status so far and whether a cache was met.
unfoldable pub status_from : SimulationStatus → Bool → List Risk → SimulationStatus
unfolding is_analysis_only
status_from status analysis [] = if analysis then analysis_only else status
status_from status analysis (r ∷ rs) =
    if is_analysis_only r
    then status_from status true rs
    else if not r.acknowledgeable
    then blocked
    else status_from (elim status [ safe ↦ requires_ack | other ↦ other ]) analysis rs

unfoldable pub status_for : List Risk → SimulationStatus
unfolding status_from
status_for = status_from safe false
