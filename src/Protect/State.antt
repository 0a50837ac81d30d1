-- ===== src/Protect/State.antt =====
-- internal/protect/state.go: the rules in force and their validation. A nil list of rules is not
-- told apart from an empty one: the detector and `EmptyState` never build it. The JSON encoding
-- and the limits on its length are not modelled.
pub mod Order
use crawlledger.Domain.Text.{valid_method, valid_actionable, lower_digest, site_matches}
use crawlledger.Base.{
  ℕ, Bool, true, not, ◌&&◌, ◌||◌, Option, none, some, List, [], ◌∷◌, map, ltb, leb, ◌==◌,
  if◌then◌else◌, Result, ok, err, ◌>>=◌, ◌>>◌, length, Bytes, bytes, bytes_eq, bytes_lt,
}

pub record Rule : Type 0 where
  pub method : Bytes
  pub path_prefix : Bytes
  pub reasons : List Bytes
  pub request_threshold : ℕ
  pub first_qualified_at_us : ℕ
  pub last_qualified_at_us : ℕ
  pub expires_at_us : ℕ

pub record State : Type 0 where
  pub schema_version : ℕ
  pub site : Bytes
  pub config_sha256 : Bytes
  pub baseline_manifest_sha256 : Option Bytes
  pub rules : List Rule

pub record ApplyRule : Type 0 where
  pub method : Bytes
  pub path_prefix : Bytes

pub data StateError : Type 0 where
  identity rules_capacity baseline_required baseline_digest : StateError
  method_or_path reasons_count reason_unknown reasons_order threshold_or_times : StateError
  rules_order : StateError

abbrev pub max_protection_rules : ℕ
max_protection_rules = 128

unfoldable pub rule_less : Rule → Rule → Bool
rule_less l r =
    bytes_lt l.method r.method
    || (bytes_eq l.method r.method && bytes_lt l.path_prefix r.path_prefix)

abbrev pub extreme_volume : Bytes
extreme_volume = bytes "extreme-volume"

abbrev pub distributed_expense : Bytes
distributed_expense = bytes "distributed-expense"

-- rule.Reasons[index-1] >= reason
after : Option Bytes → Bytes → Bool
after none reason = true
after (some previous) reason = bytes_lt previous reason

validate_reasons : Option Bytes → List Bytes → Result StateError (Unit {0})
unfolding after
validate_reasons previous [] = ok tt
validate_reasons previous (r ∷ rs) =
    if not (bytes_eq r distributed_expense || bytes_eq r extreme_volume)
    then err reason_unknown
    else if not (after previous r)
    then err reasons_order
    else validate_reasons (some r) rs

unfoldable pub validate_rule : Rule → Result StateError (Unit {0})
unfolding validate_reasons
validate_rule r =
    if not (valid_method r.method) || not (valid_actionable r.path_prefix)
    then err method_or_path
    else if ltb (length r.reasons) 1 || ltb 2 (length r.reasons)
    then err reasons_count
    else do
      validate_reasons none r.reasons
      if r.request_threshold == 0
            || r.first_qualified_at_us == 0
            || ltb r.last_qualified_at_us r.first_qualified_at_us
            || leb r.expires_at_us r.last_qualified_at_us
          then err threshold_or_times
          else ok tt

less_than : Option Rule → Rule → Bool
less_than none rule = true
less_than (some previous) rule = rule_less previous rule

unfoldable pub validate_rules : Option Rule → List Rule → Result StateError (Unit {0})
unfolding less_than
validate_rules previous [] = ok tt
validate_rules previous (r ∷ rs) = do
  validate_rule r
  if not (less_than previous r) then err rules_order else validate_rules (some r) rs

baseline_check : Option Bytes → List Rule → Result StateError (Unit {0})
baseline_check none [] = ok tt
baseline_check none (r ∷ rs) = err baseline_required
baseline_check (some digest) rules = if lower_digest digest then ok tt else err baseline_digest

unfoldable pub validate_state : State → Result StateError (Unit {0})
unfolding baseline_check
validate_state s =
    if not (s.schema_version == 1)
      || not (site_matches s.site)
      || not (lower_digest s.config_sha256)
    then err identity
    else if ltb max_protection_rules (length s.rules)
    then err rules_capacity
    else do baseline_check s.baseline_manifest_sha256 s.rules; validate_rules none s.rules

-- coordinator.go, `EmptyState`
unfoldable pub empty_state : Bytes → Bytes → Option Bytes → State
empty_state site config_sha256 baseline_sha256 = record {
  schema_version = 1;
  site = site;
  config_sha256 = config_sha256;
  baseline_manifest_sha256 = baseline_sha256;
  rules = [];
}

unfoldable pub project_rule : Rule → ApplyRule
project_rule r = record { method = r.method; path_prefix = r.path_prefix }

-- detector.go, `projectRules`
unfoldable pub project_rules : List Rule → List ApplyRule
unfolding project_rule
project_rules = map project_rule

apply_less : Option ApplyRule → ApplyRule → Bool
apply_less none r = true
apply_less (some p) r = not (
    bytes_lt r.method p.method
    || (bytes_eq p.method r.method && not (bytes_lt p.path_prefix r.path_prefix)))

unfoldable pub validate_apply_rules : Option ApplyRule → List ApplyRule → Bool
unfolding apply_less
validate_apply_rules previous [] = true
validate_apply_rules previous (r ∷ rs) =
    valid_method r.method
    && valid_actionable r.path_prefix
    && apply_less previous r
    && validate_apply_rules (some r) rs

pub record ApplyPayload : Type 0 where
  pub schema_version : ℕ
  pub site : Bytes
  pub rules : List ApplyRule

unfoldable pub validate_payload : ApplyPayload → Bool
unfolding validate_apply_rules
validate_payload p =
    p.schema_version == 1
    && site_matches p.site
    && leb (length p.rules) max_protection_rules
    && validate_apply_rules none p.rules

-- `ProjectState` up to the encoding.
unfoldable pub project_state : State → Result StateError ApplyPayload
unfolding project_rules
project_state s = do
  validate_state s
  ok (record { schema_version = 1; site = s.site; rules = project_rules s.rules })
