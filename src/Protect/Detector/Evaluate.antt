-- ===== src/Protect/Detector/Evaluate.antt =====
-- `Evaluate`, `MarkApplied` and the comparisons of rules.
pub mod Decisions
pub mod Application
use crawlledger.Protect.State.{Rule, State, ApplyRule, project_rules}
use crawlledger.Protect.Detector.Health.{sensor_suspended}
use crawlledger.Protect.Detector.Types.{
  Detector, DetectorError, DetectorEvent, RejectedRecordCounts, no_rejections, bare_event,
  detection_suspended, capacity_reached, time_must_increase, time_not_aligned, microseconds,
}
use crawlledger.Protect.Detector.Groups.{prune, Evaluated, evaluate_groups}
use crawlledger.Protect.Detector.Rules.{make_proposals, update_rules}
use crawlledger.Base.{
  ℕ, ◌+◌, ◌%◌, Bool, true, false, not, ◌&&◌, ◌||◌, List, [], ◌∷◌, ◌++◌, ltb, leb, ◌==◌,
  if◌then◌else◌, Result, ok, err, length, any, Bytes, bytes_eq,
}

pub record Decision : Type 0 where
  pub suspended : Bool
  pub group_overflowed : Bool
  pub max_event_lag_us : ℕ
  pub rejected_records : RejectedRecordCounts
  pub events : List DetectorEvent
  pub state : State
  pub state_changed : Bool
  pub map_changed : Bool
  pub apply_required : Bool
  pub apply_now : Bool

unfoldable pub string_slices_equal : List Bytes → List Bytes → Bool
string_slices_equal [] [] = true
string_slices_equal (a ∷ as') (b ∷ bs) = bytes_eq a b && string_slices_equal as' bs
string_slices_equal _ _ = false

unfoldable pub rule_equal : Rule → Rule → Bool
unfolding string_slices_equal
rule_equal a b =
    bytes_eq a.method b.method
    && bytes_eq a.path_prefix b.path_prefix
    && a.request_threshold == b.request_threshold
    && a.first_qualified_at_us == b.first_qualified_at_us
    && a.last_qualified_at_us == b.last_qualified_at_us
    && a.expires_at_us == b.expires_at_us
    && string_slices_equal a.reasons b.reasons

unfoldable pub rules_equal : List Rule → List Rule → Bool
unfolding rule_equal
rules_equal [] [] = true
rules_equal (a ∷ l) (b ∷ m) = rule_equal a b && rules_equal l m
rules_equal _ _ = false

unfoldable pub apply_rule_equal : ApplyRule → ApplyRule → Bool
apply_rule_equal a b = bytes_eq a.method b.method && bytes_eq a.path_prefix b.path_prefix

unfoldable pub apply_rules_equal : List ApplyRule → List ApplyRule → Bool
unfolding apply_rule_equal
apply_rules_equal [] [] = true
apply_rules_equal (a ∷ l) (b ∷ m) = apply_rule_equal a b && apply_rules_equal l m
apply_rules_equal _ _ = false

-- Whether an applied rule is not among the desired ones.
unfoldable pub apply_rule_removed : List ApplyRule → List ApplyRule → Bool
unfolding apply_rule_equal
apply_rule_removed [] desired = false
apply_rule_removed (a ∷ applied) desired =
    not (any (apply_rule_equal a) desired) || apply_rule_removed applied desired

unfoldable pub apply_now : Detector → ℕ → List ApplyRule → Bool
apply_now d evaluation_us desired =
    apply_rule_removed d.applied_rules desired
    || (length d.applied_rules == 0 && ltb 0 (length desired))
    || d.last_applied_us == 0
    || leb (microseconds d.config.action.min_reload_interval_seconds + d.last_applied_us)
        evaluation_us

-- The counters that every evaluation starts afresh.
abbrev pub reset : Detector → ℕ → Detector
reset d evaluation_us = record d {
  last_evaluation_us = evaluation_us;
  data_since_evaluation = false;
  fresh_since_evaluation = false;
  capacity_since_evaluation = false;
  max_event_lag_us = 0;
  rejected_records = no_rejections;
}

abbrev pub is_suspended : Detector → Bool
is_suspended d =
    sensor_suspended d.health || (d.data_since_evaluation && not d.fresh_since_evaluation)

abbrev pub activation_allowed : Detector → Bool
activation_allowed d = d.fresh_since_evaluation && not (sensor_suspended d.health)

abbrev opening_events : Detector → List DetectorEvent
opening_events d =
    (if is_suspended d then bare_event detection_suspended ∷ [] else [])
    ++ (if d.capacity_since_evaluation then bare_event capacity_reached ∷ [] else [])

-- The decision once the rules are settled, from the detector before and after.
unfoldable pub decide : Detector → Detector → ℕ → List DetectorEvent → Decision
decide before after evaluation_us events =
    let desired = project_rules after.state.rules in
    let required = not (apply_rules_equal after.applied_rules desired) in
    record {
      suspended = is_suspended before;
      group_overflowed = before.capacity_since_evaluation;
      max_event_lag_us = before.max_event_lag_us;
      rejected_records = before.rejected_records;
      events = opening_events before ++ events;
      state = after.state;
      state_changed = not (rules_equal before.state.rules after.state.rules);
      map_changed = not (apply_rules_equal (project_rules before.state.rules) desired);
      apply_required = required;
      apply_now = required && apply_now after evaluation_us desired;
    }

-- What follows `updateRules`.
unfoldable pub conclude :
    Detector
    → ℕ
    → Evaluated
    → Detector × Result DetectorError (List DetectorEvent)
    → Detector × Result DetectorError Decision
conclude before evaluation_us q (after, err e) = (after, err e)
conclude before evaluation_us q (after, ok events) =
    (reset after evaluation_us, ok (decide before after evaluation_us (q.events ++ events)))

-- What follows `evaluateGroups`.
unfoldable pub evaluate_rules :
    Detector
    → Detector
    → ℕ
    → Result DetectorError Evaluated
    → Detector × Result DetectorError Decision
unfolding conclude
evaluate_rules before grouped evaluation_us (err e) = (grouped, err e)
evaluate_rules before grouped evaluation_us (ok q) = conclude before evaluation_us q (
    update_rules grouped evaluation_us (activation_allowed before)
      (make_proposals q.qualifications))

unfoldable pub evaluate : Detector → ℕ → Detector × Result DetectorError Decision
evaluate d evaluation_us =
    let interval_us = microseconds d.config.detection.evaluation_interval_seconds in
    if leb evaluation_us d.last_evaluation_us || evaluation_us == 0
    then (d, err time_must_increase)
    else if not (evaluation_us % interval_us == 0)
    then (d, err time_not_aligned)
    else let pruned = prune d evaluation_us in
      let (grouped, outcome) = evaluate_groups pruned (activation_allowed pruned) in
      evaluate_rules pruned grouped evaluation_us outcome

unfoldable pub mark_applied : Detector → ℕ → Detector
mark_applied d applied_us = record d {
  applied_rules = project_rules d.state.rules;
  last_applied_us = applied_us;
}
