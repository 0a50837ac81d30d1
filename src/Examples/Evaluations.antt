-- ===== src/Examples/Evaluations.antt =====
-- Evaluations at concrete inputs.
use crawlledger.Domain.Text.{site_matches, lower_digest, valid_method, valid_actionable}
use crawlledger.Protect.State.{
  ApplyRule, Rule, project_rules, validate_state, validate_rules, validate_rule,
}
use crawlledger.Protect.Detector.Health.{sensor_suspended}
use crawlledger.Protect.Detector.Buckets.{sum_counts, prune_counts}
use crawlledger.Protect.Detector.Groups.{prune, evaluate_groups, evaluate_entries}
use crawlledger.Protect.Detector.Rules.{
  update_rules, add_seconds, qualify_rules, settle_rules, expire, rules_by_key, activate_all,
  make_proposals,
}
use crawlledger.Protect.Detector.Types.{no_rejections, action_key, Detector}
use crawlledger.Protect.Detector.Evaluate.{
  Decision, apply_rule_removed, decide, evaluate, conclude, evaluate_rules, apply_rules_equal,
  rules_equal, apply_now,
}
use crawlledger.Protect.Detector.Evaluate.Decisions.{
  IsEvaluated, evaluate-IsEvaluated, evaluate-not_allowed,
}
use crawlledger.Protect.Detector.Evaluate.Application.{decide-apply}
use crawlledger.Examples.Detections.{state, detector}
use crawlledger.Base.{
  ℕ, zero, suc, ◌<◌, ◌≡◌, refl, ◌≢◌, true, false, some, [], ◌∷◌, arith, ok, get_elem?, All, bytes,
  bytes_eq, has_prefix, contains, insert, sort_by, keep_keys, nat_key, bytes_key,
}

abbrev decision : Decision
decision = record {
  suspended = false;
  group_overflowed = false;
  max_event_lag_us = 0;
  rejected_records = no_rejections;
  events = [];
  state = state;
  state_changed = false;
  map_changed = false;
  apply_required = true;
  apply_now = true;
}

evaluated : (evaluate detector 30000000).1 ≡ ok decision
unfolding evaluate conclude decide evaluate_rules apply_rules_equal rules_equal apply_now
    apply_rule_removed evaluate_groups sum_counts prune prune_counts keep_keys evaluate_entries
    sort_by update_rules add_seconds qualify_rules settle_rules expire rules_by_key activate_all
    make_proposals insert action_key validate_state site_matches lower_digest bytes_eq
    validate_rules validate_rule valid_method valid_actionable has_prefix contains project_rules
    sensor_suspended
evaluated = refl

evaluate-IsEvaluated_example : IsEvaluated detector (evaluate detector 30000000).0 30000000 decision
evaluate-IsEvaluated_example =
    evaluate-IsEvaluated detector 30000000 decision (omega arith) (omega arith) evaluated

abbrev StartedBefore : Rule → Type 0
StartedBefore r = r.first_qualified_at_us < 30000000

evaluate-not_allowed_example : All StartedBefore (evaluate detector 30000000).0.state.rules
evaluate-not_allowed_example =
    evaluate-not_allowed StartedBefore detector 30000000 refl (omega arith, tt)

abbrev applied_rule : ApplyRule
applied_rule = record { method = bytes "GET"; path_prefix = bytes "/old" }

-- The rule in force is another one, and the last reload was a second ago.
abbrev behind : Detector
behind = record detector { applied_rules = applied_rule ∷ []; last_applied_us = 29000000 }

not_in_force : (j : ℕ) → get_elem? (project_rules behind.state.rules) j ≢ some applied_rule
unfolding project_rules
not_in_force zero e = cc e
not_in_force (suc zero) e = cc e
not_in_force (suc (suc j)) e = cc e

decide-apply_example :
    ((decide detector behind 30000000 []).apply_required ≡ true)
    × ((decide detector behind 30000000 []).apply_now ≡ true)
decide-apply_example = decide-apply detector behind 30000000 [] 0 applied_rule refl not_in_force
