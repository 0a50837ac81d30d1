-- ===== src/Examples/Costs.antt =====
-- The costs of a window, and a detector that starts, at concrete inputs.
use crawlledger.Domain.Text.{site_matches, lower_digest, valid_method, valid_actionable}
use crawlledger.Cost.{
  Inputs, CostAllocation, calculate, allocate, egress_of, hosting_of, allocate_hosting,
  rounded_fraction, window_seconds, total_of,
}
use crawlledger.Cost.Rounding.{sum_of, IsRounded, rounded_fraction-nearest, calculate-total}
use crawlledger.Protect.Config.{
  check_ranges, detection_relations, validate_detection, action_relations, validate_action,
  validate_unique, validate_settings,
}
use crawlledger.Protect.State.{validate_state, validate_rules, validate_rule}
use crawlledger.Protect.Detector.Types.{Detector}
use crawlledger.Protect.Detector.Paths.{action_excluded, overlaps_any, rule_path_matches}
use crawlledger.Protect.Detector.Lifecycle.{
  IsStarted, fresh_detector, new_detector, start_checks, any_excluded, new_detector-IsStarted,
}
use crawlledger.Protect.Detector.Observe.{observe}
use crawlledger.Protect.Detector.Evaluate.{mark_applied}
use crawlledger.Protect.Detector.Lifecycle.Reachable.{
  Reaches, here, then_step, observed, marked, IsRunning, new_detector-IsRunning,
}
use crawlledger.Examples.Detections.{request, short_hash, config, digest, baseline, state}
use crawlledger.Base.{
  ◌≡◌, refl, some, arith, ok, pos, bytes_eq, has_prefix, has_suffix, contains, nat_key, bytes_key,
}

rounded_fraction-nearest_example : IsRounded 7 2 (rounded_fraction 7 2)
rounded_fraction-nearest_example = rounded_fraction-nearest 7 2 (omega arith)

abbrev inputs : Inputs
inputs = record {
  first_event_us = 1000000;
  last_event_us = 2629747000000;
  bytes_sent = pos 1073741824;
  upstream_us = some (pos 5000000);
  upstream_coverage_ppm = pos 1000000;
  monthly_hosting_kopecks = pos 90000;
  egress_kopecks_per_gib = pos 250;
}

abbrev allocation : CostAllocation
allocation = record {
  egress_kopecks = some 250;
  allocated_hosting_kopecks = some 90000;
  total_allocated_kopecks = some 90250;
}

inputs_allocated : calculate inputs ≡ ok allocation
unfolding calculate allocate egress_of hosting_of allocate_hosting rounded_fraction window_seconds
    total_of
inputs_allocated = refl

calculate-total_example :
    allocation.total_allocated_kopecks
    ≡ sum_of allocation.egress_kopecks allocation.allocated_hosting_kopecks
calculate-total_example = calculate-total inputs allocation inputs_allocated

abbrev started : Detector
started = fresh_detector config baseline state

started_ok : new_detector config digest baseline state ≡ ok started
unfolding new_detector start_checks validate_settings validate_detection check_ranges
    detection_relations validate_action action_relations validate_unique validate_state site_matches
    lower_digest bytes_eq validate_rules validate_rule valid_method valid_actionable has_prefix
    contains any_excluded action_excluded overlaps_any rule_path_matches has_suffix
started_ok = refl

new_detector-IsStarted_example : IsStarted started
new_detector-IsStarted_example =
    new_detector-IsStarted config digest baseline state started started_ok

abbrev later : Detector
later = mark_applied (observe short_hash started request (pos 1002000000)).0 1003000000

started_later : Reaches short_hash started later
started_later =
    let read = (observe short_hash started request (pos 1002000000)).0 in
    then_step started read later
      (then_step started started read (here started) (observed started request (pos 1002000000)))
      (marked read 1003000000)

new_detector-IsRunning_example : IsRunning later
new_detector-IsRunning_example =
    new_detector-IsRunning short_hash config digest baseline state started later started_ok
      started_later
