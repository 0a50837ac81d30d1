-- ===== src/Protect/Config/Bounds.antt =====
-- What a validated config guarantees to the detector.
use crawlledger.Protect.Config.{
  Config, Check, check_ranges, detection_relations, detection_checks, validate_detection,
  action_checks, action_relations, validate_action, validate_settings,
}
use crawlledger.Base.{
  ◌+◌, ◌*◌, ◌/◌, ◌%◌, ◌≤◌, ◌<◌, ◌≡◌, List, [], ◌∷◌, arith, ok, >>=-eq-ok, All, div_test, nat_key,
  bytes_key,
}

abbrev InRange : Check → Type 0
InRange c = (c.minimum ≤ c.value) × (c.value ≤ c.maximum)

check_ranges-InRange : (cs : List Check) → check_ranges cs ≡ ok tt → All InRange cs
unfolding check_ranges
check_ranges-InRange [] h = tt
check_ranges-InRange (c ∷ cs) h = ground (arith, check_ranges-InRange cs)

-- What the windows of the detector rest on.
pub record IsSound (c : Config) : Type 0 where
  pub interval_pos : 0 < c.detection.evaluation_interval_seconds
  pub divides : c.detection.window_seconds % c.detection.evaluation_interval_seconds ≡ 0
  pub consecutive_pos : 0 < c.detection.required_consecutive_evaluations
  pub multiplier_pos : 0 < c.detection.baseline_multiplier
  pub window_range : (10 ≤ c.detection.window_seconds) × (c.detection.window_seconds ≤ 300)
  pub interval_range : c.detection.evaluation_interval_seconds ≤ 60
  pub capacity :
      c.detection.max_tracked_groups
        * (c.detection.window_seconds / c.detection.evaluation_interval_seconds + 1)
      ≤ 100000
  pub clients : c.detection.distributed_min_clients ≤ c.detection.distributed_min_requests

detection_relations-IsSound :
    (c : Config)
    → All InRange (detection_checks c)
    → detection_relations c.detection ≡ ok tt
    → IsSound c
unfolding detection_relations
detection_relations-IsSound c ranges h =
    let d = c.detection in
    let room =
      div_test d.max_tracked_groups (d.window_seconds / d.evaluation_interval_seconds + 1) 100000
        (omega arith) in
    record {
      interval_pos = omega arith;
      divides = ground arith;
      consecutive_pos = omega arith;
      multiplier_pos = omega arith;
      window_range = omega arith;
      interval_range = omega arith;
      capacity = ground (arith, room);
      clients = ground arith;
    }

-- A validated config has a positive interval that divides its window of 10 to 300 seconds, and
-- room for at most 100000 buckets over all tracked groups.
pub validate_detection-IsSound : (c : Config) → validate_detection c ≡ ok tt → IsSound c
unfolding validate_detection
validate_detection-IsSound c h =
    let (_, ranges, relations) =
      >>=-eq-ok (check_ranges (detection_checks c)) (λ _. detection_relations c.detection) h in
    detection_relations-IsSound c (check_ranges-InRange (detection_checks c) ranges) relations

-- What the rules rest on besides.
pub record IsReadyConfig (c : Config) : Type 0 where
  pub sound : IsSound c
  pub ttl_pos : 0 < c.action.ttl_seconds
  pub ttl_covers : c.detection.window_seconds ≤ c.action.ttl_seconds
  pub rules_limit : (1 ≤ c.action.max_active_rules) × (c.action.max_active_rules ≤ 128)

action_relations-covers :
    (c : Config) → action_relations c ≡ ok tt → c.detection.window_seconds ≤ c.action.ttl_seconds
unfolding action_relations
action_relations-covers c h = ground arith

pub validate_settings-IsReadyConfig : (c : Config) → validate_settings c ≡ ok tt → IsReadyConfig c
unfolding validate_settings validate_action
validate_settings-IsReadyConfig c h =
    let (_, detection, rest) = >>=-eq-ok (validate_detection c) _ h in
    let (_, action, others) = >>=-eq-ok (validate_action c) _ rest in
    let (_, checked, related) =
      >>=-eq-ok (check_ranges (action_checks c.action)) (λ _. action_relations c) action in
    let ranges = check_ranges-InRange (action_checks c.action) checked in
    record {
      sound = validate_detection-IsSound c detection;
      ttl_pos = omega arith;
      ttl_covers = action_relations-covers c related;
      rules_limit = omega arith;
    }
