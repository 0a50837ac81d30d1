-- ===== src/Examples/Detections.antt =====
-- The detector and its state at concrete inputs.
use crawlledger.Domain.Text.{site_matches, lower_digest, valid_method, valid_actionable}
use crawlledger.Domain.Event.{unknown, unclassified}
use crawlledger.Protect.Config.{Config, check_ranges, detection_relations, validate_detection}
use crawlledger.Protect.Config.Bounds.{IsSound, validate_detection-IsSound}
use crawlledger.Protect.State.{
  State, ApplyPayload, extreme_volume, validate_state, validate_rules, validate_rule, project_state,
  validate_payload,
}
use crawlledger.Protect.State.Order.{project_state-validate_payload}
use crawlledger.Protect.Baseline.Series.{Baseline, p99_of, prefix_request_threshold}
use crawlledger.Protect.Baseline.Threshold.{effective_threshold}
use crawlledger.Protect.Detector.Accounting.{
  classify_accounting, valid_observed_status, CountsFor, classify_accounting-valid,
}
use crawlledger.Protect.Detector.Health.{
  healthy, record_all, sensor_suspended, count_true, record_all-window,
}
use crawlledger.Protect.Detector.Paths.{rule_path_matches, IsSegmentRest, rule_path_matches_iff}
use crawlledger.Protect.Detector.Buckets.{
  Buckets, bucket_end, in_window, sum_counts, total_of, sum_counts-exact, in_window-bucket_end,
}
use crawlledger.Protect.Detector.Types.{
  ProtectionRecord, Detector, TrackedGroup, no_rejections, no_metrics,
}
use crawlledger.Protect.Detector.Observe.{observe}
use crawlledger.Protect.Detector.Observe.Outcomes.{Keeps, observe-Keeps}
use crawlledger.Protect.Detector.Observe.Counts.{is_taken, Observed, observe-Observed}
use crawlledger.Protect.Detector.Groups.{
  GroupThresholds, qualification_of, Evaluated, decide_group, evaluate_groups, evaluate_entries,
  judge_group, sum_group, group_qualified, volume_qualified,
}
use crawlledger.Protect.Detector.Groups.Streak.{
  Judgement, verdict_on, group_after, decide_group-all_pass,
}
use crawlledger.Protect.Detector.Groups.Verdicts.{evaluate_groups-not_allowed}
use crawlledger.Base.{
  ℕ, ◌+◌, ◌*◌, ◌≡◌, refl, ◌↔◌, Bool, true, false, ◌&&◌, none, some, List, [], ◌∷◌, ◌++◌, arith, ltb,
  leb, if◌then◌else◌, ok, length, take, replicate, pos, max_int64, Bytes, bytes, bytes_eq,
  has_prefix, contains, lookup, sort_by, nat_key, bytes_key,
}

abbrev pub config : Config
config = record {
  site = bytes "example";
  max_log_line_bytes = 65536;
  detection = record {
    window_seconds = 60;
    evaluation_interval_seconds = 10;
    required_consecutive_evaluations = 2;
    max_event_lag_seconds = 120;
    baseline_multiplier = 5;
    volume_min_requests = 100;
    volume_min_site_share_ppm = 200000;
    distributed_min_requests = 100;
    distributed_min_clients = 50;
    distributed_min_client_ratio_ppm = 500000;
    distributed_min_upstream_coverage_ppm = 800000;
    distributed_min_upstream_us = 1000000;
    distributed_min_average_upstream_us = 50000;
    max_tracked_groups = 1000;
  };
  action = record {
    ttl_seconds = 600;
    rate_requests_per_second = 10;
    burst = 20;
    max_active_rules = 16;
    min_reload_interval_seconds = 5;
  };
  exclusions = record { methods = []; path_prefixes = [] };
}

config_validated : validate_detection config ≡ ok tt
unfolding validate_detection check_ranges detection_relations
config_validated = refl

validate_detection-IsSound_example : IsSound config
validate_detection-IsSound_example = validate_detection-IsSound config config_validated

abbrev rejected : Bytes
rejected = bytes "REJECTED"

rejected_valid : valid_observed_status 429 rejected ≡ true
unfolding valid_observed_status bytes_eq
rejected_valid = refl

classify_accounting-valid_example : CountsFor 429 rejected (classify_accounting 429 rejected)
classify_accounting-valid_example = classify_accounting-valid 429 rejected rejected_valid

abbrev readings : List Bool
readings = replicate 12 true ++ replicate 95 false

record_all-window_example :
    ((record_all readings).structure_errors ≡ count_true (take 100 readings))
    × (sensor_suspended (record_all readings)
        ≡ (leb 100 (length readings) && ltb 10 (count_true (take 100 readings))))
record_all-window_example = record_all-window readings

rule_path_matches_iff_example : (rule_path_matches (bytes "/shop") (bytes "/shop/item") ≡ true) ↔ (
    (rest : Bytes) × (bytes "/shop/item" ≡ bytes "/shop" ++ rest)
    × IsSegmentRest (bytes "/shop") rest)
rule_path_matches_iff_example = rule_path_matches_iff (bytes "/shop") (bytes "/shop/item")

abbrev counters : Buckets
counters = (10000000, 5) ∷ (20000000, 7) ∷ []

sum_counts-exact_example :
    sum_counts counters
    ≡ (if leb (total_of counters) max_int64 then some (total_of counters) else none)
sum_counts-exact_example = sum_counts-exact counters

in_window-bucket_end_example :
    in_window (6 * 10000000) (8 * 10000000) (bucket_end 10000000 12345678)
    ≡ (ltb (8 * 10000000) (12345678 + 6 * 10000000) && leb 12345678 (8 * 10000000))
in_window-bucket_end_example =
    in_window-bucket_end 10000000 12345678 6 8 (omega arith) (omega arith)

abbrev pub digest : Bytes
digest = replicate 64 48

abbrev pub state : State
state = record {
  schema_version = 1;
  site = bytes "example";
  config_sha256 = digest;
  baseline_manifest_sha256 = some digest;
  rules =
      record {
        method = bytes "GET";
        path_prefix = bytes "/shop";
        reasons = extreme_volume ∷ [];
        request_threshold = 300;
        first_qualified_at_us = 10000000;
        last_qualified_at_us = 20000000;
        expires_at_us = 620000000;
      }
      ∷ [];
}

abbrev payload : ApplyPayload
payload = record {
  schema_version = 1;
  site = bytes "example";
  rules = record { method = bytes "GET"; path_prefix = bytes "/shop" } ∷ [];
}

projected : project_state state ≡ ok payload
unfolding project_state validate_state site_matches lower_digest bytes_eq validate_rules
    validate_rule valid_method valid_actionable has_prefix contains
projected = refl

project_state-validate_payload_example : validate_payload payload ≡ true
project_state-validate_payload_example = project_state-validate_payload state payload projected

abbrev pub baseline : Baseline
baseline = record {
  manifest_sha256 = digest;
  complete_start_us = 60000000;
  complete_end_us = 86460000000;
  complete_minutes = 1440;
  eligible = true;
  ineligibility_reasons = [];
  prefix_requests = [];
  route_requests = [];
  route_upstream = [];
}

abbrev group : TrackedGroup
group = record {
  kind = bytes "volume";
  method = bytes "GET";
  path = bytes "/shop";
  path_prefix = bytes "/shop";
  unsafe = false;
  consecutive = 1;
  buckets = [];
}

abbrev thresholds : GroupThresholds
thresholds = record { request = 300; upstream = 0; baseline_requests = 60; baseline_upstream = 0 }

-- Two evaluations in a row are required. The group is uncounted before them.
abbrev passing : Judgement
passing = record {
  allowed = true;
  unsafe = false;
  qualified = true;
  site_requests = 900;
  metrics = no_metrics;
  thresholds = thresholds;
}

abbrev uncounted : TrackedGroup
uncounted = record group { consecutive = 0 }

decide_group-all_pass_example :
    (verdict_on config (group_after config uncounted (passing ∷ [])) passing).qualifications
    ≡ qualification_of uncounted thresholds ∷ []
decide_group-all_pass_example =
    decide_group-all_pass config uncounted passing (passing ∷ []) refl (omega arith)

abbrev pub detector : Detector
detector = record {
  config = config;
  baseline = baseline;
  state = state;
  groups = [];
  site_buckets = [];
  attempt_buckets = [];
  health = healthy;
  data_since_evaluation = false;
  fresh_since_evaluation = false;
  capacity_since_evaluation = false;
  max_event_lag_us = 0;
  rejected_records = no_rejections;
  last_evaluation_us = 0;
  last_applied_us = 0;
  applied_rules = [];
}

abbrev pub request : ProtectionRecord
request = record {
  event = record {
    timestamp_us = pos 1000000000;
    client_key = bytes "c1";
    method = bytes "GET";
    route = bytes "/shop/:id";
    actionable_prefix = some (bytes "/shop");
    url_fingerprint = digest;
    query_keys = [];
    query_fingerprint = none;
    status = 200;
    bytes_sent = 512;
    request_duration_us = none;
    upstream_duration_us = some 1500;
    cache_state = unknown;
    ua_hash = digest;
    claim = none;
    referer_host = none;
    security_probe_ids = [];
    robots_allowed = none;
    primary_class = unclassified;
  };
  canonical_path = some (bytes "/shop/7");
  nginx_uri = bytes "/shop/7";
  limit_req_status = bytes "PASSED";
}

-- A stand-in for the prefix of SHA-256.
abbrev pub short_hash : Bytes → ℕ
short_hash = length

observe-Keeps_example : Keeps detector (observe short_hash detector request (pos 1002000000)).0
observe-Keeps_example = observe-Keeps short_hash detector request (pos 1002000000)

observe-Observed_example :
    Observed
      (is_taken detector request (pos 1002000000))
      detector
      request
      (observe short_hash detector request (pos 1002000000)).0
observe-Observed_example = observe-Observed short_hash detector request (pos 1002000000)

abbrev watching : Detector
watching = record detector { groups = (bytes "volume GET /shop", group) ∷ [] }

abbrev nothing : Evaluated
nothing = record { events = []; qualifications = [] }

watching_suspended : (evaluate_groups watching false).1 ≡ ok nothing
unfolding evaluate_groups evaluate_entries sum_counts sort_by judge_group sum_group group_qualified
    bytes_eq volume_qualified prefix_request_threshold effective_threshold p99_of lookup
    decide_group
watching_suspended = refl

evaluate_groups-not_allowed_example : nothing.qualifications ≡ []
evaluate_groups-not_allowed_example =
    evaluate_groups-not_allowed watching nothing watching_suspended
