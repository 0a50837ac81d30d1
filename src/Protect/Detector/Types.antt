-- ===== src/Protect/Detector/Types.antt =====
-- The records of the detector. The pointers in its maps of groups are values here: an operation
-- that changes a group writes it back. The copies that `cloneState` makes are the values.
use crawlledger.Domain.Event.{Event}
use crawlledger.Aggregate.Sketch.{Sketch}
use crawlledger.Aggregate.Sketch
use crawlledger.Protect.Config.{Config}
use crawlledger.Protect.State.{State, StateError, ApplyRule}
use crawlledger.Protect.Baseline.Series.{Baseline}
use crawlledger.Protect.Baseline.Threshold.{ThresholdError}
use crawlledger.Protect.Detector.Health.{Health}
use crawlledger.Protect.Detector.Buckets.{Buckets}
use crawlledger.Base.{ℕ, ◌*◌, Bool, Option, List, [], ◌∷◌, ◌++◌, Bytes, Assoc, nat_key, bytes_key}

pub record ProtectionRecord : Type 0 where
  pub event : Event
  pub canonical_path : Option Bytes
  pub nginx_uri : Bytes
  pub limit_req_status : Bytes

pub data Reason : Type 0 where
  no_reason invalid_time future stale invalid_status counter_overflow : Reason

pub record ObserveResult : Type 0 where
  pub fresh : Bool
  pub candidate : Bool
  pub reason : Reason

pub data EventKind : Type 0 where
  detection_suspended capacity_reached candidate activated refreshed expired : EventKind

pub record DetectorEvent : Type 0 where
  pub kind : EventKind
  pub detector : Bytes
  pub method : Bytes
  pub path_prefix : Bytes
  pub requests : ℕ
  pub site_requests : ℕ
  pub distinct_clients : ℕ
  pub upstream_samples : ℕ
  pub upstream_duration_us : ℕ
  pub baseline_requests : ℕ
  pub baseline_upstream_us : ℕ
  pub request_threshold : ℕ
  pub upstream_threshold : ℕ
  pub expires_at_us : ℕ

abbrev pub bare_event : EventKind → DetectorEvent
bare_event kind = record {
  kind = kind;
  detector = [];
  method = [];
  path_prefix = [];
  requests = 0;
  site_requests = 0;
  distinct_clients = 0;
  upstream_samples = 0;
  upstream_duration_us = 0;
  baseline_requests = 0;
  baseline_upstream_us = 0;
  request_threshold = 0;
  upstream_threshold = 0;
  expires_at_us = 0;
}

pub record RejectedRecordCounts : Type 0 where
  pub record_content : ℕ
  pub sensor_structure : ℕ
  pub stale : ℕ
  pub future : ℕ
  pub invalid_status : ℕ
  pub counter_overflow : ℕ

abbrev pub no_rejections : RejectedRecordCounts
no_rejections = record {
  record_content = 0;
  sensor_structure = 0;
  stale = 0;
  future = 0;
  invalid_status = 0;
  counter_overflow = 0;
}

pub record Metrics : Type 0 where
  pub requests : ℕ
  pub upstream_samples : ℕ
  pub upstream_duration_us : ℕ
  pub clients : Sketch

abbrev pub no_metrics : Metrics
no_metrics = record {
  requests = 0;
  upstream_samples = 0;
  upstream_duration_us = 0;
  clients = Sketch.empty;
}

pub record TrackedGroup : Type 0 where
  pub kind : Bytes
  pub method : Bytes
  pub path : Bytes
  pub path_prefix : Bytes
  pub unsafe : Bool
  pub consecutive : ℕ
  pub buckets : Assoc ℕ Metrics

pub record Detector : Type 0 where
  pub config : Config
  pub baseline : Baseline
  pub state : State
  pub groups : Assoc Bytes TrackedGroup
  pub site_buckets : Buckets
  pub attempt_buckets : Assoc Bytes Buckets
  pub health : Health
  pub data_since_evaluation : Bool
  pub fresh_since_evaluation : Bool
  pub capacity_since_evaluation : Bool
  pub max_event_lag_us : ℕ
  pub rejected_records : RejectedRecordCounts
  pub last_evaluation_us : ℕ
  pub last_applied_us : ℕ
  pub applied_rules : List ApplyRule

pub data DetectorError : Type 0 where
  time_must_increase time_not_aligned rolling_counter group_counter : DetectorError
  expiry_overflows : DetectorError
  threshold : ThresholdError → DetectorError
  state_invalid : StateError → DetectorError

-- method + "\x00" + pathPrefix
unfoldable pub action_key : Bytes → Bytes → Bytes
action_key method path_prefix = method ++ (0 ∷ path_prefix)

-- int64(seconds) * 1_000_000
abbrev pub microseconds : ℕ → ℕ
microseconds seconds = seconds * 1000000
