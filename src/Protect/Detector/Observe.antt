-- ===== src/Protect/Detector/Observe.antt =====
-- `Observe` and what it calls. `sha64` is the prefix of SHA-256 that the sketch of clients takes.
pub mod Outcomes
pub mod Counts
use crawlledger.Domain.Event.{Event, time_of}
use crawlledger.Domain.Text.{valid_method, valid_actionable}
use crawlledger.Aggregate.Sketch
use crawlledger.Protect.Config.{Config}
use crawlledger.Protect.State.{ApplyRule}
use crawlledger.Protect.Detector.Accounting.{Accounting, classify_accounting, valid_observed_status}
use crawlledger.Protect.Detector.Health.{record_health}
use crawlledger.Protect.Detector.Paths.{rule_path_matches, action_excluded}
use crawlledger.Protect.Detector.Buckets.{Buckets, bucket_end, add_bucket_count}
use crawlledger.Protect.Detector.Types.{
  ProtectionRecord, Reason, no_reason, invalid_time, future, stale, invalid_status,
  counter_overflow, ObserveResult, RejectedRecordCounts, Metrics, no_metrics, TrackedGroup,
  Detector, action_key, microseconds,
}
use crawlledger.Base.{
  at_most_zero, ℕ, ◌+◌, ◌-◌, max, Bool, true, false, not, ◌&&◌, ◌||◌, Option, none, some, List, [],
  ◌∷◌, ◌++◌, ltb, leb, ◌==◌, if◌then◌else◌, length, ℤ, pos_part, max_int64, Bytes, bytes, bytes_eq,
  Assoc, lookup, insert, nat_key, bytes_key,
}

-- `incrementRejected`
abbrev pub increment_rejected : ℕ → ℕ
increment_rejected n = if ltb n max_int64 then n + 1 else n

abbrev pub rejection : Bool → Reason → ObserveResult
rejection fresh reason = record { fresh = fresh; candidate = false; reason = reason }

unfoldable pub count_rejected : Reason → RejectedRecordCounts → RejectedRecordCounts
count_rejected no_reason c = c
count_rejected invalid_time c = record c { record_content = increment_rejected c.record_content }
count_rejected future c = record c { future = increment_rejected c.future }
count_rejected stale c = record c { stale = increment_rejected c.stale }
count_rejected invalid_status c = record c { invalid_status = increment_rejected c.invalid_status }
count_rejected counter_overflow c = record c {
  counter_overflow = increment_rejected c.counter_overflow;
}

abbrev pub reject : Detector → Bool → Reason → Detector × ObserveResult
reject d fresh reason = (
  record d { rejected_records = count_rejected reason d.rejected_records },
  rejection fresh reason,
)

same_path : Option Bytes → Bytes → Bool
same_path none uri = false
same_path (some path) uri = bytes_eq path uri

safe_prefix : Config → Bytes → Option Bytes → Bool
safe_prefix config method none = false
safe_prefix config method (some prefix) =
    valid_actionable prefix && not (action_excluded config method prefix)

unfoldable pub candidate_safe : Config → ProtectionRecord → Bool
unfolding same_path safe_prefix
candidate_safe config r =
    same_path r.canonical_path r.nginx_uri
    && not (length r.event.client_key == 0)
    && valid_method r.event.method
    && safe_prefix config r.event.method r.event.actionable_prefix

-- kind + "\x00" + method + "\x00" + path
unfoldable pub group_key : Bytes → Bytes → Bytes → Bytes
unfolding action_key
group_key kind method path = kind ++ (0 ∷ action_key method path)

abbrev pub new_group : Bytes → Bytes → Bytes → Bytes → TrackedGroup
new_group kind method path path_prefix = record {
  kind = kind;
  method = method;
  path = path;
  path_prefix = path_prefix;
  unsafe = false;
  consecutive = 0;
  buckets = [];
}

-- The group of a key, registered if there is room; `none` at the capacity.
unfoldable pub register_group :
    Detector → Bytes → Bytes → Bytes → Bytes → Detector × Option TrackedGroup
register_group d kind method path path_prefix =
    let key = group_key kind method path in
    let fresh = new_group kind method path path_prefix in
    elim (lookup key d.groups) [
      | some g ↦ (d, some g)
      | none ↦
          if leb d.config.detection.max_tracked_groups (length d.groups)
          then (record d { capacity_since_evaluation = true }, none)
          else (record d { groups = insert key fresh d.groups }, some fresh)
    ]

unfoldable pub store_group : Detector → Bytes → TrackedGroup → Detector
store_group d key g = record d { groups = insert key g d.groups }

-- A shape that shows under another prefix is unsafe.
unfoldable pub mark_shape : Bytes → Option TrackedGroup → Option TrackedGroup
mark_shape prefix none = none
mark_shape prefix (some g) =
    some (record g { unsafe = g.unsafe || not (bytes_eq g.path_prefix prefix) })

or_no_metrics : Option Metrics → Metrics
or_no_metrics none = no_metrics
or_no_metrics (some m) = m

-- The upstream part of an observation; the flag is false where a counter would overflow.
unfoldable pub add_upstream : Metrics → Option ℕ → Metrics × Bool
add_upstream m none = (m, true)
add_upstream m (some duration) =
    if m.upstream_samples == max_int64 || ltb (max_int64 - m.upstream_duration_us) duration
    then (m, false)
    else (
      record m {
        upstream_samples = m.upstream_samples + 1;
        upstream_duration_us = m.upstream_duration_us + duration;
      },
      true,
    )

module _ (sha64 : Bytes → ℕ) where
  unfoldable pub add_metrics : Metrics → Event → Metrics × Bool
  unfolding add_upstream
  add_metrics m event =
      if m.requests == max_int64
      then (m, false)
      else add_upstream
          (record m {
            requests = m.requests + 1;
            clients = Sketch.add sha64 event.client_key m.clients;
          })
          event.upstream_duration_us

  -- The metrics of the bucket are in the map even where a counter overflows.
  unfoldable pub add_group_observation : TrackedGroup → ℕ → Event → TrackedGroup × Bool
  unfolding add_metrics or_no_metrics
  add_group_observation g bucket event =
      let (m, fits) = add_metrics (or_no_metrics (lookup bucket g.buckets)) event in
      (record g { buckets = insert bucket m g.buckets }, fits)

  -- One group of a candidate, written back under its key. What overflows makes it unsafe.
  unfoldable pub observe_group :
      Detector → Bytes → Option TrackedGroup → ℕ → Event → Detector × Bool
  unfolding store_group
  observe_group d key none bucket event = (d, true)
  observe_group d key (some g) bucket event =
      let (g', fits) = add_group_observation g bucket event in
      (store_group d key (record g' { unsafe = g'.unsafe || not fits }), fits)

  unfoldable pub observe_volume : Detector → Event → Bytes → ℕ → Detector × Bool
  observe_volume d event prefix bucket =
      let (d', g) = register_group d (bytes "volume") event.method prefix prefix in
      observe_group d' (group_key (bytes "volume") event.method prefix) g bucket event

  unfoldable pub observe_shape : Detector → Event → Bytes → ℕ → Detector × Bool
  observe_shape d event prefix bucket =
      let (d', g) = register_group d (bytes "shape") event.method event.route prefix in
      observe_group d' (group_key (bytes "shape") event.method event.route) (mark_shape prefix g)
        bucket event

  unfoldable pub observe_candidate : Detector → Event → Bytes → ℕ → Detector × Bool
  observe_candidate d event prefix bucket =
      let (d', fits) = observe_volume d event prefix bucket in
      if not fits then (d', false) else observe_shape d' event prefix bucket

or_unchanged : Buckets → Option Buckets → Buckets
or_unchanged m none = m
or_unchanged m (some changed) = changed

abbrev pub or_no_buckets : Option Buckets → Buckets
or_no_buckets none = []
or_no_buckets (some m) = m

unfoldable pub record_attempt : Assoc Bytes Buckets → Bytes → ℕ → Assoc Bytes Buckets
unfolding or_unchanged
record_attempt attempts key bucket =
    let m = or_no_buckets (lookup key attempts) in
    insert key (or_unchanged m (add_bucket_count m bucket 1)) attempts

-- The loop of `observeRefresh` over the applied rules.
unfoldable pub observe_refresh :
    List ApplyRule → ProtectionRecord → ℕ → Assoc Bytes Buckets → Assoc Bytes Buckets
unfolding record_attempt
observe_refresh [] r bucket attempts = attempts
observe_refresh (rule ∷ rules) r bucket attempts = observe_refresh rules r bucket (
    if not (bytes_eq rule.method r.event.method)
      || not (rule_path_matches rule.path_prefix r.nginx_uri)
    then attempts
    else record_attempt attempts (action_key rule.method rule.path_prefix) bucket)

abbrev or_no_bytes : Option Bytes → Bytes
or_no_bytes none = []
or_no_bytes (some b) = b

unfoldable pub count_site : Detector → ℕ → Bool → Option Detector
count_site d bucket false = some d
count_site d bucket true = elim (add_bucket_count d.site_buckets bucket 1) [
  | none ↦ none
  | some site ↦ some (record d { site_buckets = site })
]

module _ (sha64 : Bytes → ℕ) where
  unfoldable pub observe_eligible :
      Detector → ProtectionRecord → ℕ → Bool → Detector × ObserveResult
  observe_eligible d r bucket eligible =
      if not (eligible && candidate_safe d.config r)
      then (d, rejection true no_reason)
      else let (d', fits) =
          observe_candidate sha64 d r.event (or_no_bytes r.event.actionable_prefix) bucket in
        if fits
        then (d', record { fresh = true; candidate = true; reason = no_reason })
        else reject d' true counter_overflow

  -- What follows the count of the site.
  unfoldable pub observe_counted :
      Detector → ProtectionRecord → ℕ → Accounting → Detector × ObserveResult
  observe_counted d r bucket accounting =
      let attempts = observe_refresh d.applied_rules r bucket d.attempt_buckets in
      let refreshed = if accounting.refresh then record d { attempt_buckets = attempts } else d in
      observe_eligible refreshed r bucket accounting.candidate

  -- What follows the tests of a record.
  unfoldable pub observe_fresh : Detector → ProtectionRecord → Detector × ObserveResult
  observe_fresh d r =
      let fresh = record d { fresh_since_evaluation = true } in
      let accounting = classify_accounting r.event.status r.limit_req_status in
      let bucket =
        bucket_end (microseconds d.config.detection.evaluation_interval_seconds)
          (time_of r.event) in
      elim (count_site fresh bucket accounting.denominator) [
        | none ↦ reject fresh true counter_overflow
        | some counted ↦ observe_counted counted r bucket accounting
      ]

  -- The times are positive behind the first test.
  unfoldable pub observe : Detector → ProtectionRecord → ℤ → Detector × ObserveResult
  observe d r receipt_us =
      let t = time_of r.event in
      let lag_us = pos_part receipt_us - t in
      let max_lag_us = microseconds d.config.detection.max_event_lag_seconds in
      let window_us = microseconds d.config.detection.window_seconds in
      let read = record d { data_since_evaluation = true; health = record_health d.health false } in
      let timed = record read { max_event_lag_us = max d.max_event_lag_us lag_us } in
      if at_most_zero receipt_us || at_most_zero r.event.timestamp_us
      then reject read false invalid_time
      else if ltb (pos_part receipt_us) t
      then reject read false future
      else if ltb max_lag_us lag_us || leb window_us lag_us
      then reject timed false stale
      else if not (valid_observed_status r.event.status r.limit_req_status)
      then reject timed false invalid_status
      else observe_fresh timed r

-- `ObserveError`; the class is whether the structure of the sensor's record is wrong.
unfoldable pub observe_error : Detector → Bool → Bool → Detector
observe_error d structure non_empty =
    let c = d.rejected_records in
    let counted =
      if structure
      then record c { sensor_structure = increment_rejected c.sensor_structure }
      else record c { record_content = increment_rejected c.record_content } in
    let read = record d { data_since_evaluation = true; rejected_records = counted } in
    if not non_empty then read else record read { health = record_health d.health structure }
