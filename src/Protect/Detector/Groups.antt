-- ===== src/Protect/Detector/Groups.antt =====
-- `prune`, `evaluateGroups` and what they call.
pub mod Verdicts
pub mod Streak
use crawlledger.Aggregate.Sketch
use crawlledger.Protect.Compare.{ratio_at_least, product_at_least}
use crawlledger.Protect.Config.{Config}
use crawlledger.Protect.State.{extreme_volume, distributed_expense}
use crawlledger.Protect.Baseline.Threshold.{ThresholdError}
use crawlledger.Protect.Baseline.Series.{
  Baseline, p99_of, prefix_request_threshold, route_request_threshold, route_upstream_threshold,
}
use crawlledger.Protect.Detector.Buckets.{Buckets, in_window, prune_counts, sum_counts}
use crawlledger.Protect.Detector.Types.{
  EventKind, candidate, DetectorEvent, Metrics, no_metrics, TrackedGroup, Detector, DetectorError,
  rolling_counter, group_counter, threshold, microseconds,
}
use crawlledger.Base.{
  ℕ, ◌+◌, ◌-◌, Bool, not, ◌&&◌, ◌||◌, none, some, List, [], ◌∷◌, ◌++◌, ltb, leb, ◌==◌,
  if◌then◌else◌, Result, ok, err, ◌>>=◌, ◌>>◌, length, pos, max_int64, Bytes, bytes, bytes_eq,
  bytes_lt, Assoc, sort_by, keep_keys, nat_key, bytes_key,
}

unfoldable pub prune_groups : ℕ → ℕ → Assoc Bytes TrackedGroup → Assoc Bytes TrackedGroup
prune_groups window_us evaluation_us [] = []
prune_groups window_us evaluation_us ((key, g) ∷ m) =
    let kept = keep_keys (in_window window_us evaluation_us) g.buckets in
    let rest = prune_groups window_us evaluation_us m in
    if length kept == 0 then rest else (key, record g { buckets = kept }) ∷ rest

unfoldable pub prune_attempts : ℕ → ℕ → Assoc Bytes Buckets → Assoc Bytes Buckets
prune_attempts window_us evaluation_us [] = []
prune_attempts window_us evaluation_us ((key, buckets) ∷ m) =
    let kept = prune_counts window_us evaluation_us buckets in
    let rest = prune_attempts window_us evaluation_us m in
    if length kept == 0 then rest else (key, kept) ∷ rest

unfoldable pub prune : Detector → ℕ → Detector
unfolding prune_groups prune_attempts
prune d evaluation_us =
    let window_us = microseconds d.config.detection.window_seconds in
    record d {
      site_buckets = prune_counts window_us evaluation_us d.site_buckets;
      groups = prune_groups window_us evaluation_us d.groups;
      attempt_buckets = prune_attempts window_us evaluation_us d.attempt_buckets;
    }

-- The loop of `sumGroup`.
unfoldable pub sum_metrics : Metrics → Assoc ℕ Metrics → Result DetectorError Metrics
sum_metrics total [] = ok total
sum_metrics total ((b, m) ∷ rest) =
    let more =
      sum_metrics
        (record {
          requests = total.requests + m.requests;
          upstream_samples = total.upstream_samples + m.upstream_samples;
          upstream_duration_us = total.upstream_duration_us + m.upstream_duration_us;
          clients = Sketch.merge total.clients m.clients;
        })
        rest in
    if ltb (max_int64 - total.requests) m.requests
      || ltb (max_int64 - total.upstream_samples) m.upstream_samples
      || ltb (max_int64 - total.upstream_duration_us) m.upstream_duration_us
    then err group_counter
    else more

unfoldable pub sum_group : TrackedGroup → Result DetectorError Metrics
unfolding sum_metrics
sum_group g = sum_metrics no_metrics g.buckets

pub record GroupThresholds : Type 0 where
  pub request : ℕ
  pub upstream : ℕ
  pub baseline_requests : ℕ
  pub baseline_upstream : ℕ

unfoldable pub is_volume : TrackedGroup → Bool
is_volume g = bytes_eq g.kind (bytes "volume")

abbrev or_threshold : {A : Type 0} → Result ThresholdError A → Result DetectorError A
or_threshold (ok a) = ok a
or_threshold (err e) = err (threshold e)

-- The tests of a volume group.
unfoldable pub volume_qualifies : Config → Metrics → ℕ → ℕ → Bool
volume_qualifies c m site_requests request_threshold =
    leb request_threshold m.requests
    && ratio_at_least (pos m.requests) (pos site_requests)
        (pos c.detection.volume_min_site_share_ppm)

-- The tests of a shape group.
unfoldable pub shape_qualifies : Config → Metrics → ℕ → ℕ → Bool
shape_qualifies c m request_threshold upstream_threshold =
    let d = c.detection in
    let clients = Sketch.conservative m.clients m.requests in
    leb request_threshold m.requests
    && leb d.distributed_min_clients clients
    && ratio_at_least (pos clients) (pos m.requests) (pos d.distributed_min_client_ratio_ppm)
    && ratio_at_least (pos m.upstream_samples) (pos m.requests)
        (pos d.distributed_min_upstream_coverage_ppm)
    && leb upstream_threshold m.upstream_duration_us
    && product_at_least (pos m.upstream_duration_us) (pos 1) (pos m.upstream_samples)
        (pos d.distributed_min_average_upstream_us)

unfoldable pub volume_qualified :
    Config → Baseline → TrackedGroup → Metrics → ℕ → Result DetectorError (Bool × GroupThresholds)
volume_qualified c b g m site_requests = do
  request ← or_threshold (prefix_request_threshold b c g.method g.path)
  ok (
    volume_qualifies c m site_requests request,
    record {
      request = request;
      upstream = 0;
      baseline_requests = p99_of b.prefix_requests g.method g.path;
      baseline_upstream = 0;
    },
  )

unfoldable pub shape_qualified :
    Config → Baseline → TrackedGroup → Metrics → Result DetectorError (Bool × GroupThresholds)
shape_qualified c b g m = do
  request ← or_threshold (route_request_threshold b c g.method g.path)
  upstream ← or_threshold (route_upstream_threshold b c g.method g.path)
  ok (
    shape_qualifies c m request upstream,
    record {
      request = request;
      upstream = upstream;
      baseline_requests = p99_of b.route_requests g.method g.path;
      baseline_upstream = p99_of b.route_upstream g.method g.path;
    },
  )

unfoldable pub group_qualified :
    Config → Baseline → TrackedGroup → Metrics → ℕ → Result DetectorError (Bool × GroupThresholds)
unfolding is_volume
group_qualified c b g m site_requests =
    if is_volume g then volume_qualified c b g m site_requests else shape_qualified c b g m

unfoldable pub detector_reason : TrackedGroup → Bytes
unfolding is_volume
detector_reason g = if is_volume g then extreme_volume else distributed_expense

pub record Qualification : Type 0 where
  pub reason : Bytes
  pub method : Bytes
  pub path_prefix : Bytes
  pub request_threshold : ℕ

-- What one round of the loop over the groups leaves: the group, its events, its qualification.
pub record Verdict : Type 0 where
  pub group : TrackedGroup
  pub events : List DetectorEvent
  pub qualifications : List Qualification

abbrev pub candidate_event : TrackedGroup → Metrics → ℕ → GroupThresholds → DetectorEvent
candidate_event g m site_requests t = record {
  kind = candidate;
  detector = detector_reason g;
  method = g.method;
  path_prefix = g.path_prefix;
  requests = m.requests;
  site_requests = site_requests;
  distinct_clients = Sketch.conservative m.clients m.requests;
  upstream_samples = m.upstream_samples;
  upstream_duration_us = m.upstream_duration_us;
  baseline_requests = t.baseline_requests;
  baseline_upstream_us = t.baseline_upstream;
  request_threshold = t.request;
  upstream_threshold = t.upstream;
  expires_at_us = 0;
}

abbrev pub qualification_of : TrackedGroup → GroupThresholds → Qualification
qualification_of g t = record {
  reason = detector_reason g;
  method = g.method;
  path_prefix = g.path_prefix;
  request_threshold = t.request;
}

unfoldable pub decide_group :
    Config → Bool → ℕ → TrackedGroup → Metrics → Bool → GroupThresholds → Verdict
decide_group c allowed site_requests g m qualified t =
    if not allowed || not qualified || g.unsafe
    then record { group = record g { consecutive = 0 }; events = []; qualifications = [] }
    else let counted = record g { consecutive = g.consecutive + 1 } in
      record {
        group = counted;
        events = candidate_event g m site_requests t ∷ [];
        qualifications =
            if ltb counted.consecutive c.detection.required_consecutive_evaluations
            then []
            else qualification_of g t ∷ [];
      }

unfoldable pub judge_group :
    Config → Baseline → Bool → ℕ → TrackedGroup → Result DetectorError Verdict
judge_group c b allowed site_requests g = do
  m ← sum_group g
  q ← group_qualified c b g m site_requests
  ok (decide_group c allowed site_requests g m q.0 q.1)

pub record Evaluated : Type 0 where
  pub events : List DetectorEvent
  pub qualifications : List Qualification

prepend : Verdict → Result DetectorError Evaluated → Result DetectorError Evaluated
prepend v (err e) = err e
prepend v (ok r) = ok (record {
  events = v.events ++ r.events;
  qualifications = v.qualifications ++ r.qualifications;
})

-- The loop over the groups in the order of their keys. An error leaves the groups that were
-- visited changed and the others as they are.
unfoldable pub evaluate_entries :
    Config
    → Baseline
    → Bool
    → ℕ
    → Assoc Bytes TrackedGroup
    → Assoc Bytes TrackedGroup × Result DetectorError Evaluated
unfolding prepend
evaluate_entries c b allowed site_requests [] =
    ([], ok (record { events = []; qualifications = [] }))
evaluate_entries c b allowed site_requests ((key, g) ∷ rest) =
    let more = evaluate_entries c b allowed site_requests rest in
    elim (judge_group c b allowed site_requests g) [
      | err e ↦ ((key, g) ∷ rest, err e)
      | ok v ↦ ((key, v.group) ∷ more.0, prepend v more.1)
    ]

key_less : Bytes × TrackedGroup → Bytes × TrackedGroup → Bool
key_less (a, g) (b, h) = bytes_lt a b

unfoldable pub evaluate_groups : Detector → Bool → Detector × Result DetectorError Evaluated
unfolding key_less
evaluate_groups d allowed = elim (sum_counts d.site_buckets) [
  | none ↦ (d, err rolling_counter)
  | some site_requests ↦
      let (groups, r) =
        evaluate_entries d.config d.baseline allowed site_requests (sort_by key_less d.groups) in
      (record d { groups = groups }, r)
]
