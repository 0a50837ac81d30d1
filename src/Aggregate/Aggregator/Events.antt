-- ===== src/Aggregate/Aggregator/Events.antt =====
-- aggregate/aggregator.go: New, the summary and the profiles of the rate model.
use crawlledger.Domain.Event.{time_of, Event}
use crawlledger.Aggregate.Sketch.{Sketch}
use crawlledger.Aggregate.Rate.{Profile, Bucket, allow}
use crawlledger.Aggregate.Rows.{RateImpactRow}
use crawlledger.Aggregate.MapKeys.{pair_key, class_key, cache_key, RateImpactKey}
use crawlledger.Aggregate.Counters.{
  Counted, sum_of, sum_optional, count_if, is_some, is_cache_known, RouteAccumulator,
  SubjectAccumulator, add_rate_impact,
}
use crawlledger.Aggregate.Aggregator.{Limits, Summary, Aggregator}
use crawlledger.Base.{
  ℕ, min, max, Bool, true, false, Option, none, some, List, [], ◌∷◌, if◌then◌else◌, ok, ◌>>=◌,
  Bytes, Assoc, lookup, insert, nat_key, bytes_key,
}

abbrev pub no_summary : Summary
no_summary = record {
  accepted = 0;
  bytes_sent = 0;
  request_duration_us = none;
  request_duration_samples = 0;
  upstream_duration_us = none;
  upstream_duration_samples = 0;
  cache_samples = 0;
  referer_samples = 0;
  robots_checked = 0;
  rate_modeled = 0;
  first_event_us = none;
  last_event_us = none;
  route_overflow = 0;
  ua_overflow = 0;
  subject_overflow = 0;
  order_degraded = false;
}

unfoldable pub new_aggregator : Limits → Aggregator
new_aggregator limits = record {
  limits = limits;
  ids = record {
    routes = [];
    uas = [];
    unclaimed_uas = 0;
    route_overflow_id = 0;
    ua_overflow_id = 0;
    next_route_id = 1;
    next_ua_id = 1;
    new_routes = [];
    new_uas = [];
  };
  cells = [];
  route_stats = [];
  subjects = [];
  rate_subjects = [];
  rate_impacts = [];
  robots = [];
  query_keys = [];
  probes = [];
  summary = no_summary;
  finished = false;
  flushed = [];
}

abbrev empty_sketch : Sketch
empty_sketch = record { values = [] }

abbrev pub new_stats : ℕ → RouteAccumulator
new_stats route = record {
  row = record {
    route_id = route;
    requests = 0;
    query_requests = 0;
    status_404 = 0;
    cache_misses = 0;
    cache_samples = 0;
    bytes_sent = 0;
    upstream_duration_us = none;
    upstream_samples = 0;
    distinct_clients_kmv = [];
    distinct_urls_kmv = [];
    distinct_queries_kmv = [];
  };
  clients = empty_sketch;
  urls = empty_sketch;
  queries = empty_sketch;
}

abbrev pub new_subject : ℕ → Event → SubjectAccumulator
new_subject ua e = record {
  row = record {
    client_key = e.client_key;
    ua_id = ua;
    claimed = is_some e.claim;
    requests = 0;
    status_4xx = 0;
    no_referer = 0;
    probe_requests = 0;
    robots_violations = 0;
    distinct_routes_kmv = [];
    first_seen_us = time_of e;
    last_seen_us = time_of e;
  };
  routes = empty_sketch;
}

abbrev pub new_impact : ℕ → Event → Bytes → RateImpactRow
new_impact ua e profile = record {
  ua_id = ua;
  primary_class = e.primary_class;
  profile = profile;
  modeled_requests = 0;
  allowed_requests = 0;
  limited_requests = 0;
  allowed_bytes = 0;
  limited_bytes = 0;
  limited_upstream_us = none;
  limited_upstream_samples = 0;
}

earlier : Option ℕ → ℕ → ℕ
earlier none t = t
earlier (some first) t = min t first

later : Option ℕ → ℕ → ℕ
later none t = t
later (some last) t = max t last

unfoldable pub add_summary : Summary → Event → Counted Summary
unfolding sum_of sum_optional count_if is_some is_cache_known earlier later
add_summary s e = do
  accepted ← sum_of s.accepted 1
  bytes_sent ← sum_of s.bytes_sent e.bytes_sent
  request_duration ← sum_optional s.request_duration_us e.request_duration_us
  request_samples ← count_if (is_some e.request_duration_us) s.request_duration_samples
  upstream_duration ← sum_optional s.upstream_duration_us e.upstream_duration_us
  upstream_samples ← count_if (is_some e.upstream_duration_us) s.upstream_duration_samples
  cache_samples ← count_if (is_cache_known e.cache_state) s.cache_samples
  referer_samples ← count_if (is_some e.referer_host) s.referer_samples
  robots_checked ← count_if (is_some e.robots_allowed) s.robots_checked
  ok (record s {
    accepted = accepted;
    bytes_sent = bytes_sent;
    request_duration_us = request_duration;
    request_duration_samples = request_samples;
    upstream_duration_us = upstream_duration;
    upstream_duration_samples = upstream_samples;
    cache_samples = cache_samples;
    referer_samples = referer_samples;
    robots_checked = robots_checked;
    first_event_us = some (earlier s.first_event_us (time_of e));
    last_event_us = some (later s.last_event_us (time_of e));
  })

-- What the rate model keeps beside the buckets of a subject.
pub record RateSums : Type 0 where
  pub impacts : Assoc RateImpactKey RateImpactRow
  pub degraded : Bool
  pub modeled : ℕ

impact_at : ℕ → Event → Bytes → Assoc RateImpactKey RateImpactRow → RateImpactRow
impact_at ua e profile impacts = elim (lookup (ua, (e.primary_class, profile)) impacts) [
  | none ↦ new_impact ua e profile
  | some row ↦ row
]

-- One profile; the flag is whether it is the first, whose requests count as modelled.
unfoldable pub add_profile :
    Bool → ℕ → Event → Profile → Bucket → RateSums → Counted (Bucket × RateSums)
unfolding impact_at count_if
add_profile first ua e profile bucket sums =
    let (next, allowed) = allow bucket (time_of e) profile in
    if next.unordered then ok (next, record sums { degraded = true }) else do
      impact ← add_rate_impact (impact_at ua e profile.name sums.impacts) e allowed
      modeled ← count_if first sums.modeled
      ok (
        next,
        record sums {
          impacts = insert (ua, (e.primary_class, profile.name)) impact sums.impacts;
          modeled = modeled;
        },
      )

unfoldable pub add_profiles :
    Bool → ℕ → Event → List Profile → List Bucket → RateSums → Counted (List Bucket × RateSums)
unfolding add_profile
add_profiles first ua e [] buckets sums = ok (buckets, sums)
add_profiles first ua e (p ∷ ps) [] sums = ok ([], sums)
add_profiles first ua e (p ∷ ps) (b ∷ bs) sums = do
  (next, counted) ← add_profile first ua e p b sums
  (rest, final) ← add_profiles false ua e ps bs counted
  ok (next ∷ rest, final)
