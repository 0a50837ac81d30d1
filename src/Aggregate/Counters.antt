-- ===== src/Aggregate/Counters.antt =====
-- internal/aggregate/aggregator.go: what an event adds to a row of each kind. The values of a
-- validated event and the counters are non-negative.
use crawlledger.Domain.Event.{
  time_of, CacheState, hit, miss, bypass, expired, stale, unknown, Event,
}
use crawlledger.Aggregate.Sketch.{Sketch, add}
use crawlledger.Aggregate.Rows.{CellRow, RouteStatsRow, SubjectRow, RateImpactRow}
use crawlledger.Base.{
  ℕ, ◌+◌, ◌-◌, min, max, Bool, true, false, not, ◌&&◌, ◌||◌, Option, none, some, ltb, leb, ◌==◌,
  if◌then◌else◌, Result, ok, err, ◌>>=◌, length, max_int64, Bytes, bytes, bytes_eq, nat_key,
  bytes_key,
}

pub data AggregateError : Type 0 where
  counter_overflow already_finished cancelled sink_failed : AggregateError

abbrev pub Counted : Type 0 → Type 0
Counted A = Result AggregateError A

-- Of a value that is not negative.
unfoldable pub sum_of : ℕ → ℕ → Counted ℕ
sum_of left right =
    if ltb 0 right && ltb (max_int64 - right) left then err counter_overflow else ok (left + right)

unfoldable pub sum_nullable : Option ℕ → ℕ → Counted (Option ℕ)
unfolding sum_of
sum_nullable none n = ok (some n)
sum_nullable (some value) n = do sum ← sum_of value n; ok (some sum)

-- An increment under a condition.
unfoldable pub count_if : Bool → ℕ → Counted ℕ
unfolding sum_of
count_if test n = if test then sum_of n 1 else ok n

unfoldable pub is_some : {A : Type 0} → Option A → Bool
is_some none = false
is_some (some a) = true

unfoldable pub sum_optional : Option ℕ → Option ℕ → Counted (Option ℕ)
unfolding sum_nullable
sum_optional total none = ok total
sum_optional total (some n) = sum_nullable total n

unfoldable pub is_cache_miss : CacheState → Bool
is_cache_miss miss = true
is_cache_miss bypass = true
is_cache_miss expired = true
is_cache_miss hit = false
is_cache_miss stale = false
is_cache_miss unknown = false

unfoldable pub is_cache_known : CacheState → Bool
is_cache_known unknown = false
is_cache_known hit = true
is_cache_known miss = true
is_cache_known bypass = true
is_cache_known expired = true
is_cache_known stale = true

unfoldable pub is_disallowed : Option Bool → Bool
is_disallowed none = false
is_disallowed (some allowed) = not allowed

unfoldable pub add_cell : CellRow → Event → Counted CellRow
unfolding sum_of sum_optional count_if is_some
add_cell cell e = do
  requests ← sum_of cell.requests 1
  bytes_sent ← sum_of cell.bytes_sent e.bytes_sent
  request_duration ← sum_optional cell.request_duration_us e.request_duration_us
  request_samples ← count_if (is_some e.request_duration_us) cell.request_samples
  upstream_duration ← sum_optional cell.upstream_duration_us e.upstream_duration_us
  upstream_samples ← count_if (is_some e.upstream_duration_us) cell.upstream_samples
  referer_present ← count_if (is_some e.referer_host) cell.referer_present
  ok (record cell {
    requests = requests;
    bytes_sent = bytes_sent;
    request_duration_us = request_duration;
    request_samples = request_samples;
    upstream_duration_us = upstream_duration;
    upstream_samples = upstream_samples;
    referer_present = referer_present;
  })

pub record RouteAccumulator : Type 0 where
  pub row : RouteStatsRow
  pub clients : Sketch
  pub urls : Sketch
  pub queries : Sketch

pub record SubjectAccumulator : Type 0 where
  pub row : SubjectRow
  pub routes : Sketch

is_read : Event → Bool
is_read e = bytes_eq e.method (bytes "GET") || bytes_eq e.method (bytes "HEAD")

module _ (sha64 : Bytes → ℕ) where
  add_query : Option Bytes → Sketch → Sketch
  add_query none s = s
  add_query (some fingerprint) s = add sha64 fingerprint s

  -- The changes of addRoute to the statistics of the route.
  unfoldable pub add_route_stats : RouteAccumulator → Event → Counted RouteAccumulator
  unfolding sum_of sum_optional count_if is_some is_cache_miss is_cache_known is_read add_query
  add_route_stats stats e = do
    requests ← sum_of stats.row.requests 1
    bytes_sent ← sum_of stats.row.bytes_sent e.bytes_sent
    query_requests ← count_if (is_some e.query_fingerprint) stats.row.query_requests
    status_404 ← count_if (e.status == 404) stats.row.status_404
    cache_samples ← count_if (is_read e && is_cache_known e.cache_state) stats.row.cache_samples
    cache_misses ← count_if (is_read e && is_cache_miss e.cache_state) stats.row.cache_misses
    upstream_duration ← sum_optional stats.row.upstream_duration_us e.upstream_duration_us
    upstream_samples ← count_if (is_some e.upstream_duration_us) stats.row.upstream_samples
    ok (record stats {
      row = record stats.row {
        requests = requests;
        bytes_sent = bytes_sent;
        query_requests = query_requests;
        status_404 = status_404;
        cache_samples = cache_samples;
        cache_misses = cache_misses;
        upstream_duration_us = upstream_duration;
        upstream_samples = upstream_samples;
      };
      clients = add sha64 e.client_key stats.clients;
      urls = add sha64 e.url_fingerprint stats.urls;
      queries = add_query e.query_fingerprint stats.queries;
    })

  -- The changes of addSubject to the subject.
  unfoldable pub add_subject_row : SubjectAccumulator → Event → Counted SubjectAccumulator
  unfolding sum_of count_if is_some is_disallowed
  add_subject_row subject e = do
    requests ← sum_of subject.row.requests 1
    status_4xx ← count_if (leb 400 e.status && leb e.status 499) subject.row.status_4xx
    no_referer ← count_if (not (is_some e.referer_host)) subject.row.no_referer
    probe_requests ← count_if (ltb 0 (length e.security_probe_ids)) subject.row.probe_requests
    robots_violations ← count_if (is_disallowed e.robots_allowed) subject.row.robots_violations
    ok (record subject {
      row = record subject.row {
        requests = requests;
        status_4xx = status_4xx;
        no_referer = no_referer;
        probe_requests = probe_requests;
        robots_violations = robots_violations;
        first_seen_us = min (time_of e) subject.row.first_seen_us;
        last_seen_us = max (time_of e) subject.row.last_seen_us;
      };
      routes = add sha64 e.route subject.routes;
    })

add_allowed : RateImpactRow → Event → Counted RateImpactRow
unfolding sum_of
add_allowed row e = do
  allowed ← sum_of row.allowed_requests 1
  allowed_bytes ← sum_of row.allowed_bytes e.bytes_sent
  ok (record row { allowed_requests = allowed; allowed_bytes = allowed_bytes })

add_limited : RateImpactRow → Event → Counted RateImpactRow
unfolding sum_of sum_optional count_if is_some
add_limited row e = do
  limited ← sum_of row.limited_requests 1
  limited_bytes ← sum_of row.limited_bytes e.bytes_sent
  upstream ← sum_optional row.limited_upstream_us e.upstream_duration_us
  samples ← count_if (is_some e.upstream_duration_us) row.limited_upstream_samples
  ok (record row {
    limited_requests = limited;
    limited_bytes = limited_bytes;
    limited_upstream_us = upstream;
    limited_upstream_samples = samples;
  })

unfoldable pub add_rate_impact : RateImpactRow → Event → Bool → Counted RateImpactRow
unfolding sum_of add_allowed add_limited
add_rate_impact row e allowed = do
  modeled ← sum_of row.modeled_requests 1
  let counted = record row { modeled_requests = modeled } in
      if allowed then add_allowed counted e else add_limited counted e
