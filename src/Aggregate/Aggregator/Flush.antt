-- ===== src/Aggregate/Aggregator/Flush.antt =====
-- aggregate/aggregator.go: the batch of what was counted, sorted, and given to the sink.
use crawlledger.Domain.Event.{class_name, CacheState, hit, miss, bypass, expired, stale, unknown}
use crawlledger.Aggregate.Sketch.Codec.{marshal}
use crawlledger.Aggregate.Rows.{
  UaRow, RouteRow, CellRow, RouteStatsRow, SubjectRow, RateImpactRow, RobotsRow, QueryKeyRow,
  ProbeRow, Batch, batch_empty,
}
use crawlledger.Aggregate.MapKeys.{pair_key, class_key, cache_key}
use crawlledger.Aggregate.Counters.{
  cancelled, sink_failed, Counted, RouteAccumulator, SubjectAccumulator,
}
use crawlledger.Aggregate.Aggregator.{Aggregator}
use crawlledger.Base.{
  ℕ, ◌+◌, Bool, not, List, [], ◌∷◌, map, ltb, leb, ◌==◌, if◌then◌else◌, ok, err, length, Bytes,
  bytes, bytes_eq, bytes_lt, Assoc, sort_by, nat_key, bytes_key,
}

-- The string of a cache state.
cache_name : CacheState → Bytes
cache_name hit = bytes "hit"
cache_name miss = bytes "miss"
cache_name bypass = bytes "bypass"
cache_name expired = bytes "expired"
cache_name stale = bytes "stale"
cache_name unknown = bytes "unknown"

-- A comparison that goes on where two fields are the same.
num_then : ℕ → ℕ → Bool → Bool
num_then a b rest = if a == b then rest else ltb a b

text_then : Bytes → Bytes → Bool → Bool
text_then a b rest = if bytes_eq a b then rest else bytes_lt a b

unfoldable pub cell_less : CellRow → CellRow → Bool
unfolding num_then text_then cache_name
cell_less a b = num_then a.bucket_minute_us b.bucket_minute_us (
    num_then a.route_id b.route_id (
      num_then a.ua_id b.ua_id (
        text_then (class_name a.primary_class) (class_name b.primary_class) (
          text_then a.method b.method (
            num_then a.status b.status
              (bytes_lt (cache_name a.cache_state) (cache_name b.cache_state)))))))

subject_less : SubjectRow → SubjectRow → Bool
unfolding text_then
subject_less a b = text_then a.client_key b.client_key (ltb a.ua_id b.ua_id)

impact_less : RateImpactRow → RateImpactRow → Bool
unfolding num_then text_then
impact_less a b = num_then a.ua_id b.ua_id (
    text_then (class_name a.primary_class) (class_name b.primary_class)
      (bytes_lt a.profile b.profile))

robots_less : RobotsRow → RobotsRow → Bool
unfolding num_then
robots_less a b = num_then a.ua_id b.ua_id (ltb a.route_id b.route_id)

query_less : QueryKeyRow → QueryKeyRow → Bool
unfolding num_then
query_less a b = num_then a.route_id b.route_id (bytes_lt a.key b.key)

probe_less : ProbeRow → ProbeRow → Bool
unfolding text_then
probe_less a b = text_then a.probe_id b.probe_id (ltb a.route_id b.route_id)

unfoldable pub sort_batch : Batch → Batch
unfolding cell_less subject_less impact_less robots_less query_less probe_less
sort_batch b = record {
  user_agents = sort_by (λ (x : UaRow) (y : UaRow). ltb x.id y.id) b.user_agents;
  routes = sort_by (λ (x : RouteRow) (y : RouteRow). ltb x.id y.id) b.routes;
  cells = sort_by cell_less b.cells;
  route_stats =
      sort_by (λ (x : RouteStatsRow) (y : RouteStatsRow). ltb x.route_id y.route_id) b.route_stats;
  subjects = sort_by subject_less b.subjects;
  rate_impacts = sort_by impact_less b.rate_impacts;
  robots_violations = sort_by robots_less b.robots_violations;
  query_keys = sort_by query_less b.query_keys;
  probe_hits = sort_by probe_less b.probe_hits;
}

stats_row : RouteAccumulator → RouteStatsRow
stats_row s = record s.row {
  distinct_clients_kmv = marshal s.clients;
  distinct_urls_kmv = marshal s.urls;
  distinct_queries_kmv = marshal s.queries;
}

subject_row : SubjectAccumulator → SubjectRow
subject_row s = record s.row { distinct_routes_kmv = marshal s.routes }

unfoldable pub values_of : {K V : Type 0} → Assoc K V → List V
values_of [] = []
values_of ((k, v) ∷ m) = v ∷ values_of m

unfoldable pub batch_of : Aggregator → Batch
unfolding stats_row subject_row values_of
batch_of a = sort_batch (record {
  user_agents = a.ids.new_uas;
  routes = a.ids.new_routes;
  cells = values_of a.cells;
  route_stats = map stats_row (values_of a.route_stats);
  subjects = map subject_row (values_of a.subjects);
  rate_impacts = values_of a.rate_impacts;
  robots_violations =
      map (λ (e : (ℕ × ℕ) × ℕ). record { ua_id = e.0.0; route_id = e.0.1; requests = e.1 })
        a.robots;
  query_keys =
      map (λ (e : (ℕ × Bytes) × ℕ). record { route_id = e.0.0; key = e.0.1; requests = e.1 })
        a.query_keys;
  probe_hits =
      map (λ (e : (ℕ × Bytes) × ℕ). record { probe_id = e.0.1; route_id = e.0.0; requests = e.1 })
        a.probes;
})

unfoldable pub batch_full : Aggregator → Bool
batch_full a = leb a.limits.max_batch_cells (
    length a.ids.new_uas
    + length a.ids.new_routes
    + length a.cells
    + length a.route_stats
    + length a.subjects
    + length a.rate_impacts
    + length a.robots
    + length a.query_keys
    + length a.probes)

-- Whether the context is alive and the sink takes the batch.
unfoldable pub flush : Bool → Bool → Aggregator → Counted Aggregator
flush alive takes a =
    let batch = batch_of a in
    if not alive
    then err cancelled
    else if batch_empty batch
    then ok a
    else if not takes
    then err sink_failed
    else ok (record a {
      ids = record a.ids { new_uas = []; new_routes = [] };
      cells = [];
      route_stats = [];
      subjects = [];
      rate_impacts = [];
      robots = [];
      query_keys = [];
      probes = [];
      flushed = batch ∷ a.flushed;
    })
