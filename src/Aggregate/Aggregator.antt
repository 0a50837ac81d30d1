-- ===== src/Aggregate/Aggregator.antt =====
-- internal/aggregate/aggregator.go: the aggregator behind the validation of the event. An error ends
-- the analysis, so what an aggregator holds after one is left out. The sink is a list of the batches
-- that it took, and whether it takes one, and whether the context is alive, is given to each call.
-- SHA-256 is a parameter: `sha64` its first word, `claim_hash` that of the name of a claim.
pub mod Flush
pub mod Events
pub mod Add
pub mod Conserved
pub mod Delivered
use crawlledger.Domain.Event.{time_of, TrafficClass, CacheState, CrawlerClaim, Event, minute_bucket}
use crawlledger.Aggregate.Sketch.{Sketch}
use crawlledger.Aggregate.Rate.{Profile, profiles, Bucket, new_bucket, allow}
use crawlledger.Aggregate.Rows.{
  UaRow, RouteRow, CellRow, RouteStatsRow, SubjectRow, RateImpactRow, Batch,
}
use crawlledger.Aggregate.MapKeys.{
  pair_key, class_key, cache_key, CellKey, SubjectKey, RateImpactKey,
}
use crawlledger.Aggregate.Counters.{
  AggregateError, already_finished, cancelled, Counted, sum_of, sum_optional, count_if, is_some,
  is_cache_known, is_disallowed, add_cell, RouteAccumulator, SubjectAccumulator, add_route_stats,
  add_subject_row, add_rate_impact,
}
use crawlledger.Base.{
  ℕ, ◌+◌, ◌/◌, Bool, true, false, not, ◌&&◌, Option, none, some, List, [], ◌∷◌, ◌++◌, leb, ◌==◌,
  if◌then◌else◌, ok, ◌>>=◌, ◌>>◌, length, replicate, Bytes, bytes, Key, Assoc, lookup, insert,
  nat_key, bytes_key,
}

pub record Limits : Type 0 where
  pub max_routes : ℕ
  pub max_user_agents : ℕ
  pub max_rate_subjects : ℕ
  pub max_batch_cells : ℕ

-- The fields of the summary that the aggregator sets.
pub record Summary : Type 0 where
  pub accepted : ℕ
  pub bytes_sent : ℕ
  pub request_duration_us : Option ℕ
  pub request_duration_samples : ℕ
  pub upstream_duration_us : Option ℕ
  pub upstream_duration_samples : ℕ
  pub cache_samples : ℕ
  pub referer_samples : ℕ
  pub robots_checked : ℕ
  pub rate_modeled : ℕ
  pub first_event_us : Option ℕ
  pub last_event_us : Option ℕ
  pub route_overflow : ℕ
  pub ua_overflow : ℕ
  pub subject_overflow : ℕ
  pub order_degraded : Bool

-- An overflow id is zero as long as there is none.
pub record Ids : Type 0 where
  pub routes : Assoc Bytes ℕ
  pub uas : Assoc Bytes ℕ
  pub unclaimed_uas : ℕ
  pub route_overflow_id : ℕ
  pub ua_overflow_id : ℕ
  pub next_route_id : ℕ
  pub next_ua_id : ℕ
  pub new_routes : List RouteRow
  pub new_uas : List UaRow

pub record Aggregator : Type 0 where
  pub limits : Limits
  pub ids : Ids
  pub cells : Assoc CellKey CellRow
  pub route_stats : Assoc ℕ RouteAccumulator
  pub subjects : Assoc SubjectKey SubjectAccumulator
  pub rate_subjects : Assoc SubjectKey (List Bucket)
  pub rate_impacts : Assoc RateImpactKey RateImpactRow
  pub robots : Assoc (ℕ × ℕ) ℕ
  pub query_keys : Assoc (ℕ × Bytes) ℕ
  pub probes : Assoc (ℕ × Bytes) ℕ
  pub summary : Summary
  pub finished : Bool
  pub flushed : List Batch

text_of : Option Bytes → Bytes
text_of none = []
text_of (some text) = text

unfoldable pub new_route : Ids → Bytes → Event → Ids × ℕ
new_route t identity e =
    let id = t.next_route_id in
    (
      record t {
        next_route_id = id + 1;
        routes = insert identity id t.routes;
        new_routes =
            t.new_routes
            ++ (record {
              id = id;
              route = e.route;
              actionable_prefix = e.actionable_prefix;
              overflow = false;
            }
                ∷ []);
      },
      id,
    )

unfoldable pub overflow_route : Ids → Ids × ℕ
overflow_route t =
    let id = t.next_route_id in
    if t.route_overflow_id == 0
    then (
      record t {
        route_overflow_id = id;
        next_route_id = id + 1;
        new_routes =
            t.new_routes
            ++ (record {
              id = id;
              route = bytes "/{overflow}";
              actionable_prefix = none;
              overflow = true;
            }
                ∷ []);
      },
      id,
    )
    else (t, t.route_overflow_id)

-- routeID; the flag is whether the overflow is counted. The map of the rows is only ever written.
unfoldable pub route_id : Limits → Ids → Event → (Ids × ℕ) × Bool
unfolding text_of new_route overflow_route
route_id limits t e =
    let identity = e.route ++ 0 ∷ text_of e.actionable_prefix in
    elim (lookup identity t.routes) [
      | some id ↦ ((t, id), false)
      | none ↦
          if leb limits.max_routes (length t.routes)
          then (overflow_route t, true)
          else (new_route t identity e, false)
    ]

unfoldable pub new_ua : Ids → Bytes → Option CrawlerClaim → Ids × ℕ
unfolding is_some
new_ua t hash claim =
    let id = t.next_ua_id in
    (
      record t {
        next_ua_id = id + 1;
        uas = insert hash id t.uas;
        unclaimed_uas = if is_some claim then t.unclaimed_uas else t.unclaimed_uas + 1;
        new_uas = t.new_uas ++ (row id ∷ []);
      },
      id,
    )
  where
    row : ℕ → UaRow
    row id = elim claim [
      | none ↦ record {
        id = id;
        hash = hash;
        claimed_crawler = none;
        claimed_category = none;
        protected_default = false;
        overflow = false;
      }
      | some c ↦ record {
        id = id;
        hash = hash;
        claimed_crawler = some c.name;
        claimed_category = some c.category;
        protected_default = c.protected_default;
        overflow = false;
      }
    ]

unfoldable pub overflow_ua : Ids → Ids × ℕ
overflow_ua t =
    let id = t.next_ua_id in
    if t.ua_overflow_id == 0
    then (
      record t {
        ua_overflow_id = id;
        next_ua_id = id + 1;
        new_uas =
            t.new_uas
            ++ (record {
              id = id;
              hash = replicate 64 b'0';
              claimed_crawler = none;
              claimed_category = none;
              protected_default = false;
              overflow = true;
            }
                ∷ []);
      },
      id,
    )
    else (t, t.ua_overflow_id)

module _ (claim_hash : Bytes → Bytes) where
  hash_of : Event → Bytes
  hash_of e = elim e.claim [ none ↦ e.ua_hash | some c ↦ claim_hash (bytes "claim" ++ 0 ∷ c.name) ]

  -- uaID, with the same flag.
  unfoldable pub ua_id : Limits → Ids → Event → (Ids × ℕ) × Bool
  unfolding hash_of new_ua overflow_ua is_some
  ua_id limits t e = elim (lookup (hash_of e) t.uas) [
    | some id ↦ ((t, id), false)
    | none ↦
        if not (is_some e.claim) && leb limits.max_user_agents t.unclaimed_uas
        then (overflow_ua t, true)
        else (new_ua t (hash_of e) e.claim, false)
  ]

-- A counter of a map, where a missing entry counts as zero.
unfoldable pub count_at : {K : Type 0} ⦃key : Key K⦄ → K → Assoc K ℕ → Counted (Assoc K ℕ)
unfolding sum_of
count_at k m = do sum ← sum_of (elim (lookup k m) [ none ↦ 0 | some n ↦ n ]) 1; ok (insert k sum m)

unfoldable pub count_all : ℕ → List Bytes → Assoc (ℕ × Bytes) ℕ → Counted (Assoc (ℕ × Bytes) ℕ)
unfolding count_at
count_all route [] m = ok m
count_all route (v ∷ vs) m = do next ← count_at (route, v) m; count_all route vs next

abbrev pub cell_key : ℕ → ℕ → Event → CellKey
cell_key route ua e = (
  minute_bucket (time_of e),
  (route, (ua, (e.primary_class, (e.method, (e.status, e.cache_state))))),
)

abbrev pub new_cell : ℕ → ℕ → Event → CellRow
new_cell route ua e = record {
  bucket_minute_us = minute_bucket (time_of e);
  route_id = route;
  ua_id = ua;
  primary_class = e.primary_class;
  method = e.method;
  status = e.status;
  cache_state = e.cache_state;
  requests = 0;
  bytes_sent = 0;
  request_duration_us = none;
  request_samples = 0;
  upstream_duration_us = none;
  upstream_samples = 0;
  referer_present = 0;
}

unfoldable pub cell_at : Assoc CellKey CellRow → ℕ → ℕ → Event → CellRow
cell_at cells route ua e = elim (lookup (cell_key route ua e) cells) [
  | none ↦ new_cell route ua e
  | some cell ↦ cell
]

unfoldable pub count_cell : Assoc CellKey CellRow → ℕ → ℕ → Event → Counted (Assoc CellKey CellRow)
unfolding cell_at add_cell
count_cell cells route ua e = do
  cell ← add_cell (cell_at cells route ua e) e
  ok (insert (cell_key route ua e) cell cells)
