-- ===== src/Aggregate/Rows.antt =====
-- internal/aggregate/model.go: the rows of a batch.
use crawlledger.Domain.Event.{TrafficClass, CacheState}
use crawlledger.Base.{ℕ, ◌+◌, Bool, Option, List, ◌==◌, length, Bytes, nat_key, bytes_key}

pub record UaRow : Type 0 where
  pub id : ℕ
  pub hash : Bytes
  pub claimed_crawler : Option Bytes
  pub claimed_category : Option TrafficClass
  pub protected_default : Bool
  pub overflow : Bool

pub record RouteRow : Type 0 where
  pub id : ℕ
  pub route : Bytes
  pub actionable_prefix : Option Bytes
  pub overflow : Bool

pub record CellRow : Type 0 where
  pub bucket_minute_us : ℕ
  pub route_id : ℕ
  pub ua_id : ℕ
  pub primary_class : TrafficClass
  pub method : Bytes
  pub status : ℕ
  pub cache_state : CacheState
  pub requests : ℕ
  pub bytes_sent : ℕ
  pub request_duration_us : Option ℕ
  pub request_samples : ℕ
  pub upstream_duration_us : Option ℕ
  pub upstream_samples : ℕ
  pub referer_present : ℕ

pub record RouteStatsRow : Type 0 where
  pub route_id : ℕ
  pub requests : ℕ
  pub query_requests : ℕ
  pub status_404 : ℕ
  pub cache_misses : ℕ
  pub cache_samples : ℕ
  pub bytes_sent : ℕ
  pub upstream_duration_us : Option ℕ
  pub upstream_samples : ℕ
  pub distinct_clients_kmv : Bytes
  pub distinct_urls_kmv : Bytes
  pub distinct_queries_kmv : Bytes

pub record SubjectRow : Type 0 where
  pub client_key : Bytes
  pub ua_id : ℕ
  pub claimed : Bool
  pub requests : ℕ
  pub status_4xx : ℕ
  pub no_referer : ℕ
  pub probe_requests : ℕ
  pub robots_violations : ℕ
  pub distinct_routes_kmv : Bytes
  pub first_seen_us : ℕ
  pub last_seen_us : ℕ

pub record RateImpactRow : Type 0 where
  pub ua_id : ℕ
  pub primary_class : TrafficClass
  pub profile : Bytes
  pub modeled_requests : ℕ
  pub allowed_requests : ℕ
  pub limited_requests : ℕ
  pub allowed_bytes : ℕ
  pub limited_bytes : ℕ
  pub limited_upstream_us : Option ℕ
  pub limited_upstream_samples : ℕ

pub record RobotsRow : Type 0 where
  pub ua_id : ℕ
  pub route_id : ℕ
  pub requests : ℕ

pub record QueryKeyRow : Type 0 where
  pub route_id : ℕ
  pub key : Bytes
  pub requests : ℕ

pub record ProbeRow : Type 0 where
  pub probe_id : Bytes
  pub route_id : ℕ
  pub requests : ℕ

pub record Batch : Type 0 where
  pub user_agents : List UaRow
  pub routes : List RouteRow
  pub cells : List CellRow
  pub route_stats : List RouteStatsRow
  pub subjects : List SubjectRow
  pub rate_impacts : List RateImpactRow
  pub robots_violations : List RobotsRow
  pub query_keys : List QueryKeyRow
  pub probe_hits : List ProbeRow

unfoldable pub batch_empty : Batch → Bool
batch_empty b =
    length b.user_agents
      + length b.routes
      + length b.cells
      + length b.route_stats
      + length b.subjects
      + length b.rate_impacts
      + length b.robots_violations
      + length b.query_keys
      + length b.probe_hits
    == 0
