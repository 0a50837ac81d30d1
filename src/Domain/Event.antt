-- ===== src/Domain/Event.antt =====
-- internal/domain/event.go: the event of a request. An int64 that validation keeps non-negative
-- is a natural number, but for the time, whose sign the detector tests too, and a pointer that may
-- be nil is an option.
use crawlledger.Base.{
  ℕ, ◌-◌, ◌%◌, Bool, true, false, Option, List, ℤ, pos_part, Bytes, bytes, nat_key, bytes_key,
}

pub data TrafficClass : Type 0 where
  claimed_ai_crawler claimed_search_crawler claimed_other_crawler : TrafficClass
  security_probe unclassified : TrafficClass

-- The string of a class.
unfoldable pub class_name : TrafficClass → Bytes
class_name claimed_ai_crawler = bytes "claimed_ai_crawler"
class_name claimed_search_crawler = bytes "claimed_search_crawler"
class_name claimed_other_crawler = bytes "claimed_other_crawler"
class_name security_probe = bytes "security_probe"
class_name unclassified = bytes "unclassified"

unfoldable pub claimed : TrafficClass → Bool
claimed claimed_ai_crawler = true
claimed claimed_search_crawler = true
claimed claimed_other_crawler = true
claimed security_probe = false
claimed unclassified = false

pub data CacheState : Type 0 where
  hit miss bypass expired stale unknown : CacheState

pub record CrawlerClaim : Type 0 where
  pub name : Bytes
  pub category : TrafficClass
  pub protected_default : Bool

pub record Event : Type 0 where
  pub timestamp_us : ℤ
  pub client_key : Bytes
  pub method : Bytes
  pub route : Bytes
  pub actionable_prefix : Option Bytes
  pub url_fingerprint : Bytes
  pub query_keys : List Bytes
  pub query_fingerprint : Option Bytes
  pub status : ℕ
  pub bytes_sent : ℕ
  pub request_duration_us : Option ℕ
  pub upstream_duration_us : Option ℕ
  pub cache_state : CacheState
  pub ua_hash : Bytes
  pub claim : Option CrawlerClaim
  pub referer_host : Option Bytes
  pub security_probe_ids : List Bytes
  pub robots_allowed : Option Bool
  pub primary_class : TrafficClass

unfoldable pub minute_bucket : ℕ → ℕ
minute_bucket t = t - t % 60000000

-- The time of an event that `Validate` has passed, which is positive.
abbrev pub time_of : Event → ℕ
time_of e = pos_part e.timestamp_us
