-- ===== src/Examples/Aggregates.antt =====
-- The aggregator at a concrete input.
use crawlledger.Domain.Event.{Event, unclassified, miss}
use crawlledger.Aggregate.Aggregator.{Limits}
use crawlledger.Aggregate.Aggregator.Delivered.{run, IsDelivered, run-IsDelivered}
use crawlledger.Base.{
  ℕ, Bool, true, false, none, some, List, [], ◌∷◌, length, pos, Bytes, bytes, nat_key, bytes_key,
}

abbrev limits : Limits
limits = record { max_routes = 1; max_user_agents = 1; max_rate_subjects = 1; max_batch_cells = 20 }

abbrev first_event : Event
first_event = record {
  timestamp_us = pos 60000001;
  client_key = bytes "c";
  method = bytes "GET";
  route = bytes "/a";
  actionable_prefix = none;
  url_fingerprint = bytes "u";
  query_keys = bytes "q" ∷ [];
  query_fingerprint = none;
  status = 200;
  bytes_sent = 10;
  request_duration_us = none;
  upstream_duration_us = some 7;
  cache_state = miss;
  ua_hash = bytes "h";
  claim = none;
  referer_host = none;
  security_probe_ids = [];
  robots_allowed = some false;
  primary_class = unclassified;
}

-- Its route is beyond the limit.
abbrev second_event : Event
second_event = record first_event { route = bytes "/b"; timestamp_us = pos 60000002 }

abbrev word_of : Bytes → ℕ
word_of value = length value

abbrev hash_of : Bytes → Bytes
hash_of name = name

abbrev events : List ((Bool × (Bool × Bool)) × Event)
events = ((true, (true, true)), first_event) ∷ ((true, (true, true)), second_event) ∷ []

run-IsDelivered_example : IsDelivered (run word_of hash_of limits events true true)
run-IsDelivered_example = run-IsDelivered word_of hash_of limits events true true
