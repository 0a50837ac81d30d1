-- ===== src/Aggregate/Rate.antt =====
-- internal/aggregate/rate_model.go: the token buckets that stand for a rate limit. Times and
-- counts are the non-negative int64 of validated events and of the profiles.
pub mod Bounds
use crawlledger.Base.{
  ℕ, ◌+◌, ◌-◌, ◌*◌, ◌/◌, Bool, true, false, not, List, [], ◌∷◌, ltb, leb, if◌then◌else◌, max_int64,
  Bytes, bytes,
}

abbrev pub token_scale : ℕ
token_scale = 60000000

pub record Profile : Type 0 where
  pub name : Bytes
  pub rate : ℕ
  pub burst : ℕ

abbrev pub profiles : List Profile
profiles =
    record { name = bytes "gentle"; rate = 60; burst = 20 }
    ∷ record { name = bytes "standard"; rate = 30; burst = 10 }
    ∷ record { name = bytes "strict"; rate = 10; burst = 5 }
    ∷ []

pub record Bucket : Type 0 where
  pub last_timestamp_us : ℕ
  pub tokens : ℕ
  pub initialized : Bool
  pub unordered : Bool

abbrev pub new_bucket : Bucket
new_bucket = record { last_timestamp_us = 0; tokens = 0; initialized = false; unordered = false }

abbrev pub capacity : Profile → ℕ
capacity p = (p.burst + 1) * token_scale

-- The tokens after `delta` microseconds. The second test of the source, `refill > capacity -
-- tokens`, subtracts where the tokens are at most the capacity.
unfoldable pub refill : Profile → ℕ → ℕ → ℕ
refill p tokens delta =
    if not (ltb 0 delta)
    then tokens
    else if ltb (max_int64 / p.rate) delta
    then capacity p
    else if ltb (capacity p - tokens) (delta * p.rate)
    then capacity p
    else tokens + delta * p.rate

-- What follows the branches of `allow`: the latch, and the token that a request costs.
unfoldable pub spend : Bucket → Bucket × Bool
spend b =
    if b.unordered
    then (b, false)
    else if leb token_scale b.tokens
    then (record b { tokens = b.tokens - token_scale }, true)
    else (b, false)

unfoldable pub allow : Bucket → ℕ → Profile → Bucket × Bool
allow b t p =
    if not b.initialized
    then spend (record b { last_timestamp_us = t; tokens = capacity p; initialized = true })
    else if ltb t b.last_timestamp_us
    then (record b { unordered = true }, false)
    else spend
        (record b { last_timestamp_us = t; tokens = refill p b.tokens (t - b.last_timestamp_us) })

-- A stream of requests through one bucket, and how many it allows.
unfoldable pub run : Bucket → List ℕ → Profile → Bucket
run b [] p = b
run b (t ∷ ts) p = run (allow b t p).0 ts p

unfoldable pub count_allowed : Bucket → List ℕ → Profile → ℕ
count_allowed b [] p = 0
count_allowed b (t ∷ ts) p = (if (allow b t p).1 then 1 else 0) + count_allowed (allow b t p).0 ts p
