-- ===== src/Aggregate/Rate/Bounds.antt =====
-- The rate that the buckets let through.
use crawlledger.Aggregate.Rate.{
  token_scale, Profile, Bucket, new_bucket, capacity, refill, spend, allow, run, count_allowed,
}
use crawlledger.Base.{
  ℕ, zero, suc, ◌+◌, ◌-◌, ◌*◌, ◌/◌, ◌≤◌, ◌<◌, min, ◌≡◌, refl, ap, inl, inr, Bool, true, false, List,
  [], ◌∷◌, ◌++◌, arith, ltb, if◌then◌else◌, Bool-cases, max_int64, nat_key, bytes_key,
}

refill_overflow : (r c d : ℕ) → 0 < r → c ≤ max_int64 → max_int64 / r < d → c ≤ d * r
refill_overflow r c d h k l = grind arith

-- With a positive rate, a capacity that is an int64 and tokens within it, the refill is the sum
-- capped at the capacity, also where the source does not compute the product.
pub refill-min :
    (p : Profile) (tokens delta : ℕ)
    → 0 < p.rate
    → capacity p ≤ max_int64
    → tokens ≤ capacity p
    → refill p tokens delta ≡ min (capacity p) (tokens + delta * p.rate)
unfolding refill
refill-min p tokens zero r c h = omega arith
refill-min p tokens (suc d) r c h = ground (arith, refill_overflow p.rate (capacity p) (suc d) r c)

-- What every request after the first keeps.
pub record IsFilled (p : Profile) (b : Bucket) : Type 0 where
  pub started : b.initialized ≡ true
  pub within : b.tokens ≤ capacity p

abbrev cost_of : Bool → ℕ
cost_of allowed = if allowed then token_scale else 0

-- One request: what it costs and what remains was there before or has flowed in since.
record Accounts (p : Profile) (b : Bucket) (next : Bucket × Bool) : Type 0 where
  filled : IsFilled p next.0
  forward : b.last_timestamp_us ≤ next.0.last_timestamp_us
  paid :
      next.0.tokens + cost_of next.1 + b.last_timestamp_us * p.rate
      ≤ b.tokens + next.0.last_timestamp_us * p.rate

module _ (p : Profile) (rate_pos : 0 < p.rate) (no_overflow : capacity p ≤ max_int64) where
  spend-Accounts :
      (b c : Bucket)
      → IsFilled p c
      → b.last_timestamp_us ≤ c.last_timestamp_us
      → c.tokens + b.last_timestamp_us * p.rate ≤ b.tokens + c.last_timestamp_us * p.rate
      → Accounts p b (spend c)
  unfolding spend
  spend-Accounts b c f h k = ground arith

  elapsed : (t last : ℕ) → last ≤ t → (t - last) * p.rate + last * p.rate ≡ t * p.rate
  elapsed t last h =
      let e : t - last + last ≡ t = omega arith in omega (arith, ap (λ (x : ℕ). x * p.rate) e)

  refilled : Bucket → ℕ → Bucket
  refilled b t = record b {
    last_timestamp_us = t;
    tokens = refill p b.tokens (t - b.last_timestamp_us);
  }

  refilled-Accounts :
      (b : Bucket) (t : ℕ)
      → IsFilled p b
      → b.last_timestamp_us ≤ t
      → Accounts p b (spend (refilled b t))
  unfolding refilled
  refilled-Accounts b t f h =
      let exact = refill-min p b.tokens (t - b.last_timestamp_us) rate_pos no_overflow f.within in
      let split = elapsed t b.last_timestamp_us h in
      spend-Accounts b (refilled b t) (record { started = f.started; within = omega arith }) h
        (omega arith)

  allow-late :
      (b : Bucket) (t : ℕ)
      → b.initialized ≡ true
      → ltb t b.last_timestamp_us ≡ true
      → allow b t p ≡ (record b { unordered = true }, false)
  unfolding allow
  allow-late b t s h = ground arith

  allow-due :
      (b : Bucket) (t : ℕ)
      → b.initialized ≡ true
      → ltb t b.last_timestamp_us ≡ false
      → allow b t p ≡ spend (refilled b t)
  unfolding allow refilled
  allow-due b t s h = ground arith

  allow-Accounts : (b : Bucket) (t : ℕ) → IsFilled p b → Accounts p b (allow b t p)
  allow-Accounts b t f = elim (Bool-cases (ltb t b.last_timestamp_us)) [
    | inl late ↦ rw (allow-late b t f.started late) (record {
      filled = record { started = f.started; within = f.within };
      forward = omega arith;
      paid = omega arith;
    })
    | inr due ↦ rw (allow-due b t f.started due) (refilled-Accounts b t f (ground arith))
  ]

  count_allowed_from :
      (b : Bucket) (ts : List ℕ)
      → IsFilled p b
      → (b.last_timestamp_us ≤ (run b ts p).last_timestamp_us)
        × (count_allowed b ts p * token_scale + b.last_timestamp_us * p.rate
            ≤ b.tokens + (run b ts p).last_timestamp_us * p.rate)
  unfolding run count_allowed
  count_allowed_from b [] f = (omega arith, omega arith)
  count_allowed_from b (t ∷ ts) f =
      let a = allow-Accounts b t f in
      let ih = count_allowed_from (allow b t p).0 ts a.filled in
      (omega arith, per_case (allow b t p).1 refl a ih)
    where
      per_case :
          (allowed : Bool)
          → (allow b t p).1 ≡ allowed
          → Accounts p b (allow b t p)
          → ((allow b t p).0.last_timestamp_us ≤ (run (allow b t p).0 ts p).last_timestamp_us)
            × (count_allowed (allow b t p).0 ts p * token_scale
                  + (allow b t p).0.last_timestamp_us * p.rate
                ≤ (allow b t p).0.tokens + (run (allow b t p).0 ts p).last_timestamp_us * p.rate)
          → ((if (allow b t p).1 then 1 else 0) + count_allowed (allow b t p).0 ts p) * token_scale
              + b.last_timestamp_us * p.rate
            ≤ b.tokens + (run (allow b t p).0 ts p).last_timestamp_us * p.rate
      per_case true e a ih = let paid = rw e at a.paid in rw e (omega arith)
      per_case false e a ih = let paid = rw e at a.paid in rw e (omega arith)

  abbrev full : ℕ → Bucket
  full t = record {
    last_timestamp_us = t;
    tokens = capacity p;
    initialized = true;
    unordered = false;
  }

  allow-full : (t : ℕ) → allow new_bucket t p ≡ allow (full t) t p
  unfolding allow refill
  allow-full t = ground arith

  count_allowed-full :
      (t : ℕ) (ts : List ℕ)
      → count_allowed new_bucket (t ∷ ts) p ≡ count_allowed (full t) (t ∷ ts) p
  unfolding count_allowed
  count_allowed-full t ts = rw allow-full

  run-full : (t : ℕ) (ts : List ℕ) → run new_bucket (t ∷ ts) p ≡ run (full t) (t ∷ ts) p
  unfolding run
  run-full t ts = rw allow-full

  -- With a positive rate and a capacity that is an int64: from its first request at `t` on,
  -- whatever requests follow and in whatever order, a bucket allows no more than its burst and one, and what flows in at its rate up to the latest request
  -- that it has taken in order.
  pub count_allowed_bound :
      (t : ℕ) (ts : List ℕ)
      → count_allowed new_bucket (t ∷ ts) p * token_scale
        ≤ capacity p + ((run new_bucket (t ∷ ts) p).last_timestamp_us - t) * p.rate
  count_allowed_bound t ts =
      let start : IsFilled p (full t) = record { started = refl; within = omega arith } in
      let from = count_allowed_from (full t) (t ∷ ts) start in
      let split = elapsed (run (full t) (t ∷ ts) p).last_timestamp_us t from.0 in
      rw (count_allowed-full, run-full) (omega (arith, from.1, split))

allow_unordered :
    (b : Bucket) (t : ℕ) (p : Profile)
    → b.unordered ≡ true
    → ((allow b t p).1 ≡ false) × ((allow b t p).0.unordered ≡ true)
unfolding allow spend
allow_unordered b t p h = ground arith

latched_allows_none :
    (b : Bucket) (ts : List ℕ) (p : Profile) → b.unordered ≡ true → count_allowed b ts p ≡ 0
unfolding count_allowed
latched_allows_none b [] p h = refl
latched_allows_none b (t ∷ ts) p h =
    ground (arith, allow_unordered b t p h, latched_allows_none (allow b t p).0 ts p)

-- The bucket has seen a request of the time: unless it is latched, it stands there or later.
record HasSeen (seen : ℕ) (b : Bucket) : Type 0 where
  started : b.initialized ≡ true
  reached : b.unordered ≡ false → seen ≤ b.last_timestamp_us

allow-HasSeen : (b : Bucket) (t : ℕ) (p : Profile) → HasSeen t (allow b t p).0
unfolding allow spend
allow-HasSeen b t p = record { started = ground arith; reached = ground arith }

allow_later-HasSeen :
    (b : Bucket) (seen t : ℕ) (p : Profile) → HasSeen seen b → HasSeen seen (allow b t p).0
unfolding allow spend
allow_later-HasSeen b seen t p h =
    let i = h.started in
    let k = h.reached in record { started = ground arith; reached = ground arith }

run-HasSeen :
    (b : Bucket) (seen : ℕ) (ts : List ℕ) (p : Profile) → HasSeen seen b → HasSeen seen (run b ts p)
unfolding run
run-HasSeen b seen [] p h = h
run-HasSeen b seen (t ∷ ts) p h =
    run-HasSeen (allow b t p).0 seen ts p (allow_later-HasSeen b seen t p h)

run_past-HasSeen :
    (b : Bucket) (before between : List ℕ) (seen : ℕ) (p : Profile)
    → HasSeen seen (run b (before ++ seen ∷ between) p)
unfolding run
run_past-HasSeen b [] between seen p =
    run-HasSeen (allow b seen p).0 seen between p (allow-HasSeen b seen p)
run_past-HasSeen b (t ∷ ts) between seen p = run_past-HasSeen (allow b t p).0 ts between seen p

allow_before-unordered :
    (b : Bucket) (seen late : ℕ) (p : Profile)
    → HasSeen seen b
    → late < seen
    → ((allow b late p).1 ≡ false) × ((allow b late p).0.unordered ≡ true)
unfolding allow spend
allow_before-unordered b seen late p h k = let i = h.started in let r = h.reached in ground arith

-- Whatever requests a bucket has taken before and after one at `seen`, a later request of an earlier
-- time is denied, and so is every request that follows it.
pub count_allowed_unordered :
    (b : Bucket) (before between after : List ℕ) (seen late : ℕ) (p : Profile)
    → late < seen
    → count_allowed (run b (before ++ seen ∷ between) p) (late ∷ after) p ≡ 0
unfolding count_allowed
count_allowed_unordered b before between after seen late p h =
    let c = run b (before ++ seen ∷ between) p in
    let denied =
      allow_before-unordered c seen late p (run_past-HasSeen b before between seen p) h in
    let rest = latched_allows_none (allow c late p).0 after p denied.1 in ground arith
