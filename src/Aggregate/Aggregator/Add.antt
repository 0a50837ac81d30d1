-- ===== src/Aggregate/Aggregator/Add.antt =====
-- aggregate/aggregator.go: Add behind the validation of the event, and Finish.
use crawlledger.Domain.Event.{Event}
use crawlledger.Aggregate.Rate.{profiles, Bucket, new_bucket}
use crawlledger.Aggregate.MapKeys.{pair_key, class_key, cache_key, SubjectKey}
use crawlledger.Aggregate.Counters.{
  already_finished, cancelled, Counted, sum_of, count_if, is_disallowed, RouteAccumulator,
  SubjectAccumulator, add_route_stats, add_subject_row,
}
use crawlledger.Aggregate.Aggregator.{
  Summary, Aggregator, route_id, ua_id, count_at, count_all, count_cell,
}
use crawlledger.Aggregate.Aggregator.Events.{new_stats, new_subject, add_summary, add_profiles}
use crawlledger.Aggregate.Aggregator.Flush.{batch_full, flush}
use crawlledger.Base.{
  ℕ, Bool, true, false, not, ◌&&◌, Option, none, some, List, [], ◌∷◌, leb, if◌then◌else◌, ok, err,
  ◌>>=◌, length, Bytes, Assoc, lookup, insert, nat_key, bytes_key,
}

unfoldable pub new_buckets : List Bucket
new_buckets = new_bucket ∷ new_bucket ∷ new_bucket ∷ []

-- addRate: a subject beyond the limit is left out.
unfoldable pub add_rate : ℕ → Event → Aggregator → Counted Aggregator
unfolding new_buckets
add_rate ua e a =
    let key : SubjectKey = (e.client_key, ua) in
    let count : List Bucket → Counted Aggregator = (λ buckets. do
      (next, sums) ← add_profiles true ua e profiles buckets (record {
        impacts = a.rate_impacts;
        degraded = a.summary.order_degraded;
        modeled = a.summary.rate_modeled;
      })
      ok (record a {
        rate_subjects = insert key next a.rate_subjects;
        rate_impacts = sums.impacts;
        summary = record a.summary { order_degraded = sums.degraded; rate_modeled = sums.modeled };
      })) in
    elim (lookup key a.rate_subjects) [
      | some buckets ↦ count buckets
      | none ↦
          if leb a.limits.max_rate_subjects (length a.rate_subjects)
          then ok a
          else count new_buckets
    ]

unfoldable pub is_tracked : SubjectKey → Aggregator → Bool
is_tracked key a = elim (lookup key a.rate_subjects) [ none ↦ false | some buckets ↦ true ]

module _ (sha64 : Bytes → ℕ) (claim_hash : Bytes → Bytes) where
  unfoldable pub add_route : ℕ → Event → Aggregator → Counted Aggregator
  add_route route e a = do
    stats ← add_route_stats sha64 (stats_at (lookup route a.route_stats)) e
    ok (record a { route_stats = insert route stats a.route_stats })
    where
      stats_at : Option RouteAccumulator → RouteAccumulator
      stats_at none = new_stats route
      stats_at (some stats) = stats

  unfoldable pub put_subject :
      SubjectKey → SubjectAccumulator → Event → Aggregator → Counted Aggregator
  put_subject key subject e a = do
    next ← add_subject_row sha64 subject e
    ok (record a { subjects = insert key next a.subjects })

  -- addSubject: one that is neither in the batch nor tracked is not taken up beyond the limit.
  unfoldable pub add_subject : ℕ → Event → Aggregator → Counted Aggregator
  unfolding is_tracked put_subject
  add_subject ua e a =
      let key : SubjectKey = (e.client_key, ua) in
      let overflow : Counted Aggregator = (do
        n ← sum_of a.summary.subject_overflow 1
        ok (record a { summary = record a.summary { subject_overflow = n } })) in
      elim (lookup key a.subjects) [
        | some subject ↦ put_subject key subject e a
        | none ↦
            if not (is_tracked key a) && leb a.limits.max_rate_subjects (length a.rate_subjects)
            then overflow
            else put_subject key (new_subject ua e) e a
      ]

  -- The ids of the route and of the user agent.
  unfoldable pub identify : Event → Aggregator → Counted ((ℕ × ℕ) × Aggregator)
  identify e a =
      let ((t, route), route_over) = route_id a.limits a.ids e in
      let ((u, ua), ua_over) = ua_id claim_hash a.limits t e in
      do
        route_overflow ← count_if route_over a.summary.route_overflow
        ua_overflow ← count_if ua_over a.summary.ua_overflow
        ok (
          (route, ua),
          record a {
            ids = u;
            summary = record a.summary {
              route_overflow = route_overflow;
              ua_overflow = ua_overflow;
            };
          },
        )

  unfoldable pub count_robots : ℕ → ℕ → Event → Assoc (ℕ × ℕ) ℕ → Counted (Assoc (ℕ × ℕ) ℕ)
  count_robots route ua e m =
      if is_disallowed e.robots_allowed then count_at (ua, route) m else ok m

  -- The robots, the query keys, the probes and the summary.
  unfoldable pub count_rest : ℕ → ℕ → Event → Aggregator → Counted Aggregator
  unfolding count_robots
  count_rest route ua e a = do
    robots ← count_robots route ua e a.robots
    query_keys ← count_all route e.query_keys a.query_keys
    probes ← count_all route e.security_probe_ids a.probes
    summary ← add_summary a.summary e
    ok (record a { robots = robots; query_keys = query_keys; probes = probes; summary = summary })

  -- The event in every counter.
  unfoldable pub count_event : Event → Aggregator → Counted Aggregator
  unfolding identify add_route add_subject count_rest
  count_event e a = do
    ((route, ua), a1) ← identify e a
    cells ← count_cell a1.cells route ua e
    a2 ← add_route route e (record a1 { cells = cells })
    a3 ← add_subject ua e a2
    a4 ← add_rate ua e a3
    count_rest route ua e a4

  -- Add, with whether the context is alive at its start and at its flush and whether the sink takes
  -- the batch.
  unfoldable pub add : Bool × (Bool × Bool) → Event → Aggregator → Counted Aggregator
  unfolding count_event
  add (alive, (still, takes)) e a =
      if a.finished
      then err already_finished
      else if not alive
      then err cancelled
      else do next ← count_event e a; if batch_full next then flush still takes next else ok next

  unfoldable pub add_all : List ((Bool × (Bool × Bool)) × Event) → Aggregator → Counted Aggregator
  add_all [] a = ok a
  add_all ((answers, e) ∷ rest) a = do next ← add answers e a; add_all rest next

unfoldable pub finish : Bool → Bool → Aggregator → Counted (Summary × Aggregator)
finish alive takes a =
    if a.finished
    then err already_finished
    else do next ← flush alive takes (record a { finished = true }); ok (next.summary, next)
