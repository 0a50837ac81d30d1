-- ===== src/Protect/Detector/Observe/Counts.antt =====
-- What a record counts for in the detector.
use crawlledger.Domain.Event.{Event, time_of}
use crawlledger.Protect.Detector.Accounting.{Accounting, classify_accounting, valid_observed_status}
use crawlledger.Protect.Detector.Buckets.{bucket_end, count_at, add_bucket_count}
use crawlledger.Protect.Detector.Types.{ProtectionRecord, Detector, TrackedGroup, microseconds}
use crawlledger.Protect.Detector.Observe.{
  observe_counted, observe, observe_fresh, observe_eligible, observe_candidate, observe_refresh,
  observe_volume, observe_shape, observe_group, register_group, group_key, store_group, mark_shape,
  or_no_bytes, count_site,
}
use crawlledger.Protect.Detector.Observe.Outcomes.{timed_by}
use crawlledger.Base.{
  at_most_zero, ℕ, ◌+◌, ◌-◌, ◌≡◌, refl, ap, ◌∙◌, inl, inr, Bool, true, false, not, ◌&&◌, Option,
  none, some, arith, ltb, leb, ◌==◌, if◌then◌else◌, Bool-cases, Option-cases, ℤ, pos_part,
  max_int64, Bytes, bytes, lookup-insert, nat_key, bytes_key,
}

-- The site's counters and the mark of a fresh record.
record SameSite (d e : Detector) : Type 0 where
  site : e.site_buckets ≡ d.site_buckets
  fresh : e.fresh_since_evaluation ≡ d.fresh_since_evaluation

-- Whether a record is taken into the window: its times are positive, it is not from the future, its
-- lag is within the limit and inside the window, and its status fits the limiter's.
unfoldable pub is_taken : Detector → ProtectionRecord → ℤ → Bool
is_taken d r receipt =
    let lag_us = pos_part receipt - time_of r.event in
    not (at_most_zero receipt)
    && (not (at_most_zero r.event.timestamp_us)
        && (leb (time_of r.event) (pos_part receipt)
            && (leb lag_us (microseconds d.config.detection.max_event_lag_seconds)
                && (ltb lag_us (microseconds d.config.detection.window_seconds)
                    && valid_observed_status r.event.status r.limit_req_status))))

-- The bucket of a record's time, and whether it counts as a request to the site.
abbrev pub bucket_of : Detector → ProtectionRecord → ℕ
bucket_of d r =
    bucket_end (microseconds d.config.detection.evaluation_interval_seconds) (time_of r.event)

abbrev pub is_counted : ProtectionRecord → Bool
is_counted r = (classify_accounting r.event.status r.limit_req_status).denominator

-- The counter of a bucket behind a record that is taken: one more for a request to the site, unless
-- it is full.
abbrev pub counted_at : Detector → ProtectionRecord → ℕ → ℕ
counted_at d r bucket =
    if is_counted r && (bucket == bucket_of d r && ltb (count_at bucket d.site_buckets) max_int64)
    then count_at bucket d.site_buckets + 1
    else count_at bucket d.site_buckets

-- What a record that is taken has done, and one that is not.
pub record Counted (d : Detector) (r : ProtectionRecord) (e : Detector) : Type 0 where
  pub fresh : e.fresh_since_evaluation ≡ true
  pub site : (bucket : ℕ) → count_at bucket e.site_buckets ≡ counted_at d r bucket

pub record Uncounted (d e : Detector) : Type 0 where
  pub fresh : e.fresh_since_evaluation ≡ d.fresh_since_evaluation
  pub site : e.site_buckets ≡ d.site_buckets
  pub groups : e.groups ≡ d.groups
  pub attempts : e.attempt_buckets ≡ d.attempt_buckets

abbrev pub Observed : Bool → Detector → ProtectionRecord → Detector → Type 0
Observed true d r e = Counted d r e
Observed false d r e = Uncounted d e

module _ (sha64 : Bytes → ℕ) where
  register_group-SameSite :
      (d : Detector) (kind method path prefix : Bytes)
      → SameSite d (register_group d kind method path prefix).0
  unfolding register_group
  register_group-SameSite d kind method path prefix = ground arith

  observe_group-SameSite :
      (d : Detector) (key : Bytes) (o : Option TrackedGroup) (bucket : ℕ) (event : Event)
      → SameSite d (observe_group sha64 d key o bucket event).0
  unfolding observe_group store_group
  observe_group-SameSite d key none bucket event = record { site = refl; fresh = refl }
  observe_group-SameSite d key (some g) bucket event = record { site = refl; fresh = refl }

  SameSite-trans : (d e f : Detector) → SameSite d e → SameSite e f → SameSite d f
  SameSite-trans d e f h k = record { site = k.site ∙ h.site; fresh = k.fresh ∙ h.fresh }

  observe_volume-SameSite :
      (d : Detector) (event : Event) (prefix : Bytes) (bucket : ℕ)
      → SameSite d (observe_volume sha64 d event prefix bucket).0
  unfolding observe_volume
  observe_volume-SameSite d event prefix bucket =
      let kind = bytes "volume" in
      let (d', g) = register_group d kind event.method prefix prefix in
      SameSite-trans d d' _ (register_group-SameSite d kind event.method prefix prefix)
        (observe_group-SameSite d' (group_key kind event.method prefix) g bucket event)

  observe_shape-SameSite :
      (d : Detector) (event : Event) (prefix : Bytes) (bucket : ℕ)
      → SameSite d (observe_shape sha64 d event prefix bucket).0
  unfolding observe_shape
  observe_shape-SameSite d event prefix bucket =
      let kind = bytes "shape" in
      let (d', g) = register_group d kind event.method event.route prefix in
      SameSite-trans d d' _ (register_group-SameSite d kind event.method event.route prefix) (
        observe_group-SameSite d' (group_key kind event.method event.route) (mark_shape prefix g)
          bucket event)

  observe_candidate-SameSite :
      (d : Detector) (event : Event) (prefix : Bytes) (bucket : ℕ)
      → SameSite d (observe_candidate sha64 d event prefix bucket).0
  unfolding observe_candidate
  observe_candidate-SameSite d event prefix bucket =
      let volume = observe_volume-SameSite d event prefix bucket in
      let d' = (observe_volume sha64 d event prefix bucket).0 in
      let shape = observe_shape-SameSite d' event prefix bucket in
      elim (Bool-cases (observe_volume sha64 d event prefix bucket).1) [
        | inl fits ↦ rw fits (SameSite-trans d d' _ volume shape)
        | inr overflow ↦ rw overflow volume
      ]

  observe_eligible-SameSite :
      (d : Detector) (r : ProtectionRecord) (bucket : ℕ) (eligible : Bool)
      → SameSite d (observe_eligible sha64 d r bucket eligible).0
  unfolding observe_eligible
  observe_eligible-SameSite d r bucket eligible =
      ground
        (arith, observe_candidate-SameSite d r.event (or_no_bytes r.event.actionable_prefix) bucket)

  observe_counted-SameSite :
      (d : Detector) (r : ProtectionRecord) (bucket : ℕ) (a : Accounting)
      → SameSite d (observe_counted sha64 d r bucket a).0
  unfolding observe_counted
  observe_counted-SameSite d r bucket a =
      let attempts = observe_refresh d.applied_rules r bucket d.attempt_buckets in
      let changed = record d { attempt_buckets = attempts } in
      elim (Bool-cases a.refresh) [
        | inl refresh ↦ rw refresh (
            SameSite-trans d changed _ (record { site = refl; fresh = refl })
              (observe_eligible-SameSite changed r bucket a.candidate))
        | inr plain ↦ rw plain (observe_eligible-SameSite d r bucket a.candidate)
      ]

  -- The count of the site: nothing changes at the limit of a counter.
  count_at-count_site :
      (d e : Detector) (bucket other : ℕ) (counts : Bool)
      → count_site d bucket counts ≡ some e
      → (e.fresh_since_evaluation ≡ d.fresh_since_evaluation)
        × (count_at other e.site_buckets ≡ (
            if counts && (other == bucket && ltb (count_at other d.site_buckets) max_int64)
            then count_at other d.site_buckets + 1
            else count_at other d.site_buckets))
  unfolding count_site add_bucket_count count_at
  count_at-count_site d e bucket other false h = ground arith
  count_at-count_site d e bucket other true h =
      ground (arith, lookup-insert bucket other (count_at bucket d.site_buckets + 1) d.site_buckets)

  count_site_full :
      (d : Detector) (bucket other : ℕ) (counts : Bool)
      → count_site d bucket counts ≡ none
      → count_at other d.site_buckets ≡ (
          if counts && (other == bucket && ltb (count_at other d.site_buckets) max_int64)
          then count_at other d.site_buckets + 1
          else count_at other d.site_buckets)
  unfolding count_site add_bucket_count
  count_site_full d bucket other false h = ground arith
  count_site_full d bucket other true h = elim (Bool-cases (other == bucket)) [
    | inl same ↦ let e : other ≡ bucket = ground arith in rw e (ground arith)
    | inr apart ↦ ground arith
  ]

  observe_fresh-Counted :
      (d : Detector) (r : ProtectionRecord) → Counted d r (observe_fresh sha64 d r).0
  unfolding observe_fresh
  observe_fresh-Counted d r =
      let fresh = record d { fresh_since_evaluation = true } in
      let a = classify_accounting r.event.status r.limit_req_status in
      let bucket = bucket_of d r in
      elim (Option-cases (count_site fresh bucket a.denominator)) [
        | inl full ↦
            rw (full, observe_fresh)
              (record {
                fresh = refl;
                site = λ other. count_site_full fresh bucket other a.denominator full;
              })
        | inr (counted, e) ↦
            let same = observe_counted-SameSite counted r bucket a in
            rw (e, observe_fresh)
              (record {
                fresh = same.fresh ∙ (count_at-count_site fresh counted bucket 0 a.denominator e).0;
                site = λ other.
                    ap (count_at other) same.site
                    ∙ (count_at-count_site fresh counted bucket other a.denominator e).1;
              })
      ]

  Counted-timed :
      (d : Detector) (r : ProtectionRecord) (receipt : ℤ) (e : Detector)
      → Counted (timed_by d r receipt) r e
      → Counted d r e
  Counted-timed d r receipt e h = record { fresh = h.fresh; site = h.site }

  observe_taken :
      (d : Detector) (r : ProtectionRecord) (receipt : ℤ)
      → is_taken d r receipt ≡ true
      → observe sha64 d r receipt ≡ observe_fresh sha64 (timed_by d r receipt) r
  unfolding observe is_taken
  observe_taken d r receipt h = ground arith

  observe_refused :
      (d : Detector) (r : ProtectionRecord) (receipt : ℤ)
      → is_taken d r receipt ≡ false
      → Uncounted d (observe sha64 d r receipt).0
  unfolding observe is_taken
  observe_refused d r receipt h = record {
    fresh = ground arith;
    site = ground arith;
    groups = ground arith;
    attempts = ground arith;
  }

  -- A record whose times are positive, that is not from the future, whose lag is within the limit and
  -- inside the window, and whose status fits the limiter's, marks the interval as fresh; if it counts
  -- as a request to the site, the counter of its bucket is one more, unless it is at the largest int64,
  -- and every other counter of the site is as it was. Any other record leaves the mark, the counters
  -- of the site, the tracked groups and the attempts on the applied rules as they were.
  pub observe-Observed :
      (d : Detector) (r : ProtectionRecord) (receipt : ℤ)
      → Observed (is_taken d r receipt) d r (observe sha64 d r receipt).0
  observe-Observed d r receipt = elim (Bool-cases (is_taken d r receipt)) [
    | inl taken ↦
        let timed = timed_by d r receipt in
        rw (taken, observe_taken d r receipt taken)
          (Counted-timed d r receipt (observe_fresh sha64 timed r).0
            (observe_fresh-Counted timed r))
    | inr refused ↦ rw refused (observe_refused d r receipt refused)
  ]
