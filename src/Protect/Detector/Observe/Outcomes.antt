-- ===== src/Protect/Detector/Observe/Outcomes.antt =====
-- What a record can change.
use crawlledger.Domain.Event.{Event, time_of}
use crawlledger.Protect.Detector.Accounting.{Accounting, classify_accounting}
use crawlledger.Protect.Detector.Health.{record_health}
use crawlledger.Protect.Detector.Buckets.{bucket_end}
use crawlledger.Protect.Detector.Types.{ProtectionRecord, Detector, TrackedGroup, microseconds}
use crawlledger.Protect.Detector.Observe.{
  observe_counted, observe_refresh, observe, observe_fresh, observe_eligible, observe_candidate,
  observe_volume, observe_shape, observe_group, register_group, new_group, group_key, store_group,
  mark_shape, or_no_bytes, count_site,
}
use crawlledger.Base.{
  ℕ, ◌-◌, ◌≤◌, max, ◌≡◌, refl, inl, inr, Bool, true, false, Option, none, some, arith, Bool-cases,
  Option-cases, length, ℤ, pos_part, Bytes, bytes, bytes_eq_refl, lookup, lookup-insert,
  length-insert, length-insert_known, nat_key, bytes_key,
}

-- The parts of a detector that no record changes.
pub record SameRules (d e : Detector) : Type 0 where
  pub config : e.config ≡ d.config
  pub state : e.state ≡ d.state
  pub applied : e.applied_rules ≡ d.applied_rules

abbrev pub WithinCapacity : Detector → Type 0
WithinCapacity d = length d.groups ≤ d.config.detection.max_tracked_groups

abbrev pub Keeps : Detector → Detector → Type 0
Keeps d e = SameRules d e × (WithinCapacity d → WithinCapacity e)

register_group-Keeps :
    (d : Detector) (kind method path prefix : Bytes)
    → Keeps d (register_group d kind method path prefix).0
unfolding register_group
register_group-Keeps d kind method path prefix =
    let grown =
      length-insert (group_key kind method path) (new_group kind method path prefix) d.groups in
    ground (arith, grown)

-- The group that is handed on stands in the map under its key.
register_group-lookup :
    (d : Detector) (kind method path prefix : Bytes) (g : TrackedGroup)
    → (register_group d kind method path prefix).1 ≡ some g
    → lookup (group_key kind method path) (register_group d kind method path prefix).0.groups
      ≡ some g
unfolding register_group
register_group-lookup d kind method path prefix g h =
    let key = group_key kind method path in
    let fresh = new_group kind method path prefix in
    ground (arith, lookup-insert key key fresh d.groups, bytes_eq_refl key)

Keeps-trans : (d e f : Detector) → Keeps d e → Keeps e f → Keeps d f
Keeps-trans d e f h k = ground arith

store_group-Keeps :
    (d : Detector) (key : Bytes) (g h : TrackedGroup)
    → lookup key d.groups ≡ some g
    → Keeps d (store_group d key h)
unfolding store_group
store_group-Keeps d key g h known = ground (arith, length-insert_known key h g d.groups known)

-- The detector as `observe` hands it on when a record passes its tests.
abbrev pub timed_by : Detector → ProtectionRecord → ℤ → Detector
timed_by d r receipt = record d {
  data_since_evaluation = true;
  health = record_health d.health false;
  max_event_lag_us = max d.max_event_lag_us (pos_part receipt - (time_of r.event));
}

module _ (sha64 : Bytes → ℕ) where
  observe_group-Keeps :
      (d : Detector) (key : Bytes) (o : Option TrackedGroup) (bucket : ℕ) (event : Event)
      → ((g : TrackedGroup) → o ≡ some g → (h : TrackedGroup) × (lookup key d.groups ≡ some h))
      → Keeps d (observe_group sha64 d key o bucket event).0
  unfolding observe_group
  observe_group-Keeps d key none bucket event known =
      (record { config = refl; state = refl; applied = refl }, λ h. h)
  observe_group-Keeps d key (some g) bucket event known =
      let (h, e) = known g refl in store_group-Keeps d key h _ e

  observe_volume-Keeps :
      (d : Detector) (event : Event) (prefix : Bytes) (bucket : ℕ)
      → Keeps d (observe_volume sha64 d event prefix bucket).0
  unfolding observe_volume
  observe_volume-Keeps d event prefix bucket =
      let (d', g) = register_group d (bytes "volume") event.method prefix prefix in
      Keeps-trans d d' _ (register_group-Keeps d (bytes "volume") event.method prefix prefix) (
        observe_group-Keeps d' _ g bucket event
          (λ h e. (h, register_group-lookup d (bytes "volume") event.method prefix prefix h e)))

  observe_shape-Keeps :
      (d : Detector) (event : Event) (prefix : Bytes) (bucket : ℕ)
      → Keeps d (observe_shape sha64 d event prefix bucket).0
  unfolding observe_shape
  observe_shape-Keeps d event prefix bucket =
      let (d', g) = register_group d (bytes "shape") event.method event.route prefix in
      Keeps-trans d d' _ (register_group-Keeps d (bytes "shape") event.method event.route prefix) (
        observe_group-Keeps d' _ (mark_shape prefix g) bucket event (
          marked g (λ h e.
            (h, register_group-lookup d (bytes "shape") event.method event.route prefix h e))))
    where
      marked :
          {P : Type 0} (o : Option TrackedGroup)
          → ((h : TrackedGroup) → o ≡ some h → P)
          → (h : TrackedGroup) → mark_shape prefix o ≡ some h
          → P
      marked none f h e = unfold mark_shape in cc
      marked (some k) f h e = f k refl

  observe_candidate-Keeps :
      (d : Detector) (event : Event) (prefix : Bytes) (bucket : ℕ)
      → Keeps d (observe_candidate sha64 d event prefix bucket).0
  unfolding observe_candidate
  observe_candidate-Keeps d event prefix bucket =
      let volume = observe_volume-Keeps d event prefix bucket in
      let d' = (observe_volume sha64 d event prefix bucket).0 in
      let shape = observe_shape-Keeps d' event prefix bucket in ground (arith, volume, shape)

  observe_eligible-Keeps :
      (d : Detector) (r : ProtectionRecord) (bucket : ℕ) (eligible : Bool)
      → Keeps d (observe_eligible sha64 d r bucket eligible).0
  unfolding observe_eligible
  observe_eligible-Keeps d r bucket eligible =
      ground
        (arith, observe_candidate-Keeps d r.event (or_no_bytes r.event.actionable_prefix) bucket)

  observe_counted-Keeps :
      (d : Detector) (r : ProtectionRecord) (bucket : ℕ) (a : Accounting)
      → Keeps d (observe_counted sha64 d r bucket a).0
  unfolding observe_counted
  observe_counted-Keeps d r bucket a =
      let attempts = observe_refresh d.applied_rules r bucket d.attempt_buckets in
      let changed = record d { attempt_buckets = attempts } in
      elim (Bool-cases a.refresh) [
        | inl refresh ↦ rw refresh (
            Keeps-trans d changed _ (record { config = refl; state = refl; applied = refl }, λ h. h)
              (observe_eligible-Keeps changed r bucket a.candidate))
        | inr plain ↦ rw plain (observe_eligible-Keeps d r bucket a.candidate)
      ]

  observe_counted-fresh :
      (d : Detector) (r : ProtectionRecord) (bucket : ℕ) (a : Accounting)
      → (observe_counted sha64 d r bucket a).1.fresh ≡ true
  unfolding observe_counted observe_eligible
  observe_counted-fresh d r bucket a = ground arith

  count_site-Keeps :
      (d e : Detector) (bucket : ℕ) (denominator : Bool)
      → count_site d bucket denominator ≡ some e
      → Keeps d e
  unfolding count_site
  count_site-Keeps d e bucket false h = ground arith
  count_site-Keeps d e bucket true h = ground arith

  pub observe_fresh-Keeps :
      (d : Detector) (r : ProtectionRecord)
      → Keeps d (observe_fresh sha64 d r).0 × ((observe_fresh sha64 d r).1.fresh ≡ true)
  unfolding observe_fresh
  observe_fresh-Keeps d r =
      let fresh = record d { fresh_since_evaluation = true } in
      let a = classify_accounting r.event.status r.limit_req_status in
      let interval = microseconds d.config.detection.evaluation_interval_seconds in
      let bucket = bucket_end interval (time_of r.event) in
      elim (Option-cases (count_site fresh bucket a.denominator)) [
        | inl full ↦
            rw (full, observe_fresh)
              ((record { config = refl; state = refl; applied = refl }, λ h. h), refl)
        | inr (counted, e) ↦
            rw (e, observe_fresh)
              (
                Keeps-trans d fresh _
                    (record { config = refl; state = refl; applied = refl }, λ h. h)
                    (Keeps-trans fresh counted _
                      (count_site-Keeps fresh counted bucket a.denominator e)
                      (observe_counted-Keeps counted r bucket a)),
                observe_counted-fresh counted r bucket a,
              )
      ]

  -- Whatever a record holds, it changes neither the config nor the state with its rules nor the
  -- applied rules, and the tracked groups stay within their capacity.
  pub observe-Keeps :
      (d : Detector) (r : ProtectionRecord) (receipt : ℤ) → Keeps d (observe sha64 d r receipt).0
  unfolding observe
  observe-Keeps d r receipt =
      let accepted = observe_fresh-Keeps (timed_by d r receipt) r in ground (arith, accepted)
