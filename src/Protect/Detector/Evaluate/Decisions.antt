-- ===== src/Protect/Detector/Evaluate/Decisions.antt =====
-- What an evaluation leaves in force.
use crawlledger.Protect.State.{Rule, State}
use crawlledger.Protect.Detector.Buckets.{sum_counts}
use crawlledger.Protect.Detector.Types.{
  Detector, DetectorError, DetectorEvent, time_must_increase, time_not_aligned, microseconds,
}
use crawlledger.Protect.Detector.Groups.{prune, Evaluated, evaluate_groups}
use crawlledger.Protect.Detector.Groups.Verdicts.{evaluate_groups-not_allowed}
use crawlledger.Protect.Detector.Rules.{make_proposals, propose_all, compact_reasons, update_rules}
use crawlledger.Protect.Detector.Rules.Lifetimes.{
  IsSettled, update_rules-IsSettled, update_rules-not_allowed, update_rules-config,
}
use crawlledger.Protect.Detector.Evaluate.{
  Decision, activation_allowed, decide, conclude, evaluate_rules, evaluate,
}
use crawlledger.Base.{
  ℕ, ◌%◌, ◌≤◌, ◌<◌, ◌≡◌, refl, sym, ap, ◌∙◌, ◌⊎◌, inl, inr, Bool, false, not, ◌||◌, Option, none,
  some, List, [], arith, leb, ◌==◌, Bool-cases, Result, ok, err, length, All, nat_key, bytes_key,
}

record SameBasis (d e : Detector) : Type 0 where
  state : e.state ≡ d.state
  config : e.config ≡ d.config

evaluate_groups-SameBasis :
    (d : Detector) (allowed : Bool) → SameBasis d (evaluate_groups d allowed).0
unfolding evaluate_groups
evaluate_groups-SameBasis d allowed = with_sum (sum_counts d.site_buckets) refl
  where
    with_sum :
        (o : Option ℕ) → sum_counts d.site_buckets ≡ o → SameBasis d (evaluate_groups d allowed).0
    with_sum none k = rw (k, evaluate_groups) (record { state = refl; config = refl })
    with_sum (some n) k = rw (k, evaluate_groups) (record { state = refl; config = refl })

-- A conclusion hands on the state of the update, also where the update fails.
conclude-state :
    (before : Detector) (evaluation_us : ℕ) (q : Evaluated)
    (u : Detector × Result DetectorError (List DetectorEvent))
    → (conclude before evaluation_us q u).0.state ≡ u.0.state
unfolding conclude
conclude-state before evaluation_us q (after, err e) = refl
conclude-state before evaluation_us q (after, ok events) = refl

abbrev state_in : Result DetectorError Decision → Option State
state_in (ok decision) = some decision.state
state_in (err e) = none

conclude-ok :
    (before : Detector) (evaluation_us : ℕ) (q : Evaluated)
    (u : Detector × Result DetectorError (List DetectorEvent)) (decision : Decision)
    → (conclude before evaluation_us q u).1 ≡ ok decision
    → (events : List DetectorEvent) × (u.1 ≡ ok events) × (decision.state ≡ u.0.state)
unfolding conclude decide
conclude-ok before evaluation_us q (after, err e) decision h = cc h
conclude-ok before evaluation_us q (after, ok events) decision h =
    let k = ap state_in h in (events, refl, sym (ground arith))

-- What an evaluation leaves: the rules in force are valid, unexpired and within their number,
-- and they are the decision's.
pub record IsEvaluated (d e : Detector) (evaluation_us : ℕ) (decision : Decision) : Type 0 where
  pub settled : IsSettled d e evaluation_us
  pub decided : decision.state ≡ e.state

evaluate_rules-IsEvaluated :
    (before grouped : Detector) (evaluation_us : ℕ) (o : Result DetectorError Evaluated)
    (decision : Decision)
    → 0 < grouped.config.action.ttl_seconds
    → length grouped.state.rules ≤ grouped.config.action.max_active_rules
    → (evaluate_rules before grouped evaluation_us o).1 ≡ ok decision
    → IsEvaluated grouped (evaluate_rules before grouped evaluation_us o).0 evaluation_us decision
unfolding evaluate_rules
evaluate_rules-IsEvaluated before grouped evaluation_us (err e) decision ttl bound h = cc h
evaluate_rules-IsEvaluated before grouped evaluation_us (ok q) decision ttl bound h =
    let allowed = activation_allowed before in
    let ps = make_proposals q.qualifications in
    let u = update_rules grouped evaluation_us allowed ps in
    let (events, updated, decided) = conclude-ok before evaluation_us q u decision h in
    let same = conclude-state before evaluation_us q u in
    let s = update_rules-IsSettled grouped evaluation_us allowed ps events ttl bound updated in
    record {
      settled = record {
        unexpired = rw same s.unexpired;
        bounded = rw same s.bounded;
        validated = rw same s.validated;
      };
      decided = decided ∙ sym same;
    }

evaluate_rules-not_allowed :
    (P : Rule → Type 0) (before grouped : Detector) (evaluation_us : ℕ)
    (o : Result DetectorError Evaluated)
    → activation_allowed before ≡ false
    → All P grouped.state.rules
    → ((q : Evaluated) → o ≡ ok q → q.qualifications ≡ [])
    → All P (evaluate_rules before grouped evaluation_us o).0.state.rules
unfolding evaluate_rules make_proposals propose_all compact_reasons
evaluate_rules-not_allowed P before grouped evaluation_us (err e) h a n = a
evaluate_rules-not_allowed P before grouped evaluation_us (ok q) h a n =
    let none_proposed : make_proposals q.qualifications ≡ [] = rw (n q refl) refl in
    rw (conclude-state before evaluation_us q _, h, none_proposed)
      (update_rules-not_allowed P grouped evaluation_us a)

-- An evaluation refuses its time, or it runs on the pruned detector.
evaluate-cases :
    (d : Detector) (evaluation_us : ℕ)
    → ((e : DetectorError) × (evaluate d evaluation_us ≡ (d, err e)))
      ⊎ (let pruned = prune d evaluation_us in
          let allowed = activation_allowed pruned in
          let r = evaluate_groups pruned allowed in
          evaluate d evaluation_us ≡ evaluate_rules pruned r.0 evaluation_us r.1)
unfolding evaluate
evaluate-cases d evaluation_us =
    elim (Bool-cases (leb evaluation_us d.last_evaluation_us || evaluation_us == 0)) [
      | inl late ↦ inl (time_must_increase, rw late refl)
      | inr due ↦
          elim (Bool-cases (
            not
              (evaluation_us % microseconds d.config.detection.evaluation_interval_seconds == 0))) [
                | inl odd ↦ inl (time_not_aligned, rw (due, odd) refl)
                | inr aligned ↦ inr (rw (due, aligned) refl)
              ]
    ]

conclude-config :
    (before : Detector) (evaluation_us : ℕ) (q : Evaluated)
    (u : Detector × Result DetectorError (List DetectorEvent))
    → (conclude before evaluation_us q u).0.config ≡ u.0.config
unfolding conclude
conclude-config before evaluation_us q (after, err e) = refl
conclude-config before evaluation_us q (after, ok events) = refl

evaluate_rules-config :
    (before grouped : Detector) (evaluation_us : ℕ) (o : Result DetectorError Evaluated)
    → (evaluate_rules before grouped evaluation_us o).0.config ≡ grouped.config
unfolding evaluate_rules
evaluate_rules-config before grouped evaluation_us (err e) = refl
evaluate_rules-config before grouped evaluation_us (ok q) =
    let allowed = activation_allowed before in
    let ps = make_proposals q.qualifications in
    conclude-config before evaluation_us q (update_rules grouped evaluation_us allowed ps)
    ∙ update_rules-config grouped evaluation_us allowed ps

-- An evaluation never changes the settings.
pub evaluate-config :
    (d : Detector) (evaluation_us : ℕ) → (evaluate d evaluation_us).0.config ≡ d.config
unfolding prune
evaluate-config d evaluation_us = elim (evaluate-cases d evaluation_us) [
  | inl (e, refused) ↦ rw refused refl
  | inr ran ↦
      let pruned = prune d evaluation_us in
      let allowed = activation_allowed pruned in
      let r = evaluate_groups pruned allowed in
      let basis = evaluate_groups-SameBasis pruned allowed in
      rw ran (evaluate_rules-config pruned r.0 evaluation_us r.1 ∙ basis.config)
]

-- A successful evaluation with a positive time to live, from a state within the capacity for
-- rules, leaves a state that passes the validation, in which every rule expires after the
-- evaluation and the rules are within the capacity; and this is the state of the decision.
pub evaluate-IsEvaluated :
    (d : Detector) (evaluation_us : ℕ) (decision : Decision)
    → 0 < d.config.action.ttl_seconds
    → length d.state.rules ≤ d.config.action.max_active_rules
    → (evaluate d evaluation_us).1 ≡ ok decision
    → IsEvaluated d (evaluate d evaluation_us).0 evaluation_us decision
unfolding prune
evaluate-IsEvaluated d evaluation_us decision ttl bound h = elim (evaluate-cases d evaluation_us) [
  | inl (e, refused) ↦ cc (rw refused at h)
  | inr ran ↦
      let pruned = prune d evaluation_us in
      let allowed = activation_allowed pruned in
      let r = evaluate_groups pruned allowed in
      let basis = evaluate_groups-SameBasis pruned allowed in
      let done =
        evaluate_rules-IsEvaluated pruned r.0 evaluation_us r.1 decision (rw basis.config ttl)
          (rw (basis.state, basis.config) bound) (rw ran at h) in
      rw ran (record {
        settled = record {
          unexpired = done.settled.unexpired;
          bounded = rw basis.config at done.settled.bounded;
          validated = done.settled.validated;
        };
        decided = done.decided;
      })
]

-- While rules may not be started, because the sensor is suspended or no fresh record was read,
-- an evaluation starts, extends and changes no rule: whatever holds of every rule before holds
-- of every rule after, whether the evaluation succeeds or fails.
pub evaluate-not_allowed :
    (P : Rule → Type 0) (d : Detector) (evaluation_us : ℕ)
    → activation_allowed d ≡ false
    → All P d.state.rules
    → All P (evaluate d evaluation_us).0.state.rules
unfolding prune
evaluate-not_allowed P d evaluation_us h a = elim (evaluate-cases d evaluation_us) [
  | inl (e, refused) ↦ rw refused a
  | inr ran ↦
      let pruned = prune d evaluation_us in
      let r = evaluate_groups pruned false in
      let basis = evaluate_groups-SameBasis pruned false in
      rw (ran, h)
        (evaluate_rules-not_allowed P pruned r.0 evaluation_us r.1 h (rw basis.state a)
          (evaluate_groups-not_allowed pruned))
]
