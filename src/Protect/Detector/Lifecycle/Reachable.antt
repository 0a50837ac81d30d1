-- ===== src/Protect/Detector/Lifecycle/Reachable.antt =====
-- The life of a detector: the calls of the service that reads the log, in any order.
use crawlledger.Protect.Config.{Config}
use crawlledger.Protect.Config.Bounds.{IsReadyConfig}
use crawlledger.Protect.State.{State, validate_state}
use crawlledger.Protect.Baseline.Series.{Baseline}
use crawlledger.Protect.Detector.Types.{Detector, ProtectionRecord}
use crawlledger.Protect.Detector.Observe.{observe, observe_error}
use crawlledger.Protect.Detector.Observe.Outcomes.{observe-Keeps}
use crawlledger.Protect.Detector.Evaluate.{Decision, evaluate, mark_applied}
use crawlledger.Protect.Detector.Evaluate.Decisions.{evaluate-IsEvaluated, evaluate-config}
use crawlledger.Protect.Detector.Lifecycle.{new_detector, new_detector-IsStarted}
use crawlledger.Base.{ℕ, ◌≤◌, ◌≡◌, refl, Bool, arith, ok, length, ℤ, Bytes, nat_key, bytes_key}

-- What holds of a running detector at any time.
pub record IsRunning (d : Detector) : Type 0 where
  pub ready : IsReadyConfig d.config
  pub within_capacity : length d.state.rules ≤ d.config.action.max_active_rules
  pub state_valid : validate_state d.state ≡ ok tt

IsRunning-transport :
    (d e : Detector) → e.config ≡ d.config → e.state ≡ d.state → IsRunning d → IsRunning e
IsRunning-transport d e c s h = record {
  ready = rw c h.ready;
  within_capacity = rw (c, s) h.within_capacity;
  state_valid = rw s h.state_valid;
}

module _ (sha64 : Bytes → ℕ) where
  -- An evaluation that fails ends the service.
  pub data Step : Detector → Detector → Type 0 where
    observed :
        (d : Detector) (r : ProtectionRecord) (receipt : ℤ) → Step d (observe sha64 d r receipt).0
    rejected :
        (d : Detector) (structure non_empty : Bool) → Step d (observe_error d structure non_empty)
    evaluated :
        (d : Detector) (t : ℕ) (decision : Decision)
        → (evaluate d t).1 ≡ ok decision
        → Step d (evaluate d t).0
    marked : (d : Detector) (t : ℕ) → Step d (mark_applied d t)

  -- The detectors that a start leads to.
  pub data Reaches : Detector → Detector → Type 0 where
    here : (d : Detector) → Reaches d d
    then_step : (d e f : Detector) → Reaches d e → Step e f → Reaches d f

  Step-IsRunning : (d e : Detector) → Step d e → IsRunning d → IsRunning e
  unfolding observe_error mark_applied
  Step-IsRunning d _ (observed _ r receipt) h =
      let kept = (observe-Keeps sha64 d r receipt).0 in
      IsRunning-transport d (observe sha64 d r receipt).0 kept.config kept.state h
  Step-IsRunning d _ (rejected _ structure non_empty) h =
      IsRunning-transport d (observe_error d structure non_empty) (ground arith) (ground arith) h
  Step-IsRunning d _ (evaluated _ t decision e) h =
      let done = evaluate-IsEvaluated d t decision h.ready.ttl_pos h.within_capacity e in
      let same = evaluate-config d t in
      record {
        ready = rw same h.ready;
        within_capacity = rw same done.settled.bounded;
        state_valid = done.settled.validated;
      }
  Step-IsRunning d _ (marked _ t) h = IsRunning-transport d (mark_applied d t) refl refl h

  Reaches-IsRunning : (d e : Detector) → Reaches d e → IsRunning d → IsRunning e
  Reaches-IsRunning d _ (here _) h = h
  Reaches-IsRunning d _ (then_step _ e f before step) h =
      Step-IsRunning e f step (Reaches-IsRunning d e before h)

  -- From a start on, whatever records, errors, successful evaluations and applications follow, the
  -- settings stay sound, the rules stay within their capacity and the state passes its validation.
  pub new_detector-IsRunning :
      (c : Config) (digest : Bytes) (b : Baseline) (s : State) (d e : Detector)
      → new_detector c digest b s ≡ ok d
      → Reaches d e
      → IsRunning e
  new_detector-IsRunning c digest b s d e h reaches =
      let started = new_detector-IsStarted c digest b s d h in
      Reaches-IsRunning d e reaches (record {
        ready = started.settings_ready;
        within_capacity = started.within_capacity;
        state_valid = started.state_valid;
      })
