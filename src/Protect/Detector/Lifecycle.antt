-- ===== src/Protect/Detector/Lifecycle.antt =====
-- `NewDetector`: the checks that a detector starts from.
pub mod Reachable
use crawlledger.Domain.Text.{lower_digest, site_matches}
use crawlledger.Protect.Config.{Config, ConfigError, validate_settings}
use crawlledger.Protect.Config.Bounds.{IsReadyConfig, validate_settings-IsReadyConfig}
use crawlledger.Protect.State.{State, StateError, Rule, validate_state, project_rules}
use crawlledger.Protect.Baseline.Series.{Baseline}
use crawlledger.Protect.Detector.Health.{healthy}
use crawlledger.Protect.Detector.Paths.{action_excluded}
use crawlledger.Protect.Detector.Types.{Detector, no_rejections}
use crawlledger.Base.{
  ◌≤◌, ◌≡◌, refl, inl, inr, Bool, false, not, ◌||◌, Option, none, some, List, [], ◌∷◌, arith, ltb,
  if◌then◌else◌, Bool-cases, Result, ok, err, ◌>>◌, >>=-eq-ok, length, set, Bytes, bytes_eq,
  nat_key, bytes_key,
}

pub data StartError : Type 0 where
  detector_identity detector_baseline digest_mismatch active_capacity excluded_rule : StartError
  settings : ConfigError → StartError
  started_state : StateError → StartError

same_digest : Option Bytes → Bytes → Bool
same_digest none digest = false
same_digest (some d) digest = bytes_eq d digest

unfoldable pub any_excluded : Config → List Rule → Bool
any_excluded c [] = false
any_excluded c (r ∷ rs) = action_excluded c r.method r.path_prefix || any_excluded c rs

abbrev pub fresh_detector : Config → Baseline → State → Detector
fresh_detector c b s = record {
  config = c;
  baseline = b;
  state = s;
  groups = [];
  site_buckets = [];
  attempt_buckets = [];
  health = healthy;
  data_since_evaluation = false;
  fresh_since_evaluation = false;
  capacity_since_evaluation = false;
  max_event_lag_us = 0;
  rejected_records = no_rejections;
  last_evaluation_us = 0;
  last_applied_us = 0;
  applied_rules = project_rules s.rules;
}

abbrev pub or_settings : Result ConfigError (Unit {0}) → Result StartError (Unit {0})
or_settings (ok u) = ok u
or_settings (err e) = err (settings e)

abbrev pub or_state : Result StateError (Unit {0}) → Result StartError (Unit {0})
or_state (ok u) = ok u
or_state (err e) = err (started_state e)

-- The tests behind the validations.
unfoldable pub start_checks : Config → Bytes → Baseline → State → Result StartError Detector
unfolding same_digest
start_checks c digest b s =
    if not (bytes_eq s.site c.site)
      || not (bytes_eq s.config_sha256 digest)
      || not (same_digest s.baseline_manifest_sha256 b.manifest_sha256)
    then err digest_mismatch
    else if ltb c.action.max_active_rules (length s.rules)
    then err active_capacity
    else if any_excluded c s.rules
    then err excluded_rule
    else ok (fresh_detector c b s)

unfoldable pub new_detector : Config → Bytes → Baseline → State → Result StartError Detector
new_detector c digest b s =
    if not (site_matches c.site) || not (lower_digest digest) then err detector_identity else do
      or_settings (validate_settings c)
      if not (lower_digest b.manifest_sha256)
          then err detector_baseline
          else do or_state (validate_state s); start_checks c digest b s

-- What every successful start guarantees.
pub record IsStarted (d : Detector) : Type 0 where
  pub settings_ready : IsReadyConfig d.config
  pub state_valid : validate_state d.state ≡ ok tt
  pub within_capacity : length d.state.rules ≤ d.config.action.max_active_rules
  pub none_excluded : any_excluded d.config d.state.rules ≡ false
  pub applied : d.applied_rules ≡ project_rules d.state.rules

start_checks-IsStarted :
    (c : Config) (digest : Bytes) (b : Baseline) (s : State) (d : Detector)
    → IsReadyConfig c
    → validate_state s ≡ ok tt
    → start_checks c digest b s ≡ ok d
    → IsStarted d
unfolding start_checks
start_checks-IsStarted c digest b s d ready valid h =
    let capacity : length s.rules ≤ c.action.max_active_rules = ground arith in
    let allowed : any_excluded c s.rules ≡ false = ground arith in
    let e : fresh_detector c b s ≡ d = ground arith in
    rw (← e) (record {
      settings_ready = ready;
      state_valid = valid;
      within_capacity = capacity;
      none_excluded = allowed;
      applied = refl;
    })

or_settings-ok : (r : Result ConfigError (Unit {0})) → or_settings r ≡ ok tt → r ≡ ok tt
or_settings-ok (ok tt) h = refl
or_settings-ok (err e) h = cc h

or_state-ok : (r : Result StateError (Unit {0})) → or_state r ≡ ok tt → r ≡ ok tt
or_state-ok (ok tt) h = refl
or_state-ok (err e) h = cc h

-- A detector that starts has sound settings with a positive time to live and a valid state, whose
-- rules are within their capacity and touch no excluded path; and it takes these rules as the
-- ones applied.
pub new_detector-IsStarted :
    (c : Config) (digest : Bytes) (b : Baseline) (s : State) (d : Detector)
    → new_detector c digest b s ≡ ok d
    → IsStarted d
unfolding new_detector
new_detector-IsStarted c digest b s d h =
    elim (Bool-cases (not (site_matches c.site) || not (lower_digest digest))) [
      | inl bad ↦ cc (rw bad at h)
      | inr good ↦
          let (_, set, rest) = >>=-eq-ok (or_settings (validate_settings c)) _ (rw good at h) in
          elim (Bool-cases (not (lower_digest b.manifest_sha256))) [
            | inl bad ↦ cc (rw bad at rest)
            | inr known ↦
                let (_, valid, last) =
                  >>=-eq-ok (or_state (validate_state s)) _ (rw known at rest) in
                start_checks-IsStarted c digest b s d
                  (validate_settings-IsReadyConfig c (or_settings-ok (validate_settings c) set))
                  (or_state-ok (validate_state s) valid) last
          ]
    ]
