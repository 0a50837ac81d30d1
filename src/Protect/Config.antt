-- ===== src/Protect/Config.antt =====
-- internal/protect/config.go: the settings of the detector and their validation. An int is a
-- natural number: every check of a range refuses the negative ones.
pub mod Bounds
use crawlledger.Domain.Text.{valid_method, valid_actionable}
use crawlledger.Base.{
  ℕ, ◌+◌, ◌*◌, ◌/◌, ◌%◌, ◌^◌, Bool, not, ◌||◌, List, [], ◌∷◌, ltb, ◌==◌, if◌then◌else◌, Result, ok,
  err, ◌>>=◌, ◌>>◌, any, Bytes, bytes, bytes_eq,
}

pub record Detection : Type 0 where
  pub window_seconds : ℕ
  pub evaluation_interval_seconds : ℕ
  pub required_consecutive_evaluations : ℕ
  pub max_event_lag_seconds : ℕ
  pub baseline_multiplier : ℕ
  pub volume_min_requests : ℕ
  pub volume_min_site_share_ppm : ℕ
  pub distributed_min_requests : ℕ
  pub distributed_min_clients : ℕ
  pub distributed_min_client_ratio_ppm : ℕ
  pub distributed_min_upstream_coverage_ppm : ℕ
  pub distributed_min_upstream_us : ℕ
  pub distributed_min_average_upstream_us : ℕ
  pub max_tracked_groups : ℕ

pub record Action : Type 0 where
  pub ttl_seconds : ℕ
  pub rate_requests_per_second : ℕ
  pub burst : ℕ
  pub max_active_rules : ℕ
  pub min_reload_interval_seconds : ℕ

pub record Exclusions : Type 0 where
  pub methods : List Bytes
  pub path_prefixes : List Bytes

pub record Config : Type 0 where
  pub site : Bytes
  pub max_log_line_bytes : ℕ
  pub detection : Detection
  pub action : Action
  pub exclusions : Exclusions

pub data ConfigError : Type 0 where
  out_of_range : Bytes → ConfigError
  interval_must_divide_window clients_exceed_requests bucket_capacity : ConfigError
  ttl_shorter_than_window reload_exceeds_ttl : ConfigError
  invalid_value duplicate_value : Bytes → ConfigError

pub record Check : Type 0 where
  pub name : Bytes
  pub value : ℕ
  pub minimum : ℕ
  pub maximum : ℕ

abbrev check : Bytes → ℕ → ℕ → ℕ → Check
check n v lo hi = record { name = n; value = v; minimum = lo; maximum = hi }

-- The loop over a table of checks: the first value out of its range is the error.
unfoldable pub check_ranges : List Check → Result ConfigError (Unit {0})
check_ranges [] = ok tt
check_ranges (c ∷ cs) =
    if ltb c.value c.minimum || ltb c.maximum c.value
    then err (out_of_range c.name)
    else check_ranges cs

abbrev detection_checks : Config → List Check
detection_checks c =
    let d = c.detection in
    check (bytes "runtime.max_log_line_bytes") c.max_log_line_bytes 4096 (16 * 2 ^ 20)
    ∷ check (bytes "detection.window_seconds") d.window_seconds 10 300
    ∷ check (bytes "detection.evaluation_interval_seconds") d.evaluation_interval_seconds 1 60
    ∷ check (bytes "detection.required_consecutive_evaluations") d.required_consecutive_evaluations
        1 6
    ∷ check (bytes "detection.max_event_lag_seconds") d.max_event_lag_seconds 30 3600
    ∷ check (bytes "detection.baseline_multiplier") d.baseline_multiplier 2 100
    ∷ check (bytes "detection.volume_min_requests") d.volume_min_requests 1 10000000
    ∷ check (bytes "detection.volume_min_site_share_ppm") d.volume_min_site_share_ppm 1 1000000
    ∷ check (bytes "detection.distributed_min_requests") d.distributed_min_requests 1 10000000
    ∷ check (bytes "detection.distributed_min_clients") d.distributed_min_clients 1 10000000
    ∷ check (bytes "detection.distributed_min_client_ratio_ppm") d.distributed_min_client_ratio_ppm
        1 1000000
    ∷ check (bytes "detection.distributed_min_upstream_coverage_ppm")
        d.distributed_min_upstream_coverage_ppm 1 1000000
    ∷ check (bytes "detection.distributed_min_upstream_us") d.distributed_min_upstream_us 1
        86400000000
    ∷ check (bytes "detection.distributed_min_average_upstream_us")
        d.distributed_min_average_upstream_us 1 60000000
    ∷ check (bytes "detection.max_tracked_groups") d.max_tracked_groups 100 100000
    ∷ []

-- The tests behind the table.
unfoldable pub detection_relations : Detection → Result ConfigError (Unit {0})
detection_relations d =
    if not (d.window_seconds % d.evaluation_interval_seconds == 0)
    then err interval_must_divide_window
    else if ltb d.distributed_min_requests d.distributed_min_clients
    then err clients_exceed_requests
    else let buckets = d.window_seconds / d.evaluation_interval_seconds + 1 in
      if ltb (100000 / buckets) d.max_tracked_groups then err bucket_capacity else ok tt

unfoldable pub validate_detection : Config → Result ConfigError (Unit {0})
validate_detection c = do check_ranges (detection_checks c); detection_relations c.detection

abbrev action_checks : Action → List Check
action_checks a =
    check (bytes "action.ttl_seconds") a.ttl_seconds 60 86400
    ∷ check (bytes "action.rate_requests_per_second") a.rate_requests_per_second 1 10000
    ∷ check (bytes "action.burst") a.burst 0 100000
    ∷ check (bytes "action.max_active_rules") a.max_active_rules 1 128
    ∷ check (bytes "action.min_reload_interval_seconds") a.min_reload_interval_seconds 1 60
    ∷ []

unfoldable pub action_relations : Config → Result ConfigError (Unit {0})
action_relations c =
    if ltb c.action.ttl_seconds c.detection.window_seconds
    then err ttl_shorter_than_window
    else if ltb c.action.ttl_seconds c.action.min_reload_interval_seconds
    then err reload_exceeds_ttl
    else ok tt

unfoldable pub validate_action : Config → Result ConfigError (Unit {0})
validate_action c = do check_ranges (action_checks c.action); action_relations c

-- `validateUnique`, with the values seen so far.
validate_unique_from :
    List Bytes → List Bytes → (Bytes → Bool) → Bytes → Result ConfigError (Unit {0})
validate_unique_from seen [] valid name = ok tt
validate_unique_from seen (v ∷ vs) valid name =
    if not (valid v)
    then err (invalid_value name)
    else if any (bytes_eq v) seen
    then err (duplicate_value name)
    else validate_unique_from (v ∷ seen) vs valid name

unfoldable pub validate_unique : List Bytes → (Bytes → Bool) → Bytes → Result ConfigError (Unit {0})
unfolding validate_unique_from
validate_unique = validate_unique_from []

-- The four validations of `NewDetector`.
unfoldable pub validate_settings : Config → Result ConfigError (Unit {0})
validate_settings c = do
  validate_detection c
  validate_action c
  validate_unique c.exclusions.methods valid_method (bytes "excluded method")
  validate_unique c.exclusions.path_prefixes valid_actionable (bytes "excluded path prefix")
