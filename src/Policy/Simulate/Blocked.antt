-- ===== src/Policy/Simulate/Blocked.antt =====
-- policy/simulate.go: a rule that the rate model does not cover blocks the simulation.
use crawlledger.Policy.Simulate.{Simulator, RuleRow, Shared, is_rate_limit}
use crawlledger.Policy.Simulate.Risks.{
  put_if, path_risks, zone_risk, Risk, RiskMap, rule_risks, drift_risk, is_analysis_only, risk_map,
  risks, cache_risk, all_rule_risks, coverage_risk, zone_risks, status_for, put, risk_less,
  zone_mib, impact_risk, format_int, bypass_risk, has_paths, Severity,
}
use crawlledger.Policy.Simulate.Status.{blocks, status_for-described}
use crawlledger.Policy.Simulate.Finish.{is_incomplete, is_blocked}
use crawlledger.Base.{
  ℕ, ◌≡◌, refl, ap, ◌∙◌, inl, inr, Bool, true, false, not, ◌&&◌, ◌||◌, List, [], ◌∷◌, ◌++◌, map,
  arith, ltb, ◌==◌, Bool-cases, any, Bytes, bytes, bytes_eq, has_prefix, bytes_eq_iff, Assoc,
  insert, insert_by, sort_by, nat_key, bytes_key,
}

-- The mark of a rule whose rate model is incomplete.
marks : Bytes × Risk → Bool
marks (key, r) = is_incomplete r && bytes_eq r.id key

IsOtherId : Bytes → Type 0
IsOtherId id = has_prefix id (bytes "rate-coverage-incomplete:") ≡ false

insert_keeps :
    (id : Bytes) (r : Risk) (m : RiskMap)
    → IsOtherId id
    → any marks m ≡ true
    → any marks (insert id r m) ≡ true
unfolding insert marks is_incomplete IsOtherId
insert_keeps id r [] o h = cc h
insert_keeps id r ((key, w) ∷ m) o h =
    let rest = insert_keeps id r m o in
    let same = bytes_eq_iff key id in
    let named = bytes_eq_iff w.id key in
    elim (Bool-cases (bytes_eq key id)) [
      | inr fresh ↦ rw fresh (ground (arith, rest))
      | inl known ↦ rw known (elim (Bool-cases (marks (key, w))) [
        | inr plain ↦ ground arith
        | inl marked ↦
            let e1 : w.id ≡ key = named.0 (ground arith) in
            let e2 : key ≡ id = same.0 known in
            let p : has_prefix w.id (bytes "rate-coverage-incomplete:") ≡ true = ground arith in
            cc (rw (e1, e2) at p, o)
      ])
    ]

insert-marks :
    (id : Bytes) (r : Risk) (m : RiskMap)
    → r.id ≡ id
    → is_incomplete r ≡ true
    → any marks (insert id r m) ≡ true
unfolding insert marks
insert-marks id r [] e h = let own = (bytes_eq_iff r.id id).1 e in ground arith
insert-marks id r ((key, w) ∷ m) e h =
    let rest = insert-marks id r m e h in
    let same = bytes_eq_iff key id in let own = bytes_eq_iff r.id key in ground arith

put_if_keeps :
    (test : Bool) (id : Bytes) (severity : Severity) (ack : Bool) (message : Bytes) (m : RiskMap)
    → IsOtherId id
    → any marks m ≡ true
    → any marks (put_if test id severity ack message m) ≡ true
unfolding put_if put
put_if_keeps true id severity ack message m o h = insert_keeps id _ m o h
put_if_keeps false id severity ack message m o h = h

drift_risk_keeps :
    (s : Shared) (row : RuleRow) (m : RiskMap)
    → any marks m ≡ true
    → any marks (drift_risk s row m) ≡ true
unfolding drift_risk put IsOtherId has_prefix
drift_risk_keeps s row m h =
    elim (Bool-cases (has_paths row && any (bytes_eq row.rule.id) s.path_ambiguous)) [
      | inl dynamic ↦
          rw dynamic (insert_keeps (bytes "path-normalization-drift:" ++ row.rule.id) _ m refl h)
      | inr static ↦
          rw static
            (put_if_keeps _ (bytes "path-normalization-drift:" ++ row.rule.id) _ _ _ m refl h)
    ]

before_coverage_keeps :
    (s : Shared) (row : RuleRow) (later : List RuleRow) (m : RiskMap)
    → any marks m ≡ true
    → any marks (drift_risk s row (bypass_risk row later (impact_risk s row (path_risks s row m))))
      ≡ true
unfolding path_risks impact_risk bypass_risk IsOtherId has_prefix
before_coverage_keeps s row later m h = drift_risk_keeps s row _ (
    put_if_keeps _ (bytes "claimed-allow-bypass:" ++ row.rule.id) _ _ _ _ refl (
      put_if_keeps _ (bytes "high-impact:" ++ row.rule.id) _ _ _ _ refl (
        put_if_keeps _ (bytes "path-deny-unclassified:" ++ row.rule.id) _ _ _ _ refl
          (put_if_keeps _ (bytes "broad-root-match:" ++ row.rule.id) _ _ _ m refl h))))

cache_risk_keeps :
    (row : RuleRow) (m : RiskMap) → any marks m ≡ true → any marks (cache_risk row m) ≡ true
unfolding cache_risk IsOtherId has_prefix
cache_risk_keeps row m h =
    put_if_keeps _ (bytes "analysis-only-cache:" ++ row.rule.id) _ _ _ m refl h

-- The test of the source for a rule that the rate model does not cover.
abbrev pub uncovered : RuleRow → Bool
uncovered row = is_rate_limit row.rule.action.kind && not (row.modeled == row.rate_matched)

coverage_risk-marks :
    (row : RuleRow) (m : RiskMap) → uncovered row ≡ true → any marks (coverage_risk row m) ≡ true
unfolding coverage_risk put_if put is_incomplete has_prefix
coverage_risk-marks row m u =
    rw u (insert-marks (bytes "rate-coverage-incomplete:" ++ row.rule.id) _ m refl refl)

coverage_risk_keeps :
    (row : RuleRow) (m : RiskMap) → any marks m ≡ true → any marks (coverage_risk row m) ≡ true
unfolding coverage_risk put_if
coverage_risk_keeps row m h = elim (Bool-cases (uncovered row)) [
  | inl u ↦ coverage_risk-marks row m u
  | inr covered ↦ rw covered h
]

rule_risks_keeps :
    (s : Shared) (row : RuleRow) (later : List RuleRow) (m : RiskMap)
    → any marks m ≡ true
    → any marks (rule_risks s row later m) ≡ true
unfolding rule_risks
rule_risks_keeps s row later m h =
    cache_risk_keeps row _ (coverage_risk_keeps row _ (before_coverage_keeps s row later m h))

all_rule_risks_keeps :
    (s : Shared) (rows : List RuleRow) (m : RiskMap)
    → any marks m ≡ true
    → any marks (all_rule_risks s rows m) ≡ true
unfolding all_rule_risks
all_rule_risks_keeps s [] m h = h
all_rule_risks_keeps s (row ∷ rows) m h =
    all_rule_risks_keeps s rows _ (rule_risks_keeps s row rows m h)

all_rule_risks-marks :
    (s : Shared) (rows : List RuleRow) (m : RiskMap)
    → any uncovered rows ≡ true
    → any marks (all_rule_risks s rows m) ≡ true
unfolding all_rule_risks rule_risks
all_rule_risks-marks s [] m h = cc h
all_rule_risks-marks s (row ∷ rows) m h = elim (Bool-cases (uncovered row)) [
  | inl u ↦ all_rule_risks_keeps s rows _ (cache_risk_keeps row _ (coverage_risk-marks row _ u))
  | inr covered ↦ all_rule_risks-marks s rows _ (rw covered at h)
]

zone_risk_keeps :
    (profile : Bytes) (zone : ℕ) (m : RiskMap)
    → any marks m ≡ true
    → any marks (zone_risk profile zone m) ≡ true
unfolding zone_risk put IsOtherId has_prefix
zone_risk_keeps profile zone m h = elim (Bool-cases (ltb 256 zone)) [
  | inl large ↦ rw large (insert_keeps (bytes "nginx-zone-too-large:" ++ profile) _ m refl h)
  | inr small ↦ rw small (
      put_if_keeps _ (bytes "nginx-zone-memory:" ++ (profile ++ bytes ":" ++ format_int zone)) _ _ _
        m refl h)
]

zone_risks_keeps :
    (states : Assoc Bytes ℕ) (m : RiskMap)
    → any marks m ≡ true
    → any marks (zone_risks states m) ≡ true
unfolding zone_risks
zone_risks_keeps [] m h = h
zone_risks_keeps ((profile, n) ∷ rest) m h =
    zone_risks_keeps rest _ (zone_risk_keeps profile (zone_mib n) m h)

risk_map-marks : (s : Simulator) → any uncovered s.rows ≡ true → any marks (risk_map s) ≡ true
unfolding risk_map
risk_map-marks s h = zone_risks_keeps s.observed_states _ (all_rule_risks-marks s.shared s.rows _ h)

any-insert_by :
    (less : Risk → Risk → Bool) (p : Risk → Bool) (r : Risk) (rs : List Risk)
    → any p (insert_by less r rs) ≡ any p (r ∷ rs)
unfolding insert_by
any-insert_by less p r [] = refl
any-insert_by less p r (q ∷ qs) = ground (arith, any-insert_by less p r qs)

any-sort_by :
    (less : Risk → Risk → Bool) (p : Risk → Bool) (rs : List Risk)
    → any p (sort_by less rs) ≡ any p rs
unfolding sort_by
any-sort_by less p [] = refl
any-sort_by less p (r ∷ rs) =
    any-insert_by less p r (sort_by less rs) ∙ ap (λ b. p r || b) (any-sort_by less p rs)

any-marks :
    (m : RiskMap)
    → any marks m ≡ true
    → any is_incomplete (map (λ (entry : Bytes × Risk). entry.1) m) ≡ true
unfolding marks
any-marks [] h = cc h
any-marks ((key, r) ∷ m) h = let rest = any-marks m in ground (arith, rest)

-- A rate limit whose requests the rate model does not cover gives its risk.
pub any-risks : (s : Simulator) → any uncovered s.rows ≡ true → any is_incomplete (risks s) ≡ true
unfolding risks
any-risks s h = any-sort_by risk_less is_incomplete _ ∙ any-marks (risk_map s) (risk_map-marks s h)

is_incomplete-blocks : (r : Risk) → is_incomplete r ≡ true → blocks r ≡ true
unfolding is_incomplete is_analysis_only has_prefix
is_incomplete-blocks r h = ground arith

any-blocks : (rs : List Risk) → any is_incomplete rs ≡ true → any blocks rs ≡ true
any-blocks [] h = cc h
any-blocks (r ∷ rs) h =
    let rest = any-blocks rs in let own = is_incomplete-blocks r in ground (arith, rest, own)

pub status_for-blocked :
    (s : Simulator) → any uncovered s.rows ≡ true → is_blocked (status_for (risks s)) ≡ true
unfolding is_blocked
status_for-blocked s h =
    let b = any-blocks (risks s) (any-risks s h) in rw (status_for-described (risks s), b) refl
