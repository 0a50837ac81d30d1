-- ===== src/App/Simulate/Conserves.antt =====
-- app/simulate.go: the check of the sums never fails.
use crawlledger.Policy.Simulate.Risks.{risks, status_for}
use crawlledger.App.Simulate.{
  read_rows, add_subjects, Simulator, StoredRows, TrafficCell, Simulation, TrafficClass,
  new_simulator, with_code, finish, checked, run_simulation, close, conservation_failed,
  RateProfileImpact,
}
use crawlledger.Policy.Simulate.Finish.{conserves, report, run_of, rate_sums}
use crawlledger.Policy.Simulate.{add_subject_state, set_route_overflow, SimulationError, RuleRow}
use crawlledger.Policy.Simulate.Cells.{add_all, add}
use crawlledger.Catalog.{Catalog}
use crawlledger.Policy.Model.{Policy, PolicyRule, valid_kind}
use crawlledger.Policy.Validate.{validate}
use crawlledger.Policy.Simulate.Conserved.{IsBalanced, new_simulator-IsBalanced, add-IsBalanced}
use crawlledger.Policy.Simulate.Outcome.{IsRate, IsCovered, close-IsBalanced, covered_sums}
use crawlledger.Policy.Simulate.Blocked.{uncovered, any-risks, status_for-blocked}
use crawlledger.Policy.Validate.Kinds.{validate-valid_kind}
use crawlledger.Policy.Simulate.Finish.{finish, close, conserves, report}
use crawlledger.Base.{
  ◌≤◌, ◌≡◌, refl, sym, ◌∙◌, ◌≢◌, inl, inr, Bool, true, Option, List, [], ◌∷◌, arith, ltb, leb,
  Bool-cases, Result, ok, err, ◌>>=◌, >>=-eq-ok, all, any, All, ℤ, pos, negsuc, pos_part, max_int64,
  Bytes, nat_key, bytes_key,
}

-- Whether every rate limit models at most what it matched, when the simulation is closed.
abbrev pub covers : Result SimulationError Simulator → Bool
covers (err e) = true
covers (ok closed) = all (λ (row : RuleRow). leb row.modeled row.rate_matched) closed.rows

add_all-IsBalanced :
    (s : Simulator) (cells : List TrafficCell) (s' : Simulator)
    → IsBalanced s.shared s.rows
    → All (λ (cell : TrafficCell). pos_part cell.requests ≤ max_int64) cells
    → add_all s cells ≡ ok s'
    → IsBalanced s'.shared s'.rows
unfolding add_all
add_all-IsBalanced s [] s' b l h = let same : s ≡ s' = ground arith in rw (sym same) b
add_all-IsBalanced s (cell ∷ cells) s' b l h =
    let (next, m, rest) = >>=-eq-ok (add s cell) _ h in
    add_all-IsBalanced next cells s' (add-IsBalanced s cell next b l.0 m) l.1 rest

add_subject_state_keeps :
    (s : Simulator) (name : Option Bytes) (category : Option TrafficClass) (s' : Simulator)
    → add_subject_state s name category ≡ ok s'
    → (s'.shared ≡ s.shared) × (s'.rows ≡ s.rows)
unfolding add_subject_state
add_subject_state_keeps s name category s' h = (ground arith, ground arith)

add_subjects_keeps :
    (s : Simulator) (subjects : List (Option Bytes × Option TrafficClass)) (s' : Simulator)
    → add_subjects s subjects ≡ ok s'
    → (s'.shared ≡ s.shared) × (s'.rows ≡ s.rows)
unfolding add_subjects
add_subjects_keeps s [] s' h = (ground arith, ground arith)
add_subjects_keeps s ((name, category) ∷ rest) s' h =
    let (next, m, later) = >>=-eq-ok (add_subject_state s name category) _ h in
    let (a, b) = add_subject_state_keeps s name category next m in
    let (c, d) = add_subjects_keeps next rest s' later in (c ∙ a, d ∙ b)

set_route_overflow-IsBalanced :
    (s : Simulator) (n : ℤ)
    → IsBalanced s.shared s.rows
    → IsBalanced (set_route_overflow s n).shared (set_route_overflow s n).rows
unfolding set_route_overflow
set_route_overflow-IsBalanced s (negsuc n) b = b
set_route_overflow-IsBalanced s (pos n) b = elim (Bool-cases (ltb 0 n)) [
  | inl some_left ↦ rw some_left b
  | inr none_left ↦ rw none_left b
]

read_rows-IsBalanced :
    (p : Policy) (analysis_id policy_hash : Bytes) (stored : StoredRows) (s : Simulator)
    → All (λ (r : PolicyRule). valid_kind r.action.kind ≡ true) p.rules
    → All (λ (cell : TrafficCell). pos_part cell.requests ≤ max_int64) stored.cells
    → read_rows p analysis_id policy_hash stored ≡ ok s
    → IsBalanced s.shared s.rows
unfolding read_rows
read_rows-IsBalanced p analysis_id policy_hash stored s v l h =
    let started =
      set_route_overflow-IsBalanced (new_simulator p analysis_id policy_hash) stored.route_overflow
        (new_simulator-IsBalanced p analysis_id policy_hash v) in
    let (t, m, rest) =
      >>=-eq-ok
        (add_all
          (set_route_overflow (new_simulator p analysis_id policy_hash) stored.route_overflow)
          stored.cells)
        _ h in
    let b = add_all-IsBalanced _ stored.cells t started l m in
    let (shared, rows) = add_subjects_keeps t stored.subjects s rest in rw (shared, rows) b

all-IsCovered :
    (rows : List RuleRow)
    → all (λ (row : RuleRow). leb row.modeled row.rate_matched) rows ≡ true
    → All IsCovered rows
all-IsCovered [] h = tt
all-IsCovered (row ∷ rows) h = (ground arith, all-IsCovered rows (ground arith))

failed_check :
    (s : Simulator) (v : Simulation) → conserves v ≡ true → checked s v ≢ err conservation_failed
unfolding checked
failed_check s v good h = ground arith

module _ (run_id : Bytes → Bytes → Option Bytes) where
  report_totals :
      (s : Simulator) (v : Simulation)
      → report run_id s ≡ ok v
      → (v.totals ≡ s.shared.totals) × (v.risks ≡ risks s) × (v.status ≡ status_for (risks s))
  unfolding report
  report_totals s v h =
      let (run, a, h1) = >>=-eq-ok (run_of run_id s) _ h in
      let (sums, b, h2) = >>=-eq-ok (rate_sums 0 0 s.rows) _ h1 in
      (ground arith, ground arith, ground arith)

  report-conserves :
      (s : Simulator) (v : Simulation)
      → IsBalanced s.shared s.rows
      → All IsCovered s.rows
      → report run_id s ≡ ok v
      → conserves v ≡ true
  unfolding conserves
  report-conserves s v b c h =
      let (totals, listed, status) = report_totals s v h in
      let (below, same) = covered_sums s.rows b.rows c in
      let balance = b.balance in
      let bound = b.bound in
      elim (Bool-cases (any uncovered s.rows)) [
        | inr none_left ↦ let equal = same none_left in rw (totals, listed, status) (ground arith)
        | inl some_left ↦
            let r = any-risks s some_left in
            let k = status_for-blocked s some_left in rw (totals, listed, status) (ground arith)
      ]

  finish-conserves :
      (s : Simulator) (rates : List RateProfileImpact) (v : Simulation)
      → IsBalanced s.shared s.rows
      → All IsRate rates
      → covers (close s rates) ≡ true
      → finish run_id s rates ≡ ok v
      → conserves v ≡ true
  unfolding finish
  finish-conserves s rates v b r c h =
      let (closed, m, rest) = >>=-eq-ok (close s rates) _ h in
      report-conserves closed v (close-IsBalanced s rates closed r b m)
        (all-IsCovered closed.rows (rw m at c)) rest

  with_code-conservation :
      {A : Type 0} (m : Result SimulationError A) → with_code m ≢ err conservation_failed
  unfolding with_code
  with_code-conservation (err e) h = cc h
  with_code-conservation (ok a) h = cc h

  -- A simulation of a policy that passes the validation, over cells that an int64 counts and rows of
  -- the rate model each of which allows or limits what it models, never fails at the check that its
  -- sums are conserved, if no rate limit models more than it matched.
  pub run_simulation-conservation :
      (p : Policy) (catalog : Catalog) (analysis_id policy_hash : Bytes) (stored : StoredRows)
      → validate p catalog ≡ ok tt
      → All (λ (cell : TrafficCell). pos_part cell.requests ≤ max_int64) stored.cells
      → All IsRate stored.rates
      → covers (read_rows p analysis_id policy_hash stored >>= (λ s. close s stored.rates)) ≡ true
      → run_simulation run_id p analysis_id policy_hash stored ≢ err conservation_failed
  unfolding run_simulation checked
  run_simulation-conservation p catalog analysis_id policy_hash stored valid l r c h =
      read (read_rows p analysis_id policy_hash stored) refl c h
    where
      finished :
          (s : Simulator)
          → IsBalanced s.shared s.rows
          → covers (close s stored.rates) ≡ true
          → (o : Result SimulationError Simulation) → finish run_id s stored.rates ≡ o
          → (with_code o >>= checked s) ≢ err conservation_failed
      finished s b k (err e) same g = cc g
      finished s b k (ok v) same g =
          let good = finish-conserves s stored.rates v b r k same in failed_check s v good g

      read :
          (o : Result SimulationError Simulator)
          → read_rows p analysis_id policy_hash stored ≡ o
          → covers (o >>= (λ s. close s stored.rates)) ≡ true
          → (with_code o >>= (λ s. with_code (finish run_id s stored.rates) >>= checked s))
            ≢ err conservation_failed
      read (err e) same k g = cc g
      read (ok s) same k g =
          let b =
            read_rows-IsBalanced p analysis_id policy_hash stored s
              (validate-valid_kind p catalog valid) l same in
          finished s b k (finish run_id s stored.rates) refl g
