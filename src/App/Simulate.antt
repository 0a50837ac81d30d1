-- ===== src/App/Simulate.antt =====
-- internal/app/simulate.go: runSimulation up to its check. What the store returns is an argument,
-- and the id of the run comes from SHA-256, a parameter; applyAvoidedCosts follows the check.
pub mod Conserves
use crawlledger.Domain.Event.{TrafficClass}
use crawlledger.Policy.Model.{Policy}
use crawlledger.Policy.Simulate.{
  SimulationError, TrafficCell, Simulator, new_simulator, set_route_overflow, add_subject_state,
}
use crawlledger.Policy.Simulate.Cells.{add_all}
use crawlledger.Policy.Simulate.Finish.{RateProfileImpact, Simulation, close, finish, conserves}
use crawlledger.Base.{
  ℕ, not, Option, List, [], ◌∷◌, if◌then◌else◌, Result, ok, err, ◌>>=◌, ◌>>◌, ℤ, Bytes, Assoc,
  nat_key, bytes_key,
}

-- What LoadOverflowCounts, VisitTrafficCells, VisitSubjectStates and LoadRateImpacts give.
pub record StoredRows : Type 0 where
  pub route_overflow : ℤ
  pub cells : List TrafficCell
  pub subjects : List (Option Bytes × Option TrafficClass)
  pub rates : List RateProfileImpact

pub data RunError : Type 0 where
  simulation_failed : SimulationError → RunError
  conservation_failed : RunError

unfoldable pub add_subjects :
    Simulator → List (Option Bytes × Option TrafficClass) → Result SimulationError Simulator
add_subjects s [] = ok s
add_subjects s ((name, category) ∷ rest) = do
  next ← add_subject_state s name category
  add_subjects next rest

-- The simulator that has read the cells and the subjects.
unfoldable pub read_rows : Policy → Bytes → Bytes → StoredRows → Result SimulationError Simulator
read_rows p analysis_id policy_hash stored = do
  s ←
      add_all (set_route_overflow (new_simulator p analysis_id policy_hash) stored.route_overflow)
        stored.cells
  add_subjects s stored.subjects

unfoldable pub with_code : {A : Type 0} → Result SimulationError A → Result RunError A
with_code (err e) = err (simulation_failed e)
with_code (ok a) = ok a

-- The check behind `Finish`.
unfoldable pub checked : Simulator → Simulation → Result RunError (Simulation × Assoc Bytes ℕ)
checked s v = if not (conserves v) then err conservation_failed else ok (v, s.observed_states)

module _ (run_id : Bytes → Bytes → Option Bytes) where
  unfoldable pub run_simulation :
      Policy → Bytes → Bytes → StoredRows → Result RunError (Simulation × Assoc Bytes ℕ)
  unfolding with_code checked
  run_simulation p analysis_id policy_hash stored = do
    s ← with_code (read_rows p analysis_id policy_hash stored)
    simulation ← with_code (finish run_id s stored.rates)
    checked s simulation
