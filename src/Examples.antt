-- ===== src/Examples.antt =====
-- The theorems at concrete inputs.
mod Aggregates
mod Files
mod Simulations
mod Sketches
mod Rates
mod Detections
mod Evaluations
mod Costs
