-- ===== src/Protect.antt =====
-- internal/protect: the detector of floods, its state, and the change of the live map.
pub mod Compare
pub mod Baseline
pub mod Config
pub mod Detector
pub mod State
pub mod Mutate
