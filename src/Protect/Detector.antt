-- ===== src/Protect/Detector.antt =====
-- internal/protect/detector.go: the state of the detector and its operations, in the modules
-- below in the order in which they call each other.
pub mod Accounting
pub mod Health
pub mod Paths
pub mod Buckets
pub mod Types
pub mod Observe
pub mod Groups
pub mod Rules
pub mod Evaluate
pub mod Lifecycle
