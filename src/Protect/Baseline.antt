-- ===== src/Protect/Baseline.antt =====
-- internal/protect/baseline.go: the historical rates and the thresholds that follow from them.
pub mod Threshold
pub mod Quantile
pub mod Series
