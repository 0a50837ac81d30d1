-- ===== src/App.antt =====
-- internal/app: the decisions of the commands.
pub mod ParseThreshold
pub mod Simulate
