-- ===== src/Policy.antt =====
-- internal/policy: the validation of a policy, which of its rules matches, and its simulation.
pub mod Matcher
pub mod Model
pub mod Simulate
pub mod Validate
