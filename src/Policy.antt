-- ===== src/Policy.antt =====
-- Validation of a run's policy (src/policy.rs).
pub mod Checks
pub mod Validate
pub mod Defaults
pub mod Load
pub mod Distinct
pub mod Accepted
