-- ===== src/Run.antt =====
-- The scheduler's decisions (src/run.rs): retries, contestation, evidence and merging.
pub mod Retry
pub mod Attempts
pub mod Phase
pub mod Scheduler
pub mod Arbiter
pub mod Packet
pub mod Contest
pub mod Evidence
pub mod Merge
