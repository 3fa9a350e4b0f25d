-- ===== src/Examples.antt =====
-- The theorems at concrete inputs, and runs of the definitions.
mod Inputs
mod Reviews
pub mod Policies
pub mod Lanes
pub mod Merges
pub mod Retries
pub mod Finances
pub mod Ledgers
pub mod Stores
pub mod Phases
pub mod Runs
pub mod Submissions
pub mod Packets
pub mod Repairs
