-- ===== src/Finance.antt =====
-- The finance review protocol (src/finance.rs).
pub mod Types
pub mod Transition
pub mod Profile
pub mod Fold
pub mod Lanes
pub mod Posture
