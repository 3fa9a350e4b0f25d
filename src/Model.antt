-- ===== src/Model.antt =====
-- The data of a run (src/model.rs): policy records, lane outputs and results, run states.
pub mod Routes
pub mod Lanes
pub mod Status
