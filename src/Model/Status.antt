-- ===== src/Model/Status.antt =====
-- The states of a run (src/model.rs).
use quinte.Prelude.{Bool, true, false}

pub data RunStatus : Type 0 where
  queued preflight r1_running r1_gate r2_packet r2_running r2_gate r3_cc : RunStatus
  waiting_primary_arbiter merging completed degraded failed : RunStatus
  failed_policy cancelling cancelled : RunStatus

unfoldable pub terminal : RunStatus → Bool
terminal completed = true
terminal degraded = true
terminal failed = true
terminal failed_policy = true
terminal cancelled = true
terminal _ = false
