-- ===== src/Run/Scheduler/SecondPhase.antt =====
-- The stages of R2 in `advance` of src/run.rs keep a run consistent.
use quinte.Prelude.{
  ℕ, String, ◌≡◌, refl, Bool, true, false, not, ◌&&◌, ◌||◌, List, ok, arith, is_empty,
}
use quinte.Model.Lanes.{LaneOutput, LaneAccepted}
use quinte.Model.Routes.{Policy}
use quinte.Model.Status.{r2_packet, r2_running, r2_gate, terminal}
use quinte.Run.Contest.{r1_contestation}
use quinte.Run.Phase.{PhaseRun, phase_complete}
use quinte.Run.Phase.Calm.{run_phase-IsCalm}
use quinte.Run.Phase.Gate.{phase_passes_gate}
use quinte.Store.{status_eq, transition_allowed}
use quinte.Run.Scheduler.{RunState, World, Session, enter}
use quinte.Run.Scheduler.Advance.{
  before_r2_gate, lane_context, run_r2, after_r2, skip_r2, r2_packet_stage, r2_lanes_stage,
  r2_stage, r2_gate_stage, evidence_stage,
}
use quinte.Run.Scheduler.Consistent.{IsSafe, Keeps, Keeps-bind, Keeps-if, save-IsSafe}
use quinte.Run.Scheduler.Requests.{enter-Keeps}
use quinte.Run.Scheduler.Stages.{past_r1, r2_done, past_r2, loaded-Keeps, ran-Keeps}

-- R2 is not skipped.
abbrev in_r2 : Policy → RunState → Bool
in_r2 p r = past_r1 p r && not r.r2_skipped

abbrev has_packet : Policy → RunState → Bool
has_packet p r = in_r2 p r && r.r2_packet_written

module _ (sha256 : List ℕ → List ℕ) (artifact : String → String → String)
    (valid_lane : LaneOutput → Bool) (run_id : String) (valid : List String) (p : Policy)
    (w : World) where
  skip_r2-Keeps :
      (s : Session)
      → IsSafe p s
      → past_r1 p s.state ≡ true
      → Keeps p (r2_done p) (skip_r2 sha256 artifact valid_lane run_id valid p w s)
  unfolding terminal
  skip_r2-Keeps s safe h =
      Keeps-if p (r2_done p) s.state.r2_skipped _ _ (λ skipped. (safe, ground arith))
        (λ lacks. (save-IsSafe p _ s safe (ground (arith, safe.now)), ground arith))

  r2_packet_stage-Keeps :
      (s : Session)
      → IsSafe p s
      → in_r2 p s.state ≡ true
      → Keeps p (has_packet p) (r2_packet_stage sha256 artifact valid_lane run_id valid p w s)
  unfolding r2_packet_stage terminal transition_allowed
  r2_packet_stage-Keeps s safe h =
      Keeps-if p (has_packet p) s.state.r2_packet_written _ _ (λ written. (safe, ground arith))
        (λ lacks.
          (Keeps-bind p (in_r2 p) (has_packet p) (enter w r2_packet s) _
            (enter-Keeps w p r2_packet s (in_r2 p) refl (ground arith) (ground (arith, safe.now))
              safe)
            (λ t _ safe' h'. (save-IsSafe p _ t safe' (ground (arith, safe'.now)), ground arith))))

  after_r2-Keeps :
      (s : Session) (r : PhaseRun)
      → IsSafe p s
      → (status_eq s.state.status r2_running && has_packet p s.state) ≡ true
      → ((lanes : List LaneAccepted) → r.outputs ≡ ok lanes → r.cancelled ≡ false)
      → ((lanes : List LaneAccepted)
          → r.outputs ≡ ok lanes
          → phase_complete p.roster r.files ≡ true)
      → Keeps p (r2_done p) (after_r2 sha256 artifact valid_lane run_id valid p w s r)
  unfolding terminal
  after_r2-Keeps s r safe running calm complete =
      ran-Keeps sha256 artifact valid_lane run_id valid p w (r2_done p) _ r.outputs
        (save-IsSafe p _ s safe (ground (arith, safe.now)))
        (λ lanes same. ground (arith, calm lanes same, complete lanes same))

  r2_lanes_stage-Keeps :
      (s : Session)
      → IsSafe p s
      → has_packet p s.state ≡ true
      → Keeps p (r2_done p) (r2_lanes_stage sha256 artifact valid_lane run_id valid p w s)
  unfolding r2_lanes_stage terminal transition_allowed
  r2_lanes_stage-Keeps s safe h =
      Keeps-if p (r2_done p) (phase_complete p.roster s.state.r2) _ _
        (λ complete.
          (loaded-Keeps sha256 artifact valid_lane run_id valid p w (r2_done p) s _ safe
            (ground arith)))
        (λ missing.
          (Keeps-bind p (λ r. status_eq r.status r2_running && has_packet p r) (r2_done p)
            (enter w r2_running s) _
            (enter-Keeps w p r2_running s (λ r. status_eq r.status r2_running && has_packet p r)
              refl (ground arith) (ground (arith, safe.now)) safe)
            (λ t _ safe' h'.
              after_r2-Keeps t (run_r2 sha256 artifact valid_lane run_id valid p w t.state) safe' h'
                (run_phase-IsCalm sha256 (artifact "R2") w.r2_lanes.lanes
                  (lane_context sha256 artifact valid_lane run_id valid p w "R2") valid_lane
                  w.r2_lanes.stagger_cancelled t.state.r2)
                (λ lanes same.
                  (phase_passes_gate sha256 (artifact "R2") w.r2_lanes.lanes valid_lane
                    (lane_context sha256 artifact valid_lane run_id valid p w "R2")
                    w.r2_lanes.stagger_cancelled t.state.r2 same).1))))

  pub r2_stage-Keeps :
      (r1 : List LaneAccepted) (s : Session)
      → IsSafe p s
      → past_r1 p s.state ≡ true
      → Keeps p (r2_done p) (r2_stage sha256 artifact valid_lane run_id valid p w r1 s)
  unfolding r2_stage
  r2_stage-Keeps r1 s safe h =
      Keeps-if p (r2_done p) (s.state.r2_skipped || is_empty (r1_contestation r1)) _ _
        (λ skips. (skip_r2-Keeps s safe h))
        (λ contested.
          (Keeps-bind p (has_packet p) (r2_done p)
            (r2_packet_stage sha256 artifact valid_lane run_id valid p w s) _
            (r2_packet_stage-Keeps s safe (ground arith))
            (λ t _ safe' h'. r2_lanes_stage-Keeps t safe' h')))

  pub r2_gate_stage-Keeps :
      (s : Session)
      → IsSafe p s
      → r2_done p s.state ≡ true
      → Keeps p (past_r2 p) (r2_gate_stage sha256 artifact valid_lane run_id valid p w s)
  unfolding r2_gate_stage terminal transition_allowed
  r2_gate_stage-Keeps s safe h =
      Keeps-if p (past_r2 p) (before_r2_gate s.state.status) _ _
        (λ early.
          (enter-Keeps w p r2_gate s (past_r2 p) refl (ground arith) (ground (arith, safe.now))
            safe))
        (λ late. (safe, ground arith))

  pub evidence_stage-Keeps :
      (s : Session)
      → IsSafe p s
      → past_r2 p s.state ≡ true
      → Keeps p (past_r2 p) (evidence_stage sha256 artifact valid_lane run_id valid p w s)
  unfolding evidence_stage
  evidence_stage-Keeps s safe h =
      Keeps-if p (past_r2 p) s.state.evidence_packet _ _ (λ written. (safe, h))
        (λ lacks. (save-IsSafe p _ s safe safe.now, h))
