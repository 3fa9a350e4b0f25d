-- ===== src/Run/Scheduler/Stages.antt =====
-- Every stage of `advance` of src/run.rs keeps a run consistent and hands on what the next one needs.
use quinte.Prelude.{
  ℕ, String, ◌≡◌, refl, Bool, true, false, not, ◌&&◌, ◌||◌, List, Result, ok, err, arith,
}
use quinte.Model.Lanes.{LaneOutput, LaneAccepted}
use quinte.Model.Routes.{Policy}
use quinte.Model.Status.{
  RunStatus, queued, preflight, r1_running, r1_gate, failed, failed_policy, cancelling, terminal,
}
use quinte.Run.Phase.{PhaseError, PhaseRun, phase_complete}
use quinte.Run.Phase.Calm.{run_phase-IsCalm}
use quinte.Run.Phase.Gate.{phase_passes_gate}
use quinte.Store.{status_eq, transition_allowed}
use quinte.Run.Scheduler.{RunState, World, Session, with_status, finish, enter, fails}
use quinte.Run.Scheduler.Advance.{
  is_strict, before_r1_gate, before_r2_gate, is_before_preflight, preflight_checks, preflight_stage,
  loaded, ran, run_r1, after_r1, r1_stage, r1_gate_stage, lane_context,
}
use quinte.Run.Scheduler.Consistent.{
  settled, consistent, IsSafe, Keeps, Keeps-bind, Keeps-if, save-IsSafe, is_accepted,
}
use quinte.Run.Scheduler.Requests.{is_stop, enter-Keeps, stopped-IsReturn}

-- What holds between the stages.
abbrev pub runs : RunState → Bool
runs r = not (terminal r.status)

abbrev pub after_preflight : RunState → Bool
after_preflight r = runs r && not (status_eq r.status queued)

abbrev pub r1_done : Policy → RunState → Bool
r1_done p r = runs r && phase_complete p.roster r.r1

abbrev pub past_r1 : Policy → RunState → Bool
past_r1 p r = r1_done p r && not (before_r1_gate r.status)

abbrev pub r2_done : Policy → RunState → Bool
r2_done p r = past_r1 p r && settled p r

abbrev pub past_r2 : Policy → RunState → Bool
past_r2 p r = r2_done p r && not (before_r2_gate r.status)

abbrev pub answered : Policy → RunState → Bool
answered p r = past_r2 p r && r.cc_response

abbrev pub ready : Policy → RunState → Bool
ready p r = answered p r && is_accepted r.submission

module _ (p : Policy) (w : World) where
  pub fails-Keeps :
      {A : Type 0} (post : RunState → Bool) (bad : Bool) (to : RunStatus) (s : Session) (a : A)
      → is_stop to ≡ true
      → IsSafe p s
      → post s.state ≡ true
      → Keeps p post (fails bad w to s a)
  unfolding finish
  fails-Keeps post true to s a way safe h = stopped-IsReturn w p to s way safe
  fails-Keeps post false to s a way safe h = (safe, h)

module _ (sha256 : List ℕ → List ℕ) (artifact : String → String → String)
    (valid_lane : LaneOutput → Bool) (run_id : String) (valid : List String) (p : Policy)
    (w : World) where
  preflight_checks-Keeps :
      (s : Session)
      → IsSafe p s
      → runs s.state ≡ true
      → is_before_preflight s.state.status ≡ true
      → Keeps p after_preflight (preflight_checks sha256 artifact valid_lane run_id valid p w s)
  unfolding transition_allowed terminal
  preflight_checks-Keeps s safe h early =
      Keeps-bind p after_preflight after_preflight (enter w preflight s) _
        (enter-Keeps w p preflight s after_preflight refl (ground arith) entered safe)
        (λ t _ safe' h'.
          Keeps-bind p after_preflight after_preflight
            (fails (is_strict p.sandbox_mode) w failed_policy t tt) _
            (fails-Keeps p w after_preflight (is_strict p.sandbox_mode) failed_policy t tt refl
              safe' h')
            (λ u _ safe'' h''.
              fails-Keeps p w after_preflight w.adapters_missing failed u tt refl safe'' h''))
    where
      entered :
          (status_eq s.state.status cancelling
            || (transition_allowed s.state.status preflight
                && consistent p (with_status preflight s.state)
                && after_preflight (with_status preflight s.state)))
          ≡ true
      entered = ground (arith, safe.now)

  pub preflight_stage-Keeps :
      (s : Session)
      → IsSafe p s
      → runs s.state ≡ true
      → Keeps p after_preflight (preflight_stage sha256 artifact valid_lane run_id valid p w s)
  unfolding preflight_stage terminal
  preflight_stage-Keeps s safe h =
      Keeps-if p after_preflight (is_before_preflight s.state.status) _ _
        (λ early. (preflight_checks-Keeps s safe h early)) (λ late. (safe, ground arith))

  pub loaded-Keeps :
      (post : RunState → Bool) (s : Session) (l : Result PhaseError (List LaneAccepted))
      → IsSafe p s
      → post s.state ≡ true
      → Keeps p post (loaded sha256 artifact valid_lane run_id valid p w s l)
  loaded-Keeps post s (ok lanes) safe h = (safe, h)
  loaded-Keeps post s (err e) safe h = (safe, refl)

  -- After the lanes of a phase.
  pub ran-Keeps :
      (post : RunState → Bool) (s : Session) (l : Result PhaseError (List LaneAccepted))
      → IsSafe p s
      → ((lanes : List LaneAccepted) → l ≡ ok lanes → post s.state ≡ true)
      → Keeps p post (ran sha256 artifact valid_lane run_id valid p w s l)
  unfolding finish
  ran-Keeps post s (ok lanes) safe h = (safe, h lanes refl)
  ran-Keeps post s (err e) safe h = stopped-IsReturn w p failed s refl safe

  after_r1-Keeps :
      (s : Session) (r : PhaseRun)
      → IsSafe p s
      → status_eq s.state.status r1_running ≡ true
      → ((lanes : List LaneAccepted) → r.outputs ≡ ok lanes → r.cancelled ≡ false)
      → ((lanes : List LaneAccepted)
          → r.outputs ≡ ok lanes
          → phase_complete p.roster r.files ≡ true)
      → Keeps p (r1_done p) (after_r1 sha256 artifact valid_lane run_id valid p w s r)
  unfolding terminal
  after_r1-Keeps s r safe running calm complete =
      ran-Keeps (r1_done p) _ r.outputs (save-IsSafe p _ s safe (ground (arith, safe.now)))
        (λ lanes same. ground (arith, calm lanes same, complete lanes same))

  pub r1_stage-Keeps :
      (s : Session)
      → IsSafe p s
      → after_preflight s.state ≡ true
      → Keeps p (r1_done p) (r1_stage sha256 artifact valid_lane run_id valid p w s)
  unfolding r1_stage terminal transition_allowed
  r1_stage-Keeps s safe h =
      Keeps-if p (r1_done p) (phase_complete p.roster s.state.r1) _ _
        (λ complete. (loaded-Keeps (r1_done p) s _ safe (ground arith)))
        (λ missing.
          (Keeps-bind p (λ r. status_eq r.status r1_running) (r1_done p) (enter w r1_running s) _
            (enter-Keeps w p r1_running s (λ r. status_eq r.status r1_running) refl (ground arith)
              (ground (arith, safe.now)) safe)
            (λ t _ safe' h'.
              after_r1-Keeps t (run_r1 sha256 artifact valid_lane run_id valid p w t.state) safe' h'
                (run_phase-IsCalm sha256 (artifact "R1") w.r1_lanes.lanes
                  (lane_context sha256 artifact valid_lane run_id valid p w "R1") valid_lane
                  w.r1_lanes.stagger_cancelled t.state.r1)
                (λ lanes same.
                  (phase_passes_gate sha256 (artifact "R1") w.r1_lanes.lanes valid_lane
                    (lane_context sha256 artifact valid_lane run_id valid p w "R1")
                    w.r1_lanes.stagger_cancelled t.state.r1 same).1))))

  pub r1_gate_stage-Keeps :
      (s : Session)
      → IsSafe p s
      → r1_done p s.state ≡ true
      → Keeps p (past_r1 p) (r1_gate_stage sha256 artifact valid_lane run_id valid p w s)
  unfolding r1_gate_stage terminal transition_allowed
  r1_gate_stage-Keeps s safe h =
      Keeps-if p (past_r1 p) (before_r1_gate s.state.status) _ _
        (λ early.
          (enter-Keeps w p r1_gate s (past_r1 p) refl (ground arith) (ground (arith, safe.now))
            safe))
        (λ late. (safe, ground arith))
