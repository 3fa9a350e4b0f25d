-- ===== src/Run/Scheduler/Resume.antt =====
-- A run can always go on (`advance` of src/run.rs): no call asks for an illegal transition, and
-- wherever one is cut off, the next call finds a run that it can take further.
use quinte.Prelude.{
  ℕ, String, ◌≡◌, refl, Bool, true, false, List, [], ok, err, All, arith, if◌then◌else◌,
}
use quinte.Model.Lanes.{LaneOutput}
use quinte.Model.Routes.{Policy}
use quinte.Model.Status.{RunStatus, completed, degraded, failed_policy, terminal}
use quinte.Run.Phase.{phase_complete}
use quinte.Run.Scheduler.{RunState, World, Session, Return, Stage, fails}
use quinte.Run.Scheduler.Advance.{
  preflight_stage, r1_stage, r1_gate_stage, r2_stage, r2_gate_stage, evidence_stage, r3_stages,
  counterpart_stage, primary_stage, submission_stage, advance_stages, ended, advance,
}
use quinte.Run.Scheduler.Consistent.{
  settled, is_accepted, consistent, IsSafe, IsProper, IsReturn, Keeps, Keeps-bind,
}
use quinte.Run.Scheduler.Stages.{
  runs, after_preflight, r1_done, past_r1, r2_done, past_r2, answered, ready, fails-Keeps,
  preflight_stage-Keeps, r1_stage-Keeps, r1_gate_stage-Keeps,
}
use quinte.Run.Scheduler.SecondPhase.{r2_stage-Keeps, r2_gate_stage-Keeps, evidence_stage-Keeps}
use quinte.Run.Scheduler.Arbiters.{
  counterpart_stage-Keeps, primary_stage-Keeps, submission_stage-Keeps, merge_stage-Keeps,
}

abbrev pub is_result : RunStatus → Bool
is_result completed = true
is_result degraded = true
is_result _ = false

gates_passed :
    (p : Policy) (r : RunState)
    → consistent p r ≡ true
    → is_result r.status ≡ true
    → (phase_complete p.roster r.r1 ≡ true)
      × (settled p r ≡ true)
      × (r.cc_response ≡ true)
      × (is_accepted r.submission ≡ true)
gates_passed p r h result = (ground arith, ground arith, ground arith, ground arith)

module _ (sha256 : List ℕ → List ℕ) (artifact : String → String → String)
    (valid_lane : LaneOutput → Bool) (run_id : String) (valid : List String) (p : Policy)
    (w : World) where
  -- Nothing is handed on by the last stage: every path returns.
  abbrev nothing : RunState → Bool
  nothing r = false

  r3_stages-Keeps :
      (s : Session)
      → IsSafe p s
      → past_r2 p s.state ≡ true
      → Keeps p nothing (r3_stages sha256 artifact valid_lane run_id valid p w s)
  unfolding r3_stages
  r3_stages-Keeps s safe h =
      Keeps-bind p (past_r2 p) nothing
        (evidence_stage sha256 artifact valid_lane run_id valid p w s) _
        (evidence_stage-Keeps sha256 artifact valid_lane run_id valid p w s safe h)
        (λ t _ safe h.
          Keeps-bind p (answered p) nothing
            (counterpart_stage sha256 artifact valid_lane run_id valid p w t) _
            (counterpart_stage-Keeps sha256 artifact valid_lane run_id valid p w t safe h)
            (λ t _ safe h.
              Keeps-bind p (answered p) nothing (fails w.receipt_drift w failed_policy t tt) _
                (fails-Keeps p w (answered p) w.receipt_drift failed_policy t tt refl safe h)
                (λ t _ safe h.
                  Keeps-bind p (answered p) nothing
                    (primary_stage sha256 artifact valid_lane run_id valid p w t) _
                    (primary_stage-Keeps sha256 artifact valid_lane run_id valid p w t safe h)
                    (λ t _ safe h.
                      Keeps-bind p (ready p) nothing
                        (submission_stage sha256 artifact valid_lane run_id valid p w t) _
                        (submission_stage-Keeps sha256 artifact valid_lane run_id valid p w t safe
                          h)
                        (λ t _ safe h.
                          merge_stage-Keeps sha256 artifact valid_lane run_id valid p w nothing t
                            safe h)))))

  advance_stages-Keeps :
      (s : Session)
      → IsSafe p s
      → runs s.state ≡ true
      → Keeps p nothing (advance_stages sha256 artifact valid_lane run_id valid p w s)
  unfolding advance_stages
  advance_stages-Keeps s safe h =
      Keeps-bind p runs nothing (fails w.integrity_drift w failed_policy s tt) _
        (fails-Keeps p w runs w.integrity_drift failed_policy s tt refl safe h)
        (λ t _ safe h.
          Keeps-bind p after_preflight nothing
            (preflight_stage sha256 artifact valid_lane run_id valid p w t) _
            (preflight_stage-Keeps sha256 artifact valid_lane run_id valid p w t safe h)
            (λ t _ safe h.
              Keeps-bind p (r1_done p) nothing
                (r1_stage sha256 artifact valid_lane run_id valid p w t) _
                (r1_stage-Keeps sha256 artifact valid_lane run_id valid p w t safe h)
                (λ t r1 safe h.
                  Keeps-bind p (past_r1 p) nothing
                    (r1_gate_stage sha256 artifact valid_lane run_id valid p w t) _
                    (r1_gate_stage-Keeps sha256 artifact valid_lane run_id valid p w t safe h)
                    (λ t _ safe h.
                      Keeps-bind p (r2_done p) nothing
                        (r2_stage sha256 artifact valid_lane run_id valid p w r1 t) _
                        (r2_stage-Keeps sha256 artifact valid_lane run_id valid p w r1 t safe h)
                        (λ t _ safe h.
                          Keeps-bind p (past_r2 p) nothing
                            (r2_gate_stage sha256 artifact valid_lane run_id valid p w t) _
                            (r2_gate_stage-Keeps sha256 artifact valid_lane run_id valid p w t safe
                              h)
                            (λ t _ safe h. r3_stages-Keeps t safe h))))))

  ended-IsReturn :
      (m : Stage Return)
      → Keeps p nothing m
      → IsReturn p (ended sha256 artifact valid_lane run_id valid p w m)
  ended-IsReturn (ok (s, r)) (safe, h) = absurd (cc)
  ended-IsReturn (err r) h = h

  advance-IsReturn :
      (r : RunState)
      → consistent p r ≡ true
      → IsReturn p (advance sha256 artifact valid_lane run_id valid p w r)
  unfolding advance
  advance-IsReturn r h = go (terminal r.status) refl
    where
      start : Session
      start = record { state = r; saved = [] }

      safe : IsSafe p start
      safe = record { now = h; before = tt }

      go :
          (b : Bool)
          → terminal r.status ≡ b
          → IsReturn p (
              if b
              then (start, ok r.status)
              else ended sha256 artifact valid_lane run_id valid p w
                  (advance_stages sha256 artifact valid_lane run_id valid p w start))
      go true same = (safe, (refl, ground arith))
      go false same = ended-IsReturn _ (advance_stages-Keeps start safe (ground arith))

  -- From a run whose status and files agree, a call of the scheduler never asks for an illegal
  -- transition, and returns only a final status or the wait for the primary arbiter, in which the
  -- run then is. Every state of the run that it saves on the way is consistent again, so a run that
  -- is cut off at any of them can be taken up by another call.
  pub advance_resumable :
      (r : RunState)
      → consistent p r ≡ true
      → All
          (λ q. consistent p q ≡ true)
          (advance sha256 artifact valid_lane run_id valid p w r).0.saved
        × IsProper
            (advance sha256 artifact valid_lane run_id valid p w r).0.state
            (advance sha256 artifact valid_lane run_id valid p w r).1
  advance_resumable r h = let (safe, proper) = advance-IsReturn r h in (safe.before, proper)

  -- A run that a call leaves completed or degraded, from a consistent one, has passed every gate:
  -- each route has an accepted R1 output; R2 was skipped on record, or had its packet and an
  -- accepted output of each route; the Counterpart Arbiter has answered; and the submission of the
  -- primary arbiter is accepted.
  pub advance_result_complete :
      (r : RunState)
      → consistent p r ≡ true
      → is_result (advance sha256 artifact valid_lane run_id valid p w r).0.state.status ≡ true
      → (phase_complete p.roster (advance sha256 artifact valid_lane run_id valid p w r).0.state.r1
          ≡ true)
        × (settled p (advance sha256 artifact valid_lane run_id valid p w r).0.state ≡ true)
        × ((advance sha256 artifact valid_lane run_id valid p w r).0.state.cc_response ≡ true)
        × (is_accepted (advance sha256 artifact valid_lane run_id valid p w r).0.state.submission
            ≡ true)
  advance_result_complete r h result =
      let (safe, proper) = advance-IsReturn r h in
      gates_passed p (advance sha256 artifact valid_lane run_id valid p w r).0.state safe.now result
