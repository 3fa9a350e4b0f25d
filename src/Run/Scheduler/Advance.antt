-- ===== src/Run/Scheduler/Advance.antt =====
-- The stages of `advance` of src/run.rs, in the order of the source, and the whole call.
use quinte.Prelude.{
  ℕ, String, Bool, true, false, not, ◌&&◌, ◌||◌, List, [], Option, none, some, Result, ok, err,
  ◌>>=◌, ◌>>◌, str_eq, if◌then◌else◌, is_empty,
}
use quinte.Model.Lanes.{LaneOutput, LaneAccepted, ArbiterVerdict}
use quinte.Model.Routes.{Policy, SandboxMode, strict, process}
use quinte.Model.Status.{
  RunStatus, queued, preflight, r1_running, r1_gate, r2_packet, r2_running, r2_gate, r3_cc,
  waiting_primary_arbiter, merging, completed, degraded, failed, failed_policy, cancelled, terminal,
}
use quinte.Run.Attempts.{
  LaneError, LaneContext, map_err, attempt_error, next_attempt, wait_for_retry_deadline,
  await_arbiter_output,
}
use quinte.Run.Contest.{r1_contestation}
use quinte.Run.Phase.{
  PhaseError, PhaseRun, LaneState, is_cancel, phase_complete, load_phase, run_phase,
}
use quinte.Run.Scheduler.{
  Submission, is_submitted, no_submission, staging, accepted, RunState, World, phase_unreadable,
  no_challenge, invalid_response, Session, Return, Stage, save, with_status, finish, enter, fails,
}

abbrev pub is_before_preflight : RunStatus → Bool
is_before_preflight queued = true
is_before_preflight preflight = true
is_before_preflight _ = false

abbrev pub is_strict : SandboxMode → Bool
is_strict strict = true
is_strict process = false

abbrev pub before_r1_gate : RunStatus → Bool
before_r1_gate queued = true
before_r1_gate preflight = true
before_r1_gate r1_running = true
before_r1_gate _ = false

abbrev pub before_r2_gate : RunStatus → Bool
before_r2_gate r1_gate = true
before_r2_gate r2_packet = true
before_r2_gate r2_running = true
before_r2_gate status = before_r1_gate status

-- `artifact` names the accepted output of a phase and a route; `valid` are the references of the
-- snapshot.
module _ (sha256 : List ℕ → List ℕ) (artifact : String → String → String)
    (valid_lane : LaneOutput → Bool) (run_id : String) (valid : List String) (p : Policy)
    (w : World) where
  abbrev pub lane_context : String → LaneContext
  lane_context phase = record {
    run_id = run_id;
    policy = p;
    phase = phase;
    valid = valid;
    paced = str_eq phase "R2" && not p.r2_parallel;
  }

  abbrev pub preflight_checks : Session → Stage (Unit {0})
  preflight_checks s = do
    (s, _) ← enter w preflight s
    (s, _) ← fails (is_strict p.sandbox_mode) w failed_policy s tt
    fails w.adapters_missing w failed s tt

  unfoldable pub preflight_stage : Session → Stage (Unit {0})
  preflight_stage s = if is_before_preflight s.state.status then preflight_checks s else ok (s, tt)

  abbrev pub loaded : Session → Result PhaseError (List LaneAccepted) → Stage (List LaneAccepted)
  loaded s (err e) = err (s, err (phase_unreadable e))
  loaded s (ok lanes) = ok (s, lanes)

  -- The status after `run_phase`, which may have cancelled the run.
  abbrev pub phase_status : PhaseRun → RunStatus → RunStatus
  phase_status r status = if r.cancelled then cancelled else status

  abbrev pub ran : Session → Result PhaseError (List LaneAccepted) → Stage (List LaneAccepted)
  ran s (err e) = finish w failed s
  ran s (ok lanes) = ok (s, lanes)

  abbrev pub run_r1 : RunState → PhaseRun
  run_r1 r =
      run_phase sha256 (artifact "R1") w.r1_lanes.lanes valid_lane (lane_context "R1")
        w.r1_lanes.stagger_cancelled r.r1

  abbrev pub run_r2 : RunState → PhaseRun
  run_r2 r =
      run_phase sha256 (artifact "R2") w.r2_lanes.lanes valid_lane (lane_context "R2")
        w.r2_lanes.stagger_cancelled r.r2

  abbrev pub after_r1 : Session → PhaseRun → Stage (List LaneAccepted)
  after_r1 s r =
      ran (save (record s.state { status = phase_status r s.state.status; r1 = r.files }) s)
        r.outputs

  abbrev pub after_r2 : Session → PhaseRun → Stage (List LaneAccepted)
  after_r2 s r =
      ran (save (record s.state { status = phase_status r s.state.status; r2 = r.files }) s)
        r.outputs

  unfoldable pub r1_stage : Session → Stage (List LaneAccepted)
  r1_stage s =
      if phase_complete p.roster s.state.r1
      then loaded s (load_phase (artifact "R1") valid_lane false p.roster s.state.r1)
      else (enter w r1_running s >>= λ t. after_r1 t.0 (run_r1 t.0.state))

  unfoldable pub r1_gate_stage : Session → Stage (Unit {0})
  r1_gate_stage s = if before_r1_gate s.state.status then enter w r1_gate s else ok (s, tt)

  -- R2: nothing to do if it was skipped or no output is contested, which is recorded.
  abbrev pub skip_r2 : Session → Stage (List LaneAccepted)
  skip_r2 s =
      if s.state.r2_skipped
      then ok (s, [])
      else ok (save (record s.state { r2_skipped = true }) s, [])

  abbrev pub write_r2_packet : Session → Stage (Unit {0})
  write_r2_packet s = ok (save (record s.state { r2_packet_written = true }) s, tt)

  unfoldable pub r2_packet_stage : Session → Stage (Unit {0})
  r2_packet_stage s =
      if s.state.r2_packet_written
      then ok (s, tt)
      else (enter w r2_packet s >>= λ t. write_r2_packet t.0)

  unfoldable pub r2_lanes_stage : Session → Stage (List LaneAccepted)
  r2_lanes_stage s =
      if phase_complete p.roster s.state.r2
      then loaded s (load_phase (artifact "R2") valid_lane s.state.r2_skipped p.roster s.state.r2)
      else (enter w r2_running s >>= λ t. after_r2 t.0 (run_r2 t.0.state))

  unfoldable pub r2_stage : List LaneAccepted → Session → Stage (List LaneAccepted)
  r2_stage r1 s =
      if s.state.r2_skipped || is_empty (r1_contestation r1)
      then skip_r2 s
      else (r2_packet_stage s >>= λ t. r2_lanes_stage t.0)

  unfoldable pub r2_gate_stage : Session → Stage (Unit {0})
  r2_gate_stage s = if before_r2_gate s.state.status then enter w r2_gate s else ok (s, tt)

  unfoldable pub evidence_stage : Session → Stage (Unit {0})
  evidence_stage s =
      if s.state.evidence_packet
      then ok (s, tt)
      else ok (save (record s.state { evidence_packet = true }) s, tt)

  -- The lane of an arbiter.
  unfoldable pub arbiter_lane : LaneState → String → Result LaneError (Option ArbiterVerdict)
  arbiter_lane l route_id = do
    attempt ← next_attempt p.max_attempts l.history
    wait_for_retry_deadline l.world "R3" route_id attempt l.deadline
    outcome ← map_err attempt_error (l.world.runs attempt)
    answer ← await_arbiter_output sha256 (lane_context "R3") l.world route_id attempt outcome
    ok answer.1

  -- A lane that was cancelled while it waited has cancelled the run.
  abbrev pub cancelled_by : LaneError → Session → Session
  cancelled_by e s = if is_cancel e then save (with_status cancelled s.state) s else s

  abbrev pub after_counterpart :
      Session → Result LaneError (Option ArbiterVerdict) → Stage (Unit {0})
  after_counterpart s (err e) =
      if is_cancel e
      then err (save (with_status cancelled s.state) s, ok cancelled)
      else finish w failed s
  after_counterpart s (ok none) = finish w cancelled s
  after_counterpart s (ok (some verdict)) = ok (save (record s.state { cc_response = true }) s, tt)

  unfoldable pub counterpart_stage : Session → Stage (Unit {0})
  counterpart_stage s =
      if s.state.cc_response
      then ok (s, tt)
      else (enter w r3_cc s >>= λ t.
          after_counterpart t.0 (arbiter_lane w.counterpart p.counterpart_arbiter.route_id))

  -- The challenge of the primary arbiter.
  abbrev pub ensure_challenge : Session → Stage (Unit {0})
  ensure_challenge s =
      if s.state.challenge
      then ok (s, tt)
      else (fails w.challenge_fails w failed_policy s tt >>= λ t.
          ok (save (record t.0.state { challenge = true }) t.0, tt))

  -- `stage_primary_response` saves the staged submission before it accepts it.
  abbrev pub stage_response : Session → Stage (Unit {0})
  stage_response s =
      fails w.staging_fails w failed_policy (save (record s.state { submission = staging }) s) tt
      >>= λ t. ok (save (record t.0.state { submission = accepted }) t.0, tt)

  abbrev pub after_primary : Session → Result LaneError (Option ArbiterVerdict) → Stage (Unit {0})
  after_primary s (err e) = finish w failed (cancelled_by e s)
  after_primary s (ok none) = finish w cancelled s
  after_primary s (ok (some verdict)) =
      fails w.response_refused w failed_policy s tt >>= λ t. stage_response t.0

  abbrev pub run_primary : Session → Stage (Unit {0})
  run_primary s = do
    (s, _) ← ensure_challenge s
    (s, _) ← fails w.packet_drift w failed_policy s tt
    after_primary s (arbiter_lane w.primary p.primary_arbiter.route_id)

  unfoldable pub primary_stage : Session → Stage (Unit {0})
  primary_stage s =
      if p.auto_primary_arbiter && not (is_submitted s.state.submission)
      then run_primary s
      else ok (s, tt)

  -- Without a submission the run waits for one. Here a challenge that fails is an error.
  abbrev pub publish_challenge : Session → Stage (Unit {0})
  publish_challenge s =
      if s.state.challenge
      then ok (s, tt)
      else if w.challenge_fails
      then err (s, err no_challenge)
      else ok (save (record s.state { challenge = true }) s, tt)

  abbrev pub await_submission : Session → Stage (Unit {0})
  await_submission s = do
    (s, _) ← publish_challenge s
    finish w waiting_primary_arbiter (save (record s.state { primary_request = true }) s)

  -- `recover_primary_arbiter_submission`: whether the submission is ready. The acceptance is saved
  -- with the next transition.
  abbrev pub recover_submission : Session → Submission → Stage Bool
  recover_submission s no_submission = ok (s, false)
  recover_submission s staging =
      if w.response_missing
      then ok (s, false)
      else fails w.submission_drift w failed_policy
          (record s { state = record s.state { submission = accepted } }) true
  recover_submission s accepted =
      fails (w.response_missing || w.submission_drift) w failed_policy s true

  abbrev pub wait_unless_ready : Session → Bool → Stage (Unit {0})
  wait_unless_ready s true = ok (s, tt)
  wait_unless_ready s false = finish w waiting_primary_arbiter s

  unfoldable pub submission_stage : Session → Stage (Unit {0})
  submission_stage s =
      if is_submitted s.state.submission
      then (recover_submission s s.state.submission >>= λ t. wait_unless_ready t.0 t.1)
      else await_submission s

  abbrev pub result_status : RunStatus
  result_status = if w.result_degraded then degraded else completed

  unfoldable pub merge_stage : Session → Stage Return
  merge_stage s = do
    (s, _) ← enter w merging s
    (s, _) ← (if w.response_invalid then err (s, err invalid_response) else ok (s, tt))
    (s, _) ← fails w.finalization_cancelled w cancelled s tt
    finish w result_status (save (record s.state { result = true }) s)

  -- From the evidence packet to the result.
  unfoldable pub r3_stages : Session → Stage Return
  r3_stages s = do
    (s, _) ← evidence_stage s
    (s, _) ← counterpart_stage s
    (s, _) ← fails w.receipt_drift w failed_policy s tt
    (s, _) ← primary_stage s
    (s, _) ← submission_stage s
    merge_stage s

  -- All stages of a call whose run is not at its end.
  unfoldable pub advance_stages : Session → Stage Return
  advance_stages s = do
    (s, _) ← fails w.integrity_drift w failed_policy s tt
    (s, _) ← preflight_stage s
    (s, r1) ← r1_stage s
    (s, _) ← r1_gate_stage s
    (s, r2) ← r2_stage r1 s
    (s, _) ← r2_gate_stage s
    r3_stages s

  abbrev pub ended : Stage Return → Return
  ended (ok (s, r)) = r
  ended (err r) = r

  unfoldable pub advance : RunState → Return
  advance r =
      let s : Session = record { state = r; saved = [] } in
      if terminal r.status then (s, ok r.status) else ended (advance_stages s)
