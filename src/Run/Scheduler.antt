-- ===== src/Run/Scheduler.antt =====
-- The scheduler of a run (`advance` of src/run.rs): from whatever status a run has on disk it goes on
-- through R1, R2 and R3 until the run ends or waits for its primary arbiter. A `Session` has the run
-- as the scheduler holds it, and the states of the run directory that it has gone through.
pub mod Advance
pub mod Consistent
pub mod Requests
pub mod Stages
pub mod SecondPhase
pub mod Arbiters
pub mod Resume
pub mod Refines
use quinte.Prelude.{
  ℕ, String, Bool, true, false, not, ◌&&◌, ◌||◌, List, [], ◌∷◌, Option, none, some, Result, ok, err,
  ◌>>=◌, ◌>>◌, bail_if, str_eq, if◌then◌else◌, is_empty,
}
use quinte.Prelude.Keyed.{Keyed}
use quinte.Model.Lanes.{LaneOutput, LaneAccepted, ArbiterVerdict}
use quinte.Model.Routes.{Policy, SandboxMode, strict, process}
use quinte.Model.Status.{
  RunStatus, queued, preflight, r1_running, r1_gate, r2_packet, r2_running, r2_gate, r3_cc,
  waiting_primary_arbiter, merging, completed, degraded, failed, failed_policy, cancelling,
  cancelled, terminal,
}
use quinte.Run.Attempts.{
  LaneError, LaneContext, map_err, attempt_error, next_attempt, wait_for_retry_deadline,
  await_arbiter_output,
}
use quinte.Run.Contest.{r1_contestation}
use quinte.Run.Phase.{
  PhaseError, PhaseRun, LaneState, is_cancel, phase_complete, load_phase, run_phase,
}
use quinte.Store.{StoreError, illegal_transition, status_eq, transition_allowed, effective_status}

-- The state of `primary_arbiter_submission` in the manifest.
pub data Submission : Type 0 where
  no_submission staging accepted : Submission

abbrev pub is_submitted : Submission → Bool
is_submitted no_submission = false
is_submitted _ = true

-- What `advance` reads and changes: fields of the manifest, and files of the run directory.
pub record RunState : Type 0 where
  pub status : RunStatus
  pub r1 : Keyed LaneOutput
  pub r2 : Keyed LaneOutput
  pub r2_skipped : Bool
  pub r2_packet_written : Bool
  pub evidence_packet : Bool
  pub cc_response : Bool
  pub challenge : Bool
  pub primary_request : Bool
  pub submission : Submission
  pub result : Bool

pub record PhaseWorld : Type 0 where
  pub lanes : String → LaneState
  pub stagger_cancelled : Bool

-- What the rest of the program answers in one call. `cancel_at` tells whether a cancellation is
-- requested or under way when a status is asked for. The Booleans are the results of
-- `verify_resume_integrity`, `adapters::doctor`, `ensure_r3_input_receipt`,
-- `create_primary_arbiter_challenge`, `ensure_primary_arbiter_packet`, the checks of the primary
-- arbiter's response before and after `stage_primary_response` saves it, `recover_primary_arbiter_submission`, the checks of the response before
-- the merge, the finalization guard, and the status of the result.
pub record World : Type 0 where
  pub cancel_at : RunStatus → Bool
  pub integrity_drift : Bool
  pub adapters_missing : Bool
  pub r1_lanes : PhaseWorld
  pub r2_lanes : PhaseWorld
  pub counterpart : LaneState
  pub receipt_drift : Bool
  pub challenge_fails : Bool
  pub packet_drift : Bool
  pub primary : LaneState
  pub response_refused : Bool
  pub staging_fails : Bool
  pub response_missing : Bool
  pub submission_drift : Bool
  pub response_invalid : Bool
  pub finalization_cancelled : Bool
  pub result_degraded : Bool

pub data AdvanceError : Type 0 where
  store_failed : StoreError → AdvanceError
  phase_unreadable : PhaseError → AdvanceError
  no_challenge invalid_response : AdvanceError

pub record Session : Type 0 where
  pub state : RunState
  pub saved : List RunState

-- An early return, and a computation that may make one.
abbrev pub Return : Type 0
Return = Session × Result AdvanceError RunStatus

abbrev pub Stage : Type 0 → Type 0
Stage A = Result Return (Session × A)

abbrev pub save : RunState → Session → Session
save r s = record { state = r; saved = r ∷ s.saved }

-- `Store::transition` as the scheduler meets it: the status of the run after asking for another.
unfoldable pub request : Bool → RunStatus → RunStatus → Result StoreError RunStatus
request cancel from to =
    if terminal from
    then ok from
    else bail_if (not (transition_allowed from (effective_status (λ _. true) cancel to)))
        illegal_transition
      >> ok (effective_status (λ _. true) cancel to)

abbrev pub with_status : RunStatus → RunState → RunState
with_status status r = record r { status = status }

abbrev pub cancels_at : World → RunState → RunStatus → Bool
cancels_at w r to = w.cancel_at to || status_eq r.status cancelling

-- A request whose status is returned, as in `fail_run`, `cancel_run` and the last transitions.
abbrev pub returned : Session → Result StoreError RunStatus → Return
returned s (err e) = (s, err (store_failed e))
returned s (ok status) = (save (with_status status s.state) s, ok status)

unfoldable pub finish : {A : Type 0} → World → RunStatus → Session → Stage A
finish w to s = err (returned s (request (cancels_at w s.state to) s.state.status to))

-- A request that goes on unless the run is cancelled.
abbrev pub went_on : Session → Result StoreError RunStatus → Stage (Unit {0})
went_on s (err e) = err (s, err (store_failed e))
went_on s (ok status) =
    let s' = save (with_status status s.state) s in
    if status_eq status cancelled then err (s', ok cancelled) else ok (s', tt)

unfoldable pub enter : World → RunStatus → Session → Stage (Unit {0})
enter w to s = went_on s (request (cancels_at w s.state to) s.state.status to)

abbrev pub fails : {A : Type 0} → Bool → World → RunStatus → Session → A → Stage A
fails bad w to s a = if bad then finish w to s else ok (s, a)
