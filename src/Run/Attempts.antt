-- ===== src/Run/Attempts.antt =====
-- One route of a phase (src/run.rs): the number of its next attempt, the persisted deadline of a
-- retry, and the loops that take a lane's output or an arbiter's verdict or try again. What the
-- attempts of a route return, and which waits a cancellation ends, is a `LaneWorld`.
pub mod Freshness
pub mod Deadline
pub mod Budget
use quinte.Prelude.{
  ℕ, zero, suc, ◌+◌, max, String, Bool, true, false, not, ◌&&◌, ◌||◌, List, [], ◌∷◌, Option, none,
  some, Result, ok, err, ◌>>=◌, ◌>>◌, bail_if, ltb, ◌==◌, str_ne, if◌then◌else◌,
}
use quinte.Model.Lanes.{LaneOutput, ArbiterVerdict}
use quinte.Model.Routes.{Policy}
use quinte.Run.Evidence.{
  EvidenceError, usize_max, validate_evidence_refs, validate_arbiter_semantics,
}
use quinte.Run.Retry.{
  RetryClass, failure_class, retry_allowed, RetryError, RetrySchedule, retry_schedule,
}

-- `AdapterOutput` of src/adapters.rs.
pub data AdapterOutput : Type 0 where
  lane_output : LaneOutput → AdapterOutput
  arbiter_output : ArbiterVerdict → AdapterOutput

pub record AttemptOutcome : Type 0 where
  pub output : Option AdapterOutput
  pub error : Option String
  pub cancelled : Bool
  pub retry : RetryClass

pub record RetryDeadlineState : Type 0 where
  pub retry_state_version : String
  pub phase : String
  pub route_id : String
  pub previous_attempt : ℕ
  pub next_attempt : ℕ
  pub due_at : String
  pub failure_class : String
  pub source : String

pub data LaneError : Type 0 where
  budget_exhausted history_overflow run_cancelled contract_mismatch : LaneError
  deadline_mismatch bad_due_at out_of_fuel : LaneError
  lane_failed attempt_error : String → LaneError
  bad_evidence : EvidenceError → LaneError
  bad_schedule : RetryError → LaneError

-- `runs` is `adapters::build` and `run_attempt`. `cancel_seen` tells whether a cancellation is
-- requested when the outcome of an attempt is looked at, `wait_cancelled` and `pacing_cancelled`
-- whether one ends the wait before an attempt. `due_after` is the clock plus a delay, and
-- `time_left` what remains until a time, if its text can be read.
pub record LaneWorld : Type 0 where
  pub runs : ℕ → Result String AttemptOutcome
  pub cancel_seen : ℕ → Bool
  pub wait_cancelled : ℕ → Bool
  pub pacing_cancelled : ℕ → Bool
  pub due_after : ℕ → ℕ → String
  pub time_left : String → Option ℕ

-- The loop of `next_attempt` over the attempt directories that are there, by their numbers.
unfoldable pub highest : ℕ → List ℕ → ℕ
highest h [] = h
highest h (n ∷ ns) = highest (if ltb 0 n then max h n else h) ns

unfoldable pub next_attempt : ℕ → List ℕ → Result LaneError ℕ
next_attempt max_attempts history = do
  bail_if (max_attempts == 0) budget_exhausted
  bail_if (ltb usize_max (highest 0 history + 1)) history_overflow
  bail_if (ltb max_attempts (highest 0 history + 1)) budget_exhausted
  ok (highest 0 history + 1)

abbrev pub map_err : {E F A : Type 0} → (E → F) → Result E A → Result F A
map_err f (ok a) = ok a
map_err f (err e) = err (f e)

-- The state that `persist_retry_deadline` writes.
unfoldable pub persist_retry_deadline :
    String → String → ℕ → String → RetryClass → String → Result LaneError RetryDeadlineState
persist_retry_deadline phase route_id previous due_at retry source =
    bail_if (ltb usize_max (previous + 1)) history_overflow
    >> ok (record {
      retry_state_version = "1.0";
      phase = phase;
      route_id = route_id;
      previous_attempt = previous;
      next_attempt = previous + 1;
      due_at = due_at;
      failure_class = failure_class retry;
      source = source;
    })

abbrev is_wrong_deadline : RetryDeadlineState → String → String → ℕ → Bool
is_wrong_deadline s phase route_id attempt =
    str_ne s.retry_state_version "1.0"
    || str_ne s.phase phase
    || str_ne s.route_id route_id
    || not (s.next_attempt == attempt)
    || ltb usize_max (s.previous_attempt + 1)
    || not (s.previous_attempt + 1 == s.next_attempt)

-- The end of `wait_for_retry_deadline`, with the time that is left.
abbrev wait_out : LaneWorld → ℕ → Option ℕ → Result LaneError (Unit {0})
wait_out w attempt none = err bad_due_at
wait_out w attempt (some left) = bail_if (not (left == 0) && w.wait_cancelled attempt) run_cancelled

-- Without a deadline there is nothing to wait for. When it succeeds no deadline is left.
unfoldable pub wait_for_retry_deadline :
    LaneWorld → String → String → ℕ → Option RetryDeadlineState → Result LaneError (Unit {0})
wait_for_retry_deadline w phase route_id attempt none = ok tt
wait_for_retry_deadline w phase route_id attempt (some s) =
    bail_if (is_wrong_deadline s phase route_id attempt) deadline_mismatch
    >> wait_out w attempt (w.time_left s.due_at)

-- What is known of the run: its id, its policy, the phase, and the references of its snapshot.
-- `paced` says that R2 runs one lane at a time.
pub record LaneContext : Type 0 where
  pub run_id : String
  pub policy : Policy
  pub phase : String
  pub valid : List String
  pub paced : Bool

abbrev message_or : Option String → String → String
message_or none d = d
message_or (some m) d = m

abbrev give_up_or_retry : LaneContext → String → ℕ → AttemptOutcome → Result LaneError (Unit {0})
give_up_or_retry c fallback attempt o =
    bail_if (not (retry_allowed o.retry attempt c.policy.max_attempts))
      (lane_failed (message_or o.error fallback))

-- One pass of the loop of `accept_or_retry_lane`: the output that is accepted, or none for a retry.
abbrev lane_answer :
    LaneContext → ℕ → AttemptOutcome → Option AdapterOutput → Result LaneError (Option LaneOutput)
lane_answer c attempt o none = give_up_or_retry c "invalid adapter output" attempt o >> ok none
lane_answer c attempt o (some (arbiter_output v)) = err contract_mismatch
lane_answer c attempt o (some (lane_output l)) =
    map_err bad_evidence (validate_evidence_refs c.valid l) >>= λ done. ok (some done.0)

unfoldable pub lane_pass :
    LaneContext → LaneWorld → ℕ → AttemptOutcome → Result LaneError (Option LaneOutput)
lane_pass c w attempt o =
    bail_if (o.cancelled || w.cancel_seen attempt) run_cancelled >> lane_answer c attempt o o.output

-- One pass of the loop of `await_arbiter_output`. A verdict `none` is a cancelled run.
abbrev arbiter_answer :
    LaneContext
    → ℕ
    → AttemptOutcome
    → Option AdapterOutput
    → Result LaneError (Option (Option ArbiterVerdict))
arbiter_answer c attempt o none = give_up_or_retry c "invalid arbiter output" attempt o >> ok none
arbiter_answer c attempt o (some (lane_output l)) = err contract_mismatch
arbiter_answer c attempt o (some (arbiter_output v)) =
    map_err bad_evidence (validate_arbiter_semantics c.valid v) >>= λ done. ok (some (some done.0))

unfoldable pub arbiter_pass :
    LaneContext → LaneWorld → ℕ → AttemptOutcome → Result LaneError (Option (Option ArbiterVerdict))
arbiter_pass c w attempt o =
    if o.cancelled || w.cancel_seen attempt
    then ok (some none)
    else arbiter_answer c attempt o o.output

-- `sha256` stands for the digest that seeds the jitter of a retry.
module _ (sha256 : List ℕ → List ℕ) where
  unfoldable pub run_retry_attempt :
      LaneContext → LaneWorld → String → ℕ → RetryClass → Result LaneError (ℕ × AttemptOutcome)
  run_retry_attempt c w route_id attempt retry = do
    schedule ←
        map_err bad_schedule
          (retry_schedule sha256 retry c.policy c.run_id c.phase route_id attempt)
    state ←
        persist_retry_deadline c.phase route_id attempt (w.due_after attempt schedule.delay) retry
          schedule.source
    wait_for_retry_deadline w c.phase route_id (attempt + 1) (some state)
    bail_if (c.paced && w.pacing_cancelled (attempt + 1)) run_cancelled
    outcome ← map_err attempt_error (w.runs (attempt + 1))
    ok (attempt + 1, outcome)

  -- The loops, with one pass as a parameter: the attempt that answered, and its answer.
  module _ {A : Type 0} (pass : ℕ → AttemptOutcome → Result LaneError (Option A)) where
    unfoldable pub retry_loop :
        LaneContext → LaneWorld → String → ℕ → ℕ → AttemptOutcome → Result LaneError (ℕ × A)
    retry_loop c w route_id zero attempt o = pass attempt o >>= λ answer. elim answer [
      | some a ↦ ok (attempt, a)
      | none ↦ err out_of_fuel
    ]
    retry_loop c w route_id (suc fuel) attempt o = pass attempt o >>= λ answer. elim answer [
      | some a ↦ ok (attempt, a)
      | none ↦ run_retry_attempt c w route_id attempt o.retry >>= λ next.
          retry_loop c w route_id fuel next.0 next.1
    ]

  unfoldable pub accept_or_retry_lane :
      LaneContext → LaneWorld → String → ℕ → AttemptOutcome → Result LaneError (ℕ × LaneOutput)
  accept_or_retry_lane c w route_id attempt o =
      retry_loop (lane_pass c w) c w route_id c.policy.max_attempts attempt o

  unfoldable pub await_arbiter_output :
      LaneContext
      → LaneWorld
      → String
      → ℕ
      → AttemptOutcome
      → Result LaneError (ℕ × Option ArbiterVerdict)
  await_arbiter_output c w route_id attempt o =
      retry_loop (arbiter_pass c w) c w route_id c.policy.max_attempts attempt o
