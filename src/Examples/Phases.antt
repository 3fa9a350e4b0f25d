-- ===== src/Examples/Phases.antt =====
-- A phase of the installed policy whose lanes answer at once, and the attempts of a route
-- (src/run.rs). The digest is one of zeros.
use quinte.Prelude.{
  ℕ, ◌+◌, ◌≤◌, String, ◌≡◌, refl, Bool, true, false, List, [], ◌∷◌, none, some, ok, All, codes,
  length, is_ok,
}
use quinte.Prelude.Keyed
use quinte.Prelude.Keyed.{Keyed}
use quinte.Model.Lanes.{LaneOutput, LaneAccepted}
use quinte.Model.Routes.{RoutePolicy}
use quinte.Policy.Defaults.{production_route, default_roster, default_policy}
use quinte.Run.Evidence.{
  validate_evidence_refs, validate_unique_claim_ids, validate_unique_residual_ids,
  validate_unique_ids, unique_ids_from, remap_claims, remap_residuals,
}
use quinte.Run.Retry.{never, transient_timeout, failure_class}
use quinte.Run.Attempts.{
  lane_output, AttemptOutcome, RetryDeadlineState, LaneWorld, LaneContext, highest, next_attempt,
  persist_retry_deadline, wait_for_retry_deadline, lane_pass, retry_loop, accept_or_retry_lane,
  await_arbiter_output,
}
use quinte.Run.Attempts.Budget.{InBudget, attempts_end}
use quinte.Run.Attempts.Deadline.{deadline_roundtrip}
use quinte.Run.Attempts.Freshness.{next_attempt_fresh}
use quinte.Run.Phase.{
  LaneState, PhaseRun, phase_complete, load_existing_phase_outputs, missing_routes, serial_lane,
  run_serial, number_all, wait_all, prepare_all, join_all, accept_all, run_parallel, run_phase,
}
use quinte.Run.Phase.Gate.{phase_passes_gate, accepted_outputs_kept}
use quinte.Run.Phase.Work.{names}
use quinte.Run.Phase.Modes.{unpaced, modes_agree}
use quinte.Examples.Inputs.{lane}

abbrev pub zeros : List ℕ → List ℕ
zeros text = codes "sha256:0000000000000000"

abbrev path : String → String
path route = "accepted.json"

abbrev pub any_output : LaneOutput → Bool
any_output o = true

abbrev plain : LaneOutput
plain = record (lane "Party A" "deepseek-a" "Hold" []).output { claims = [] }

abbrev pub answer : AttemptOutcome
answer = record {
  output = some (lane_output plain);
  error = none;
  cancelled = false;
  retry = never;
}

abbrev time_out : AttemptOutcome
time_out = record {
  output = none;
  error = some "timed out";
  cancelled = false;
  retry = transient_timeout;
}

-- Every attempt answers, and no wait is cancelled.
abbrev pub world : LaneWorld
world = record {
  runs = λ n. ok answer;
  cancel_seen = λ n. false;
  wait_cancelled = λ n. false;
  pacing_cancelled = λ n. false;
  due_after = λ n delay. "2026-07-13T00:01:00Z";
  time_left = λ text. some 5;
}

abbrev pub fresh : String → LaneState
fresh route = record { history = []; deadline = none; world = world }

abbrev context_of : String → LaneContext
context_of phase = record {
  run_id = "run-1";
  policy = default_policy;
  phase = phase;
  valid = [];
  paced = true;
}

abbrev numbers : List ℕ
numbers = 1 ∷ 2 ∷ []

abbrev three : ℕ
three = 3

third_attempt : next_attempt three numbers ≡ ok three
unfolding next_attempt highest
third_attempt = refl

next_attempt_fresh_example : All (λ k. k + 1 ≤ three) numbers × (1 ≤ three) × (three ≤ three)
next_attempt_fresh_example = next_attempt_fresh three numbers third_attempt

abbrev deadline : RetryDeadlineState
deadline = record {
  retry_state_version = "1.0";
  phase = "R1";
  route_id = "deepseek-a";
  previous_attempt = 1;
  next_attempt = 2;
  due_at = "2026-07-13T00:01:00Z";
  failure_class = "timeout";
  source = "host_timeout";
}

deadline_written :
    persist_retry_deadline "R1" "deepseek-a" 1 "2026-07-13T00:01:00Z" transient_timeout
      "host_timeout"
    ≡ ok deadline
unfolding persist_retry_deadline failure_class
deadline_written = refl

deadline_roundtrip_example :
    (wait_for_retry_deadline world "R1" "deepseek-a" 2 (some deadline) ≡ ok tt)
    × ((phase route_id : String) (attempt : ℕ)
        → wait_for_retry_deadline world phase route_id attempt (some deadline) ≡ ok tt
        → (phase ≡ "R1") × (route_id ≡ "deepseek-a") × (attempt ≡ 2))
deadline_roundtrip_example =
    deadline_roundtrip world "R1" "deepseek-a" 1 "2026-07-13T00:01:00Z" transient_timeout
      "host_timeout" 5 deadline_written refl refl

-- The first attempt times out, the second answers.
attempts_end_example :
    InBudget 1 default_policy.max_attempts
      (accept_or_retry_lane zeros (context_of "R1") world "deepseek-a" 1 time_out)
    × InBudget 1 default_policy.max_attempts
        (await_arbiter_output zeros (context_of "R1") world "deepseek-a" 1 time_out)
attempts_end_example = attempts_end zeros (context_of "R1") world "deepseek-a" 1 time_out

-- Party A has answered before; the other four answer now.
abbrev one_file : Keyed LaneOutput
one_file = ("deepseek-a", plain) ∷ []

abbrev phase_run : PhaseRun
phase_run = run_phase zeros path fresh any_output (context_of "R1") false one_file

abbrev accepted_by : String → String → LaneAccepted
accepted_by party route = record {
  party_id = party;
  route_id = route;
  output = plain;
  artifact_ref = "accepted.json";
}

abbrev all_five : List LaneAccepted
all_five =
    accepted_by "Party A" "deepseek-a"
    ∷ accepted_by "Party B" "deepseek-b"
    ∷ accepted_by "Party C" "deepseek-c"
    ∷ accepted_by "Party D" "deepseek-d"
    ∷ accepted_by "Party E" "deepseek-e"
    ∷ []

phase_succeeds : phase_run.outputs ≡ ok all_five
unfolding run_phase load_existing_phase_outputs missing_routes run_parallel number_all wait_all
    prepare_all join_all accept_all next_attempt highest wait_for_retry_deadline
    accept_or_retry_lane retry_loop lane_pass validate_evidence_refs validate_unique_claim_ids
    validate_unique_residual_ids validate_unique_ids unique_ids_from remap_claims remap_residuals
    default_policy default_roster production_route Keyed.get Keyed.insert
phase_succeeds = refl

phase_passes_gate_example :
    (length all_five ≡ 5) × (phase_complete default_policy.roster phase_run.files ≡ true)
phase_passes_gate_example =
    phase_passes_gate zeros path fresh any_output (context_of "R1") false one_file phase_succeeds

party_a_seated : names default_policy.roster "deepseek-a" ≡ true
unfolding default_policy default_roster production_route
party_a_seated = refl

party_a_there : Keyed.get "deepseek-a" one_file ≡ some plain
unfolding Keyed.get
party_a_there = refl

accepted_outputs_kept_example : Keyed.get "deepseek-a" phase_run.files ≡ some plain
accepted_outputs_kept_example =
    accepted_outputs_kept zeros path fresh any_output (context_of "R1") false one_file "deepseek-a"
      party_a_seated party_a_there

abbrev two_routes : List RoutePolicy
two_routes =
    production_route "Party A" "deepseek-a" "audit" default_policy.seat
    ∷ production_route "Party B" "deepseek-b" "search" default_policy.seat
    ∷ []

two_succeed : All (λ r. is_ok (serial_lane zeros path fresh (context_of "R2") r) ≡ true) two_routes
unfolding serial_lane next_attempt highest wait_for_retry_deadline accept_or_retry_lane retry_loop
    lane_pass validate_evidence_refs validate_unique_claim_ids validate_unique_residual_ids
    validate_unique_ids unique_ids_from remap_claims remap_residuals default_policy default_roster
    production_route
two_succeed = (refl, (refl, tt))

modes_agree_example :
    run_parallel zeros path fresh (unpaced (context_of "R2")) false two_routes [] []
    ≡ run_serial zeros path fresh (context_of "R2") two_routes [] []
modes_agree_example =
    modes_agree zeros path fresh (context_of "R2") two_routes [] [] ((λ n. refl), ((λ n. refl), tt))
      two_succeed
