-- ===== src/Examples/Runs.antt =====
-- A call of the scheduler that takes a new run to its result, and a transition as the scheduler sees
-- it (src/run.rs, src/store.rs).
use quinte.Prelude.{String, ◌≡◌, refl, Bool, true, false, [], none, some, ok, ◌>>=◌, All, trim}
use quinte.Prelude.Keyed
use quinte.Model.Lanes.{below_half}
use quinte.Model.Status.{queued, r1_running, r1_gate, terminal}
use quinte.Policy.Defaults.{production_route, default_roster, default_policy}
use quinte.Run.Contest.{
  r1_contestation, mark_pairs, mark_against, verdicts_differ, dispositions_conflict, insert_all,
  update_all, any_conflict, mark_unsupported, attestations, attest_lane, mark_asymmetric, marks,
  omitting, flagged,
}
use quinte.Run.Evidence.{
  validate_evidence_refs, validate_arbiter_semantics, validate_residual_evidence_refs,
  validate_unique_claim_ids, validate_unique_residual_ids, validate_unique_ids, unique_ids_from,
  remap_claims, remap_residuals,
}
use quinte.Run.Attempts.{
  arbiter_output, highest, next_attempt, wait_for_retry_deadline, lane_pass, arbiter_pass,
  retry_loop, accept_or_retry_lane, await_arbiter_output,
}
use quinte.Run.Phase.{
  LaneState, phase_complete, load_existing_phase_outputs, missing_routes, number_all, wait_all,
  prepare_all, join_all, accept_all, run_parallel, run_phase,
}
use quinte.Run.Scheduler.{no_submission, RunState, World, request, enter, finish}
use quinte.Run.Scheduler.Advance.{
  preflight_stage, r1_stage, r1_gate_stage, r2_stage, r2_gate_stage, evidence_stage, arbiter_lane,
  counterpart_stage, primary_stage, submission_stage, merge_stage, r3_stages, advance_stages,
  advance,
}
use quinte.Run.Scheduler.Consistent.{settled, is_accepted, consistent, IsProper}
use quinte.Run.Scheduler.Refines.{transition_refines_request}
use quinte.Run.Scheduler.Resume.{is_result, advance_resumable, advance_result_complete}
use quinte.Store.{Manifest, Disk, transition_allowed, transition_from}
use quinte.Examples.Inputs.{verdict}
use quinte.Examples.Phases.{zeros, any_output, fresh, answer, world}

abbrev arbiter : LaneState
arbiter = record {
  history = [];
  deadline = none;
  world = record world {
    runs = λ n. ok (record answer { output = some (arbiter_output (verdict [])) });
  };
}

-- Nothing fails and nobody cancels.
abbrev calm : World
calm = record {
  cancel_at = λ status. false;
  integrity_drift = false;
  adapters_missing = false;
  r1_lanes = record { lanes = fresh; stagger_cancelled = false };
  r2_lanes = record { lanes = fresh; stagger_cancelled = false };
  counterpart = arbiter;
  receipt_drift = false;
  challenge_fails = false;
  packet_drift = false;
  primary = arbiter;
  response_refused = false;
  staging_fails = false;
  response_missing = false;
  submission_drift = false;
  response_invalid = false;
  finalization_cancelled = false;
  result_degraded = false;
}

abbrev new_run : RunState
new_run = record {
  status = queued;
  r1 = [];
  r2 = [];
  r2_skipped = false;
  r2_packet_written = false;
  evidence_packet = false;
  cc_response = false;
  challenge = false;
  primary_request = false;
  submission = no_submission;
  result = false;
}

abbrev paths : String → String → String
paths phase route = "accepted.json"

new_run-consistent : consistent default_policy new_run ≡ true
unfolding phase_complete Keyed.get default_policy default_roster production_route
new_run-consistent = refl

-- The five lanes agree, so R2 is skipped, and the run is completed.
completes :
    is_result (advance zeros paths any_output "run-1" [] default_policy calm new_run).0.state.status
    ≡ true
unfolding advance advance_stages r3_stages preflight_stage r1_stage r1_gate_stage r2_stage
    r2_gate_stage evidence_stage arbiter_lane counterpart_stage primary_stage submission_stage
    merge_stage enter finish request transition_allowed terminal phase_complete run_phase
    load_existing_phase_outputs missing_routes run_parallel number_all wait_all prepare_all join_all
    accept_all next_attempt highest wait_for_retry_deadline accept_or_retry_lane
    await_arbiter_output retry_loop lane_pass arbiter_pass validate_evidence_refs
    validate_arbiter_semantics validate_residual_evidence_refs validate_unique_claim_ids
    validate_unique_residual_ids validate_unique_ids unique_ids_from remap_claims remap_residuals
    r1_contestation mark_pairs mark_against verdicts_differ dispositions_conflict insert_all
    update_all any_conflict mark_unsupported attestations attest_lane mark_asymmetric marks omitting
    flagged trim below_half default_policy default_roster production_route Keyed.get Keyed.insert
completes = refl

advance_resumable_example :
    All
      (λ q. consistent default_policy q ≡ true)
      (advance zeros paths any_output "run-1" [] default_policy calm new_run).0.saved
    × IsProper
        (advance zeros paths any_output "run-1" [] default_policy calm new_run).0.state
        (advance zeros paths any_output "run-1" [] default_policy calm new_run).1
advance_resumable_example =
    advance_resumable zeros paths any_output "run-1" [] default_policy calm new_run
      new_run-consistent

advance_result_complete_example :
    (phase_complete default_policy.roster
        (advance zeros paths any_output "run-1" [] default_policy calm new_run).0.state.r1
      ≡ true)
    × (settled default_policy
          (advance zeros paths any_output "run-1" [] default_policy calm new_run).0.state
        ≡ true)
    × ((advance zeros paths any_output "run-1" [] default_policy calm new_run).0.state.cc_response
        ≡ true)
    × (is_accepted
          (advance zeros paths any_output "run-1" [] default_policy calm new_run).0.state.submission
        ≡ true)
advance_result_complete_example =
    advance_result_complete zeros paths any_output "run-1" [] default_policy calm new_run
      new_run-consistent completes

abbrev any_id : String → Bool
any_id s = true

abbrev running : Manifest
running = record {
  run_id = "run-1";
  status = r1_running;
  current_phase = some "R1";
  updated_at = "2026-07-13T00:00:00.000Z";
  error = none;
  result_sha256 = none;
}

-- A cancellation is requested on disk.
abbrev asked_to_stop : Disk
asked_to_stop = record {
  manifest = some running;
  cancel_requested = true;
  pending = none;
  events = [];
}

transition_refines_request_example :
    ((transition_from any_id "2026-07-13T00:01:00.000Z" "t-1" running r1_gate
          (some "R1")
          "null"
          (running, asked_to_stop)
        >>= λ r. ok r.0)
      ≡ request true r1_running r1_gate)
    × ((transition_from any_id "2026-07-13T00:01:00.000Z" "t-1" running r1_gate
            (some "R1")
            "null"
            (running, asked_to_stop)
          >>= λ r. ok r.1.status)
        ≡ request true r1_running r1_gate)
transition_refines_request_example =
    transition_refines_request any_id "2026-07-13T00:01:00.000Z" "t-1" running (some "R1") "null"
      r1_gate running asked_to_stop refl
