-- ===== src/Run/Phase.antt =====
-- A phase of a run (src/run.rs): the outputs that it has accepted, and the lanes that still lack one,
-- run one after another or side by side. The accepted outputs of a phase are the files
-- lanes/<phase>/<route>/accepted.json, here a map from the route ids.
pub mod Work
pub mod Gate
pub mod Calm
pub mod Modes
use quinte.Prelude.{
  ℕ, String, Bool, true, false, not, ◌&&◌, ◌||◌, List, [], ◌∷◌, ◌++◌, Option, none, some, Result,
  ok, err, ◌>>=◌, ◌>>◌, bail_if, context, any, all, is_some, is_empty, ◌==◌, length, str_eq,
  if◌then◌else◌,
}
use quinte.Prelude.Keyed
use quinte.Prelude.Keyed.{Keyed}
use quinte.Model.Lanes.{LaneOutput, LaneAccepted}
use quinte.Model.Routes.{RoutePolicy, Policy}
use quinte.Run.Attempts.{
  AttemptOutcome, RetryDeadlineState, LaneError, run_cancelled, attempt_error, LaneWorld,
  LaneContext, next_attempt, map_err, wait_for_retry_deadline, accept_or_retry_lane,
}

pub data PhaseError : Type 0 where
  lane_stopped : LaneError → PhaseError
  execution_failed acceptance_failed spawn_cancelled gate_failed : PhaseError
  missing_output invalid_output : String → PhaseError

unfoldable pub phase_complete : List RoutePolicy → Keyed LaneOutput → Bool
phase_complete roster files =
    all (λ (route : RoutePolicy). is_some (Keyed.get route.route_id files)) roster

-- `artifact` is the path of an accepted output, lanes/<phase>/<route>/accepted.json.
abbrev pub accepted_lane : (String → String) → RoutePolicy → LaneOutput → LaneAccepted
accepted_lane artifact route output = record {
  party_id = route.party_id;
  route_id = route.route_id;
  output = output;
  artifact_ref = artifact route.route_id;
}

-- `valid_lane` stands for the check of a file against the schema of lane outputs.
module _ (artifact : String → String) (valid_lane : LaneOutput → Bool) where
  abbrev pub validated : RoutePolicy → LaneOutput → Result PhaseError LaneAccepted
  validated route output =
      bail_if (not (valid_lane output)) (invalid_output route.route_id)
      >> ok (accepted_lane artifact route output)

  unfoldable pub load_lanes :
      List RoutePolicy → Keyed LaneOutput → Result PhaseError (List LaneAccepted)
  load_lanes [] files = ok []
  load_lanes (route ∷ routes) files = do
    output ← context (Keyed.get route.route_id files) (missing_output route.route_id)
    lane ← validated route output
    lanes ← load_lanes routes files
    ok (lane ∷ lanes)

  -- `skipped` tells whether the phase is R2 and r2/skipped.json exists.
  unfoldable pub load_phase :
      Bool → List RoutePolicy → Keyed LaneOutput → Result PhaseError (List LaneAccepted)
  load_phase skipped roster files = if skipped then ok [] else load_lanes roster files

  unfoldable pub load_existing_phase_outputs :
      List RoutePolicy → Keyed LaneOutput → Result PhaseError (List LaneAccepted)
  load_existing_phase_outputs [] files = ok []
  load_existing_phase_outputs (route ∷ routes) files = elim (Keyed.get route.route_id files) [
    | none ↦ load_existing_phase_outputs routes files
    | some output ↦ validated route output >>= λ lane.
        load_existing_phase_outputs routes files >>= λ lanes. ok (lane ∷ lanes)
  ]

abbrev pub has_lane : List LaneAccepted → RoutePolicy → Bool
has_lane lanes route = any (λ (lane : LaneAccepted). str_eq lane.route_id route.route_id) lanes

unfoldable pub missing_routes : List RoutePolicy → List LaneAccepted → List RoutePolicy
missing_routes [] accepted = []
missing_routes (route ∷ routes) accepted =
    let rest = missing_routes routes accepted in
    if has_lane accepted route then rest else route ∷ rest

-- What a phase has done when it ends: its files, whether it has cancelled the run, and its outputs.
pub record PhaseRun : Type 0 where
  pub files : Keyed LaneOutput
  pub cancelled : Bool
  pub outputs : Result PhaseError (List LaneAccepted)

-- The attempts of a route: those whose directories are there, the deadline of the next, and the
-- world that they run in.
pub record LaneState : Type 0 where
  pub history : List ℕ
  pub deadline : Option RetryDeadlineState
  pub world : LaneWorld

abbrev pub is_cancel : LaneError → Bool
is_cancel run_cancelled = true
is_cancel _ = false

abbrev pub stopped : Keyed LaneOutput → LaneError → PhaseRun
stopped files e = record { files = files; cancelled = is_cancel e; outputs = err (lane_stopped e) }

abbrev pub done : Keyed LaneOutput → List LaneAccepted → PhaseRun
done files accepted = record { files = files; cancelled = false; outputs = ok accepted }

-- The jobs of the parallel loop.
abbrev pub Prepared : Type 0
Prepared = RoutePolicy × ℕ

abbrev pub Finished : Type 0
Finished = RoutePolicy × ℕ × AttemptOutcome

-- The gate at the end: five accepted lanes.
abbrev pub five_parties : List LaneAccepted → Result PhaseError (List LaneAccepted)
five_parties accepted = bail_if (not (length accepted == 5)) gate_failed >> ok accepted

abbrev pub gated : PhaseRun → PhaseRun
gated r = record r { outputs = r.outputs >>= five_parties }

abbrev pub fans_out : LaneContext → Bool
fans_out c = str_eq c.phase "R1" || (str_eq c.phase "R2" && c.policy.r2_parallel)

-- `sha256` seeds the jitter of a retry; `lanes` gives the attempts of a route by its id.
module _ (sha256 : List ℕ → List ℕ) (artifact : String → String) (lanes : String → LaneState) where
  -- The number of the first attempt, and the wait for its deadline.
  abbrev pub prepare : LaneContext → RoutePolicy → Result LaneError ℕ
  prepare c route = do
    attempt ← next_attempt c.policy.max_attempts (lanes route.route_id).history
    wait_for_retry_deadline (lanes route.route_id).world c.phase route.route_id attempt
        (lanes route.route_id).deadline
    ok attempt

  abbrev pub first_run : RoutePolicy → ℕ → Result LaneError AttemptOutcome
  first_run route attempt = map_err attempt_error ((lanes route.route_id).world.runs attempt)

  abbrev pub accept : LaneContext → RoutePolicy → ℕ → AttemptOutcome → Result LaneError LaneOutput
  accept c route attempt outcome =
      accept_or_retry_lane sha256 c (lanes route.route_id).world route.route_id attempt outcome
      >>= λ answer. ok answer.1

  -- A lane of the serial loop.
  unfoldable pub serial_lane : LaneContext → RoutePolicy → Result LaneError LaneOutput
  serial_lane c route = do
    attempt ← prepare c route
    bail_if (c.paced && (lanes route.route_id).world.pacing_cancelled attempt) run_cancelled
    outcome ← first_run route attempt
    accept c route attempt outcome

  unfoldable pub run_serial :
      LaneContext → List RoutePolicy → Keyed LaneOutput → List LaneAccepted → PhaseRun
  run_serial c [] files accepted = done files accepted
  run_serial c (route ∷ routes) files accepted = elim (serial_lane c route) [
    | err e ↦ stopped files e
    | ok output ↦
        run_serial c routes (Keyed.insert route.route_id output files)
          (accepted ++ accepted_lane artifact route output ∷ [])
  ]

  -- `pending`: the numbers of all attempts are taken before the first wait.
  unfoldable pub number_all : LaneContext → List RoutePolicy → Result LaneError (List Prepared)
  number_all c [] = ok []
  number_all c (route ∷ routes) = do
    attempt ← next_attempt c.policy.max_attempts (lanes route.route_id).history
    rest ← number_all c routes
    ok ((route, attempt) ∷ rest)

  unfoldable pub wait_all : LaneContext → List Prepared → Result LaneError (Unit {0})
  wait_all c [] = ok tt
  wait_all c ((route, attempt) ∷ jobs) =
      wait_for_retry_deadline (lanes route.route_id).world c.phase route.route_id attempt
        (lanes route.route_id).deadline
      >> wait_all c jobs

  unfoldable pub prepare_all : LaneContext → List RoutePolicy → Result LaneError (List Prepared)
  prepare_all c routes = number_all c routes >>= λ jobs. wait_all c jobs >> ok jobs

  -- The joined jobs: those that finished, and whether one failed.
  unfoldable pub join_all : List Prepared → List Finished × Bool
  join_all [] = ([], false)
  join_all ((route, attempt) ∷ jobs) =
      let (finished, failed) = join_all jobs in
      elim (first_run route attempt) [
        | ok outcome ↦ ((route, attempt, outcome) ∷ finished, failed)
        | err e ↦ (finished, true)
      ]

  -- Every finished lane is accepted or refused, whatever the others do. The flags tell whether one
  -- was refused, and whether one cancelled the run.
  unfoldable pub accept_all :
      LaneContext → List Finished → Keyed LaneOutput → List LaneAccepted → Bool → Bool → PhaseRun
  accept_all c [] files accepted refused cancelled = record {
    files = files;
    cancelled = cancelled;
    outputs = bail_if refused acceptance_failed >> ok accepted;
  }
  accept_all c ((route, attempt, outcome) ∷ rest) files accepted refused cancelled =
      elim (accept c route attempt outcome) [
        | err e ↦ accept_all c rest files accepted true (cancelled || is_cancel e)
        | ok output ↦
            accept_all c rest (Keyed.insert route.route_id output files)
              (accepted ++ accepted_lane artifact route output ∷ []) refused cancelled
      ]

  abbrev pub accept_joined :
      LaneContext → Keyed LaneOutput → List LaneAccepted → List Finished × Bool → PhaseRun
  accept_joined c files accepted (finished, true) = record {
    files = files;
    cancelled = false;
    outputs = err execution_failed;
  }
  accept_joined c files accepted (finished, false) =
      accept_all c finished files accepted false false

  -- `stagger_cancelled` tells whether a cancellation ends the wait between two starts.
  unfoldable pub run_parallel :
      LaneContext → Bool → List RoutePolicy → Keyed LaneOutput → List LaneAccepted → PhaseRun
  run_parallel c stagger_cancelled routes files accepted = elim (prepare_all c routes) [
    | err e ↦ stopped files e
    | ok jobs ↦
        if stagger_cancelled
        then record { files = files; cancelled = true; outputs = err spawn_cancelled }
        else accept_joined c files accepted (join_all jobs)
  ]

  abbrev pub run_missing :
      LaneContext → Bool → Keyed LaneOutput → Result PhaseError (List LaneAccepted) → PhaseRun
  run_missing c stagger_cancelled files (err e) = record {
    files = files;
    cancelled = false;
    outputs = err e;
  }
  run_missing c stagger_cancelled files (ok accepted) =
      let missing = missing_routes c.policy.roster accepted in
      gated (
        if fans_out c
        then run_parallel c stagger_cancelled missing files accepted
        else run_serial c missing files accepted)

  unfoldable pub run_phase : (LaneOutput → Bool) → LaneContext → Bool → Keyed LaneOutput → PhaseRun
  run_phase valid_lane c stagger_cancelled files =
      run_missing c stagger_cancelled files
        (load_existing_phase_outputs artifact valid_lane c.policy.roster files)
