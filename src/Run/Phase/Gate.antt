-- ===== src/Run/Phase/Gate.antt =====
-- What a phase leaves behind (`run_phase` of src/run.rs): the outputs that were there stay, and the
-- phase succeeds only with five.
use quinte.Prelude.{
  ℕ, String, ◌≡◌, refl, sym, ◌∙◌, ap, inl, inr, Bool, true, false, not, ◌&&◌, ◌||◌, List, [], ◌∷◌,
  some, ok, err, ◌>>=◌, bail_if-ok, >>=-ok, ok-injective, any, is_some, ◌==◌, length, str_eq,
  eq_iff, if◌then◌else◌, arith, Result-cases, Option-cases,
}
use quinte.Prelude.Keyed
use quinte.Prelude.Keyed.{Keyed}
use quinte.Model.Lanes.{LaneOutput, LaneAccepted}
use quinte.Model.Routes.{RoutePolicy}
use quinte.Run.Attempts.{LaneContext}
use quinte.Run.Phase.{
  PhaseError, PhaseRun, LaneState, accepted_lane, validated, load_existing_phase_outputs,
  missing_routes, phase_complete, invalid_output, gate_failed, run_serial, run_parallel, run_phase,
  run_missing, fans_out, five_parties,
}
use quinte.Run.Phase.Work.{names, has_output, IsWork, run_serial-IsWork, run_parallel-IsWork}

abbrev has_id : List LaneAccepted → String → Bool
has_id lanes id = any (λ (lane : LaneAccepted). str_eq lane.route_id id) lanes

same_test : (f : String → Bool) (a b : String) → str_eq a b ≡ true → f a ≡ f b
same_test f a b h = ap f ((eq_iff a b).0 h)

-- The lanes that are loaded are those of the routes that have an output.
has_id-load_existing :
    (artifact : String → String) (valid_lane : LaneOutput → Bool) (routes : List RoutePolicy)
    (files : Keyed LaneOutput) (id : String) {accepted : List LaneAccepted}
    → load_existing_phase_outputs artifact valid_lane routes files ≡ ok accepted
    → has_id accepted id ≡ (names routes id && has_output id files)
unfolding load_existing_phase_outputs
has_id-load_existing artifact valid_lane [] files id {accepted} h =
    ap (λ l. has_id l id) (sym (ok-injective h))
has_id-load_existing artifact valid_lane (route ∷ routes) files id {accepted} h =
    elim (Option-cases (Keyed.get route.route_id files)) [
      | inl lacks ↦
          let rest =
            has_id-load_existing artifact valid_lane routes files id
              (rw (lacks, load_existing_phase_outputs) at h) in
          ground
            (arith, rest, ap is_some lacks, same_test (λ k. has_output k files) route.route_id id)
      | inr (output, found) ↦
          let (lane, checked, later) =
            >>=-ok (validated artifact valid_lane route output)
              (λ lane. load_existing_phase_outputs artifact valid_lane routes files >>= λ lanes.
                ok (lane ∷ lanes))
              (rw (found, load_existing_phase_outputs) at h) in
          let (lanes, loaded, last) =
            >>=-ok (load_existing_phase_outputs artifact valid_lane routes files)
              (λ lanes. ok (lane ∷ lanes)) later in
          let rest = has_id-load_existing artifact valid_lane routes files id loaded in
          let this =
            bail_if-ok (not (valid_lane output)) (invalid_output route.route_id)
              (ok (accepted_lane artifact route output)) checked in
          ap (λ l. has_id l id) (sym (ok-injective last))
          ∙ ap (λ x. str_eq x.route_id id || has_id lanes id) (sym (ok-injective this.1))
          ∙ with_output output found rest
    ]
  where
    with_output :
        (output : LaneOutput)
        → Keyed.get route.route_id files ≡ some output
        → {b : Bool} → b ≡ (names routes id && has_output id files)
        → (str_eq route.route_id id || b)
          ≡ ((str_eq route.route_id id || names routes id) && has_output id files)
    with_output output found same =
        ground (arith, ap is_some found, same_test (λ k. has_output k files) route.route_id id)

-- A route without a lane is missing, and no other.
names-missing_routes :
    (routes : List RoutePolicy) (accepted : List LaneAccepted) (id : String)
    → names (missing_routes routes accepted) id ≡ (names routes id && not (has_id accepted id))
unfolding missing_routes
names-missing_routes [] accepted id = refl
names-missing_routes (route ∷ routes) accepted id =
    ground (
      arith,
      names-missing_routes routes accepted id,
      same_test (has_id accepted) route.route_id id,
    )

all-outputs :
    (routes : List RoutePolicy) (files : Keyed LaneOutput)
    → ((id : String) → names routes id ≡ true → has_output id files ≡ true)
    → phase_complete routes files ≡ true
unfolding phase_complete
all-outputs [] files h = refl
all-outputs (route ∷ routes) files h = ground (
  arith,
  (eq_iff route.route_id route.route_id).1 refl,
  h route.route_id,
  all-outputs routes files (λ id named. h id (ground arith)),
)

module _ (sha256 : List ℕ → List ℕ) (artifact : String → String) (lanes : String → LaneState)
    (valid_lane : LaneOutput → Bool) (c : LaneContext) (stagger_cancelled : Bool)
    (files : Keyed LaneOutput) where
  abbrev phase : PhaseRun
  phase = run_phase sha256 artifact lanes valid_lane c stagger_cancelled files

  missing-IsWork :
      (accepted : List LaneAccepted)
      → IsWork (missing_routes c.policy.roster accepted) files (
          if fans_out c
          then run_parallel sha256 artifact lanes c stagger_cancelled
              (missing_routes c.policy.roster accepted)
              files
              accepted
          else run_serial sha256 artifact lanes c
              (missing_routes c.policy.roster accepted)
              files
              accepted)
  missing-IsWork accepted = go (fans_out c)
    where
      go :
          (b : Bool)
          → IsWork (missing_routes c.policy.roster accepted) files (
              if b
              then run_parallel sha256 artifact lanes c stagger_cancelled
                  (missing_routes c.policy.roster accepted)
                  files
                  accepted
              else run_serial sha256 artifact lanes c
                  (missing_routes c.policy.roster accepted)
                  files
                  accepted)
      go true =
          run_parallel-IsWork sha256 artifact lanes c stagger_cancelled
            (missing_routes c.policy.roster accepted) files accepted
      go false =
          run_serial-IsWork sha256 artifact lanes c (missing_routes c.policy.roster accepted) files
            accepted

  run_phase_loaded :
      {accepted : List LaneAccepted}
      → load_existing_phase_outputs artifact valid_lane c.policy.roster files ≡ ok accepted
      → phase ≡ run_missing sha256 artifact lanes c stagger_cancelled files (ok accepted)
  unfolding run_phase
  run_phase_loaded loaded = ap (run_missing sha256 artifact lanes c stagger_cancelled files) loaded

  run_phase_failed :
      {e : PhaseError}
      → load_existing_phase_outputs artifact valid_lane c.policy.roster files ≡ err e
      → phase ≡ run_missing sha256 artifact lanes c stagger_cancelled files (err e)
  unfolding run_phase
  run_phase_failed failed = ap (run_missing sha256 artifact lanes c stagger_cancelled files) failed

  -- An accepted output is never lost or overwritten: whatever a phase returns, errors and
  -- cancellations included, each output of a route of the roster that was there is still there,
  -- unchanged.
  pub accepted_outputs_kept :
      (id : String) {output : LaneOutput}
      → names c.policy.roster id ≡ true
      → Keyed.get id files ≡ some output
      → Keyed.get id phase.files ≡ some output
  unfolding run_phase
  accepted_outputs_kept id {output} seated there =
      elim (Result-cases (load_existing_phase_outputs artifact valid_lane c.policy.roster files)) [
        | inl (accepted, loaded) ↦
            rw (loaded, run_phase)
              ((missing-IsWork accepted).kept id (
                  ground (
                    arith,
                    ap is_some there,
                    names-missing_routes c.policy.roster accepted id,
                    has_id-load_existing artifact valid_lane c.policy.roster files id loaded,
                  ))
                ∙ there)
        | inr (e, failed) ↦ rw (failed, run_phase) there
      ]

  -- A phase that succeeds has passed the gate: it returns five lanes, and every route of the roster
  -- has an accepted output, so that a run resumed after it finds the phase complete.
  pub phase_passes_gate :
      {outputs : List LaneAccepted}
      → phase.outputs ≡ ok outputs
      → (length outputs ≡ 5) × (phase_complete c.policy.roster phase.files ≡ true)
  unfolding run_phase
  phase_passes_gate {outputs} h =
      elim (Result-cases (load_existing_phase_outputs artifact valid_lane c.policy.roster files)) [
        | inl (accepted, loaded) ↦
            let run : PhaseRun =
              if fans_out c
              then run_parallel sha256 artifact lanes c stagger_cancelled
                  (missing_routes c.policy.roster accepted) files accepted
              else run_serial sha256 artifact lanes c (missing_routes c.policy.roster accepted)
                  files accepted in
            let (found, worked, gate) =
              >>=-ok run.outputs five_parties
                (ap (λ (r : PhaseRun). r.outputs) (sym (run_phase_loaded loaded)) ∙ h) in
            let (five, same) = bail_if-ok (not (length found == 5)) gate_failed (ok found) gate in
            (
              ap length (sym (ok-injective same)) ∙ ground arith,
              rw (loaded, run_phase)
                  (all-outputs c.policy.roster run.files (λ id named.
                    (missing-IsWork accepted).reached id worked (
                      ground (
                        arith,
                        names-missing_routes c.policy.roster accepted id,
                        has_id-load_existing artifact valid_lane c.policy.roster files id loaded,
                      )))),
            )
        | inr (e, failed) ↦
            absurd
              (let h' = ap (λ (r : PhaseRun). r.outputs) (sym (run_phase_failed failed)) ∙ h in cc)
      ]
