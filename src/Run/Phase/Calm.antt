-- ===== src/Run/Phase/Calm.antt =====
-- A phase that succeeds has not cancelled the run (`run_phase` of src/run.rs).
use quinte.Prelude.{
  ℕ, String, ◌≡◌, refl, inl, inr, Bool, true, false, List, [], ◌∷◌, ◌++◌, Result, ok, err, >>=-ok,
  Result-cases, if◌then◌else◌,
}
use quinte.Prelude.Keyed
use quinte.Prelude.Keyed.{Keyed}
use quinte.Model.Lanes.{LaneOutput, LaneAccepted}
use quinte.Model.Routes.{RoutePolicy}
use quinte.Run.Attempts.{LaneContext}
use quinte.Run.Phase.{
  PhaseError, spawn_cancelled, PhaseRun, LaneState, is_cancel, accepted_lane, serial_lane,
  run_serial, Prepared, Finished, accept, prepare_all, join_all, accept_all, accept_joined,
  run_parallel, five_parties, fans_out, gated, missing_routes, load_existing_phase_outputs,
  run_missing, run_phase,
}
use quinte.Run.Phase.Work.{accept_all-refused}

abbrev IsCalm : PhaseRun → Type 0
IsCalm r = (l : List LaneAccepted) → r.outputs ≡ ok l → r.cancelled ≡ false

module _ (sha256 : List ℕ → List ℕ) (artifact : String → String) (lanes : String → LaneState)
    (c : LaneContext) where
  run_serial-IsCalm :
      (routes : List RoutePolicy) (files : Keyed LaneOutput) (accepted : List LaneAccepted)
      → IsCalm (run_serial sha256 artifact lanes c routes files accepted)
  unfolding run_serial
  run_serial-IsCalm [] files accepted = λ l h. refl
  run_serial-IsCalm (route ∷ routes) files accepted =
      elim (Result-cases (serial_lane sha256 artifact lanes c route)) [
        | inl (output, same) ↦
            rw (same, run_serial)
              (run_serial-IsCalm routes (Keyed.insert route.route_id output files)
                (accepted ++ accepted_lane artifact route output ∷ []))
        | inr (e, same) ↦ rw (same, run_serial) (λ l h. absurd (cc))
      ]

  accept_all-IsCalm :
      (finished : List Finished) (files : Keyed LaneOutput) (accepted : List LaneAccepted)
      → IsCalm (accept_all sha256 artifact lanes c finished files accepted false false)
  unfolding accept_all
  accept_all-IsCalm [] files accepted = λ l h. refl
  accept_all-IsCalm ((route, attempt, outcome) ∷ rest) files accepted =
      elim (Result-cases (accept sha256 artifact lanes c route attempt outcome)) [
        | inl (output, same) ↦
            rw (same, accept_all)
              (accept_all-IsCalm rest (Keyed.insert route.route_id output files)
                (accepted ++ accepted_lane artifact route output ∷ []))
        | inr (e, same) ↦
            rw (same, accept_all)
              (λ l h.
                absurd (
                  accept_all-refused sha256 artifact lanes c rest files accepted (is_cancel e) l h))
      ]

  run_parallel-IsCalm :
      (stagger_cancelled : Bool) (routes : List RoutePolicy) (files : Keyed LaneOutput)
      (accepted : List LaneAccepted)
      → IsCalm (run_parallel sha256 artifact lanes c stagger_cancelled routes files accepted)
  unfolding run_parallel
  run_parallel-IsCalm stagger_cancelled routes files accepted =
      elim (Result-cases (prepare_all sha256 artifact lanes c routes)) [
        | inl (jobs, same) ↦ rw (same, run_parallel) (started stagger_cancelled jobs)
        | inr (e, same) ↦ rw (same, run_parallel) (λ l h. absurd (cc))
      ]
    where
      joined :
          (j : List Finished × Bool)
          → IsCalm (accept_joined sha256 artifact lanes c files accepted j)
      joined (finished, true) = λ l h. refl
      joined (finished, false) = accept_all-IsCalm finished files accepted

      started :
          (b : Bool) (jobs : List Prepared)
          → IsCalm (
              if b
              then record { files = files; cancelled = true; outputs = err spawn_cancelled }
              else accept_joined sha256 artifact lanes c files accepted
                  (join_all sha256 artifact lanes jobs))
      started true jobs = λ l h. absurd (cc)
      started false jobs = joined (join_all sha256 artifact lanes jobs)

  gated-IsCalm : (r : PhaseRun) → IsCalm r → IsCalm (gated r)
  gated-IsCalm r calm l h =
      let (found, worked, _) = >>=-ok r.outputs five_parties h in calm found worked

  pub run_phase-IsCalm :
      (valid_lane : LaneOutput → Bool) (stagger_cancelled : Bool) (files : Keyed LaneOutput)
      → IsCalm (run_phase sha256 artifact lanes valid_lane c stagger_cancelled files)
  unfolding run_phase
  run_phase-IsCalm valid_lane stagger_cancelled files =
      go (load_existing_phase_outputs artifact valid_lane c.policy.roster files)
    where
      either :
          (b : Bool) (accepted : List LaneAccepted)
          → IsCalm (
              if b
              then run_parallel sha256 artifact lanes c stagger_cancelled
                  (missing_routes c.policy.roster accepted)
                  files
                  accepted
              else run_serial sha256 artifact lanes c
                  (missing_routes c.policy.roster accepted)
                  files
                  accepted)
      either true accepted =
          run_parallel-IsCalm stagger_cancelled (missing_routes c.policy.roster accepted) files
            accepted
      either false accepted =
          run_serial-IsCalm (missing_routes c.policy.roster accepted) files accepted

      go :
          (loaded : Result PhaseError (List LaneAccepted))
          → IsCalm (run_missing sha256 artifact lanes c stagger_cancelled files loaded)
      go (ok accepted) =
          gated-IsCalm
            (if fans_out c
              then run_parallel sha256 artifact lanes c stagger_cancelled
                  (missing_routes c.policy.roster accepted) files accepted
              else run_serial sha256 artifact lanes c (missing_routes c.policy.roster accepted)
                  files accepted)
            (either (fans_out c) accepted)
      go (err e) = λ l h. refl
