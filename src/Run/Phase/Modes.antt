-- ===== src/Run/Phase/Modes.antt =====
-- Serial and parallel lanes (`run_phase` of src/run.rs): the switch `r2_parallel` changes when the
-- lanes run, not what they give.
use quinte.Prelude.{
  ℕ, zero, suc, ◌+◌, String, ◌≡◌, refl, sym, ◌∙◌, ap, Bool, true, false, ◌&&◌, List, [], ◌∷◌, ◌++◌,
  map, Option, none, some, Result, ok, ◌>>=◌, ◌>>◌, bail_if, bail_if-ok, >>=-ok, >>-ok,
  ok-injective, >>=-cong, is_ok, All, arith, inl, inr, Result-cases, subst,
}
use quinte.Prelude.Keyed
use quinte.Prelude.Keyed.{Keyed}
use quinte.Model.Lanes.{LaneOutput, LaneAccepted}
use quinte.Model.Routes.{RoutePolicy}
use quinte.Run.Retry.{RetryClass}
use quinte.Run.Attempts.{
  AttemptOutcome, LaneWorld, LaneContext, LaneError, run_cancelled, run_retry_attempt, retry_loop,
  lane_pass, accept_or_retry_lane, next_attempt, wait_for_retry_deadline,
}
use quinte.Run.Phase.{
  LaneState, accepted_lane, serial_lane, run_serial, Prepared, Finished, prepare, first_run, accept,
  number_all, wait_all, prepare_all, join_all, accept_all, run_parallel,
}

-- The context of the parallel loop: without the pacing between two lanes.
abbrev pub unpaced : LaneContext → LaneContext
unpaced c = record c { paced = false }

-- No cancellation ends a wait for the pacing.
abbrev pub PacesThrough : LaneWorld → Type 0
PacesThrough w = (n : ℕ) → w.pacing_cancelled n ≡ false

and_false : (b : Bool) {d : Bool} → d ≡ false → (b && d) ≡ false
and_false b h = ground arith

run_retry_attempt-unpaced :
    (sha256 : List ℕ → List ℕ) (c : LaneContext) (w : LaneWorld) (route_id : String) (attempt : ℕ)
    (retry : RetryClass)
    → PacesThrough w
    → run_retry_attempt sha256 (unpaced c) w route_id attempt retry
      ≡ run_retry_attempt sha256 c w route_id attempt retry
unfolding run_retry_attempt
run_retry_attempt-unpaced sha256 c w route_id attempt retry through =
    rw (and_false c.paced (through (attempt + 1)))

retry_loop-unpaced :
    (sha256 : List ℕ → List ℕ) (c : LaneContext) (w : LaneWorld) (route_id : String)
    (fuel attempt : ℕ) (o : AttemptOutcome)
    → PacesThrough w
    → retry_loop sha256 (lane_pass c w) (unpaced c) w route_id fuel attempt o
      ≡ retry_loop sha256 (lane_pass c w) c w route_id fuel attempt o
unfolding retry_loop
retry_loop-unpaced sha256 c w route_id zero attempt o through = refl
retry_loop-unpaced sha256 c w route_id (suc fuel) attempt o through =
    >>=-cong refl (next (λ n o'. retry_loop-unpaced sha256 c w route_id fuel n o' through))
  where
    next :
        ((n : ℕ) (o' : AttemptOutcome)
          → retry_loop sha256 (lane_pass c w) (unpaced c) w route_id fuel n o'
            ≡ retry_loop sha256 (lane_pass c w) c w route_id fuel n o')
        → (answer : Option LaneOutput)
        → (let r : Result LaneError (ℕ × LaneOutput) = elim answer [
          | some a ↦ ok (attempt, a)
          | none ↦ run_retry_attempt sha256 (unpaced c) w route_id attempt o.retry >>= λ n.
              retry_loop sha256 (lane_pass c w) (unpaced c) w route_id fuel n.0 n.1
        ] in
            r)
          ≡ (elim answer [
            | some a ↦ ok (attempt, a)
            | none ↦ run_retry_attempt sha256 c w route_id attempt o.retry >>= λ n.
                retry_loop sha256 (lane_pass c w) c w route_id fuel n.0 n.1
          ])
    next rest (some a) = refl
    next rest none =
        >>=-cong (run_retry_attempt-unpaced sha256 c w route_id attempt o.retry through)
          (λ n. rest n.0 n.1)

module _ (sha256 : List ℕ → List ℕ) (artifact : String → String) (lanes : String → LaneState)
    (c : LaneContext) where
  -- A lane that the serial loop accepts, as the parallel loop meets it.
  abbrev Meets : RoutePolicy → LaneOutput → Type 0
  Meets route output =
      (attempt : ℕ) × (outcome : AttemptOutcome) × (prepare sha256 artifact lanes (unpaced c) route
        ≡ ok attempt)
      × (first_run sha256 artifact lanes route attempt ≡ ok outcome)
      × (accept sha256 artifact lanes (unpaced c) route attempt outcome ≡ ok output)

  serial_lane-Meets :
      (route : RoutePolicy) {output : LaneOutput}
      → PacesThrough (lanes route.route_id).world
      → serial_lane sha256 artifact lanes c route ≡ ok output
      → Meets route output
  unfolding serial_lane accept_or_retry_lane lane_pass
  serial_lane-Meets route {output} through h =
      let w = (lanes route.route_id).world in
      let (attempt, prepared, h1) =
        >>=-ok (prepare sha256 artifact lanes c route)
          (λ n.
            bail_if (c.paced && w.pacing_cancelled n) run_cancelled
            >> (first_run sha256 artifact lanes route n >>= λ o.
                accept sha256 artifact lanes c route n o))
          h in
      let (_, h2) =
        bail_if-ok (c.paced && w.pacing_cancelled attempt) run_cancelled
          (first_run sha256 artifact lanes route attempt >>= λ o.
            accept sha256 artifact lanes c route attempt o)
          h1 in
      let (outcome, ran, h3) =
        >>=-ok (first_run sha256 artifact lanes route attempt)
          (λ o. accept sha256 artifact lanes c route attempt o) h2 in
      (
        attempt,
        outcome,
        prepared,
        ran,
        >>=-cong
              (retry_loop-unpaced sha256 c w route.route_id c.policy.max_attempts attempt outcome
                through)
              (λ answer. refl)
            ∙ h3,
      )

  abbrev job_of : Finished → Prepared
  job_of f = (f.0, f.1)

  -- The finished jobs of the parallel loop, and what accepting them gives.
  abbrev Agrees : List RoutePolicy → List Finished → Type 0
  Agrees routes finished =
      (number_all sha256 artifact lanes (unpaced c) routes ≡ ok (map job_of finished))
      × (wait_all sha256 artifact lanes (unpaced c) (map job_of finished) ≡ ok tt)
      × (join_all sha256 artifact lanes (map job_of finished) ≡ (finished, false))
      × ((files : Keyed LaneOutput) (accepted : List LaneAccepted)
          → accept_all sha256 artifact lanes (unpaced c) finished files accepted false false
            ≡ run_serial sha256 artifact lanes c routes files accepted)

  Agrees-cons :
      (route : RoutePolicy) (routes : List RoutePolicy) (finished : List Finished) (attempt : ℕ)
      (outcome : AttemptOutcome) (output : LaneOutput)
      → serial_lane sha256 artifact lanes c route ≡ ok output
      → prepare sha256 artifact lanes (unpaced c) route ≡ ok attempt
      → first_run sha256 artifact lanes route attempt ≡ ok outcome
      → accept sha256 artifact lanes (unpaced c) route attempt outcome ≡ ok output
      → Agrees routes finished
      → Agrees (route ∷ routes) ((route, attempt, outcome) ∷ finished)
  unfolding number_all wait_all join_all accept_all run_serial
  Agrees-cons route routes finished attempt outcome output same prepared ran taken
        (numbered, waited, joined, agree) =
      let wait = λ (n : ℕ).
        wait_for_retry_deadline (lanes route.route_id).world c.phase route.route_id n
          (lanes route.route_id).deadline in
      let (n, next, then_wait) =
        >>=-ok (next_attempt c.policy.max_attempts (lanes route.route_id).history)
          (λ k. wait k >> ok k) prepared in
      let (waited_n, last) = >>-ok (wait n) (ok n) then_wait in
      let own : n ≡ attempt = ok-injective last in
      let next_own = next ∙ ap ok own in
      let waits : wait attempt ≡ ok tt = subst (λ k. wait k ≡ ok tt) own waited_n in
      (
        rw (next_own, numbered, number_all),
        rw (waits, wait_all) waited,
        rw (ran, joined, join_all),
        λ files l.
            rw (taken, same, accept_all, run_serial)
              (agree (Keyed.insert route.route_id output files)
                (l ++ accepted_lane artifact route output ∷ [])),
      )

  Agrees-all :
      (routes : List RoutePolicy)
      → All (λ (r : RoutePolicy). PacesThrough (lanes r.route_id).world) routes
      → All (λ r. is_ok (serial_lane sha256 artifact lanes c r) ≡ true) routes
      → (finished : List Finished) × Agrees routes finished
  unfolding number_all wait_all join_all accept_all run_serial
  Agrees-all [] through accepted = ([], (refl, refl, refl, λ files l. refl))
  Agrees-all (route ∷ routes) (now, later) (one, rest) =
      elim (Result-cases (serial_lane sha256 artifact lanes c route)) [
        | inl (output, same) ↦
            let (attempt, outcome, prepared, ran, taken) = serial_lane-Meets route now same in
            let (finished, agrees) = Agrees-all routes later rest in
            (
              (route, attempt, outcome) ∷ finished,
              Agrees-cons route routes finished attempt outcome output same prepared ran taken
                  agrees,
            )
        | inr (e, same) ↦ absurd (let no = sym (ap is_ok same) ∙ one in cc)
      ]

  -- Lanes that all succeed give the same files and the same lanes in the same order, whether they
  -- run one after another or side by side, if no cancellation ends a wait between lanes.
  pub modes_agree :
      (routes : List RoutePolicy) (files : Keyed LaneOutput) (accepted : List LaneAccepted)
      → All (λ (r : RoutePolicy). PacesThrough (lanes r.route_id).world) routes
      → All (λ r. is_ok (serial_lane sha256 artifact lanes c r) ≡ true) routes
      → run_parallel sha256 artifact lanes (unpaced c) false routes files accepted
        ≡ run_serial sha256 artifact lanes c routes files accepted
  unfolding run_parallel prepare_all
  modes_agree routes files accepted through succeed =
      let (finished, (numbered, waited, joined, agree)) = Agrees-all routes through succeed in
      rw (numbered, waited, joined, run_parallel, prepare_all) (agree files accepted)
