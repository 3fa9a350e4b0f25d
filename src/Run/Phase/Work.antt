-- ===== src/Run/Phase/Work.antt =====
-- What the serial and the parallel loop over the routes of a phase do to its accepted outputs
-- (`run_phase` of src/run.rs).
use quinte.Prelude.{
  ℕ, String, ◌≡◌, refl, sym, ◌∙◌, ap, inl, inr, Bool, true, false, ◌||◌, List, [], ◌∷◌, ◌++◌, map,
  Result, ok, err, ◌>>=◌, >>=-ok, any, is_some, str_eq, if◌then◌else◌, arith, Result-cases,
  ok-injective, ◌≢◌, subst,
}
use quinte.Prelude.Keyed
use quinte.Prelude.Keyed.{Keyed, get-insert}
use quinte.Model.Lanes.{LaneOutput, LaneAccepted}
use quinte.Model.Routes.{RoutePolicy}
use quinte.Run.Attempts.{LaneContext, next_attempt}
use quinte.Prelude.{◌>>◌, >>-ok}
use quinte.Run.Phase.{
  PhaseError, PhaseRun, LaneState, accepted_lane, serial_lane, run_serial, Prepared, Finished,
  first_run, accept, number_all, wait_all, prepare_all, join_all, accept_all, is_cancel,
  run_parallel, accept_joined, spawn_cancelled,
}

-- A route with the id is among the routes.
abbrev pub names : List RoutePolicy → String → Bool
names routes id = any (λ (route : RoutePolicy). str_eq route.route_id id) routes

abbrev pub has_output : String → Keyed LaneOutput → Bool
has_output id files = is_some (Keyed.get id files)

-- Inserting the output of a route of the list.
get-insert-kept :
    (route : RoutePolicy) (routes : List RoutePolicy) (id : String) (output : LaneOutput)
    (files : Keyed LaneOutput)
    → names (route ∷ routes) id ≡ false
    → (Keyed.get id (Keyed.insert route.route_id output files) ≡ Keyed.get id files)
      × (names routes id ≡ false)
get-insert-kept route routes id output files h =
    (ground (arith, get-insert route.route_id id output files), ground arith)

get-insert-reached :
    (route : RoutePolicy) (routes : List RoutePolicy) (id : String) (output : LaneOutput)
    (files : Keyed LaneOutput)
    → (names (route ∷ routes) id || has_output id files) ≡ true
    → (names routes id || has_output id (Keyed.insert route.route_id output files)) ≡ true
get-insert-reached route routes id output files h =
    ground (arith, get-insert route.route_id id output files)

-- A phase's work on routes: no other output changes, and if it succeeds all have one.
pub record IsWork (routes : List RoutePolicy) (files : Keyed LaneOutput) (r : PhaseRun)
    : Type 0 where
  pub kept : (id : String) → names routes id ≡ false → Keyed.get id r.files ≡ Keyed.get id files
  pub reached :
      (id : String) {lanes : List LaneAccepted}
      → r.outputs ≡ ok lanes
      → (names routes id || has_output id files) ≡ true
      → has_output id r.files ≡ true

IsWork-insert :
    (route : RoutePolicy) (routes : List RoutePolicy) (output : LaneOutput)
    (files : Keyed LaneOutput) (r : PhaseRun)
    → IsWork routes (Keyed.insert route.route_id output files) r
    → IsWork (route ∷ routes) files r
IsWork-insert route routes output files r w = record {
  kept = λ id h.
      let (same, rest) = get-insert-kept route routes id output files h in w.kept id rest ∙ same;
  reached = λ id done h. w.reached id done (get-insert-reached route routes id output files h);
}

-- A route whose lane is refused changes nothing, but the phase then fails.
IsWork-refused :
    (route : RoutePolicy) (routes : List RoutePolicy) (files : Keyed LaneOutput) (r : PhaseRun)
    → IsWork routes files r
    → ((l : List LaneAccepted) → r.outputs ≢ ok l)
    → IsWork (route ∷ routes) files r
IsWork-refused route routes files r w failed = record {
  kept = λ id h. w.kept id (ground arith);
  reached = λ id same h. absurd (failed _ same);
}

-- A phase that fails before its first output.
pub untouched :
    {routes : List RoutePolicy} {files : Keyed LaneOutput} {cancelled : Bool}
    {outputs : Result PhaseError (List LaneAccepted)}
    → ((l : List LaneAccepted) → outputs ≢ ok l)
    → IsWork routes files (record { files = files; cancelled = cancelled; outputs = outputs })
untouched failed = record { kept = λ id h. refl; reached = λ id same h. absurd (failed _ same) }

module _ (sha256 : List ℕ → List ℕ) (artifact : String → String) (lanes : String → LaneState)
    (c : LaneContext) where
  pub run_serial-IsWork :
      (routes : List RoutePolicy) (files : Keyed LaneOutput) (accepted : List LaneAccepted)
      → IsWork routes files (run_serial sha256 artifact lanes c routes files accepted)
  unfolding run_serial
  run_serial-IsWork [] files accepted = record { kept = λ id h. refl; reached = λ id done h. h }
  run_serial-IsWork (route ∷ routes) files accepted =
      elim (Result-cases (serial_lane sha256 artifact lanes c route)) [
        | inl (output, same) ↦
            rw (same, run_serial)
              (IsWork-insert route routes output files _ (
                run_serial-IsWork routes (Keyed.insert route.route_id output files)
                  (accepted ++ accepted_lane artifact route output ∷ [])))
        | inr (e, same) ↦ rw (same, run_serial) (untouched (λ l h. cc))
      ]

  pub accept_all-refused :
      (finished : List Finished) (files : Keyed LaneOutput) (accepted : List LaneAccepted)
      (cancelled : Bool) (l : List LaneAccepted)
      → (accept_all sha256 artifact lanes c finished files accepted true cancelled).outputs ≢ ok l
  unfolding accept_all
  accept_all-refused [] files accepted cancelled l = λ h. cc
  accept_all-refused ((route, attempt, outcome) ∷ rest) files accepted cancelled l =
      elim (Result-cases (accept sha256 artifact lanes c route attempt outcome)) [
        | inl (output, same) ↦
            rw (same, accept_all)
              (accept_all-refused rest (Keyed.insert route.route_id output files)
                (accepted ++ accepted_lane artifact route output ∷ []) cancelled l)
        | inr (e, same) ↦
            rw (same, accept_all)
              (accept_all-refused rest files accepted (cancelled || is_cancel e) l)
      ]

  accept_all-IsWork :
      (finished : List Finished) (files : Keyed LaneOutput) (accepted : List LaneAccepted)
      (refused cancelled : Bool)
      → IsWork
          (map (λ (f : Finished). f.0) finished)
          files
          (accept_all sha256 artifact lanes c finished files accepted refused cancelled)
  unfolding accept_all
  accept_all-IsWork [] files accepted refused cancelled = record {
    kept = λ id h. refl;
    reached = λ id same h. h;
  }
  accept_all-IsWork ((route, attempt, outcome) ∷ rest) files accepted refused cancelled =
      elim (Result-cases (accept sha256 artifact lanes c route attempt outcome)) [
        | inl (output, same) ↦
            rw (same, accept_all)
              (IsWork-insert route (map (λ (f : Finished). f.0) rest) output files _ (
                accept_all-IsWork rest (Keyed.insert route.route_id output files)
                  (accepted ++ accepted_lane artifact route output ∷ []) refused cancelled))
        | inr (e, same) ↦
            rw (same, accept_all)
              (IsWork-refused route (map (λ (f : Finished). f.0) rest) files _
                (accept_all-IsWork rest files accepted true (cancelled || is_cancel e))
                (accept_all-refused rest files accepted (cancelled || is_cancel e)))
      ]

  number_all-routes :
      (routes : List RoutePolicy) {jobs : List Prepared}
      → number_all sha256 artifact lanes c routes ≡ ok jobs
      → map (λ (j : Prepared). j.0) jobs ≡ routes
  unfolding number_all
  number_all-routes [] {jobs} h = ap (map (λ (j : Prepared). j.0)) (sym (ok-injective h))
  number_all-routes (route ∷ routes) {jobs} h =
      let (attempt, _, later) =
        >>=-ok (next_attempt c.policy.max_attempts (lanes route.route_id).history)
          (λ n. number_all sha256 artifact lanes c routes >>= λ rest. ok ((route, n) ∷ rest)) h in
      let (rest, found, last) =
        >>=-ok (number_all sha256 artifact lanes c routes) (λ rest. ok ((route, attempt) ∷ rest))
          later in
      ap (map (λ (j : Prepared). j.0)) (sym (ok-injective last))
      ∙ ap (λ l. route ∷ l) (number_all-routes routes found)

  prepare_all-routes :
      (routes : List RoutePolicy) {jobs : List Prepared}
      → prepare_all sha256 artifact lanes c routes ≡ ok jobs
      → map (λ (j : Prepared). j.0) jobs ≡ routes
  unfolding prepare_all
  prepare_all-routes routes {jobs} h =
      let (numbered, found, later) =
        >>=-ok (number_all sha256 artifact lanes c routes)
          (λ js. wait_all sha256 artifact lanes c js >> ok js) h in
      let (_, last) = >>-ok (wait_all sha256 artifact lanes c numbered) (ok numbered) later in
      ap (map (λ (j : Prepared). j.0)) (sym (ok-injective last)) ∙ number_all-routes routes found

  join_all-routes :
      (jobs : List Prepared)
      → (join_all sha256 artifact lanes jobs).1 ≡ false
      → map (λ (f : Finished). f.0) (join_all sha256 artifact lanes jobs).0
        ≡ map (λ (p : Prepared). p.0) jobs
  unfolding join_all
  join_all-routes [] h = refl
  join_all-routes ((route, attempt) ∷ jobs) h =
      elim (Result-cases (first_run sha256 artifact lanes route attempt)) [
        | inl (outcome, same) ↦
            rw (same, join_all) (ap (λ l. route ∷ l) (join_all-routes jobs (ground arith)))
        | inr (e, same) ↦ absurd (ground arith)
      ]

  pub run_parallel-IsWork :
      (stagger_cancelled : Bool) (routes : List RoutePolicy) (files : Keyed LaneOutput)
      (accepted : List LaneAccepted)
      → IsWork routes files
          (run_parallel sha256 artifact lanes c stagger_cancelled routes files accepted)
  unfolding run_parallel
  run_parallel-IsWork stagger_cancelled routes files accepted =
      elim (Result-cases (prepare_all sha256 artifact lanes c routes)) [
        | inl (jobs, same) ↦
            rw (same, run_parallel)
              (started stagger_cancelled jobs (prepare_all-routes routes same))
        | inr (e, same) ↦ rw (same, run_parallel) (untouched (λ l h. cc))
      ]
    where
      joined :
          (j : List Finished × Bool)
          → (j.1 ≡ false → map (λ (f : Finished). f.0) j.0 ≡ routes)
          → IsWork routes files (accept_joined sha256 artifact lanes c files accepted j)
      joined (finished, true) same = untouched (λ l h. cc)
      joined (finished, false) same =
          subst
            (λ rs.
              IsWork rs files
                (accept_all sha256 artifact lanes c finished files accepted false false))
            (same refl) (accept_all-IsWork finished files accepted false false)

      started :
          (b : Bool) (jobs : List Prepared)
          → map (λ (p : Prepared). p.0) jobs ≡ routes
          → IsWork routes files (
              if b
              then record { files = files; cancelled = true; outputs = err spawn_cancelled }
              else accept_joined sha256 artifact lanes c files accepted
                  (join_all sha256 artifact lanes jobs))
      started true jobs same = untouched (λ l h. cc)
      started false jobs same =
          joined (join_all sha256 artifact lanes jobs) (λ h. join_all-routes jobs h ∙ same)
