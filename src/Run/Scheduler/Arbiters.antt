-- ===== src/Run/Scheduler/Arbiters.antt =====
-- The stages of R3 in `advance` of src/run.rs keep a run consistent.
use quinte.Prelude.{
  ℕ, String, ◌≡◌, refl, ap, Bool, true, false, not, ◌&&◌, ◌||◌, List, Option, none, some, Result,
  ok, err, ◌>>=◌, arith, and_true, if◌then◌else◌,
}
use quinte.Model.Lanes.{LaneOutput, ArbiterVerdict}
use quinte.Model.Routes.{Policy}
use quinte.Model.Status.{
  r3_cc, waiting_primary_arbiter, merging, failed, failed_policy, completed, degraded, cancelled,
  terminal,
}
use quinte.Run.Attempts.{LaneError}
use quinte.Run.Phase.{is_cancel}
use quinte.Store.{status_eq, transition_allowed}
use quinte.Run.Scheduler.{
  Submission, is_submitted, no_submission, staging, accepted, RunState, World, Session, save,
  with_status, finish, enter, fails, invalid_response,
}
use quinte.Run.Scheduler.Advance.{
  arbiter_lane, cancelled_by, after_counterpart, counterpart_stage, ensure_challenge,
  stage_response, after_primary, primary_stage, publish_challenge, await_submission,
  recover_submission, wait_unless_ready, submission_stage, result_status, merge_stage,
}
use quinte.Run.Scheduler.Consistent.{
  consistent, is_accepted, permits, IsSafe, IsReturn, Keeps, Keeps-bind, Keeps-if, save-IsSafe,
  is_returned,
}
use quinte.Run.Scheduler.Requests.{enter-Keeps, finished, finished-IsReturn, stopped-IsReturn}
use quinte.Run.Scheduler.Stages.{past_r2, answered, ready, fails-Keeps}

-- The lane of the Counterpart Arbiter runs.
abbrev in_r3 : Policy → RunState → Bool
in_r3 p r = past_r2 p r && status_eq r.status r3_cc

abbrev in_merge : Policy → RunState → Bool
in_merge p r = ready p r && status_eq r.status merging

module _ (sha256 : List ℕ → List ℕ) (artifact : String → String → String)
    (valid_lane : LaneOutput → Bool) (run_id : String) (valid : List String) (p : Policy)
    (w : World) where
  after_counterpart-Keeps :
      (s : Session) (answer : Result LaneError (Option ArbiterVerdict))
      → IsSafe p s
      → in_r3 p s.state ≡ true
      → Keeps p
          (answered p)
          (after_counterpart sha256 artifact valid_lane run_id valid p w s answer)
  unfolding finish terminal
  after_counterpart-Keeps s (err e) safe h =
      Keeps-if p (answered p) (is_cancel e) _ _ (λ _. (save-IsSafe p _ s safe refl, (refl, refl)))
        (λ _. stopped-IsReturn w p failed s refl safe)
  after_counterpart-Keeps s (ok none) safe h = stopped-IsReturn w p cancelled s refl safe
  after_counterpart-Keeps s (ok (some verdict)) safe h =
      (save-IsSafe p _ s safe (ground (arith, safe.now)), ground arith)

  pub counterpart_stage-Keeps :
      (s : Session)
      → IsSafe p s
      → past_r2 p s.state ≡ true
      → Keeps p (answered p) (counterpart_stage sha256 artifact valid_lane run_id valid p w s)
  unfolding counterpart_stage terminal transition_allowed
  counterpart_stage-Keeps s safe h =
      Keeps-if p (answered p) s.state.cc_response _ _ (λ there. (safe, ground arith))
        (λ lacks.
          Keeps-bind p (in_r3 p) (answered p) (enter w r3_cc s) _
            (enter-Keeps w p r3_cc s (in_r3 p) refl (ground arith) (ground (arith, safe.now)) safe)
            (λ t _ safe' h'.
              after_counterpart-Keeps t
                (arbiter_lane sha256 artifact valid_lane run_id valid p w w.counterpart
                  p.counterpart_arbiter.route_id)
                safe' h'))

  ensure_challenge-Keeps :
      (s : Session)
      → IsSafe p s
      → (answered p s.state && not (is_submitted s.state.submission)) ≡ true
      → Keeps p
          (λ r. answered p r && not (is_submitted r.submission))
          (ensure_challenge sha256 artifact valid_lane run_id valid p w s)
  ensure_challenge-Keeps s safe h =
      let post : RunState → Bool = λ r. answered p r && not (is_submitted r.submission) in
      Keeps-if p post s.state.challenge _ _ (λ _. (safe, h))
        (λ _.
          Keeps-bind p post post (fails w.challenge_fails w failed_policy s tt) _
            (fails-Keeps p w post w.challenge_fails failed_policy s tt refl safe h)
            (λ t _ safe' h'. (save-IsSafe p _ t safe' safe'.now, h')))

  stage_response-Keeps :
      (s : Session)
      → IsSafe p s
      → answered p s.state ≡ true
      → not (is_submitted s.state.submission) ≡ true
      → Keeps p (answered p) (stage_response sha256 artifact valid_lane run_id valid p w s)
  unfolding terminal
  stage_response-Keeps s safe h none_yet =
      let s' = save (record s.state { submission = staging }) s in
      let safe' : IsSafe p s' = save-IsSafe p _ s safe (ground (arith, safe.now)) in
      Keeps-bind p (λ r. answered p r && not (is_accepted r.submission)) (answered p)
        (fails w.staging_fails w failed_policy s' tt) _
        (fails-Keeps p w (λ r. answered p r && not (is_accepted r.submission)) w.staging_fails
          failed_policy s' tt refl safe' (ground arith))
        (λ t _ safe'' h''. (save-IsSafe p _ t safe'' (ground (arith, safe''.now)), ground arith))

  cancelled_by-IsSafe :
      (e : LaneError) (s : Session)
      → IsSafe p s
      → IsSafe p (cancelled_by sha256 artifact valid_lane run_id valid p w e s)
  cancelled_by-IsSafe e s safe = go (is_cancel e)
    where
      go : (b : Bool) → IsSafe p (if b then save (with_status cancelled s.state) s else s)
      go true = save-IsSafe p _ s safe refl
      go false = safe

  after_primary-Keeps :
      (s : Session) (answer : Result LaneError (Option ArbiterVerdict))
      → IsSafe p s
      → (answered p s.state && not (is_submitted s.state.submission)) ≡ true
      → Keeps p (answered p) (after_primary sha256 artifact valid_lane run_id valid p w s answer)
  unfolding finish
  after_primary-Keeps s (err e) safe h =
      stopped-IsReturn w p failed (cancelled_by sha256 artifact valid_lane run_id valid p w e s)
        refl (cancelled_by-IsSafe e s safe)
  after_primary-Keeps s (ok none) safe h = stopped-IsReturn w p cancelled s refl safe
  after_primary-Keeps s (ok (some verdict)) safe h =
      let post : RunState → Bool = λ r. answered p r && not (is_submitted r.submission) in
      Keeps-bind p post (answered p) (fails w.response_refused w failed_policy s tt) _
        (fails-Keeps p w post w.response_refused failed_policy s tt refl safe h)
        (λ t _ safe' h'. stage_response-Keeps t safe' (ground arith) (ground arith))

  pub primary_stage-Keeps :
      (s : Session)
      → IsSafe p s
      → answered p s.state ≡ true
      → Keeps p (answered p) (primary_stage sha256 artifact valid_lane run_id valid p w s)
  unfolding primary_stage
  primary_stage-Keeps s safe h =
      let post : RunState → Bool = λ r. answered p r && not (is_submitted r.submission) in
      Keeps-if p (answered p) (p.auto_primary_arbiter && not (is_submitted s.state.submission)) _ _
        (λ automatic.
          Keeps-bind p post (answered p)
            (ensure_challenge sha256 artifact valid_lane run_id valid p w s) _
            (ensure_challenge-Keeps s safe (ground arith))
            (λ t _ safe' h'.
              Keeps-bind p post (answered p) (fails w.packet_drift w failed_policy t tt) _
                (fails-Keeps p w post w.packet_drift failed_policy t tt refl safe' h')
                (λ u _ safe'' h''.
                  after_primary-Keeps u
                    (arbiter_lane sha256 artifact valid_lane run_id valid p w w.primary
                      p.primary_arbiter.route_id)
                    safe'' h'')))
        (λ _. (safe, h))

  await_submission-Keeps :
      (s : Session)
      → IsSafe p s
      → (answered p s.state && not (is_submitted s.state.submission)) ≡ true
      → Keeps p (ready p) (await_submission sha256 artifact valid_lane run_id valid p w s)
  unfolding finish terminal transition_allowed
  await_submission-Keeps s safe h =
      let post : RunState → Bool = λ r. answered p r && not (is_submitted r.submission) in
      Keeps-bind p post (ready p) (publish_challenge sha256 artifact valid_lane run_id valid p w s)
        _
        (Keeps-if p post s.state.challenge _ _ (λ _. (safe, h))
          (λ _.
            Keeps-if p post w.challenge_fails _ _ (λ _. (safe, refl))
              (λ _. (save-IsSafe p _ s safe safe.now, h))))
        (λ t _ safe' h'.
          finished-IsReturn w p waiting_primary_arbiter
            (save (record t.state { primary_request = true }) t) refl (ground (arith, safe'.now))
            (save-IsSafe p _ t safe' safe'.now))

  -- A submission that is not ready leaves the run waiting.
  waits-IsReturn :
      (s : Session)
      → IsSafe p s
      → (answered p s.state && not (is_accepted s.state.submission)) ≡ true
      → IsReturn p (finished w p waiting_primary_arbiter s)
  unfolding terminal transition_allowed
  waits-IsReturn s safe h =
      finished-IsReturn w p waiting_primary_arbiter s refl (ground (arith, safe.now)) safe

  recovered-Keeps :
      (s : Session) (submission : Submission)
      → IsSafe p s
      → answered p s.state ≡ true
      → s.state.submission ≡ submission
      → is_submitted submission ≡ true
      → Keeps p (ready p) (
          recover_submission sha256 artifact valid_lane run_id valid p w s submission >>= λ t.
          wait_unless_ready sha256 artifact valid_lane run_id valid p w t.0 t.1)
  unfolding finish terminal
  recovered-Keeps s no_submission safe h same submitted = absurd (cc)
  recovered-Keeps s staging safe h same submitted =
      from_staging w.response_missing w.submission_drift
    where
      s' : Session
      s' = record s { state = record s.state { submission = accepted } }

      safe' : IsSafe p s'
      safe' = record { now = ground (arith, safe.now, ap is_accepted same); before = safe.before }

      from_staging :
          (missing drift : Bool)
          → Keeps p (ready p) (
              (if missing then ok (s, false) else fails drift w failed_policy s' true) >>= λ t.
              wait_unless_ready sha256 artifact valid_lane run_id valid p w t.0 t.1)
      from_staging true drift = waits-IsReturn s safe (ground (arith, ap is_accepted same))
      from_staging false true = stopped-IsReturn w p failed_policy s' refl safe'
      from_staging false false = (safe', ground arith)
  recovered-Keeps s accepted safe h same submitted =
      from_accepted (w.response_missing || w.submission_drift)
    where
      from_accepted :
          (bad : Bool)
          → Keeps p (ready p) (
              fails bad w failed_policy s true >>= λ t.
              wait_unless_ready sha256 artifact valid_lane run_id valid p w t.0 t.1)
      from_accepted true = stopped-IsReturn w p failed_policy s refl safe
      from_accepted false = (safe, ground (arith, ap is_accepted same))

  pub submission_stage-Keeps :
      (s : Session)
      → IsSafe p s
      → answered p s.state ≡ true
      → Keeps p (ready p) (submission_stage sha256 artifact valid_lane run_id valid p w s)
  unfolding submission_stage
  submission_stage-Keeps s safe h =
      Keeps-if p (ready p) (is_submitted s.state.submission) _ _
        (λ there. recovered-Keeps s s.state.submission safe h refl there)
        (λ lacks. await_submission-Keeps s safe (ground arith))

  result_permitted :
      (r : RunState) (degrades : Bool)
      → consistent p r ≡ true
      → status_eq r.status merging ≡ true
      → (terminal r.status
          || permits p (record r { result = true }) (if degrades then degraded else completed))
        ≡ true
  unfolding terminal transition_allowed
  result_permitted r true supported here = ground arith
  result_permitted r false supported here = ground arith

  pub merge_stage-Keeps :
      (post : RunState → Bool) (s : Session)
      → IsSafe p s
      → ready p s.state ≡ true
      → Keeps p post (merge_stage sha256 artifact valid_lane run_id valid p w s)
  unfolding merge_stage finish terminal transition_allowed
  merge_stage-Keeps post s safe h =
      Keeps-bind p (in_merge p) post (enter w merging s) _
        (enter-Keeps w p merging s (in_merge p) refl (ground arith) (ground (arith, safe.now)) safe)
        (λ t _ safe' h'.
          Keeps-bind p (in_merge p) post
            (if w.response_invalid then err (t, err invalid_response) else ok (t, tt)) _
            (Keeps-if p (in_merge p) w.response_invalid _ _ (λ _. (safe', refl)) (λ _. (safe', h')))
            (λ u _ safe2 h2.
              Keeps-bind p (in_merge p) post (fails w.finalization_cancelled w cancelled u tt) _
                (fails-Keeps p w (in_merge p) w.finalization_cancelled cancelled u tt refl safe2 h2)
                (λ v _ safe3 h3.
                  finished-IsReturn w p (result_status sha256 artifact valid_lane run_id valid p w)
                    (save (record v.state { result = true }) v) (ending w.result_degraded)
                    (result_permitted v.state w.result_degraded safe3.now
                      (and_true (ready p v.state) (status_eq v.state.status merging) h3).1)
                    (save-IsSafe p _ v safe3 safe3.now))))
    where
      ending : (b : Bool) → is_returned (if b then degraded else completed) ≡ true
      ending b = ground arith
