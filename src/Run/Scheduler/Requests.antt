-- ===== src/Run/Scheduler/Requests.antt =====
-- Asking for a status keeps a run consistent (`enter` and `finish`, the calls of `Store::transition`
-- in `advance` of src/run.rs).
use quinte.Prelude.{
  ◌≡◌, refl, inl, inr, Bool, true, false, ◌&&◌, ◌||◌, ok, arith, Bool-cases, if◌then◌else◌,
}
use quinte.Model.Routes.{Policy}
use quinte.Model.Status.{RunStatus, failed, failed_policy, cancelling, cancelled, terminal}
use quinte.Store.{status_eq, transition_allowed}
use quinte.Run.Scheduler.{
  RunState, World, Session, Return, with_status, request, cancels_at, returned, went_on, enter,
}
use quinte.Run.Scheduler.Consistent.{
  consistent, IsSafe, IsReturn, Keeps, save-IsSafe, permits, goes_on, is_returned, request-running,
  request-ended,
}

-- The statuses that end a run early.
abbrev pub is_stop : RunStatus → Bool
is_stop failed = true
is_stop failed_policy = true
is_stop cancelled = true
is_stop _ = false

-- They may be asked for whatever the run has come to.
stop-allowed :
    (from to : RunStatus) → is_stop to ≡ true → (terminal from || transition_allowed from to) ≡ true
unfolding transition_allowed
stop-allowed from failed h = ground arith
stop-allowed from failed_policy h = ground arith
stop-allowed from cancelled h = ground arith
stop-allowed from _ h = absurd (cc)

stop-consistent :
    (p : Policy) (r : RunState) (to : RunStatus)
    → is_stop to ≡ true
    → consistent p (with_status to r) ≡ true
stop-consistent p r to h = ground arith

cancelled-IsReturn :
    (p : Policy) (s : Session) → IsSafe p s → IsReturn p (returned s (ok cancelled))
unfolding terminal
cancelled-IsReturn p s safe =
    (save-IsSafe p (with_status cancelled s.state) s safe refl, (refl, refl))

module _ (w : World) (p : Policy) (to : RunStatus) (s : Session) where
  asked :
      terminal s.state.status ≡ false
      → status_eq to cancelling ≡ false
      → (status_eq s.state.status cancelling || transition_allowed s.state.status to) ≡ true
      → request (cancels_at w s.state to) s.state.status to
        ≡ ok (if cancels_at w s.state to then cancelled else to)
  asked live way h =
      request-running (cancels_at w s.state to) s.state.status to live way (ground arith)

  pub enter-Keeps :
      (post : RunState → Bool)
      → goes_on to ≡ true
      → terminal s.state.status ≡ false
      → (status_eq s.state.status cancelling
          || (transition_allowed s.state.status to
              && consistent p (with_status to s.state)
              && post (with_status to s.state)))
        ≡ true
      → IsSafe p s
      → Keeps p post (enter w to s)
  unfolding enter terminal
  enter-Keeps post way live h safe =
      rw (asked live (ground arith) (ground arith), enter)
        (entered (cancels_at w s.state to) (ground arith))
    where
      stays : status_eq to cancelled ≡ false
      stays = ground arith

      entered :
          (b : Bool)
          → (b || (consistent p (with_status to s.state) && post (with_status to s.state))) ≡ true
          → Keeps p post (went_on s (ok (if b then cancelled else to)))
      entered true h = cancelled-IsReturn p s safe
      entered false h =
          rw stays (save-IsSafe p (with_status to s.state) s safe (ground arith), ground arith)

  -- The session and the status that `finish` returns.
  abbrev pub finished : Return
  finished = returned s (request (cancels_at w s.state to) s.state.status to)

  pub finished-IsReturn :
      is_returned to ≡ true
      → (terminal s.state.status || permits p s.state to) ≡ true
      → IsSafe p s
      → IsReturn p finished
  unfolding terminal
  finished-IsReturn way h safe = elim (Bool-cases (terminal s.state.status)) [
    | inl over ↦
        rw (request-ended (cancels_at w s.state to) s.state.status to over)
          (save-IsSafe p s.state s safe safe.now, (refl, ground arith))
    | inr live ↦
        rw (asked live (ground arith) (ground arith))
          (left (cancels_at w s.state to) (ground arith))
  ]
    where
      left :
          (b : Bool)
          → (b || consistent p (with_status to s.state)) ≡ true
          → IsReturn p (returned s (ok (if b then cancelled else to)))
      left true h = cancelled-IsReturn p s safe
      left false h = (save-IsSafe p (with_status to s.state) s safe h, (refl, way))

  pub stopped-IsReturn : is_stop to ≡ true → IsSafe p s → IsReturn p finished
  unfolding terminal
  stopped-IsReturn h safe =
      finished-IsReturn (ground arith)
        (ground (arith, stop-allowed s.state.status to h, stop-consistent p s.state to h)) safe
