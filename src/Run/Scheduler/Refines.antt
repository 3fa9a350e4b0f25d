-- ===== src/Run/Scheduler/Refines.antt =====
-- What the scheduler takes a transition for, and what the store does (`Store::transition` of
-- src/store.rs under `advance` of src/run.rs).
use quinte.Prelude.{String, ◌≡◌, ap, Bool, true, false, ◌||◌, Option, ok, ◌>>=◌, arith}
use quinte.Model.Status.{RunStatus, cancelling}
use quinte.Store.{Manifest, Disk, status_eq, transition_from, decided_status, effective_status}
use quinte.Run.Scheduler.{request}

module _ (is_uuid7 : String → Bool) (now id : String) (m : Manifest) (phase : Option String)
    (detail : String) where
  -- The scheduler's view of a transition is what the store does: for every status other than
  -- cancelling, the store refuses exactly what `request` refuses and otherwise returns its status,
  -- where a cancellation is a request on disk or a run that is already cancelling; and the manifest
  -- that it hands back has that status.
  pub transition_refines_request :
      (status : RunStatus) (current : Manifest) (d : Disk)
      → status_eq status cancelling ≡ false
      → ((transition_from is_uuid7 now id m status phase detail (current, d) >>= λ r. ok r.0)
          ≡ request
              (d.cancel_requested || status_eq current.status cancelling)
              current.status
              status)
        × ((transition_from is_uuid7 now id m status phase detail (current, d) >>= λ r.
              ok r.1.status)
            ≡ request
                (d.cancel_requested || status_eq current.status cancelling)
                current.status
                status)
  unfolding request transition_from
  transition_refines_request status current d ordinary =
      let asked : decided_status is_uuid7 status current d
          ≡ effective_status (λ _. true) (d.cancel_requested || status_eq current.status cancelling)
              status =
        ap
          (λ b.
            effective_status (λ _. true)
              ((b || d.cancel_requested) || status_eq current.status cancelling) status)
          ordinary in
      (ground (arith, asked), ground (arith, asked))
