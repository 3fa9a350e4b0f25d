-- ===== src/Run/Attempts/Deadline.antt =====
-- The deadline of a retry, written and read back (`persist_retry_deadline` and
-- `wait_for_retry_deadline` of src/run.rs).
use quinte.Prelude.{
  ℕ, ◌+◌, ◌≤◌, String, ◌≡◌, ap, subst, false, str_ne, some, ok, arith, str_ne_self, str_ne-false,
}
use quinte.Run.Evidence.{usize_max}
use quinte.Run.Retry.{RetryClass}
use quinte.Run.Attempts.{
  LaneWorld, RetryDeadlineState, persist_retry_deadline, wait_for_retry_deadline,
}

persist_retry_deadline_fields :
    (phase route_id : String) (previous : ℕ) (due_at : String) (retry : RetryClass)
    (source : String) {s : RetryDeadlineState}
    → persist_retry_deadline phase route_id previous due_at retry source ≡ ok s
    → (s.retry_state_version ≡ "1.0")
      × (s.phase ≡ phase)
      × (s.route_id ≡ route_id)
      × (s.next_attempt ≡ previous + 1)
      × (s.previous_attempt ≡ previous)
      × (s.due_at ≡ due_at)
      × (previous + 1 ≤ usize_max)
unfolding persist_retry_deadline
persist_retry_deadline_fields phase route_id previous due_at retry source {s} h = (
  ground arith,
  ground arith,
  ground arith,
  ground arith,
  ground arith,
  ground arith,
  ground arith,
)

-- The deadline that a retry writes is read back by the attempt after it: with a time that can be
-- read, and unless a cancellation ends the wait, the wait succeeds. It succeeds for no other phase,
-- route or attempt.
pub deadline_roundtrip :
    (w : LaneWorld) (phase route_id : String) (previous : ℕ) (due_at : String) (retry : RetryClass)
    (source : String) {s : RetryDeadlineState} (left : ℕ)
    → persist_retry_deadline phase route_id previous due_at retry source ≡ ok s
    → w.time_left due_at ≡ some left
    → w.wait_cancelled (previous + 1) ≡ false
    → (wait_for_retry_deadline w phase route_id (previous + 1) (some s) ≡ ok tt)
      × ((phase' route_id' : String) (attempt : ℕ)
          → wait_for_retry_deadline w phase' route_id' attempt (some s) ≡ ok tt
          → (phase' ≡ phase) × (route_id' ≡ route_id) × (attempt ≡ previous + 1))
unfolding persist_retry_deadline wait_for_retry_deadline
deadline_roundtrip w phase route_id previous due_at retry source {s} left written due quiet =
    let (version, same_phase, same_route, next, before, time, fits) =
      persist_retry_deadline_fields phase route_id previous due_at retry source written in
    (
      ground (
        arith,
        equal s.retry_state_version "1.0" version,
        equal s.phase phase same_phase,
        equal s.route_id route_id same_route,
        ap w.time_left time,
      ),
      λ phase' route_id' attempt h.
          ground (arith, str_ne-false s.phase phase', str_ne-false s.route_id route_id'),
    )
  where
    equal : (a b : String) → a ≡ b → str_ne a b ≡ false
    equal a b e = subst (λ x. str_ne a x ≡ false) e (str_ne_self a)
