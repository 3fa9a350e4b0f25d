-- ===== src/Store.antt =====
-- The run store (src/store.rs): what a run directory holds, the events, and status transitions with
-- the recovery of one that a crash cut short. Every write of a file is atomic. A run directory is a
-- `Disk`; of the manifest it holds the fields that the store reads or sets, with `result_sha256` for
-- those that it carries along. `events` are the complete records of events.jsonl.
pub mod Statuses
pub mod Outcomes
pub mod Recovery
pub mod Cancellation
use quinte.Prelude.{
  ℕ, suc, ◌+◌, String, Bool, true, false, not, ◌&&◌, ◌||◌, List, [], ◌∷◌, ◌++◌, Option, none, some,
  Result, ok, err, ◌>>=◌, ◌>>◌, bail_if, context, ◌==◌, str_eq, str_ne, if◌then◌else◌, any, is_some,
}
use quinte.Model.Status.{
  RunStatus, queued, preflight, r1_running, r1_gate, r2_packet, r2_running, r2_gate, r3_cc,
  waiting_primary_arbiter, merging, completed, degraded, failed, failed_policy, cancelling,
  cancelled, terminal,
}

abbrev pub status_rank : RunStatus → ℕ
status_rank queued = 0
status_rank preflight = 1
status_rank r1_running = 2
status_rank r1_gate = 3
status_rank r2_packet = 4
status_rank r2_running = 5
status_rank r2_gate = 6
status_rank r3_cc = 7
status_rank waiting_primary_arbiter = 8
status_rank merging = 9
status_rank completed = 10
status_rank degraded = 11
status_rank failed = 12
status_rank failed_policy = 13
status_rank cancelling = 14
status_rank cancelled = 15

-- The derived equality of statuses.
abbrev pub status_eq : RunStatus → RunStatus → Bool
status_eq a b = status_rank a == status_rank b

abbrev pub may_end : RunStatus → Bool
may_end failed = true
may_end failed_policy = true
may_end cancelling = true
may_end cancelled = true
may_end _ = false

abbrev listed : RunStatus → RunStatus → Bool
listed queued preflight = true
listed preflight r1_running = true
listed r1_running r1_gate = true
listed r1_gate r2_packet = true
listed r1_gate r2_running = true
listed r1_gate r2_gate = true
listed r2_packet r2_running = true
listed r2_packet r2_gate = true
listed r2_running r2_gate = true
listed r2_gate r3_cc = true
listed r2_gate waiting_primary_arbiter = true
listed r3_cc waiting_primary_arbiter = true
listed r3_cc merging = true
listed waiting_primary_arbiter merging = true
listed merging completed = true
listed merging degraded = true
listed _ _ = false

unfoldable pub transition_allowed : RunStatus → RunStatus → Bool
transition_allowed from to =
    if status_eq from to then true else if may_end to then not (terminal from) else listed from to

pub record RunError : Type 0 where
  pub code : String
  pub message : String
  pub retryable : Bool

pub record Manifest : Type 0 where
  pub run_id : String
  pub status : RunStatus
  pub current_phase : Option String
  pub updated_at : String
  pub error : Option RunError
  pub result_sha256 : Option String

-- `detail` is the JSON value that the caller adds, as text.
pub record PendingTransition : Type 0 where
  pub transition_id : String
  pub timestamp : String
  pub from : RunStatus
  pub to : RunStatus
  pub requested : RunStatus
  pub phase : Option String
  pub detail : String

-- An event whose data has a transition id carries its transition.
pub record Event : Type 0 where
  pub sequence : ℕ
  pub timestamp : String
  pub run_id : String
  pub event_type : String
  pub phase : Option String
  pub transition : Option PendingTransition

pub record Disk : Type 0 where
  pub manifest : Option Manifest
  pub cancel_requested : Bool
  pub pending : Option PendingTransition
  pub events : List Event

pub data StoreError : Type 0 where
  unknown_run wrong_run_id invalid_run_id sequence_mismatch : StoreError
  pending_mismatch illegal_transition : StoreError

-- The loop over the events at the end of `read_events`, from a number on.
unfoldable pub check_sequence : ℕ → List Event → Result StoreError (Unit {0})
check_sequence n [] = ok tt
check_sequence n (e ∷ es) =
    bail_if (not (e.sequence == n)) sequence_mismatch >> check_sequence (suc n) es

-- `existing.last().map_or(1, |event| event.sequence + 1)`.
unfoldable pub next_sequence : List Event → ℕ
next_sequence [] = 1
next_sequence (e ∷ []) = e.sequence + 1
next_sequence (e ∷ f ∷ es) = next_sequence (f ∷ es)

abbrev has_transition : String → Option PendingTransition → Bool
has_transition id none = false
has_transition id (some p) = str_eq p.transition_id id

-- Whether an event of the transition is recorded.
abbrev pub recorded : String → List Event → Bool
recorded id = any (λ (e : Event). has_transition id e.transition)

abbrev pub transition_event : String → List Event → PendingTransition → Event
transition_event run_id events p = record {
  sequence = next_sequence events;
  timestamp = p.timestamp;
  run_id = run_id;
  event_type = "run.transition";
  phase = p.phase;
  transition = some p;
}

-- `event_at` for a transition, and the same lines of `recover_pending_transition`.
unfoldable pub record_transition : String → PendingTransition → Disk → Result StoreError Disk
record_transition run_id p d =
    check_sequence 1 d.events
    >> ok (
        if recorded p.transition_id d.events
        then d
        else record d { events = d.events ++ transition_event run_id d.events p ∷ [] })

abbrev drop_pending : Result StoreError Disk → Result StoreError Disk
drop_pending (err e) = err e
drop_pending (ok d) = ok (record d { pending = none })

abbrev pub recover_with : Manifest → Option PendingTransition → Disk → Result StoreError Disk
recover_with m none d = ok d
recover_with m (some p) d =
    if status_eq m.status p.from
    then ok (record d { pending = none })
    else bail_if (not (status_eq m.status p.to)) pending_mismatch
      >> drop_pending (record_transition m.run_id p d)

unfoldable pub recover_pending_transition : Manifest → Disk → Result StoreError Disk
recover_pending_transition m d = recover_with m d.pending d

-- `is_uuid7` stands for the test of `validate_run_id`, which the uuid crate makes.
module _ (is_uuid7 : String → Bool) where
  unfoldable pub load_manifest : String → Disk → Result StoreError (Manifest × Disk)
  load_manifest run_id d = do
    m ← context d.manifest unknown_run
    bail_if (str_ne m.run_id run_id) wrong_run_id
    bail_if (not (is_uuid7 m.run_id)) invalid_run_id
    recovered ← recover_pending_transition m d
    ok (m, recovered)

  abbrev pub current_of : Manifest → Disk → Option Manifest → Result StoreError (Manifest × Disk)
  current_of m d none = ok (m, d)
  current_of m d (some _) = load_manifest m.run_id d

  abbrev cancels : RunStatus → Bool
  cancels cancelling = true
  cancels cancelled = true
  cancels _ = false

  -- `effective_status`.
  abbrev pub effective_status : Bool → RunStatus → RunStatus
  effective_status cancellation_wins status =
      if cancellation_wins && not (cancels status) then cancelled else status

  abbrev cancelled_error : RunStatus → Option RunError → Option RunError
  cancelled_error cancelled error = some (record {
    code = "cancelled";
    message = "run cancelled by explicit request";
    retryable = false;
  })
  cancelled_error _ error = error

  -- The manifest that the transition commits.
  abbrev pub next_manifest : Manifest → Manifest → RunStatus → Option String → String → Manifest
  next_manifest current m effective phase now =
      let base = if cancels effective then current else m in
      record base {
        status = effective;
        current_phase = phase;
        updated_at = now;
        error = cancelled_error effective base.error;
      }

  -- The writes of a transition: the disk after each of them. A failure to record the event leaves
  -- the pending transition behind.
  abbrev pub after_event : Result StoreError Disk → List Disk
  after_event (err e) = []
  after_event (ok d) = d ∷ record d { pending = none } ∷ []

  unfoldable pub commit : Manifest → PendingTransition → Disk → List Disk
  commit next p d =
      let planned = record d { pending = some p } in
      let saved = record planned { manifest = some next } in
      planned ∷ saved ∷ after_event (record_transition next.run_id p saved)

  -- The flag, the status, the manifest and the pending transition that `transition` computes from
  -- what it has loaded.
  abbrev pub flagged : RunStatus → Disk → Disk
  flagged status d = record d {
    cancel_requested = status_eq status cancelling || d.cancel_requested;
  }

  abbrev pub decided_status : RunStatus → Manifest → Disk → RunStatus
  decided_status status current d =
      effective_status ((flagged status d).cancel_requested || status_eq current.status cancelling)
        status

  abbrev pub plan :
      String
      → String
      → RunStatus
      → RunStatus
      → RunStatus
      → Option String
      → String
      → PendingTransition
  plan now id from to requested phase detail = record {
    transition_id = id;
    timestamp = now;
    from = from;
    to = to;
    requested = requested;
    phase = phase;
    detail = detail;
  }

  -- `transition` after loading. The writes begin with the request for cancellation, which changes
  -- the disk only if the requested status is cancelling.
  unfoldable pub transition_from :
      String
      → String
      → Manifest
      → RunStatus
      → Option String
      → String
      → Manifest × Disk
      → Result StoreError (RunStatus × Manifest × List Disk)
  transition_from now id m status phase detail (current, d) =
      let effective = decided_status status current d in
      let next = next_manifest current m effective phase now in
      if terminal current.status
      then ok (current.status, current, d ∷ [])
      else bail_if (not (transition_allowed current.status effective)) illegal_transition
        >> ok (
          effective,
          next,
          flagged status d
              ∷ commit next (plan now id current.status effective status phase detail)
                  (flagged status d),
        )

  -- `now` is the clock, and `id` the new transition id. The result has the status, the caller's
  -- manifest after the call, and the writes in order.
  unfoldable pub transition :
      String
      → String
      → Manifest
      → RunStatus
      → Option String
      → String
      → Disk
      → Result StoreError (RunStatus × Manifest × List Disk)
  transition now id m status phase detail d =
      current_of m d d.manifest >>= transition_from now id m status phase detail
