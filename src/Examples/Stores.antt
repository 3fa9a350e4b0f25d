-- ===== src/Examples/Stores.antt =====
-- Transitions of a stored run, a crash, and a cancellation (src/store.rs).
use quinte.Prelude.{
  ℕ, ◌+◌, ◌≤◌, String, ◌≡◌, refl, ◌⊎◌, inl, Bool, true, false, List, [], ◌∷◌, none, some, ok, All,
}
use quinte.Model.Status.{queued, preflight, r1_running, r1_gate, cancelling, cancelled, terminal}
use quinte.Store.{
  transition_allowed, Manifest, PendingTransition, Disk, check_sequence, next_sequence,
  record_transition, recover_pending_transition, load_manifest, commit, transition_from, transition,
  plan, transition_event, next_manifest, flagged,
}
use quinte.Store.Statuses.{Changes, stay, change, progress, Changes-bounded}
use quinte.Store.Recovery.{RecoversTo, run_disk, transition-RecoversTo}
use quinte.Store.Cancellation.{last_manifest, Saves, cancellation_wins}

abbrev two : ℕ
two = 2

started : Changes queued r1_running two
unfolding transition_allowed
started =
    change queued preflight r1_running 1 (change queued queued preflight 0 (stay queued) refl refl)
      refl refl

Changes-bounded_example :
    (two ≤ 11) × (progress queued + two ≤ progress r1_running) × (terminal queued ≡ true → two ≡ 0)
Changes-bounded_example = Changes-bounded started

abbrev any_id : String → Bool
any_id s = true

abbrev running : Manifest
running = record {
  run_id = "run-1";
  status = r1_running;
  current_phase = some "R1";
  updated_at = "2026-07-13T00:00:00.000Z";
  error = none;
  result_sha256 = none;
}

abbrev gate : Manifest
gate = record running { status = r1_gate; updated_at = "2026-07-13T00:01:00.000Z" }

abbrev to_gate : PendingTransition
to_gate = plan any_id "2026-07-13T00:01:00.000Z" "t-1" r1_running r1_gate r1_gate (some "R1") "null"

abbrev gate_writes : List Disk
gate_writes =
    run_disk any_id running false []
    ∷ record (run_disk any_id running false []) { pending = some to_gate }
    ∷ record (run_disk any_id gate false []) { pending = some to_gate }
    ∷ record (run_disk any_id gate false []) {
      pending = some to_gate;
      events = transition_event "run-1" [] to_gate ∷ [];
    }
    ∷ run_disk any_id gate false (transition_event "run-1" [] to_gate ∷ [])
    ∷ []

gated :
    transition any_id "2026-07-13T00:01:00.000Z" "t-1" running r1_gate
      (some "R1")
      "null"
      (run_disk any_id running false [])
    ≡ ok (r1_gate, gate, gate_writes)
unfolding transition transition_from load_manifest recover_pending_transition commit
    record_transition check_sequence next_sequence transition_allowed terminal
gated = refl

no_events : check_sequence 1 [] ≡ ok tt
unfolding check_sequence
no_events = refl

transition-RecoversTo_example : All (RecoversTo any_id running gate [] to_gate) gate_writes
transition-RecoversTo_example =
    transition-RecoversTo any_id "2026-07-13T00:01:00.000Z" "t-1" running running r1_gate
      (some "R1") "null" false [] refl refl no_events refl gated refl

-- The run is asked to stop while R1 runs, and its worker goes on to the gate.
abbrev stopped : Manifest
stopped = next_manifest any_id running running cancelled (some "R1") "2026-07-13T00:02:00.000Z"

abbrev stop_writes : List Disk
stop_writes =
    flagged any_id r1_gate (run_disk any_id running true [])
    ∷ commit any_id stopped
        (plan any_id "2026-07-13T00:02:00.000Z" "t-2" r1_running cancelled r1_gate (some "R1")
          "null")
        (flagged any_id r1_gate (run_disk any_id running true []))

cancelled_instead :
    transition_from any_id "2026-07-13T00:02:00.000Z" "t-2" running r1_gate
      (some "R1")
      "null"
      (running, run_disk any_id running true [])
    ≡ ok (cancelled, stopped, stop_writes)
unfolding transition_from transition_allowed terminal
cancelled_instead = refl

cancellation_wins_example :
    ((terminal r1_running ≡ true)
      × (cancelled ≡ r1_running)
      × (stopped ≡ running)
      × (stop_writes ≡ run_disk any_id running true [] ∷ []))
    ⊎ (((cancelled ≡ cancelling) ⊎ (cancelled ≡ cancelled))
        × (stopped.status ≡ cancelled)
        × (last_manifest (some running) stop_writes ≡ some stopped)
        × All (Saves (run_disk any_id running true []) stopped) stop_writes)
cancellation_wins_example =
    cancellation_wins any_id "2026-07-13T00:02:00.000Z" "t-2" running r1_gate (some "R1") "null"
      running (run_disk any_id running true []) (inl refl) cancelled_instead

-- A transition to the status that the run has: a crash after its manifest is saved loses its event.
abbrev again : PendingTransition
again =
    plan any_id "2026-07-13T00:03:00.000Z" "t-3" r1_running r1_running r1_running (some "R1") "null"

abbrev moved : Manifest
moved = record running { updated_at = "2026-07-13T00:03:00.000Z" }

event_lost :
    load_manifest any_id "run-1" (record (run_disk any_id moved false []) { pending = some again })
    ≡ ok (moved, run_disk any_id moved false [])
unfolding load_manifest recover_pending_transition
event_lost = refl
