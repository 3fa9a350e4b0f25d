-- ===== src/Store/Cancellation.antt =====
-- A request for cancellation wins (`transition` of src/store.rs).
use quinte.Prelude.{
  String, ◌≡◌, refl, sym, ap, ◌⊎◌, inl, inr, Bool, true, false, ◌||◌, List, [], ◌∷◌, Option, some,
  ok, Result, arith, subst, All, ◌++◌, ◌∙◌, if◌then◌else◌, Result-cases, ok-injective, >>-ok,
}
use quinte.Model.Status.{RunStatus, cancelling, cancelled, terminal}
use quinte.Store.Outcomes.{Outcome, transition_from_cases}
use quinte.Store.{
  status_eq, Manifest, PendingTransition, Disk, StoreError, record_transition, recorded,
  transition_event, check_sequence, next_manifest, plan, flagged, commit, decided_status,
  effective_status, transition_from,
}

abbrev IsStopping : RunStatus → Type 0
IsStopping s = (s ≡ cancelling) ⊎ (s ≡ cancelled)

effective_status-IsStopping :
    (is_uuid7 : String → Bool) (status : RunStatus)
    → IsStopping (effective_status is_uuid7 true status)
effective_status-IsStopping is_uuid7 cancelling = inl refl
effective_status-IsStopping is_uuid7 _ = inr refl

decided_status-IsStopping :
    (is_uuid7 : String → Bool) (status : RunStatus) (current : Manifest) (d : Disk)
    → (d.cancel_requested ≡ true) ⊎ (current.status ≡ cancelling)
    → IsStopping (decided_status is_uuid7 status current d)
decided_status-IsStopping is_uuid7 status current d asked =
    subst (λ b. IsStopping (effective_status is_uuid7 b status)) (sym (wins asked))
      (effective_status-IsStopping is_uuid7 status)
  where
    wins :
        (d.cancel_requested ≡ true) ⊎ (current.status ≡ cancelling)
        → ((status_eq status cancelling || d.cancel_requested)
            || status_eq current.status cancelling)
          ≡ true
    wins (inl flag) = ground arith
    wins (inr state) = ground arith

-- The manifest that a sequence of writes leaves.
abbrev pub last_manifest : Option Manifest → List Disk → Option Manifest
last_manifest m [] = m
last_manifest m (d ∷ writes) = last_manifest d.manifest writes

-- A state of the disk has the old manifest or the one that is committed.
abbrev pub Saves : Disk → Manifest → Disk → Type 0
Saves before next d = (d.manifest ≡ before.manifest) ⊎ (d.manifest ≡ some next)

abbrev recording : Disk → Result StoreError Disk
recording d = ok d

record_transition-manifest :
    (run_id : String) (p : PendingTransition) (d : Disk) {after : Disk}
    → record_transition run_id p d ≡ ok after
    → after.manifest ≡ d.manifest
unfolding record_transition
record_transition-manifest run_id p d h =
    let (_, k) =
      >>-ok (check_sequence 1 d.events)
        (recording (
          if recorded p.transition_id d.events
          then d
          else record d { events = d.events ++ transition_event run_id d.events p ∷ [] }))
        h in
    ap (λ (x : Disk). x.manifest) (sym (ok-injective k))
    ∙ either (recorded p.transition_id d.events)
  where
    either :
        (b : Bool)
        → (let x : Disk =
              if b
              then d
              else record d { events = d.events ++ transition_event run_id d.events p ∷ [] } in
            x.manifest)
          ≡ d.manifest
    either true = refl
    either false = refl

commit-Saves :
    (is_uuid7 : String → Bool) (next : Manifest) (p : PendingTransition) (before d : Disk)
    → d.manifest ≡ before.manifest
    → All (Saves before next) (commit is_uuid7 next p d)
      × ((m : Option Manifest) → last_manifest m (commit is_uuid7 next p d) ≡ some next)
unfolding commit
commit-Saves is_uuid7 next p before d same =
    let saved = record d { pending = some p; manifest = some next } in
    elim (Result-cases (record_transition next.run_id p saved)) [
      | inl (after, same_event) ↦
          let kept = record_transition-manifest next.run_id p saved same_event in
          rw same_event ((inl same, (inr refl, (inr kept, (inr kept, tt)))), λ m. kept)
      | inr (e, failed) ↦ rw failed ((inl same, (inr refl, tt)), λ m. refl)
    ]

abbrev Settles : Disk → Outcome → Type 0
Settles d (s, next, writes) =
    ((s ≡ cancelling) ⊎ (s ≡ cancelled))
    × (next.status ≡ s)
    × (last_manifest d.manifest writes ≡ some next)
    × All (Saves d next) writes

-- Once cancellation is requested, or the run is cancelling, a transition to whatever status either
-- finds the run at its end, returns its manifest and leaves the disk as it is; or it returns a
-- manifest that is cancelling or cancelled, this manifest is the one that its writes leave on the
-- disk, and each of them has this manifest or the old one.
pub cancellation_wins :
    (is_uuid7 : String → Bool) (now id : String) (m : Manifest) (status : RunStatus)
    (phase : Option String) (detail : String) (current : Manifest) (d : Disk) {s : RunStatus}
    {next : Manifest} {writes : List Disk}
    → (d.cancel_requested ≡ true) ⊎ (current.status ≡ cancelling)
    → transition_from is_uuid7 now id m status phase detail (current, d) ≡ ok (s, next, writes)
    → ((terminal current.status ≡ true)
        × (s ≡ current.status)
        × (next ≡ current)
        × (writes ≡ d ∷ []))
      ⊎ (((s ≡ cancelling) ⊎ (s ≡ cancelled))
          × (next.status ≡ s)
          × (last_manifest d.manifest writes ≡ some next)
          × All (Saves d next) writes)
cancellation_wins is_uuid7 now id m status phase detail current d asked h =
    elim (transition_from_cases is_uuid7 now id m status phase detail current d h) [
      | inl ended ↦ inl ended
      | inr wrote ↦ inr (
          subst (Settles d) wrote (
            let status' = decided_status is_uuid7 status current d in
            let next' = next_manifest is_uuid7 current m status' phase now in
            let saves =
              commit-Saves is_uuid7 next'
                (plan is_uuid7 now id current.status status' status phase detail) d
                (flagged is_uuid7 status d) refl in
            (
              decided_status-IsStopping is_uuid7 status current d asked,
              refl,
              saves.1 d.manifest,
              (inl refl, saves.0),
            )))
    ]
