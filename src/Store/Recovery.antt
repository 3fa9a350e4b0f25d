-- ===== src/Store/Recovery.antt =====
-- A crash within a transition, and the recovery from it (`transition` and
-- `recover_pending_transition` of src/store.rs).
use quinte.Prelude.{
  ℕ, suc, ◌≡◌, refl, sym, ap, subst, String, ◌⊎◌, inl, inr, Bool, true, false, not, ◌||◌, List, [],
  ◌∷◌, ◌++◌, Option, none, some, Result, ok, ◌>>=◌, ◌>>◌, bail_if, context, arith, All, str_ne,
  eq_iff,
}
use quinte.Model.Status.{RunStatus, cancelling}
use quinte.Store.Outcomes.{Outcome, committed, transition_from_cases}
use quinte.Store.{
  status_eq, Manifest, PendingTransition, Event, Disk, StoreError, check_sequence, next_sequence,
  recorded, transition_event, record_transition, recover_with, recover_pending_transition,
  load_manifest, next_manifest, commit, transition, decided_status, plan, transition_from,
  unknown_run, wrong_run_id, invalid_run_id,
}

-- The next event continues the sequence.
check_sequence-append :
    (n : ℕ) (e : Event) (es : List Event) (x : Event)
    → check_sequence n (e ∷ es) ≡ ok tt
    → x.sequence ≡ next_sequence (e ∷ es)
    → check_sequence n ((e ∷ es) ++ x ∷ []) ≡ ok tt
unfolding check_sequence next_sequence
check_sequence-append n e [] x h s = ground (arith, h, s)
check_sequence-append n e (f ∷ es) x h s = ground (arith, h, check_sequence-append (suc n) f es x)

sequence_continues :
    (es : List Event) (x : Event)
    → check_sequence 1 es ≡ ok tt
    → x.sequence ≡ next_sequence es
    → check_sequence 1 (es ++ x ∷ []) ≡ ok tt
unfolding check_sequence next_sequence
sequence_continues [] x h s = ground (arith, s)
sequence_continues (e ∷ es) x h s = check_sequence-append 1 e es x h s

recorded_last :
    (id : String) (es : List Event) (run_id : String) (all : List Event) (p : PendingTransition)
    → p.transition_id ≡ id
    → recorded id (es ++ transition_event run_id all p ∷ []) ≡ true
recorded_last id [] run_id all p e = ground (arith, eq_iff p.transition_id id)
recorded_last id (x ∷ es) run_id all p e = ground (arith, recorded_last id es run_id all p e)

status_eq_self : (s : RunStatus) → status_eq s s ≡ true
status_eq_self s = ground arith

abbrev pack : Manifest → Disk → Result StoreError (Manifest × Disk)
pack m d = ok (m, d)

module _ (is_uuid7 : String → Bool) where
  load_of :
      (run_id : String) (x y : Disk) (m : Manifest)
      → x.manifest ≡ some m
      → m.run_id ≡ run_id
      → is_uuid7 run_id ≡ true
      → recover_with m x.pending x ≡ ok y
      → load_manifest is_uuid7 run_id x ≡ ok (m, y)
  unfolding load_manifest recover_pending_transition
  load_of run_id x y m e r u h =
      let own : str_ne m.run_id run_id ≡ false = ground (arith, r, eq_iff m.run_id run_id) in
      let valid : is_uuid7 m.run_id ≡ true = subst (λ i. is_uuid7 i ≡ true) (sym r) u in
      subst
        (λ (o : Option Manifest).
          (context o unknown_run >>= λ (q : Manifest).
          bail_if (str_ne q.run_id run_id) wrong_run_id
          >> (bail_if (not (is_uuid7 q.run_id)) invalid_run_id
              >> (recover_with q x.pending x >>= pack q)))
          ≡ ok (m, y))
        (sym e) (rw (own, valid, h) refl)

  -- The disk, loaded after a crash: its manifest is the old one and no event is added, or it is the
  -- new one and the event of the transition stands once at the end; nothing is pending any more.
  abbrev pub RecoversTo : Manifest → Manifest → List Event → PendingTransition → Disk → Type 0
  RecoversTo current next events p x =
      (y : Disk) × (((load_manifest is_uuid7 current.run_id x ≡ ok (current, y))
          × (y.events ≡ events))
        ⊎ ((load_manifest is_uuid7 current.run_id x ≡ ok (next, y))
            × (y.events ≡ events ++ transition_event current.run_id events p ∷ [])))
      × (y.pending ≡ none)

  module _ (current next : Manifest) (p : PendingTransition) (cancel : Bool) (events : List Event)
      (own : next.run_id ≡ current.run_id) (valid : is_uuid7 current.run_id ≡ true)
      (sequenced : check_sequence 1 events ≡ ok tt)
      (fresh : recorded p.transition_id events ≡ false) (from : p.from ≡ current.status)
      (to : p.to ≡ next.status) (moves : status_eq next.status current.status ≡ false) where
    abbrev disk : Manifest → Option PendingTransition → List Event → Disk
    disk m pending es = record {
      manifest = some m;
      cancel_requested = cancel;
      pending = pending;
      events = es;
    }

    abbrev longer : List Event
    longer = events ++ transition_event current.run_id events p ∷ []

    before : RecoversTo current next events p (disk current none events)
    before = (
      disk current none events,
      inl (load_of current.run_id _ _ current refl refl valid refl, refl),
      refl,
    )

    planned : RecoversTo current next events p (disk current (some p) events)
    planned = (
      disk current none events,
      inl (
        load_of current.run_id (disk current (some p) events) (disk current none events) current
            refl refl valid (ground (arith, from)),
        refl,
      ),
      refl,
    )

    -- Recovering the new manifest, from events that a transition's record turns into `longer`.
    forward :
        (es : List Event)
        → record_transition next.run_id p (disk next (some p) es) ≡ ok (disk next (some p) longer)
        → RecoversTo current next events p (disk next (some p) es)
    forward es recorded =
        let away : status_eq next.status p.from ≡ false = ground (arith, from, moves) in
        let at : status_eq next.status p.to ≡ true = ground (arith, to) in
        (
          disk next none longer,
          inr (
            load_of current.run_id (disk next (some p) es) (disk next none longer) next refl own
                valid (rw (away, at, recorded) refl),
            refl,
          ),
          refl,
        )

    now_recorded :
        record_transition next.run_id p (disk next (some p) events) ≡ ok (disk next (some p) longer)
    unfolding record_transition
    now_recorded =
        subst
          (λ i.
            record_transition next.run_id p (disk next (some p) events)
            ≡ ok (disk next (some p) (events ++ transition_event i events p ∷ [])))
          own (rw (sequenced, fresh) refl)

    still_recorded :
        record_transition next.run_id p (disk next (some p) longer) ≡ ok (disk next (some p) longer)
    unfolding record_transition
    still_recorded =
        let continues : check_sequence 1 longer ≡ ok tt =
          sequence_continues events (transition_event current.run_id events p) sequenced refl in
        let last : recorded p.transition_id longer ≡ true =
          recorded_last p.transition_id events current.run_id events p refl in
        rw (continues, last) refl

    after : RecoversTo current next events p (disk next none longer)
    after = (
      disk next none longer,
      inr (
        load_of current.run_id (disk next none longer) (disk next none longer) next refl own valid
            refl,
        refl,
      ),
      refl,
    )

    commit-RecoversTo :
        All (RecoversTo current next events p) (commit is_uuid7 next p (disk current none events))
    unfolding commit
    commit-RecoversTo =
        rw now_recorded
          (planned, (forward events now_recorded, (forward longer still_recorded, (after, tt))))

  -- The disk of a run whose manifest is committed and consistent with its events.
  abbrev pub run_disk : Manifest → Bool → List Event → Disk
  run_disk current cancel events = record {
    manifest = some current;
    cancel_requested = cancel;
    pending = none;
    events = events;
  }

  committed-RecoversTo :
      (now id : String) (current m : Manifest) (status : RunStatus) (phase : Option String)
      (detail : String) (cancel : Bool) (events : List Event)
      → m.run_id ≡ current.run_id
      → is_uuid7 current.run_id ≡ true
      → check_sequence 1 events ≡ ok tt
      → recorded id events ≡ false
      → status_eq
          (decided_status is_uuid7 status current (run_disk current cancel events))
          current.status
        ≡ false
      → let o =
          committed is_uuid7 now id m status phase detail current
            (run_disk current cancel events) in
        All
          (RecoversTo current o.1 events
            (plan is_uuid7 now id current.status o.0 status phase detail))
          o.2
  committed-RecoversTo now id current m status phase detail cancel events own valid sequenced fresh
        moved =
      let effective = decided_status is_uuid7 status current (run_disk current cancel events) in
      let saved = next_manifest is_uuid7 current m effective phase now in
      let p = plan is_uuid7 now id current.status effective status phase detail in
      let flag = status_eq status cancelling || cancel in
      let kept : saved.run_id ≡ current.run_id = ground (arith, own) in
      (
        before current saved p flag events kept valid sequenced fresh refl refl moved,
        commit-RecoversTo current saved p flag events kept valid sequenced fresh refl refl moved,
      )

  -- A transition that changes the status of a run, started from a disk with nothing pending, whose
  -- events are numbered in order and know no transition of the new id, is atomic: whichever of its
  -- writes a crash follows, loading the run gives the old manifest with the old events, or the new
  -- one with the event of the transition added once, and clears what was pending.
  pub transition-RecoversTo :
      (now id : String) (current m : Manifest) (status : RunStatus) (phase : Option String)
      (detail : String) (cancel : Bool) (events : List Event) {s : RunStatus} {next : Manifest}
      {writes : List Disk}
      → m.run_id ≡ current.run_id
      → is_uuid7 current.run_id ≡ true
      → check_sequence 1 events ≡ ok tt
      → recorded id events ≡ false
      → transition is_uuid7 now id m status phase detail (run_disk current cancel events)
        ≡ ok (s, next, writes)
      → status_eq s current.status ≡ false
      → All
          (RecoversTo current next events
            (plan is_uuid7 now id current.status s status phase detail))
          writes
  unfolding transition
  transition-RecoversTo now id current m status phase detail cancel events {s} {next} {writes} own
        valid sequenced fresh h moves =
      let d = run_disk current cancel events in
      let loaded : load_manifest is_uuid7 m.run_id d ≡ ok (current, d) =
        load_of m.run_id d d current refl (sym own) (subst (λ i. is_uuid7 i ≡ true) (sym own) valid)
          refl in
      let from : transition_from is_uuid7 now id m status phase detail (current, d)
          ≡ ok (s, next, writes) =
        subst
          (λ r.
            (r >>= transition_from is_uuid7 now id m status phase detail) ≡ ok (s, next, writes))
          loaded h in
      elim (transition_from_cases is_uuid7 now id m status phase detail current d from) [
        | inl ended ↦ absurd (ground (arith, moves, ended.1, status_eq_self current.status))
        | inr wrote ↦
            subst
              (λ (o : Outcome).
                All
                  (RecoversTo current o.1 events
                    (plan is_uuid7 now id current.status o.0 status phase detail))
                  o.2)
              wrote
              (committed-RecoversTo now id current m status phase detail cancel events own valid
                sequenced fresh (moved d s next writes wrote moves))
      ]
    where
      moved :
          (d : Disk) (s : RunStatus) (next : Manifest) (writes : List Disk)
          → committed is_uuid7 now id m status phase detail current d ≡ (s, next, writes)
          → status_eq s current.status ≡ false
          → status_eq (decided_status is_uuid7 status current d) current.status ≡ false
      moved d s next writes wrote moves =
          subst (λ x. status_eq x current.status ≡ false) (sym (ap (λ (o : Outcome). o.0) wrote))
            moves
