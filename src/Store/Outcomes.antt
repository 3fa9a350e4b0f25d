-- ===== src/Store/Outcomes.antt =====
-- The two ways in which `transition` of src/store.rs succeeds.
use quinte.Prelude.{
  String, ◌≡◌, refl, ◌⊎◌, inl, inr, Bool, true, false, not, List, [], ◌∷◌, Option, Result, ok, ◌>>◌,
  bail_if, if◌then◌else◌,
}
use quinte.Model.Status.{RunStatus, terminal}
use quinte.Store.{
  transition_allowed, Manifest, Disk, StoreError, decided_status, next_manifest, flagged, plan,
  commit, transition_from, illegal_transition,
}

-- What a transition returns: the status, the manifest and the writes.
abbrev pub Outcome : Type 0
Outcome = RunStatus × Manifest × List Disk

abbrev success : Outcome → Result StoreError Outcome
success o = ok o

module _ (is_uuid7 : String → Bool) (now id : String) (m : Manifest) (status : RunStatus)
    (phase : Option String) (detail : String) where
  -- The outcome of a transition that commits.
  abbrev pub committed : Manifest → Disk → Outcome
  committed current d =
      let effective = decided_status is_uuid7 status current d in
      let saved = next_manifest is_uuid7 current m effective phase now in
      (
        effective,
        saved,
        flagged is_uuid7 status d
            ∷ commit is_uuid7 saved
                (plan is_uuid7 now id current.status effective status phase detail)
                (flagged is_uuid7 status d),
      )

  pub transition_from_cases :
      (current : Manifest) (d : Disk) {s : RunStatus} {next : Manifest} {writes : List Disk}
      → transition_from is_uuid7 now id m status phase detail (current, d) ≡ ok (s, next, writes)
      → ((terminal current.status ≡ true)
          × (s ≡ current.status)
          × (next ≡ current)
          × (writes ≡ d ∷ []))
        ⊎ (committed current d ≡ (s, next, writes))
  unfolding transition_from
  transition_from_cases current d h =
      split current (d ∷ []) (committed current d) (terminal current.status)
        (transition_allowed current.status (decided_status is_uuid7 status current d)) refl h
    where
      split :
          (c : Manifest) (w : List Disk) (o : Outcome) (t a : Bool) {s : RunStatus}
          {next : Manifest} {writes : List Disk}
          → terminal c.status ≡ t
          → (if t
              then success (c.status, c, w)
              else bail_if (not a) illegal_transition >> success o)
            ≡ success (s, next, writes)
          → ((terminal c.status ≡ true) × (s ≡ c.status) × (next ≡ c) × (writes ≡ w))
            ⊎ (o ≡ (s, next, writes))
      split c w o true a e h = inl (e, cc, cc, cc)
      split c w o false true e h = inr (cc)
      split c w o false false e h = absurd (cc)
