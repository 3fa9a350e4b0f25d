-- ===== src/Run/Evidence/Repair.antt =====
-- What `best_ref_remap` of src/run.rs returns: a repair that no other candidate comes near.
use quinte.Prelude.{
  ℕ, ◌+◌, ◌≤◌, String, ◌≡◌, refl, subst, ◌⊎◌, inl, inr, Bool, true, false, ◌||◌, List, [], ◌∷◌,
  Option, none, some, arith, All, ltb, if◌then◌else◌, contains, eq_iff, Bool-cases, codes,
}
use quinte.Run.Evidence.{
  levenshtein, usize_max, second_after, improves, scan_refs, accept_best, best_ref_remap,
}

module _ (distance : String → ℕ) where
  -- What `best` and `second` say of the candidates seen so far.
  abbrev IsBest : List String → String × ℕ → ℕ → Type 0
  IsBest seen (c, d) second =
      (d ≡ distance c)
      × (contains seen c ≡ true)
      × All (λ x. d ≤ distance x) seen
      × All (λ x. (x ≡ c) ⊎ (second ≤ distance x)) seen

  abbrev Tracks : List String → Option (String × ℕ) → ℕ → Type 0
  Tracks seen none second = seen ≡ []
  Tracks seen (some best) second = IsBest seen best second

  abbrev push_all : List String → List String → List String
  push_all [] seen = seen
  push_all (c ∷ cs) seen = push_all cs (c ∷ seen)

  at_least_mono :
      {a b : ℕ} (seen : List String)
      → a ≤ b
      → All (λ x. b ≤ distance x) seen
      → All (λ x. a ≤ distance x) seen
  at_least_mono [] h all = tt
  at_least_mono (x ∷ seen) h all = (omega arith, at_least_mono seen h all.1)

  far_of_at_least :
      (b : ℕ) (c : String) (seen : List String)
      → All (λ x. b ≤ distance x) seen
      → All (λ x. (x ≡ c) ⊎ (b ≤ distance x)) seen
  far_of_at_least b c [] all = tt
  far_of_at_least b c (x ∷ seen) all = (inr all.0, far_of_at_least b c seen all.1)

  far_mono :
      {a b : ℕ} (c : String) (seen : List String)
      → a ≤ b
      → All (λ x. (x ≡ c) ⊎ (b ≤ distance x)) seen
      → All (λ x. (x ≡ c) ⊎ (a ≤ distance x)) seen
  far_mono c [] h all = tt
  far_mono c (x ∷ seen) h all =
      (elim (all.0) [ inl e ↦ inl e | inr f ↦ inr (omega arith) ], far_mono c seen h all.1)

  contains_self : (c : String) (seen : List String) → contains (c ∷ seen) c ≡ true
  contains_self c seen = ground (arith, eq_iff c c)

  contains-cons :
      (c x : String) (seen : List String) → contains seen c ≡ true → contains (x ∷ seen) c ≡ true
  contains-cons c x seen h = ground arith

  -- One round of the loop keeps what is tracked.
  step-Tracks :
      (seen : List String) (best : Option (String × ℕ)) (second : ℕ) (x : String)
      → Tracks seen best second
      → Tracks (x ∷ seen) (if improves best (distance x) then some (x, distance x) else best) (
          if improves best (distance x)
          then second_after best second
          else if ltb (distance x) second
          then distance x
          else second)
  step-Tracks seen none second x h =
      rw h (refl, contains_self x [], (omega arith, tt), (inl refl, tt))
  step-Tracks seen (some (c, d)) second x h = elim (Bool-cases (ltb (distance x) d)) [
    | inl less ↦ rw less (
      refl,
      contains_self x seen,
      (omega arith, at_least_mono seen (ground arith) h.2),
      (inl refl, far_of_at_least d x seen h.2),
    )
    | inr more ↦ rw more (
      h.0,
      contains-cons c x seen h.1,
      (ground arith, h.2),
      (inr (ground arith), far_mono c seen (ground arith) h.3),
    )
  ]

  scan_refs-Tracks :
      (seen cs : List String) (best : Option (String × ℕ)) (second : ℕ)
      → Tracks seen best second
      → Tracks
          (push_all cs seen)
          (scan_refs distance best second cs).0
          (scan_refs distance best second cs).1
  unfolding scan_refs
  scan_refs-Tracks seen [] best second h = h
  scan_refs-Tracks seen (c ∷ cs) best second h =
      scan_refs-Tracks (c ∷ seen) cs
        (if improves best (distance c) then some (c, distance c) else best)
        (if improves best (distance c)
          then second_after best second
          else if ltb (distance c) second
          then distance c
          else second)
        (step-Tracks seen best second c h)

  contains-push_all :
      (x : String) (cs seen : List String)
      → contains (push_all cs seen) x ≡ (contains cs x || contains seen x)
  contains-push_all x [] seen = refl
  contains-push_all x (c ∷ cs) seen = ground (arith, contains-push_all x cs (c ∷ seen))

  All-push_all :
      (P : String → Type 0) (cs seen : List String)
      → All P (push_all cs seen)
      → All P cs × All P seen
  All-push_all P [] seen h = (tt, h)
  All-push_all P (c ∷ cs) seen h =
      let ih = All-push_all P cs (c ∷ seen) h in ((ih.1.0, ih.0), ih.1.1)

  -- The test at the end accepts a tracked best candidate only.
  accept_best-IsBest :
      (seen : List String) (r : Option (String × ℕ) × ℕ) {c : String}
      → Tracks seen r.0 r.1
      → accept_best r ≡ some c
      → (contains seen c ≡ true)
        × (distance c ≤ 3)
        × All (λ x. (x ≡ c) ⊎ (distance c + 3 ≤ distance x)) seen
  accept_best-IsBest seen (none, second) t h = absurd (cc)
  accept_best-IsBest seen (some (b, d), second) {c} t h =
      let near : d ≤ 3 = ground arith in
      let apart : d + 3 ≤ second = ground arith in
      let same : b ≡ c = ground arith in
      subst
        (λ e.
          (contains seen e ≡ true)
          × (distance e ≤ 3)
          × All (λ x. (x ≡ e) ⊎ (distance e + 3 ≤ distance x)) seen)
        same (t.1, (omega (arith, t.0, near)), far_mono b seen (omega (arith, t.0, apart)) t.3)

-- A repair is a reference of the snapshot, is at most 3 edits away from what the lane wrote, which
-- is no reference of the snapshot, and every other reference is at least 3 edits further away.
pub best_ref_remap_sound :
    (reference : String) (valid : List String) {c : String}
    → best_ref_remap reference valid ≡ some c
    → (contains valid reference ≡ false)
      × (contains valid c ≡ true)
      × (levenshtein (codes reference) (codes c) ≤ 3)
      × All
          (λ x.
            (x ≡ c)
            ⊎ (levenshtein (codes reference) (codes c) + 3
                ≤ levenshtein (codes reference) (codes x)))
          valid
unfolding best_ref_remap
best_ref_remap_sound reference valid {c} h =
    let distance = λ (x : String). levenshtein (codes reference) (codes x) in
    let seen = push_all distance valid [] in
    let scanned = scan_refs distance none usize_max valid in
    let (fresh, accepted) = unrefused (contains valid reference) (accept_best scanned) h in
    let (found, near, apart) =
      accept_best-IsBest distance seen scanned
        (scan_refs-Tracks distance [] valid none usize_max refl) accepted in
    (
      fresh,
      ground (arith, contains-push_all distance c valid [], found),
      near,
      (All-push_all distance (λ x. (x ≡ c) ⊎ (distance c + 3 ≤ distance x)) valid [] apart).0,
    )
  where
    unrefused :
        (b : Bool) (o : Option String)
        → (if b then none else o) ≡ some c
        → (b ≡ false) × (o ≡ some c)
    unrefused b o e = ground arith
