-- ===== src/Run/Contest/Range.antt =====
-- The marks of `r1_contestation` (src/run.rs) are indices of lanes, and the flags are read back.
use quinte.Prelude.{
  ℕ, ◌+◌, ◌≤◌, ◌<◌, String, ◌≡◌, refl, ◌∙◌, Bool, true, false, ◌&&◌, ◌||◌, List, [], ◌∷◌, ◌++◌,
  ◌==◌, if◌then◌else◌, length, arith, Bool-cases, All, leb, ltb, str_eq, inl, inr,
}
use quinte.Prelude.Keyed
use quinte.Prelude.Keyed.{Keyed}
use quinte.Prelude.{str_lt}
use quinte.Model.Lanes.{below_half, LaneAccepted, Residual}
use quinte.Run.Contest.{
  Indexed, enumerate, verdicts_differ, dispositions_conflict, mark_against, mark_pairs,
  mark_unsupported, mark_asymmetric, attest_lane, attestations, push, marks, flagged, has, omitting,
  is_asymmetric, r1_contestation,
}

-- Every index of the list lies below a bound.
abbrev pub Below : ℕ → List ℕ → Type 0
Below n = All (λ i. i < n)

abbrev LanesBelow : ℕ → List Indexed → Type 0
LanesBelow n = All (λ (lane : Indexed). lane.0 < n)

abbrev EntriesBelow : ℕ → Keyed (List ℕ) → Type 0
EntriesBelow n = All (λ (e : String × List ℕ). Below n e.1)

pub has-append : (l m : List ℕ) (i : ℕ) → has (l ++ m) i ≡ (has l i || has m i)
has-append [] m i = refl
has-append (j ∷ l) m i = ground (arith, has-append l m i)

has_eq : (set : List ℕ) (i k : ℕ) → (i == k) ≡ true → has set i ≡ has set k
has_eq set i k h = let e : i ≡ k = ground arith in cc

has_one : (b : Bool) (i k : ℕ) → has (if b then i ∷ [] else []) k ≡ (b && (i == k))
has_one b i k = ground arith

-- The lanes carry the indices from `i` on, so a mark in range is flagged.
has-flagged :
    (set : List ℕ) (i : ℕ) (r1 : List LaneAccepted) (k : ℕ)
    → has (flagged set (enumerate i r1)) k ≡ (has set k && leb i k && ltb k (i + length r1))
unfolding flagged
has-flagged set i [] k = ground arith
has-flagged set i (lane ∷ r1) k =
    has-append (if has set i then i ∷ [] else []) (flagged set (enumerate (i + 1) r1)) k
    ∙ ground (arith, has_one (has set i) i k, has-flagged set (i + 1) r1 k, has_eq set i k)

Below-append : (n : ℕ) (l m : List ℕ) → Below n l → Below n m → Below n (l ++ m)
Below-append n [] m h k = k
Below-append n (x ∷ l) m h k = (h.0, Below-append n l m h.1 k)

Below-if : (n : ℕ) (b : Bool) (l : List ℕ) → Below n l → Below n (if b then l else [])
Below-if n true l h = h
Below-if n false l h = tt

LanesBelow-enumerate :
    (n i : ℕ) (r1 : List LaneAccepted) → i + length r1 ≤ n → LanesBelow n (enumerate i r1)
LanesBelow-enumerate n i [] h = tt
LanesBelow-enumerate n i (lane ∷ r1) h =
    (omega arith, LanesBelow-enumerate n (i + 1) r1 (omega arith))

module _ (n : ℕ) where
  mark_against-Below :
      (test : LaneAccepted → LaneAccepted → Bool) (lane : Indexed) (rest : List Indexed)
      → lane.0 < n
      → LanesBelow n rest
      → Below n (mark_against test lane rest)
  unfolding mark_against
  mark_against-Below test lane [] h k = tt
  mark_against-Below test (i, a) ((j, b) ∷ rest) h k =
      Below-append n (if test a b then i ∷ j ∷ [] else []) (mark_against test (i, a) rest)
        (Below-if n (test a b) (i ∷ j ∷ []) (h, (k.0, tt)))
        (mark_against-Below test (i, a) rest h k.1)

  mark_pairs-Below :
      (test : LaneAccepted → LaneAccepted → Bool) (lanes : List Indexed)
      → LanesBelow n lanes
      → Below n (mark_pairs test lanes)
  unfolding mark_pairs
  mark_pairs-Below test [] h = tt
  mark_pairs-Below test (lane ∷ lanes) h =
      Below-append n (mark_against test lane lanes) (mark_pairs test lanes)
        (mark_against-Below test lane lanes h.0 h.1) (mark_pairs-Below test lanes h.1)

  mark_unsupported-Below :
      (lanes : List Indexed) → LanesBelow n lanes → Below n (mark_unsupported lanes)
  unfolding mark_unsupported
  mark_unsupported-Below [] h = tt
  mark_unsupported-Below ((i, lane) ∷ lanes) h =
      Below-append n (if below_half lane.output.confidence then i ∷ [] else [])
        (mark_unsupported lanes) (Below-if n (below_half lane.output.confidence) (i ∷ []) (h.0, tt))
        (mark_unsupported-Below lanes h.1)

  omitting-Below :
      (set : List ℕ) (lanes : List Indexed) → LanesBelow n lanes → Below n (omitting set lanes)
  unfolding omitting
  omitting-Below set [] h = tt
  omitting-Below set ((i, lane) ∷ lanes) h = elim (Bool-cases (has set i)) [
    | inl e ↦ rw e (omitting-Below set lanes h.1)
    | inr e ↦ rw e (h.0, omitting-Below set lanes h.1)
  ]

  push-Below :
      (i : ℕ) (k : String) (m : Keyed (List ℕ))
      → i < n
      → EntriesBelow n m
      → Below n (push i (Keyed.get k m))
  unfolding Keyed.get
  push-Below i k [] h e = (h, tt)
  push-Below i k ((j, l) ∷ m) h e = elim (Bool-cases (str_eq j k)) [
    | inl same ↦ rw same (Below-append n l (i ∷ []) e.0 (h, tt))
    | inr other ↦ rw other (push-Below i k m h e.1)
  ]

  insert-EntriesBelow :
      (k : String) (l : List ℕ) (m : Keyed (List ℕ))
      → Below n l
      → EntriesBelow n m
      → EntriesBelow n (Keyed.insert k l m)
  unfolding Keyed.insert
  insert-EntriesBelow k l [] h e = (h, tt)
  insert-EntriesBelow k l ((j, w) ∷ m) h e = elim (Bool-cases (str_eq j k)) [
    | inl same ↦ rw same (h, e.1)
    | inr other ↦ elim (Bool-cases (str_lt k j)) [
      | inl less ↦ rw (other, less) (h, (e.0, e.1))
      | inr more ↦ rw (other, more) (e.0, insert-EntriesBelow k l m h e.1)
    ]
  ]

  attest_lane-EntriesBelow :
      (i : ℕ) (rs : List Residual) (m : Keyed (List ℕ))
      → i < n
      → EntriesBelow n m
      → EntriesBelow n (attest_lane i rs m)
  unfolding attest_lane
  attest_lane-EntriesBelow i [] m h e = e
  attest_lane-EntriesBelow i (r ∷ rs) m h e =
      attest_lane-EntriesBelow i rs (Keyed.insert r.id (push i (Keyed.get r.id m)) m) h
        (insert-EntriesBelow r.id (push i (Keyed.get r.id m)) m (push-Below i r.id m h e) e)

  attestations-EntriesBelow :
      (lanes : List Indexed) (m : Keyed (List ℕ))
      → LanesBelow n lanes
      → EntriesBelow n m
      → EntriesBelow n (attestations lanes m)
  unfolding attestations
  attestations-EntriesBelow [] m h e = e
  attestations-EntriesBelow ((i, lane) ∷ lanes) m h e =
      attestations-EntriesBelow lanes (attest_lane i lane.output.residuals m) h.1
        (attest_lane-EntriesBelow i lane.output.residuals m h.0 e)

  mark_asymmetric-Below :
      (lanes : List Indexed) (m : Keyed (List ℕ))
      → LanesBelow n lanes
      → EntriesBelow n m
      → Below n (mark_asymmetric lanes m)
  unfolding mark_asymmetric
  mark_asymmetric-Below lanes [] h e = tt
  mark_asymmetric-Below lanes ((id, l) ∷ m) h e =
      Below-append n (if is_asymmetric (length lanes) l then l ++ omitting l lanes else [])
        (mark_asymmetric lanes m)
        (Below-if n (is_asymmetric (length lanes) l) (l ++ omitting l lanes)
          (Below-append n l (omitting l lanes) e.0 (omitting-Below l lanes h)))
        (mark_asymmetric-Below lanes m h e.1)

-- Every mark is the index of a lane.
pub marks-Below : (r1 : List LaneAccepted) → Below (length r1) (marks (enumerate 0 r1))
unfolding marks
marks-Below r1 =
    let n = length r1 in
    let lanes = enumerate 0 r1 in
    let h = LanesBelow-enumerate n 0 r1 (omega arith) in
    Below-append n (mark_pairs verdicts_differ lanes)
      (mark_pairs dispositions_conflict lanes
        ++ (mark_unsupported lanes ++ mark_asymmetric lanes (attestations lanes [])))
      (mark_pairs-Below n verdicts_differ lanes h)
      (Below-append n (mark_pairs dispositions_conflict lanes)
        (mark_unsupported lanes ++ mark_asymmetric lanes (attestations lanes []))
        (mark_pairs-Below n dispositions_conflict lanes h)
        (Below-append n (mark_unsupported lanes) (mark_asymmetric lanes (attestations lanes []))
          (mark_unsupported-Below n lanes h)
          (mark_asymmetric-Below n lanes (attestations lanes []) h
            (attestations-EntriesBelow n lanes [] h tt))))

-- A lane is contested exactly if a pass marked it.
pub has-r1_contestation :
    (r1 : List LaneAccepted) (k : ℕ)
    → has (r1_contestation r1) k ≡ (has (marks (enumerate 0 r1)) k && ltb k (length r1))
unfolding r1_contestation
has-r1_contestation r1 k = ground (arith, has-flagged (marks (enumerate 0 r1)) 0 r1 k)
