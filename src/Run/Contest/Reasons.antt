-- ===== src/Run/Contest/Reasons.antt =====
-- Each reason to contest a lane is acted on (`r1_contestation` of src/run.rs).
use quinte.Prelude.{
  ℕ, zero, suc, ◌+◌, ◌<◌, ◌≡◌, Bool, true, ◌||◌, List, [], ◌∷◌, ◌++◌, if◌then◌else◌, length, arith,
  get_elem?, some, ◌⊎◌, inl, inr,
}
use quinte.Model.Lanes.{LaneAccepted}
use quinte.Run.Contest.{
  enumerate, verdicts_differ, dispositions_conflict, mark_against, mark_pairs, mark_unsupported,
  mark_asymmetric, attestations, marks, has, r1_contestation,
}
use quinte.Run.Contest.Range.{has-r1_contestation, has-append}

lt_of_get_elem? :
    (r1 : List LaneAccepted) (i : ℕ) {a : LaneAccepted} → get_elem? r1 i ≡ some a → i < length r1
lt_of_get_elem? [] i h = absurd (cc)
lt_of_get_elem? (x ∷ r1) zero h = omega arith
lt_of_get_elem? (x ∷ r1) (suc i) h = omega (arith, lt_of_get_elem? r1 i h)

module _ (test : LaneAccepted → LaneAccepted → Bool) where
  mark_against-has :
      (i s j : ℕ) (a : LaneAccepted) (r1 : List LaneAccepted) {b : LaneAccepted}
      → get_elem? r1 j ≡ some b
      → test a b ≡ true
      → (has (mark_against test (i, a) (enumerate s r1)) i ≡ true)
        × (has (mark_against test (i, a) (enumerate s r1)) (s + j) ≡ true)
  unfolding mark_against
  mark_against-has i s j a [] h t = absurd (cc)
  mark_against-has i s zero a (x ∷ r1) {b} h t =
      let e : test a x ≡ true = ground arith in rw e (ground arith, ground arith)
  mark_against-has i s (suc j) a (x ∷ r1) {b} h t =
      let ih = mark_against-has i (s + 1) j a r1 h t in
      let shift : s + suc j ≡ s + 1 + j = omega arith in
      (
        ground (
          arith,
          has-append (if test a x then i ∷ s ∷ [] else [])
              (mark_against test (i, a) (enumerate (s + 1) r1)) i,
          ih.0,
        ),
        rw shift (
            ground (
              arith,
              has-append (if test a x then i ∷ s ∷ [] else [])
                  (mark_against test (i, a) (enumerate (s + 1) r1)) (s + 1 + j),
              ih.1,
            )),
      )

  mark_pairs-has :
      (s i j : ℕ) (r1 : List LaneAccepted) {a b : LaneAccepted}
      → i < j
      → get_elem? r1 i ≡ some a
      → get_elem? r1 j ≡ some b
      → test a b ≡ true
      → (has (mark_pairs test (enumerate s r1)) (s + i) ≡ true)
        × (has (mark_pairs test (enumerate s r1)) (s + j) ≡ true)
  unfolding mark_pairs
  mark_pairs-has s i j [] lt ha hb t = absurd (cc)
  mark_pairs-has s i zero (x ∷ r1) lt ha hb t = absurd (omega arith)
  mark_pairs-has s zero (suc j) (x ∷ r1) {a} {b} lt ha hb t =
      let e : test x b ≡ true = ground arith in
      let one = mark_against-has s (s + 1) j x r1 hb e in
      let at_i : s + zero ≡ s = omega arith in
      let at_j : s + suc j ≡ s + 1 + j = omega arith in
      (
        rw at_i (
            ground (
              arith,
              has-append (mark_against test (s, x) (enumerate (s + 1) r1))
                  (mark_pairs test (enumerate (s + 1) r1)) s,
              one.0,
            )),
        rw at_j (
            ground (
              arith,
              has-append (mark_against test (s, x) (enumerate (s + 1) r1))
                  (mark_pairs test (enumerate (s + 1) r1)) (s + 1 + j),
              one.1,
            )),
      )
  mark_pairs-has s (suc i) (suc j) (x ∷ r1) {a} {b} lt ha hb t =
      let ih = mark_pairs-has (s + 1) i j r1 (omega arith) ha hb t in
      let at_i : s + suc i ≡ s + 1 + i = omega arith in
      let at_j : s + suc j ≡ s + 1 + j = omega arith in
      (
        rw at_i (
            ground (
              arith,
              has-append (mark_against test (s, x) (enumerate (s + 1) r1))
                  (mark_pairs test (enumerate (s + 1) r1)) (s + 1 + i),
              ih.0,
            )),
        rw at_j (
            ground (
              arith,
              has-append (mark_against test (s, x) (enumerate (s + 1) r1))
                  (mark_pairs test (enumerate (s + 1) r1)) (s + 1 + j),
              ih.1,
            )),
      )

-- The four passes, as one test.
has-marks :
    (r1 : List LaneAccepted) (k : ℕ)
    → has (marks (enumerate 0 r1)) k ≡ (
        has (mark_pairs verdicts_differ (enumerate 0 r1)) k
        || (has (mark_pairs dispositions_conflict (enumerate 0 r1)) k
            || (has (mark_unsupported (enumerate 0 r1)) k
                || has (mark_asymmetric (enumerate 0 r1) (attestations (enumerate 0 r1) [])) k)))
unfolding marks
has-marks r1 k =
    let lanes = enumerate 0 r1 in
    let asymmetric = mark_asymmetric lanes (attestations lanes []) in
    ground (
      arith,
      has-append (mark_pairs verdicts_differ lanes)
          (mark_pairs dispositions_conflict lanes ++ (mark_unsupported lanes ++ asymmetric)) k,
      has-append (mark_pairs dispositions_conflict lanes) (mark_unsupported lanes ++ asymmetric) k,
      has-append (mark_unsupported lanes) asymmetric k,
    )

-- Two lanes that disagree in verdict, or in the disposition of a residual that both report, are
-- both sent to R2.
pub disagreement_contested :
    (r1 : List LaneAccepted) (i j : ℕ) {a b : LaneAccepted}
    → i < j
    → get_elem? r1 i ≡ some a
    → get_elem? r1 j ≡ some b
    → (verdicts_differ a b ≡ true) ⊎ (dispositions_conflict a b ≡ true)
    → (has (r1_contestation r1) i ≡ true) × (has (r1_contestation r1) j ≡ true)
disagreement_contested r1 i j lt ha hb (inl t) =
    let m = mark_pairs-has verdicts_differ 0 i j r1 lt ha hb t in
    (
      ground (arith, m.0, has-marks r1 i, has-r1_contestation r1 i, lt_of_get_elem? r1 i ha),
      ground (arith, m.1, has-marks r1 j, has-r1_contestation r1 j, lt_of_get_elem? r1 j hb),
    )
disagreement_contested r1 i j lt ha hb (inr t) =
    let m = mark_pairs-has dispositions_conflict 0 i j r1 lt ha hb t in
    (
      ground (arith, m.0, has-marks r1 i, has-r1_contestation r1 i, lt_of_get_elem? r1 i ha),
      ground (arith, m.1, has-marks r1 j, has-r1_contestation r1 j, lt_of_get_elem? r1 j hb),
    )
