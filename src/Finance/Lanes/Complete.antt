-- ===== src/Finance/Lanes/Complete.antt =====
-- Which claims an accepted output decides (`validate_lane_claims_and_evidence` of src/finance.rs).
use quinte.Prelude.{
  suc, ◌≤◌, String, ◌≡◌, refl, ap, inl, inr, true, not, ◌||◌, List, [], ◌∷◌, map, ok, ◌>>◌, bail_if,
  context, try_each, try_each-All, arith, All, Distinct, contains, all, length, distinct_count,
  >>=-ok, bail_if-ok, eq_iff, str_eq, Bool-cases, ◌==◌,
}
use quinte.Finance.Types.{
  SchoolAuthority, FinanceReviewProfile, FinanceClaimManifest, FinanceEvidenceIndex,
  SchoolClaimDecision, SchoolLaneOutput, no_authority, wrong_decision_set, unsorted_field,
  unsorted_residuals,
}
use quinte.Finance.Lanes.{
  fields_sorted, residuals_sorted, claim_ids, decided_ids, same_set, authority_of, check_decision,
  check_residual, check_output, validate_lane_claims_and_evidence,
}

distinct_count-le : (l : List String) → distinct_count l ≤ length l
distinct_count-le [] = omega arith
distinct_count-le (x ∷ l) = ground (arith, distinct_count-le l)

distinct_count-Distinct : (l : List String) → distinct_count l ≡ length l → Distinct l
distinct_count-Distinct [] h = tt
distinct_count-Distinct (x ∷ l) h = elim (Bool-cases (contains l x)) [
  | inl again ↦ absurd (ground (arith, distinct_count-le l, h, again))
  | inr fresh ↦ (fresh, distinct_count-Distinct l (ground (arith, h, fresh)))
]

all-contains :
    (ys xs : List String) (id : String)
    → all (contains ys) xs ≡ true
    → contains xs id ≡ true
    → contains ys id ≡ true
all-contains ys [] id h m = absurd (cc)
all-contains ys (x ∷ xs) id h m = elim (Bool-cases (str_eq x id)) [
  | inl same ↦ ground (arith, eq_iff x id, same, h)
  | inr other ↦ all-contains ys xs id (ground (arith, h)) (ground (arith, m, other))
]

length-map :
    (l : List SchoolClaimDecision)
    → length (map (λ (d : SchoolClaimDecision). d.claim_id) l) ≡ length l
length-map [] = refl
length-map (d ∷ l) = ap suc (length-map l)

-- An output decides every registered claim and no other, each once.
pub record IsComplete (manifest : FinanceClaimManifest) (output : SchoolLaneOutput) : Type 0 where
  pub once : Distinct (decided_ids output)
  pub decides :
      (id : String)
      → (contains (decided_ids output) id ≡ true → contains (claim_ids manifest) id ≡ true)
        × (contains (claim_ids manifest) id ≡ true → contains (decided_ids output) id ≡ true)

full :
    (l : List SchoolClaimDecision)
    → (distinct_count (map (λ (d : SchoolClaimDecision). d.claim_id) l) == length l) ≡ true
    → distinct_count (map (λ (d : SchoolClaimDecision). d.claim_id) l)
      ≡ length (map (λ (d : SchoolClaimDecision). d.claim_id) l)
full l h = ground (arith, h, length-map l)

module _ (profile : FinanceReviewProfile) (manifest : FinanceClaimManifest)
    (evidence : FinanceEvidenceIndex) where
  pub check_output-IsComplete :
      (output : SchoolLaneOutput)
      → check_output profile manifest evidence output ≡ ok tt
      → IsComplete manifest output
  unfolding check_output
  check_output-IsComplete output h =
      let wrong =
        not (distinct_count (decided_ids output) == length output.decisions)
        || not (same_set (decided_ids output) (claim_ids manifest)) in
      let fields =
        try_each (λ (d : SchoolClaimDecision). bail_if (not (fields_sorted d)) unsorted_field)
          output.decisions in
      let order = bail_if (not (residuals_sorted output.residuals)) unsorted_residuals in
      let decide = λ (a : SchoolAuthority).
        try_each (check_decision profile manifest evidence a) output.decisions in
      let close = λ (a : SchoolAuthority).
        try_each (check_residual profile manifest evidence a) output.residuals in
      let (a, looked, k1) =
        >>=-ok (context (authority_of profile output.school_id) no_authority)
          (λ (x : SchoolAuthority).
            bail_if wrong wrong_decision_set >> (fields >> (order >> (decide x >> close x))))
          h in
      let (right, k2) =
        bail_if-ok wrong wrong_decision_set (fields >> (order >> (decide a >> close a))) k1 in
      record {
        once =
            distinct_count-Distinct (decided_ids output)
              (full output.decisions (ground (arith, right)));
        decides = λ id. (
          all-contains (claim_ids manifest) (decided_ids output) id (ground (arith, right)),
          all-contains (decided_ids output) (claim_ids manifest) id (ground (arith, right)),
        );
      }

  pub validate_lane_claims_and_evidence-IsComplete :
      (outputs : List SchoolLaneOutput)
      → validate_lane_claims_and_evidence profile manifest evidence outputs ≡ ok tt
      → All (IsComplete manifest) outputs
  unfolding validate_lane_claims_and_evidence
  validate_lane_claims_and_evidence-IsComplete outputs h =
      try_each-All (check_output profile manifest evidence) (IsComplete manifest)
        check_output-IsComplete outputs h
