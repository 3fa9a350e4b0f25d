-- ===== src/Finance/Fold.antt =====
-- The conservative fold of the two review phases (`validate_school_output_set` to
-- `conservative_fold` of src/finance.rs).
pub mod Conservative
pub mod Outputs
pub mod Total
use quinte.Prelude.{
  ℕ, suc, String, Bool, true, false, not, ◌&&◌, ◌||◌, List, [], ◌∷◌, ◌++◌, map, Option, none, some,
  Result, ok, err, ◌>>=◌, ◌>>◌, bail_if, context, ◌==◌, leb, str_eq, str_ne, contains, all, find,
  if◌then◌else◌, length, any, is_empty,
}
use quinte.Finance.Types.{
  SchoolId, school_eq, school_bindings, FinanceReviewProfile, ApplicabilityMode, mandatory,
  conditional, out_of_scope, PreregisteredApplicability, FinanceClaim, FinanceClaimManifest,
  FinancePhase, r1, r2, phase_eq, SchoolDisposition, clear, not_applicable, is_clear,
  is_not_applicable, rank, SchoolClaimDecision, SchoolLaneOutput, FoldedSchoolDecision,
  FinanceError, missing_applicability, missing_r1, not_five_outputs, invalid_output, missing_school,
  missing_r1_claim, missing_r2_claim, must_be_not_applicable, cannot_be_not_applicable,
}

abbrev pub has_school : List SchoolId → SchoolId → Bool
has_school [] s = false
has_school (x ∷ xs) s = school_eq x s || has_school xs s

-- The loop of `validate_school_output_set`; it returns the set of schools.
unfoldable pub check_outputs :
    String
    → FinancePhase
    → List SchoolId
    → List SchoolLaneOutput
    → Result FinanceError (List SchoolId)
check_outputs run_id phase schools [] = ok schools
check_outputs run_id phase schools (o ∷ os) =
    bail_if
      (str_ne o.school_lane_output_version "1.0"
        || str_ne o.run_id run_id
        || not (phase_eq o.phase phase)
        || has_school schools o.school_id)
      invalid_output
    >> check_outputs run_id phase (o.school_id ∷ schools) os

-- `schools != expected`, for a set that holds schools only.
abbrev lacks_school : List SchoolId → List (String × SchoolId) → Bool
lacks_school schools [] = false
lacks_school schools ((_, s) ∷ bindings) =
    not (has_school schools s) || lacks_school schools bindings

unfoldable pub validate_school_output_set :
    String → FinancePhase → List SchoolLaneOutput → Result FinanceError (Unit {0})
unfolding check_outputs
validate_school_output_set run_id phase outputs = do
  bail_if (not (length outputs == 5)) not_five_outputs
  schools ← check_outputs run_id phase [] outputs
  bail_if (lacks_school schools school_bindings) missing_school

unfoldable pub blocking_disposition : SchoolDisposition → Bool
blocking_disposition clear = false
blocking_disposition not_applicable = false
blocking_disposition _ = true

-- `by_phase` and its lookup: the last output of a school. `None` is the panic of an absent key.
unfoldable pub output_of : SchoolId → List SchoolLaneOutput → Option SchoolLaneOutput
output_of school [] = none
output_of school (o ∷ os) =
    let later = output_of school os in
    elim later [ some x ↦ some x | none ↦ if school_eq o.school_id school then some o else none ]

abbrev pub rule_registered : FinanceReviewProfile → Option String → Bool
rule_registered profile none = false
rule_registered profile (some rule) = contains profile.closure_rule_codes rule

-- The closure `can_close`.
unfoldable pub can_close : FinanceReviewProfile → List String → SchoolClaimDecision → Bool
can_close profile admitted d =
    rule_registered profile d.closure_rule_code
    && not (is_empty d.closure_evidence_refs)
    && all (contains admitted) d.closure_evidence_refs

-- A decision that blocks and cannot be closed.
abbrev pub is_unresolved : FinanceReviewProfile → List String → SchoolClaimDecision → Bool
is_unresolved profile admitted d =
    blocking_disposition d.disposition && not (can_close profile admitted d)

-- `[first, second].filter(…).max_by_key(rank)`, which takes the later of two of one rank, and
-- `map_or(Clear, …)`.
abbrev pub worst : Bool → SchoolDisposition → Bool → SchoolDisposition → SchoolDisposition
worst true a true b = if leb (rank a) (rank b) then b else a
worst true a false b = a
worst false a true b = b
worst false a false b = clear

abbrev is_true : Option Bool → Bool
is_true (some true) = true
is_true _ = false

-- `effective`.
abbrev pub is_effective : ApplicabilityMode → Option Bool → Bool
is_effective mandatory result = true
is_effective conditional result = is_true result
is_effective out_of_scope result = false

unfoldable pub fold_pair :
    FinanceReviewProfile
    → List String
    → FinanceClaim
    → SchoolId
    → PreregisteredApplicability
    → SchoolClaimDecision
    → SchoolClaimDecision
    → Result FinanceError FoldedSchoolDecision
fold_pair profile admitted claim school rule first second =
    let effective = is_effective rule.mode rule.predicate_result in
    let disposition =
      worst (is_unresolved profile admitted first) first.disposition
        (is_unresolved profile admitted second) second.disposition in
    if effective
    then (bail_if (is_not_applicable first.disposition || is_not_applicable second.disposition)
          cannot_be_not_applicable
        >> ok (record {
          claim_id = claim.claim_id;
          school_id = school;
          applicability = rule.mode;
          disposition = disposition;
          blocking = not (is_clear disposition);
        }))
    else (bail_if
          (not (is_not_applicable first.disposition) || not (is_not_applicable second.disposition))
          must_be_not_applicable
        >> ok (record {
          claim_id = claim.claim_id;
          school_id = school;
          applicability = rule.mode;
          disposition = not_applicable;
          blocking = false;
        }))

abbrev pub decision_for : String → List SchoolClaimDecision → Option SchoolClaimDecision
decision_for claim_id = find (λ (d : SchoolClaimDecision). str_eq d.claim_id claim_id)

-- One round of the inner loop.
unfoldable pub fold_school :
    FinanceReviewProfile
    → List String
    → List SchoolLaneOutput
    → List SchoolLaneOutput
    → FinanceClaim
    → SchoolId
    → Result FinanceError FoldedSchoolDecision
fold_school profile admitted outputs1 outputs2 claim school = do
  rule ← context (claim.school_applicability school) missing_applicability
  one ← context (output_of school outputs1) missing_school
  first ← context (decision_for claim.claim_id one.decisions) missing_r1_claim
  two ← context (output_of school outputs2) missing_school
  second ← context (decision_for claim.claim_id two.decisions) missing_r2_claim
  fold_pair profile admitted claim school rule first second

module _ (profile : FinanceReviewProfile) (admitted : List String)
    (outputs1 outputs2 : List SchoolLaneOutput) where
  unfoldable pub fold_claim :
      FinanceClaim → List (String × SchoolId) → Result FinanceError (List FoldedSchoolDecision)
  fold_claim claim [] = ok []
  fold_claim claim ((_, school) ∷ bindings) = do
    decision ← fold_school profile admitted outputs1 outputs2 claim school
    rest ← fold_claim claim bindings
    ok (decision ∷ rest)

  unfoldable pub fold_claims : List FinanceClaim → Result FinanceError (List FoldedSchoolDecision)
  fold_claims [] = ok []
  fold_claims (claim ∷ claims) = do
    now ← fold_claim claim school_bindings
    rest ← fold_claims claims
    ok (now ++ rest)

abbrev pub first_run_id : List SchoolLaneOutput → Option String
first_run_id [] = none
first_run_id (o ∷ os) = some o.run_id

unfoldable pub conservative_fold :
    FinanceReviewProfile
    → FinanceClaimManifest
    → List SchoolLaneOutput
    → List SchoolLaneOutput
    → List String
    → Result FinanceError (List FoldedSchoolDecision)
conservative_fold profile manifest outputs1 outputs2 admitted = do
  run_id ← context (first_run_id outputs1) missing_r1
  validate_school_output_set run_id r1 outputs1
  validate_school_output_set run_id r2 outputs2
  fold_claims profile admitted outputs1 outputs2 manifest.claims
