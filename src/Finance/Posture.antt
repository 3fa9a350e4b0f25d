-- ===== src/Finance/Posture.antt =====
-- Whether a review may be published (`publication_posture` of src/finance.rs).
pub mod Publish
pub mod Published
use quinte.Prelude.{
  ℕ, String, Bool, true, false, not, ◌&&◌, ◌||◌, List, [], ◌∷◌, any, is_empty, if◌then◌else◌,
  str_lt, ltb, ◌==◌,
}
use quinte.Finance.Types.{
  ApplicabilityMode, mandatory, conditional, out_of_scope, is_accepted, FinanceEvidenceItem,
  FinanceEvidenceIndex, PrimaryAuthority, is_clear, is_not_applicable, FoldedSchoolDecision,
  PublicationPosture, publish_bounded, abstain, PostureReason, primary_not_accepted,
  primary_expired, primary_provenance_incomplete, evidence_provenance_incomplete,
  mandatory_school_not_clear, conditional_school_not_clear, invalid_not_applicable,
  open_material_residual, active_invalidation, PublicationDecision, SchoolDisposition,
}

abbrev pub reason_rank : PostureReason → ℕ
reason_rank primary_not_accepted = 0
reason_rank primary_expired = 1
reason_rank primary_provenance_incomplete = 2
reason_rank evidence_provenance_incomplete = 3
reason_rank mandatory_school_not_clear = 4
reason_rank conditional_school_not_clear = 5
reason_rank invalid_not_applicable = 6
reason_rank open_material_residual = 7
reason_rank active_invalidation = 8

-- `BTreeSet::insert`, on the members in order.
unfoldable pub insert_reason : PostureReason → List PostureReason → List PostureReason
insert_reason r [] = r ∷ []
insert_reason r (x ∷ xs) =
    if reason_rank r == reason_rank x
    then x ∷ xs
    else if ltb (reason_rank r) (reason_rank x)
    then r ∷ x ∷ xs
    else x ∷ insert_reason r xs

abbrev pub insert_if : Bool → PostureReason → List PostureReason → List PostureReason
insert_if true r reasons = insert_reason r reasons
insert_if false r reasons = reasons

-- The `match decision.applicability`, its arms in order.
abbrev pub match_decision :
    ApplicabilityMode → SchoolDisposition → Bool → List PostureReason → List PostureReason
match_decision mandatory disposition blocking reasons =
    if not (is_clear disposition)
    then insert_reason mandatory_school_not_clear reasons
    else if is_not_applicable disposition
    then insert_reason invalid_not_applicable reasons
    else reasons
match_decision conditional disposition blocking reasons =
    if blocking then insert_reason conditional_school_not_clear reasons else reasons
match_decision out_of_scope disposition blocking reasons = reasons

unfoldable pub decision_reasons :
    List FoldedSchoolDecision → List PostureReason → List PostureReason
decision_reasons [] reasons = reasons
decision_reasons (d ∷ ds) reasons =
    decision_reasons ds (match_decision d.applicability d.disposition d.blocking reasons)

unfoldable pub posture_reasons :
    PrimaryAuthority
    → FinanceEvidenceIndex
    → List FoldedSchoolDecision
    → List String
    → List String
    → List PostureReason
posture_reasons primary evidence folded open_residuals invalidations =
    insert_if (not (is_empty invalidations)) active_invalidation (
      insert_if (not (is_empty open_residuals)) open_material_residual (
        decision_reasons folded (
          insert_if (any (λ (i : FinanceEvidenceItem). not i.provenance_complete) evidence.items)
            evidence_provenance_incomplete
            (insert_if (not primary.provenance_complete) primary_provenance_incomplete (
              insert_if (str_lt primary.expiry_session primary.evaluation_session) primary_expired
                (insert_if (not (is_accepted primary.status)) primary_not_accepted []))))))

unfoldable pub publication_posture :
    PrimaryAuthority
    → FinanceEvidenceIndex
    → List FoldedSchoolDecision
    → List String
    → List String
    → PublicationDecision
publication_posture primary evidence folded open_residuals invalidations =
    let reasons = posture_reasons primary evidence folded open_residuals invalidations in
    record {
      function_revision = "1.0";
      posture = if is_empty reasons then publish_bounded else abstain;
      reason_codes = reasons;
    }
