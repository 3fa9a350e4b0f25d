-- ===== src/Examples/Finances.antt =====
-- A finance review with one claim (src/finance.rs).
use quinte.Prelude.{inl}
use quinte.Prelude.{◌≡◌, refl, ◌↔◌, true, false, List, [], ◌∷◌, map, ok, here, All, Distinct}
use quinte.Finance.Types.{
  factor_risk_model, mandatory, FinanceClaim, r1, r2, clear, contradicted, FoldedSchoolDecision,
  publish_bounded, abstain, mandatory_school_not_clear,
}
use quinte.Finance.Profile.{
  check_school_routes, check_finance_arbiter, validate_finance_policy, check_authorities,
  validate_profile, check_claim, check_claims, validate_claim_manifest,
}
use quinte.Finance.Profile.Seating.{IsSeated, validate_finance_policy-IsSeated}
use quinte.Finance.Profile.Preregistered.{IsRegistered, validate_claim_manifest_sound}
use quinte.Finance.Fold.{
  check_outputs, validate_school_output_set, blocking_disposition, output_of, can_close, fold_pair,
  fold_school, fold_claim, fold_claims, conservative_fold,
}
use quinte.Finance.Fold.Total.{conservative_fold-total}
use quinte.Finance.Lanes.{
  check_class, check_reference, check_decision, check_residual, check_output,
  validate_lane_claims_and_evidence,
}
use quinte.Finance.Lanes.Grounds.{IsGrounded}
use quinte.Finance.Lanes.Grounded.{validate_lane_claims_and_evidence-IsGrounded}
use quinte.Finance.Posture.{insert_reason, decision_reasons, posture_reasons, publication_posture}
use quinte.Finance.Posture.Publish.{
  MayPublish, publish_iff, Other, publication_posture_never_invalid,
}
use quinte.Finance.Posture.Published.{Settled, published-Settled}
use quinte.Examples.Reviews.{
  policy, profile, rule, claim, manifest, folded, closed, cleared, admitted, primary, evidence,
}

policy_ok : validate_finance_policy policy ≡ ok tt
unfolding validate_finance_policy check_school_routes check_finance_arbiter
policy_ok = refl

profile_ok : validate_profile profile ≡ ok tt
unfolding validate_profile check_authorities
profile_ok = refl

validate_finance_policy-IsSeated_example : IsSeated policy
validate_finance_policy-IsSeated_example = validate_finance_policy-IsSeated policy policy_ok

manifest_ok : validate_claim_manifest profile manifest ≡ ok tt
unfolding validate_claim_manifest check_claims check_claim
manifest_ok = refl

validate_claim_manifest_sound_example :
    Distinct (map (λ (c : FinanceClaim). c.claim_id) manifest.claims)
    × All (IsRegistered profile) manifest.claims
validate_claim_manifest_sound_example = validate_claim_manifest_sound profile manifest manifest_ok

fold_closed : conservative_fold profile manifest closed cleared admitted ≡ ok (folded clear false)
unfolding conservative_fold validate_school_output_set check_outputs fold_claims fold_claim
    fold_school fold_pair output_of can_close blocking_disposition
fold_closed = refl

closed_set : validate_school_output_set "run-1" r1 closed ≡ ok tt
unfolding validate_school_output_set check_outputs
closed_set = refl

published :
    (publication_posture primary evidence (folded clear false) [] []).posture ≡ publish_bounded
unfolding publication_posture posture_reasons decision_reasons insert_reason
published = refl

abstained : publication_posture primary evidence (folded contradicted true) [] [] ≡ record {
  function_revision = "1.0";
  posture = abstain;
  reason_codes = mandatory_school_not_clear ∷ [];
}
unfolding publication_posture posture_reasons decision_reasons insert_reason
abstained = refl

publish_iff_example :
    ((publication_posture primary evidence (folded clear false) [] []).posture ≡ publish_bounded
      ↔ MayPublish primary evidence (folded clear false) [] [])
    × ((publication_posture primary evidence (folded clear false) [] []).posture ≡ abstain
        ↔ ¬ (MayPublish primary evidence (folded clear false) [] []))
publish_iff_example = publish_iff primary evidence (folded clear false) [] []

publication_posture_never_invalid_example :
    All Other (publication_posture primary evidence (folded contradicted true) [] []).reason_codes
publication_posture_never_invalid_example =
    publication_posture_never_invalid primary evidence (folded contradicted true) [] []

published-Settled_example :
    Settled profile admitted closed claim factor_risk_model
    × Settled profile admitted cleared claim factor_risk_model
published-Settled_example =
    published-Settled profile manifest closed cleared admitted primary evidence [] []
      (folded clear false) claim factor_risk_model (rule mandatory true) fold_closed published here
      refl (inl refl)

closed_grounded : validate_lane_claims_and_evidence profile manifest evidence closed ≡ ok tt
unfolding validate_lane_claims_and_evidence check_output check_decision check_reference check_class
    check_residual
closed_grounded = refl

cleared_grounded : validate_lane_claims_and_evidence profile manifest evidence cleared ≡ ok tt
unfolding validate_lane_claims_and_evidence check_output check_decision check_reference check_class
    check_residual
cleared_grounded = refl

cleared_set : validate_school_output_set "run-1" r2 cleared ≡ ok tt
unfolding validate_school_output_set check_outputs
cleared_set = refl

validate_lane_claims_and_evidence-IsGrounded_example :
    All (IsGrounded profile manifest evidence) closed
validate_lane_claims_and_evidence-IsGrounded_example =
    validate_lane_claims_and_evidence-IsGrounded profile manifest evidence (refl, tt) closed
      closed_grounded

conservative_fold-total_example :
    (result : List FoldedSchoolDecision) × (conservative_fold profile manifest closed cleared
        admitted
      ≡ ok result)
conservative_fold-total_example =
    conservative_fold-total "run-1" profile manifest evidence closed cleared admitted manifest_ok
      closed_set cleared_set closed_grounded cleared_grounded refl refl
