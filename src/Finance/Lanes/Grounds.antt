-- ===== src/Finance/Lanes/Grounds.antt =====
-- What grounds a school's output (`validate_lane_claims_and_evidence` of src/finance.rs), in words of
-- the evidence index, the profile and the claim manifest.
use quinte.Prelude.{String, ◌≡◌, ◌⊎◌, true, false, ◌++◌, none, some, All, In, contains, is_empty}
use quinte.Finance.Types.{
  SchoolAuthority, FinanceReviewProfile, FinanceClaimManifest, FinanceEvidenceItem, accepted,
  FinanceEvidenceIndex, open_closure, closed_closure, FinanceResidual, SchoolClaimDecision,
  SchoolLaneOutput,
}
use quinte.Finance.Lanes.{claim_ids}
use quinte.Finance.Lanes.Cited.{IsOrdered}
use quinte.Finance.Lanes.Complete.{IsComplete}

module _ (profile : FinanceReviewProfile) (manifest : FinanceClaimManifest)
    (evidence : FinanceEvidenceIndex) where
  -- The reference is that of an accepted item whose class the authority accepts.
  abbrev pub IsCitable : SchoolAuthority → String → Type 0
  IsCitable authority reference =
      (item : FinanceEvidenceItem) × In item evidence.items
      × (item.evidence_ref ≡ reference)
      × (item.status ≡ accepted)
      × (contains authority.accepted_evidence_classes item.evidence_class ≡ true)

  -- A decision closes with a registered rule and evidence, or with neither; all it cites is citable.
  pub record IsGroundedDecision (authority : SchoolAuthority) (d : SchoolClaimDecision)
      : Type 0 where
    pub cited : All (IsCitable authority) (d.evidence_refs ++ d.closure_evidence_refs)
    pub closure :
        ((d.closure_rule_code ≡ none) × (is_empty d.closure_evidence_refs ≡ true))
        ⊎ ((rule : String) × (d.closure_rule_code ≡ some rule)
            × (contains profile.closure_rule_codes rule ≡ true)
            × (is_empty d.closure_evidence_refs ≡ false))

  -- A residual touches registered claims; it is closed by a registered rule with citable evidence, or
  -- open with neither.
  pub record IsGroundedResidual (authority : SchoolAuthority) (r : FinanceResidual) : Type 0 where
    pub affected : All (λ id. contains (claim_ids manifest) id ≡ true) r.affected_claim_ids
    pub cited : All (IsCitable authority) r.closure_evidence_refs
    pub closure :
        ((r.closure_state ≡ open_closure)
          × (r.closure_rule_code ≡ none)
          × (is_empty r.closure_evidence_refs ≡ true))
        ⊎ ((r.closure_state ≡ closed_closure)
            × (rule : String) × (r.closure_rule_code ≡ some rule)
            × (contains profile.closure_rule_codes rule ≡ true)
            × (is_empty r.closure_evidence_refs ≡ false))

  -- A complete output of a school of the profile, with its grounds.
  pub record IsGrounded (output : SchoolLaneOutput) : Type 0 where
    pub authority : SchoolAuthority
    pub listed : In authority profile.schools
    pub own : authority.school_id ≡ output.school_id
    pub complete : IsComplete manifest output
    pub ordered : All IsOrdered output.decisions
    pub decisions : All (IsGroundedDecision authority) output.decisions
    pub residuals : All (IsGroundedResidual authority) output.residuals
