-- ===== src/Finance/Lanes.antt =====
-- What a school's output may claim and cite (`validate_lane_claims_and_evidence` of
-- src/finance.rs). The evidence item of an admitted reference is taken with `unwrap`; the missing
-- item, which an admitted reference never has, is an error here.
pub mod Cited
pub mod Complete
pub mod Grounds
pub mod Grounded
use quinte.Prelude.{
  ℕ, String, Bool, true, false, not, ◌&&◌, ◌||◌, List, [], ◌∷◌, ◌++◌, map, Option, none, some,
  Result, ok, err, ◌>>=◌, ◌>>◌, bail_if, context, try_each, ◌==◌, str_lt, str_eq, contains, all,
  any, find, if◌then◌else◌, length, is_empty, is_some, is_none, distinct_count,
}
use quinte.Finance.Types.{
  SchoolId, school_eq, SchoolAuthority, FinanceReviewProfile, FinanceClaim, FinanceClaimManifest,
  is_accepted, FinanceEvidenceItem, FinanceEvidenceIndex, FinanceClosureState, open_closure,
  closed_closure, FinanceResidual, SchoolClaimDecision, SchoolLaneOutput, FinanceError,
  no_authority, wrong_decision_set, unsorted_field, unsorted_residuals, unknown_evidence,
  wrong_evidence_class, unregistered_rule, closure_without_evidence, evidence_without_rule,
  unknown_claim_or_evidence, closed_without_rule, open_with_closure,
}

-- `windows(2).all(|pair| pair[0] < pair[1])`.
abbrev pub sorted : List String → Bool
sorted [] = true
sorted (x ∷ []) = true
sorted (x ∷ y ∷ l) = str_lt x y && sorted (y ∷ l)

-- The order of slices of texts.
abbrev pub strs_lt : List String → List String → Bool
strs_lt [] [] = false
strs_lt [] (y ∷ ys) = true
strs_lt (x ∷ xs) [] = false
strs_lt (x ∷ xs) (y ∷ ys) = str_lt x y || str_eq x y && strs_lt xs ys

abbrev residual_lt : FinanceResidual → FinanceResidual → Bool
residual_lt a b =
    str_lt a.residual_code b.residual_code
    || str_eq a.residual_code b.residual_code && strs_lt a.affected_claim_ids b.affected_claim_ids

abbrev pub residuals_sorted : List FinanceResidual → Bool
residuals_sorted [] = true
residuals_sorted (a ∷ []) = true
residuals_sorted (a ∷ b ∷ l) = residual_lt a b && residuals_sorted (b ∷ l)

abbrev pub fields_sorted : SchoolClaimDecision → Bool
fields_sorted d =
    sorted d.evidence_refs
    && sorted d.alternative_codes
    && sorted d.confounder_codes
    && sorted d.falsifier_codes
    && sorted d.invalidation_codes
    && sorted d.limitation_codes
    && sorted d.missing_evidence_codes
    && sorted d.closure_evidence_refs

-- The sets `expected`, `admitted` and `actual`.
abbrev pub claim_ids : FinanceClaimManifest → List String
claim_ids manifest = map (λ (c : FinanceClaim). c.claim_id) manifest.claims

abbrev pub admitted_refs : List FinanceEvidenceItem → List String
admitted_refs [] = []
admitted_refs (i ∷ items) =
    if is_accepted i.status then i.evidence_ref ∷ admitted_refs items else admitted_refs items

abbrev pub decided_ids : SchoolLaneOutput → List String
decided_ids output = map (λ (d : SchoolClaimDecision). d.claim_id) output.decisions

abbrev pub same_set : List String → List String → Bool
same_set xs ys = all (contains ys) xs && all (contains xs) ys

abbrev pub item_of : FinanceEvidenceIndex → String → Option FinanceEvidenceItem
item_of evidence reference =
    find (λ (i : FinanceEvidenceItem). str_eq i.evidence_ref reference) evidence.items

abbrev pub authority_of : FinanceReviewProfile → SchoolId → Option SchoolAuthority
authority_of profile school =
    find (λ (a : SchoolAuthority). school_eq a.school_id school) profile.schools

module _ (profile : FinanceReviewProfile) (manifest : FinanceClaimManifest)
    (evidence : FinanceEvidenceIndex) where
  abbrev pub admitted : String → Bool
  admitted = contains (admitted_refs evidence.items)

  -- The class of a cited item, against the authority of the school.
  unfoldable pub check_class : SchoolAuthority → String → Result FinanceError (Unit {0})
  check_class authority reference = do
    item ← context (item_of evidence reference) unknown_evidence
    bail_if (not (contains authority.accepted_evidence_classes item.evidence_class))
        wrong_evidence_class

  unfoldable pub check_reference : SchoolAuthority → String → Result FinanceError (Unit {0})
  check_reference authority reference =
      bail_if (not (admitted reference)) unknown_evidence >> check_class authority reference

  -- The `match &decision.closure_rule_code`.
  abbrev pub check_closure : Option String → List String → Result FinanceError (Unit {0})
  check_closure (some rule) refs =
      bail_if (not (contains profile.closure_rule_codes rule)) unregistered_rule
      >> bail_if (is_empty refs) closure_without_evidence
  check_closure none refs = bail_if (not (is_empty refs)) evidence_without_rule

  unfoldable pub check_decision :
      SchoolAuthority → SchoolClaimDecision → Result FinanceError (Unit {0})
  check_decision authority d =
      try_each (check_reference authority) (d.evidence_refs ++ d.closure_evidence_refs)
      >> check_closure d.closure_rule_code d.closure_evidence_refs

  abbrev unregistered : Option String → Bool
  unregistered none = false
  unregistered (some rule) = not (contains profile.closure_rule_codes rule)

  -- The `match residual.closure_state`.
  abbrev pub check_closure_state :
      FinanceClosureState → FinanceResidual → Result FinanceError (Unit {0})
  check_closure_state closed_closure r =
      bail_if (is_none r.closure_rule_code || is_empty r.closure_evidence_refs) closed_without_rule
  check_closure_state open_closure r =
      bail_if (is_some r.closure_rule_code || not (is_empty r.closure_evidence_refs))
        open_with_closure

  unfoldable pub check_residual : SchoolAuthority → FinanceResidual → Result FinanceError (Unit {0})
  check_residual authority r =
      bail_if
        (any (λ id. not (contains (claim_ids manifest) id)) r.affected_claim_ids
          || any (λ ref. not (admitted ref)) r.closure_evidence_refs)
        unknown_claim_or_evidence
      >> (bail_if (unregistered r.closure_rule_code) unregistered_rule
          >> (try_each (check_class authority) r.closure_evidence_refs
              >> check_closure_state r.closure_state r))

  unfoldable pub check_output : SchoolLaneOutput → Result FinanceError (Unit {0})
  check_output output = do
    authority ← context (authority_of profile output.school_id) no_authority
    bail_if
        (not (distinct_count (decided_ids output) == length output.decisions)
          || not (same_set (decided_ids output) (claim_ids manifest)))
        wrong_decision_set
    try_each (λ (d : SchoolClaimDecision). bail_if (not (fields_sorted d)) unsorted_field)
        output.decisions
    bail_if (not (residuals_sorted output.residuals)) unsorted_residuals
    try_each (check_decision authority) output.decisions
    try_each (check_residual authority) output.residuals

  unfoldable pub validate_lane_claims_and_evidence :
      List SchoolLaneOutput → Result FinanceError (Unit {0})
  validate_lane_claims_and_evidence outputs = try_each check_output outputs
