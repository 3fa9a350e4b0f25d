-- ===== src/Finance/Types.antt =====
-- The records and enumerations of the finance protocol (src/finance.rs).
use quinte.Prelude.{
  ℕ, String, Bool, true, false, List, [], ◌∷◌, Option, none, some, ◌==◌, str_eq, if◌then◌else◌, In,
  here, there,
}
use quinte.Prelude.Keyed.{Keyed}

pub data SchoolId : Type 0 where
  factor_risk_model event_driven fundamental_supply_chain : SchoolId
  trend_technical_regime market_microstructure : SchoolId

abbrev pub school_rank : SchoolId → ℕ
school_rank factor_risk_model = 0
school_rank event_driven = 1
school_rank fundamental_supply_chain = 2
school_rank trend_technical_regime = 3
school_rank market_microstructure = 4

abbrev pub school_eq : SchoolId → SchoolId → Bool
school_eq a b = school_rank a == school_rank b

-- `SCHOOL_BINDINGS`.
abbrev pub school_bindings : List (String × SchoolId)
school_bindings =
    ("Party A", factor_risk_model)
    ∷ ("Party B", event_driven)
    ∷ ("Party C", fundamental_supply_chain)
    ∷ ("Party D", trend_technical_regime)
    ∷ ("Party E", market_microstructure)
    ∷ []

pub school_listed : (school : SchoolId) → (party : String) × In (party, school) school_bindings
school_listed factor_risk_model = ("Party A", here)
school_listed event_driven = ("Party B", there here)
school_listed fundamental_supply_chain = ("Party C", there (there here))
school_listed trend_technical_regime = ("Party D", there (there (there here)))
school_listed market_microstructure = ("Party E", there (there (there (there here))))

abbrev find_school : String → List (String × SchoolId) → Option SchoolId
find_school party [] = none
find_school party ((candidate, school) ∷ rest) =
    if str_eq candidate party then some school else find_school party rest

unfoldable pub school_for_party : String → Option SchoolId
school_for_party party = find_school party school_bindings

pub record PortableBinding : Type 0 where
  pub artifact_ref : String
  pub contract_family : String
  pub schema_id : Option String
  pub revision : String
  pub exact_sha256 : String
  pub semantic_domain : String
  pub semantic_sha256 : String

pub record SchoolAuthority : Type 0 where
  pub party_id : String
  pub school_id : SchoolId
  pub accepted_evidence_classes : List String
  pub forbidden_claim_classes : List String
  pub question_codes : List String

pub record FinanceSchoolRoute : Type 0 where
  pub party_id : String
  pub school_id : SchoolId
  pub route_id : String
  pub family : String
  pub provider : String
  pub model : String

pub record FinanceArbiterRoute : Type 0 where
  pub arbiter_role : String
  pub route_id : String
  pub family : String
  pub provider : String
  pub model : String

pub record FinancePolicy : Type 0 where
  pub policy_version : String
  pub protocol_version : String
  pub profile : PortableBinding
  pub school_bindings : List FinanceSchoolRoute
  pub counterpart_arbiter : FinanceArbiterRoute
  pub primary_arbiter : FinanceArbiterRoute
  pub isolation_backend : String
  pub same_family_required : Bool

pub record FinanceReviewProfile : Type 0 where
  pub finance_review_profile_version : String
  pub profile_id : String
  pub schools : List SchoolAuthority
  pub allowed_primary_contracts : List String
  pub applicability_predicate_codes : List String
  pub closure_rule_codes : List String
  pub hash_domains : List String

pub data ApplicabilityMode : Type 0 where
  mandatory conditional out_of_scope : ApplicabilityMode

pub record PreregisteredApplicability : Type 0 where
  pub mode : ApplicabilityMode
  pub predicate_code : Option String
  pub predicate_inputs : Keyed String
  pub predicate_result : Option Bool

-- `BTreeMap<SchoolId, PreregisteredApplicability>`: what it holds under each of the five keys.
abbrev pub Applicability : Type 0
Applicability = SchoolId → Option PreregisteredApplicability

pub record FinanceClaim : Type 0 where
  pub claim_id : String
  pub text : String
  pub claim_classes : List String
  pub school_applicability : Applicability

pub record FinanceClaimManifest : Type 0 where
  pub finance_claim_manifest_version : String
  pub claims : List FinanceClaim

pub data EvidenceStatus : Type 0 where
  accepted descriptive_only quarantined_evidence expired_evidence rejected : EvidenceStatus

abbrev pub is_accepted : EvidenceStatus → Bool
is_accepted accepted = true
is_accepted _ = false

pub record FinanceEvidenceItem : Type 0 where
  pub evidence_ref : String
  pub evidence_class : String
  pub binding : PortableBinding
  pub status : EvidenceStatus
  pub provenance_complete : Bool
  pub available_at : String
  pub expiry_session : Option String

pub record FinanceEvidenceIndex : Type 0 where
  pub finance_evidence_index_version : String
  pub as_of : String
  pub evaluation_session : String
  pub items : List FinanceEvidenceItem

pub record PrimaryAuthority : Type 0 where
  pub binding : PortableBinding
  pub status : EvidenceStatus
  pub provenance_complete : Bool
  pub evaluation_session : String
  pub expiry_session : String

pub data FinancePhase : Type 0 where
  r1 r2 : FinancePhase

abbrev pub phase_eq : FinancePhase → FinancePhase → Bool
phase_eq r1 r1 = true
phase_eq r2 r2 = true
phase_eq _ _ = false

pub data SchoolDisposition : Type 0 where
  clear not_applicable insufficient_evidence contradicted quarantined expired : SchoolDisposition

-- `rank`.
abbrev pub rank : SchoolDisposition → ℕ
rank clear = 0
rank not_applicable = 1
rank insufficient_evidence = 2
rank contradicted = 3
rank quarantined = 4
rank expired = 5

abbrev pub is_clear : SchoolDisposition → Bool
is_clear clear = true
is_clear _ = false

abbrev pub is_not_applicable : SchoolDisposition → Bool
is_not_applicable not_applicable = true
is_not_applicable _ = false

pub data Materiality : Type 0 where
  non_material material : Materiality

pub data FinanceClosureState : Type 0 where
  open_closure closed_closure : FinanceClosureState

pub record FinanceResidual : Type 0 where
  pub residual_code : String
  pub affected_claim_ids : List String
  pub materiality : Materiality
  pub closure_state : FinanceClosureState
  pub closure_rule_code : Option String
  pub closure_evidence_refs : List String

pub record SchoolClaimDecision : Type 0 where
  pub claim_id : String
  pub disposition : SchoolDisposition
  pub evidence_refs : List String
  pub alternative_codes : List String
  pub confounder_codes : List String
  pub falsifier_codes : List String
  pub invalidation_codes : List String
  pub limitation_codes : List String
  pub missing_evidence_codes : List String
  pub closure_rule_code : Option String
  pub closure_evidence_refs : List String

pub record SchoolLaneOutput : Type 0 where
  pub school_lane_output_version : String
  pub run_id : String
  pub phase : FinancePhase
  pub school_id : SchoolId
  pub expected_route_digest : String
  pub profile_digest : String
  pub primary_digest : String
  pub evidence_index_digest : String
  pub input_packet_exact_sha256 : String
  pub input_packet_semantic_sha256 : String
  pub decisions : List SchoolClaimDecision
  pub residuals : List FinanceResidual

pub record FoldedSchoolDecision : Type 0 where
  pub claim_id : String
  pub school_id : SchoolId
  pub applicability : ApplicabilityMode
  pub disposition : SchoolDisposition
  pub blocking : Bool

pub data PublicationPosture : Type 0 where
  publish_bounded abstain : PublicationPosture

pub data PostureReason : Type 0 where
  primary_not_accepted primary_expired primary_provenance_incomplete : PostureReason
  evidence_provenance_incomplete mandatory_school_not_clear : PostureReason
  conditional_school_not_clear invalid_not_applicable open_material_residual : PostureReason
  active_invalidation : PostureReason

pub record PublicationDecision : Type 0 where
  pub function_revision : String
  pub posture : PublicationPosture
  pub reason_codes : List PostureReason

pub data FinanceRunStatus : Type 0 where
  preflight r1_running r2_running merging completed degraded failed cancelled : FinanceRunStatus

pub data FinanceTerminationCode : Type 0 where
  output_invalid integrity_failure operator_cancelled : FinanceTerminationCode

pub record FinanceTerminationFacts : Type 0 where
  pub phase : FinanceRunStatus
  pub code : FinanceTerminationCode
  pub retryable : Bool

pub record FinanceEventCheckpoint : Type 0 where
  pub sequence : ℕ
  pub event_sha256 : String

pub record FinanceRunManifest : Type 0 where
  pub manifest_version : String
  pub protocol_version : String
  pub run_id : String
  pub run_genesis_digest : String
  pub event_checkpoint : FinanceEventCheckpoint
  pub status : FinanceRunStatus
  pub termination : Option FinanceTerminationFacts
  pub policy : PortableBinding
  pub invocation : PortableBinding
  pub r1_packets : List PortableBinding
  pub r2_packets : List PortableBinding
  pub r1_outputs : List PortableBinding
  pub r2_outputs : List PortableBinding
  pub arbiter_outputs : List PortableBinding
  pub result : Option PortableBinding

-- One constructor for each kind of failure of the functions that are modelled.
pub data FinanceError : Type 0 where
  no_termination_facts bad_counts bad_failed_facts bad_cancelled_facts : FinanceError
  unexpected_facts bad_policy_version not_five_schools wrong_school_map : FinanceError
  duplicate_route bad_arbiter mixed_families too_many_families bad_profile_version : FinanceError
  wrong_profile_map bad_manifest_version duplicate_claim not_all_schools : FinanceError
  no_claim_class forbidden_class missing_applicability mandatory_predicate : FinanceError
  no_predicate_code unknown_predicate out_of_scope_predicate no_authority : FinanceError
  wrong_decision_set unsorted_field unsorted_residuals unknown_evidence : FinanceError
  wrong_evidence_class unregistered_rule closure_without_evidence : FinanceError
  evidence_without_rule unknown_claim_or_evidence closed_without_rule : FinanceError
  open_with_closure missing_r1 not_five_outputs invalid_output missing_school : FinanceError
  missing_r1_claim missing_r2_claim must_be_not_applicable : FinanceError
  cannot_be_not_applicable : FinanceError
