-- ===== src/Examples/Reviews.antt =====
-- The policy, the profile, the claim and the outputs of a finance review with one claim.
use quinte.Prelude.{String, Bool, true, false, List, [], ◌∷◌, Option, none, some}
use quinte.Finance.Types.{
  SchoolId, factor_risk_model, event_driven, fundamental_supply_chain, trend_technical_regime,
  market_microstructure, PortableBinding, SchoolAuthority, FinanceSchoolRoute, FinanceArbiterRoute,
  FinancePolicy, FinanceReviewProfile, ApplicabilityMode, mandatory, out_of_scope,
  PreregisteredApplicability, FinanceClaim, FinanceClaimManifest, accepted, FinanceEvidenceIndex,
  PrimaryAuthority, FinancePhase, r1, r2, SchoolDisposition, clear, not_applicable, contradicted,
  SchoolClaimDecision, SchoolLaneOutput, FoldedSchoolDecision,
}

abbrev pub binding : PortableBinding
binding = record {
  artifact_ref = "finance/profile.json";
  contract_family = "quinte";
  schema_id = none;
  revision = "1.0";
  exact_sha256 = "sha256:0";
  semantic_domain = "profile";
  semantic_sha256 = "sha256:0";
}

abbrev pub school_route : String → SchoolId → String → FinanceSchoolRoute
school_route party school id = record {
  party_id = party;
  school_id = school;
  route_id = id;
  family = "deepseek";
  provider = "deepseek";
  model = "deepseek-v4-pro";
}

abbrev pub arbiter_route : String → String → FinanceArbiterRoute
arbiter_route role id = record {
  arbiter_role = role;
  route_id = id;
  family = "deepseek";
  provider = "deepseek";
  model = "deepseek-v4-pro";
}

abbrev pub policy : FinancePolicy
policy = record {
  policy_version = "3.0";
  protocol_version = "2.0";
  profile = binding;
  school_bindings =
      school_route "Party A" factor_risk_model "a"
      ∷ school_route "Party B" event_driven "b"
      ∷ school_route "Party C" fundamental_supply_chain "c"
      ∷ school_route "Party D" trend_technical_regime "d"
      ∷ school_route "Party E" market_microstructure "e"
      ∷ [];
  counterpart_arbiter = arbiter_route "counterpart_arbiter" "counterpart";
  primary_arbiter = arbiter_route "primary_arbiter" "primary";
  isolation_backend = "process_information_flow_v1";
  same_family_required = true;
}

abbrev pub authority : String → SchoolId → SchoolAuthority
authority party school = record {
  party_id = party;
  school_id = school;
  accepted_evidence_classes = "filing" ∷ [];
  forbidden_claim_classes = "price_target" ∷ [];
  question_codes = [];
}

abbrev pub profile : FinanceReviewProfile
profile = record {
  finance_review_profile_version = "1.0";
  profile_id = "review";
  schools =
      authority "Party A" factor_risk_model
      ∷ authority "Party B" event_driven
      ∷ authority "Party C" fundamental_supply_chain
      ∷ authority "Party D" trend_technical_regime
      ∷ authority "Party E" market_microstructure
      ∷ [];
  allowed_primary_contracts = [];
  applicability_predicate_codes = [];
  closure_rule_codes = "filed" ∷ [];
  hash_domains = [];
}

-- A claim that is mandatory for one school and out of scope for the others.
abbrev pub rule : ApplicabilityMode → Bool → PreregisteredApplicability
rule mode result = record {
  mode = mode;
  predicate_code = none;
  predicate_inputs = [];
  predicate_result = some result;
}

abbrev pub rules : SchoolId → Option PreregisteredApplicability
rules factor_risk_model = some (rule mandatory true)
rules _ = some (rule out_of_scope false)

abbrev pub claim : FinanceClaim
claim = record {
  claim_id = "claim-1";
  text = "The exposure is hedged.";
  claim_classes = "exposure" ∷ [];
  school_applicability = rules;
}

abbrev pub manifest : FinanceClaimManifest
manifest = record { finance_claim_manifest_version = "1.0"; claims = claim ∷ [] }

abbrev pub decision : SchoolDisposition → Option String → List String → SchoolClaimDecision
decision disposition closure_rule closure = record {
  claim_id = "claim-1";
  disposition = disposition;
  evidence_refs = [];
  alternative_codes = [];
  confounder_codes = [];
  falsifier_codes = [];
  invalidation_codes = [];
  limitation_codes = [];
  missing_evidence_codes = [];
  closure_rule_code = closure_rule;
  closure_evidence_refs = closure;
}

abbrev pub lane : FinancePhase → SchoolId → SchoolClaimDecision → SchoolLaneOutput
lane phase school d = record {
  school_lane_output_version = "1.0";
  run_id = "run-1";
  phase = phase;
  school_id = school;
  expected_route_digest = "sha256:0";
  profile_digest = "sha256:0";
  primary_digest = "sha256:0";
  evidence_index_digest = "sha256:0";
  input_packet_exact_sha256 = "sha256:0";
  input_packet_semantic_sha256 = "sha256:0";
  decisions = d ∷ [];
  residuals = [];
}

abbrev pub lanes : FinancePhase → SchoolClaimDecision → List SchoolLaneOutput
lanes phase d =
    lane phase factor_risk_model d
    ∷ lane phase event_driven (decision not_applicable none [])
    ∷ lane phase fundamental_supply_chain (decision not_applicable none [])
    ∷ lane phase trend_technical_regime (decision not_applicable none [])
    ∷ lane phase market_microstructure (decision not_applicable none [])
    ∷ []

abbrev pub folded_as :
    SchoolId → ApplicabilityMode → SchoolDisposition → Bool → FoldedSchoolDecision
folded_as school mode disposition blocking = record {
  claim_id = "claim-1";
  school_id = school;
  applicability = mode;
  disposition = disposition;
  blocking = blocking;
}

abbrev pub folded : SchoolDisposition → Bool → List FoldedSchoolDecision
folded disposition blocking =
    folded_as factor_risk_model mandatory disposition blocking
    ∷ folded_as event_driven out_of_scope not_applicable false
    ∷ folded_as fundamental_supply_chain out_of_scope not_applicable false
    ∷ folded_as trend_technical_regime out_of_scope not_applicable false
    ∷ folded_as market_microstructure out_of_scope not_applicable false
    ∷ []

-- R1 contradicts the claim; in `closed` the objection is closed by an admitted filing.
abbrev pub objected : List SchoolLaneOutput
objected = lanes r1 (decision contradicted none [])

abbrev pub closed : List SchoolLaneOutput
closed = lanes r1 (decision contradicted (some "filed") ("filing-1" ∷ []))

abbrev pub cleared : List SchoolLaneOutput
cleared = lanes r2 (decision clear none [])

abbrev pub admitted : List String
admitted = "filing-1" ∷ []

abbrev pub primary : PrimaryAuthority
primary = record {
  binding = binding;
  status = accepted;
  provenance_complete = true;
  evaluation_session = "2026-07-01";
  expiry_session = "2026-07-31";
}

abbrev pub evidence : FinanceEvidenceIndex
evidence = record {
  finance_evidence_index_version = "1.0";
  as_of = "2026-07-01";
  evaluation_session = "2026-07-01";
  items =
      record {
        evidence_ref = "filing-1";
        evidence_class = "filing";
        binding = binding;
        status = accepted;
        provenance_complete = true;
        available_at = "2026-06-30";
        expiry_session = none;
      }
      ∷ [];
}
