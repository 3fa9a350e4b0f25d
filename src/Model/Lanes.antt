-- ===== src/Model/Lanes.antt =====
-- What a lane and an arbiter return, and the result of a run (src/model.rs).
use quinte.Prelude.{ℕ, ◌*◌, ◌^◌, String, Bool, ◌||◌, List, Option, ltb, ◌==◌}

-- A finite `f64` is a dyadic rational: `mantissa / 2 ^ scale`, or its negative. JSON numbers, the
-- only source of these fields, are never NaN or infinite.
pub record F64 : Type 0 where
  pub negative : Bool
  pub mantissa : ℕ
  pub scale : ℕ

-- `x < 0.5`, exactly.
unfoldable pub below_half : F64 → Bool
below_half x = x.negative || ltb (2 * x.mantissa) (2 ^ x.scale)

pub data Severity : Type 0 where
  low medium high critical p0 : Severity

pub data Disposition : Type 0 where
  verified falsified unresolved escalated discarded : Disposition

pub data ClosureState : Type 0 where
  open_closure closed_closure blocked waived not_applicable : ClosureState

abbrev pub severity_rank : Severity → ℕ
severity_rank low = 0
severity_rank medium = 1
severity_rank high = 2
severity_rank critical = 3
severity_rank p0 = 4

abbrev pub disposition_rank : Disposition → ℕ
disposition_rank verified = 0
disposition_rank falsified = 1
disposition_rank unresolved = 2
disposition_rank escalated = 3
disposition_rank discarded = 4

abbrev pub closure_rank : ClosureState → ℕ
closure_rank open_closure = 0
closure_rank closed_closure = 1
closure_rank blocked = 2
closure_rank waived = 3
closure_rank not_applicable = 4

-- The derived equalities compare the variants.
abbrev pub severity_eq : Severity → Severity → Bool
severity_eq a b = severity_rank a == severity_rank b

abbrev pub disposition_eq : Disposition → Disposition → Bool
disposition_eq a b = disposition_rank a == disposition_rank b

abbrev pub closure_eq : ClosureState → ClosureState → Bool
closure_eq a b = closure_rank a == closure_rank b

pub record Residual : Type 0 where
  pub id : String
  pub severity : Severity
  pub residual_type : String
  pub source : String
  pub finding : String
  pub evidence_refs : List String
  pub disposition : Disposition
  pub required_closure : String
  pub closure_state : ClosureState
  pub closure_evidence : List String
  pub scope : String

pub record Claim : Type 0 where
  pub id : String
  pub statement : String
  pub evidence_refs : List String
  pub confidence : F64
  pub category : String
  pub warrant : Option String
  pub qualifier : Option String

pub record LaneOutput : Type 0 where
  pub lane_output_version : String
  pub task_restatement : String
  pub verdict : String
  pub confidence : F64
  pub claims : List Claim
  pub residuals : List Residual
  pub uncertainties : List String
  pub limitations : List String

pub record ArbiterVerdict : Type 0 where
  pub arbiter_verdict_version : String
  pub summary : String
  pub recommendation : String
  pub residuals : List Residual

-- `LaneAccepted` of src/run.rs.
pub record LaneAccepted : Type 0 where
  pub party_id : String
  pub route_id : String
  pub output : LaneOutput
  pub artifact_ref : String

pub record TrialPerspective : Type 0 where
  pub party_id : String
  pub route_id : String
  pub r1_artifact : String
  pub r2_artifact : String
  pub independent_first_pass : Bool
