-- ===== src/Examples/Inputs.antt =====
-- The lanes and the verdicts that the examples of a run share.
use quinte.Prelude.{String, false, List, [], ◌∷◌, none}
use quinte.Model.Lanes.{
  high, Disposition, verified, unresolved, ClosureState, open_closure, closed_closure, Residual,
  Claim, ArbiterVerdict, LaneAccepted,
}

abbrev pub residual : String → Disposition → ClosureState → Residual
residual id disposition closure = record {
  id = id;
  severity = high;
  residual_type = "risk";
  source = "review";
  finding = "the lock is never released";
  evidence_refs = "snapshot://src/lib.rs" ∷ [];
  disposition = disposition;
  required_closure = "release it";
  closure_state = closure;
  closure_evidence = [];
  scope = "src";
}

abbrev pub claim : Claim
claim = record {
  id = "C-1";
  statement = "the lock is taken";
  evidence_refs = "snapshot://src/lib.rz" ∷ [];
  confidence = record { negative = false; mantissa = 3; scale = 2 };
  category = "fact";
  warrant = none;
  qualifier = none;
}

abbrev pub lane : String → String → String → List Residual → LaneAccepted
lane party route verdict residuals = record {
  party_id = party;
  route_id = route;
  output = record {
    lane_output_version = "1.1";
    task_restatement = "review";
    verdict = verdict;
    confidence = record { negative = false; mantissa = 3; scale = 2 };
    claims = claim ∷ [];
    residuals = residuals;
    uncertainties = [];
    limitations = [];
  };
  artifact_ref = "r1/out.json";
}

abbrev pub verdict : List Residual → ArbiterVerdict
verdict residuals = record {
  arbiter_verdict_version = "1.0";
  summary = "one open risk";
  recommendation = "hold";
  residuals = residuals;
}

-- Five lanes that agree, but for a residual that only Party B reports.
abbrev pub five_lanes : List LaneAccepted
five_lanes =
    lane "Party A" "deepseek-a" "Hold" []
    ∷ lane "Party B" "deepseek-b" " Hold" (residual "R-1" unresolved open_closure ∷ [])
    ∷ lane "Party C" "deepseek-c" "Hold" []
    ∷ lane "Party D" "deepseek-d" "Hold" []
    ∷ lane "Party E" "deepseek-e" "Hold" []
    ∷ []

-- The arbiters differ on one residual and both omit that of Party B.
abbrev pub primary : ArbiterVerdict
primary = verdict (residual "A-1" verified closed_closure ∷ [])

abbrev pub counterpart : ArbiterVerdict
counterpart = verdict (residual "A-1" unresolved open_closure ∷ [])
