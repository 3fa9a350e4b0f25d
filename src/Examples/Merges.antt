-- ===== src/Examples/Merges.antt =====
-- A merge in which the arbiters differ and omit a high-risk residual (src/run.rs).
use quinte.Prelude.{In, String, ◌≡◌, refl, true, false, [], ◌∷◌, map, none, some}
use quinte.Prelude.Keyed
use quinte.Model.Lanes.{Residual, TrialPerspective}
use quinte.Policy.Defaults.{production_route, default_roster, default_policy}
use quinte.Run.Merge.{
  residual_fields_conflict, is_high_risk_severity, conservative_unresolved, merge_residuals,
  preserve_omitted, merge_all,
}
use quinte.Run.Merge.Envelope.{
  RunManifest, Brief, ResultEnvelope, perspectives_of, envelope, merge_verdicts,
}
use quinte.Run.Merge.Relation.{accepted_same_model}
use quinte.Examples.Policies.{no_files, default_ok}
use quinte.Examples.Inputs.{five_lanes, primary, counterpart}

abbrev manifest : RunManifest
manifest = record {
  run_id = "run-1";
  brief_sha256 = "sha256:0";
  seat_binding = default_policy.seat;
  route_bindings = [];
}

abbrev brief : Brief
brief = record {
  question = "Is it safe?";
  action_scope = none;
  affected_paths = [];
  action_binding_sha256 = none;
}

abbrev perspective : String → String → TrialPerspective
perspective party route = record {
  party_id = party;
  route_id = route;
  r1_artifact = "r1/out.json";
  r2_artifact = "r2/skipped.json";
  independent_first_pass = true;
}

abbrev result : ResultEnvelope
result = envelope manifest brief default_policy five_lanes [] primary counterpart (
    perspective "Party A" "deepseek-a"
    ∷ perspective "Party B" "deepseek-b"
    ∷ perspective "Party C" "deepseek-c"
    ∷ perspective "Party D" "deepseek-d"
    ∷ perspective "Party E" "deepseek-e"
    ∷ [])

merged :
    merge_verdicts manifest brief default_policy five_lanes [] primary counterpart ≡ some result
unfolding merge_verdicts perspectives_of default_policy default_roster production_route
merged = refl

-- The result holds both residuals, in order.
result_ids : map (λ (r : Residual). r.id) result.residuals ≡ "A-1" ∷ "R-1" ∷ []
unfolding envelope merge_all merge_residuals preserve_omitted residual_fields_conflict
    is_high_risk_severity conservative_unresolved Keyed.get Keyed.insert
result_ids = refl

accepted_same_model_example :
    (result.trial_manifest.base_model_relation ≡ "same_model")
    × In "same_model_error_correlation" result.trial_manifest.contamination_risks
accepted_same_model_example =
    accepted_same_model no_files false manifest brief default_policy five_lanes [] primary
      counterpart default_ok merged
