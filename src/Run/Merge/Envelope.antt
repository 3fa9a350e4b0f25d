-- ===== src/Run/Merge/Envelope.antt =====
-- The result envelope (`merge_verdicts` of src/run.rs). It takes the artifact of each roster route
-- from R1 with `unwrap`, so `none` stands for the panic on a route that R1 lacks.
use quinte.Prelude.{
  ℕ, String, true, List, [], ◌∷◌, ◌++◌, Option, none, some, str_eq, str_ne, if◌then◌else◌, find,
}
use quinte.Model.Routes.{SeatBinding, RouteBinding, RoutePolicy, Policy}
use quinte.Model.Lanes.{Residual, LaneAccepted, ArbiterVerdict, TrialPerspective}
use quinte.Model.Status.{RunStatus, completed}
use quinte.Run.Merge.{
  DissentNote, recommendations_differ, merge_all, values, base_model_relation, correlation_risk,
  ObservedContestation, observed_contestation,
}

-- The fields of `RunManifest` and of `Brief` that merging reads.
pub record RunManifest : Type 0 where
  pub run_id : String
  pub brief_sha256 : String
  pub seat_binding : SeatBinding
  pub route_bindings : List RouteBinding

pub record Brief : Type 0 where
  pub question : String
  pub action_scope : Option String
  pub affected_paths : List String
  pub action_binding_sha256 : Option String

pub record TrialManifest : Type 0 where
  pub manifest_version : String
  pub base_model_relation : String
  pub perspective_count : ℕ
  pub perspectives : List TrialPerspective
  pub perturbation_axes : List String
  pub independence_controls : List String
  pub contamination_risks : List String
  pub wall_time_seconds : Option ℕ
  pub observed_contestation : Option ObservedContestation

pub record ResultEnvelope : Type 0 where
  pub result_version : String
  pub run_id : String
  pub status : RunStatus
  pub brief_sha256 : String
  pub question : String
  pub action_scope : Option String
  pub affected_paths : List String
  pub action_binding_sha256 : Option String
  pub seat_binding : SeatBinding
  pub route_bindings : List RouteBinding
  pub summary : String
  pub recommendation : String
  pub dissent : List DissentNote
  pub residuals : List Residual
  pub trial_manifest : TrialManifest

abbrev artifact_or : Option LaneAccepted → String → String
artifact_or none d = d
artifact_or (some lane) d = lane.artifact_ref

abbrev find_route : List LaneAccepted → String → Option LaneAccepted
find_route lanes route_id = find (λ (lane : LaneAccepted). str_eq lane.route_id route_id) lanes

abbrev perspective_of :
    List LaneAccepted → RoutePolicy → Option LaneAccepted → Option TrialPerspective
perspective_of r2 route none = none
perspective_of r2 route (some lane) = some (record {
  party_id = route.party_id;
  route_id = route.route_id;
  r1_artifact = lane.artifact_ref;
  r2_artifact = artifact_or (find_route r2 route.route_id) "r2/skipped.json";
  independent_first_pass = true;
})

abbrev cons_option :
    Option TrialPerspective → Option (List TrialPerspective) → Option (List TrialPerspective)
cons_option (some p) (some ps) = some (p ∷ ps)
cons_option _ _ = none

unfoldable pub perspectives_of :
    List LaneAccepted → List LaneAccepted → List RoutePolicy → Option (List TrialPerspective)
perspectives_of r1 r2 [] = some []
perspectives_of r1 r2 (route ∷ roster) =
    cons_option (perspective_of r2 route (find_route r1 route.route_id))
      (perspectives_of r1 r2 roster)

abbrev recommendation_note : ArbiterVerdict → ArbiterVerdict → List DissentNote
recommendation_note primary counterpart =
    if str_ne primary.recommendation counterpart.recommendation
    then recommendations_differ primary.recommendation counterpart.recommendation ∷ []
    else []

-- The envelope around the trial's perspectives.
unfoldable pub envelope :
    RunManifest
    → Brief
    → Policy
    → List LaneAccepted
    → List LaneAccepted
    → ArbiterVerdict
    → ArbiterVerdict
    → List TrialPerspective
    → ResultEnvelope
envelope manifest brief policy r1 r2 primary counterpart perspectives =
    let merged = merge_all r1 r2 primary counterpart in
    record {
      result_version = "2.1";
      run_id = manifest.run_id;
      status = completed;
      brief_sha256 = manifest.brief_sha256;
      question = brief.question;
      action_scope = brief.action_scope;
      affected_paths = brief.affected_paths;
      action_binding_sha256 = brief.action_binding_sha256;
      seat_binding = manifest.seat_binding;
      route_bindings = manifest.route_bindings;
      summary = primary.summary;
      recommendation = primary.recommendation;
      dissent = merged.1 ++ recommendation_note primary counterpart;
      residuals = values merged.0;
      trial_manifest = record {
        manifest_version = "1.0";
        base_model_relation = base_model_relation policy;
        perspective_count = 5;
        perspectives = perspectives;
        perturbation_axes = "role" ∷ "reviewer_position" ∷ "evidence_budget" ∷ [];
        independence_controls =
            "per_lane_workdir" ∷ "participant_label_rotation" ∷ "identity_marker_scrubbing"
            ∷ "scheduler_captured_output" ∷ "closed_schema" ∷ [];
        contamination_risks =
            correlation_risk policy
            ∷ "process_isolation_is_not_an_os_sandbox"
            ∷ "label_rotation_is_not_content_anonymization"
            ∷ [];
        wall_time_seconds = none;
        observed_contestation = some (observed_contestation r1 r2);
      };
    }

abbrev map_option :
    (List TrialPerspective → ResultEnvelope)
    → Option (List TrialPerspective)
    → Option ResultEnvelope
map_option f none = none
map_option f (some ps) = some (f ps)

unfoldable pub merge_verdicts :
    RunManifest
    → Brief
    → Policy
    → List LaneAccepted
    → List LaneAccepted
    → ArbiterVerdict
    → ArbiterVerdict
    → Option ResultEnvelope
unfolding envelope
merge_verdicts manifest brief policy r1 r2 primary counterpart =
    map_option (envelope manifest brief policy r1 r2 primary counterpart)
      (perspectives_of r1 r2 policy.roster)
