-- ===== src/Policy/Defaults.antt =====
-- The policy that `quinte init` installs (`default_policy` of src/policy.rs).
use quinte.Prelude.{◌*◌, String, true, false, List, [], ◌∷◌, none}
use quinte.Model.Routes.{SandboxMode, SeatBinding, RoutePolicy, Policy}

abbrev pub text_model_name : String
text_model_name = "deepseek-v4-pro"

unfoldable pub production_route : String → String → String → SeatBinding → RoutePolicy
production_route party_id route_id perspective seat = record {
  party_id = party_id;
  route_id = route_id;
  adapter = "deepseek";
  executable = "in-process";
  required = true;
  family = seat.family;
  provider = seat.provider;
  text_model = seat.text_model;
  multimodal_model = seat.multimodal_model;
  perspective = perspective;
}

-- `route`, the routes of the retired v1 roster.
unfoldable pub legacy_route : String → String → String → String → RoutePolicy
legacy_route party_id route_id adapter executable = record {
  party_id = party_id;
  route_id = route_id;
  adapter = adapter;
  executable = executable;
  required = true;
  family = "mimo";
  provider = "xiaomi-token-plan-cn";
  text_model = "mimo-v2.5-pro";
  multimodal_model = "mimo-v2.5";
  perspective = "";
}

unfoldable pub legacy_seat_binding : SeatBinding
legacy_seat_binding = record {
  seat_id = "legacy-mimo";
  family = "mimo";
  provider = "xiaomi-token-plan-cn";
  text_model = "mimo-v2.5-pro";
  multimodal_model = "mimo-v2.5";
}

abbrev pub default_seat : SeatBinding
default_seat = record {
  seat_id = "seat-deepseek";
  family = "deepseek";
  provider = "deepseek";
  text_model = text_model_name;
  multimodal_model = text_model_name;
}

-- The letters A to E are zipped with the perspectives; the ids are written out.
unfoldable pub default_roster : List RoutePolicy
unfolding production_route
default_roster =
    production_route "Party A" "deepseek-a"
      "Formal specification, invariants, and boundary-condition audit." default_seat
    ∷ production_route "Party B" "deepseek-b"
        "Failure-mode, counterexample, and adversarial assumption search." default_seat
    ∷ production_route "Party C" "deepseek-c"
        "Evidence provenance, uncertainty, and claim-support audit." default_seat
    ∷ production_route "Party D" "deepseek-d"
        "Operational implementation, observability, recovery, and rollback audit." default_seat
    ∷ production_route "Party E" "deepseek-e"
        "Independent synthesis emphasizing omissions and decision boundaries." default_seat
    ∷ []

unfoldable pub default_policy : Policy
unfolding default_roster production_route
default_policy = record {
  legacy_v1_source = false;
  policy_version = "2.0";
  seat = default_seat;
  roster = default_roster;
  counterpart_arbiter =
      production_route "Counterpart Arbiter" "deepseek-counterpart"
        "Steel-man the strongest lane case, then identify unresolved contradictions." default_seat;
  primary_arbiter =
      production_route "Primary Arbiter" "deepseek-primary"
        "Issue the final same-family verdict while preserving evidence and dissent." default_seat;
  auto_primary_arbiter = true;
  text_model = text_model_name;
  multimodal_model = text_model_name;
  max_parallel_r1 = 5;
  max_parallel_r2 = 1;
  r2_parallel = false;
  max_attempts = 3;
  timeout_seconds = 300;
  r1_timeout_seconds = none;
  r2_timeout_seconds = none;
  r3_timeout_seconds = none;
  retry_backoff_seconds = 15;
  retry_backoff_max_seconds = 120;
  r2_min_interval_seconds = 10;
  max_output_bytes = 1048576;
  max_snapshot_files = 2000;
  max_snapshot_bytes = 20 * 1024 * 1024;
  max_attachment_bytes = 10 * 1024 * 1024;
  sandbox_mode = SandboxMode.process;
}
