-- ===== src/Model/Routes.antt =====
-- The policy of a run and its seat and route records (src/model.rs).
use quinte.Prelude.{ℕ, String, Bool, List, Option, none, some, str_eq, if◌then◌else◌}

pub data SandboxMode : Type 0 where
  strict process : SandboxMode

pub record SeatBinding : Type 0 where
  pub seat_id : String
  pub family : String
  pub provider : String
  pub text_model : String
  pub multimodal_model : String

pub record RoutePolicy : Type 0 where
  pub party_id : String
  pub route_id : String
  pub adapter : String
  pub executable : String
  pub required : Bool
  pub family : String
  pub provider : String
  pub text_model : String
  pub multimodal_model : String
  pub perspective : String

pub record RouteBinding : Type 0 where
  pub party_id : String
  pub route_id : String
  pub adapter : String
  pub executable : String
  pub family : String
  pub provider : String
  pub text_model : String
  pub multimodal_model : String
  pub perspective : String

-- `usize` and `u64` fields are only compared, so they are natural numbers.
pub record Policy : Type 0 where
  pub legacy_v1_source : Bool
  pub policy_version : String
  pub seat : SeatBinding
  pub roster : List RoutePolicy
  pub counterpart_arbiter : RoutePolicy
  pub primary_arbiter : RoutePolicy
  pub auto_primary_arbiter : Bool
  pub text_model : String
  pub multimodal_model : String
  pub max_parallel_r1 : ℕ
  pub max_parallel_r2 : ℕ
  pub r2_parallel : Bool
  pub max_attempts : ℕ
  pub timeout_seconds : ℕ
  pub r1_timeout_seconds : Option ℕ
  pub r2_timeout_seconds : Option ℕ
  pub r3_timeout_seconds : Option ℕ
  pub retry_backoff_seconds : ℕ
  pub retry_backoff_max_seconds : ℕ
  pub r2_min_interval_seconds : ℕ
  pub max_output_bytes : ℕ
  pub max_snapshot_files : ℕ
  pub max_snapshot_bytes : ℕ
  pub max_attachment_bytes : ℕ
  pub sandbox_mode : SandboxMode

-- `From<&RoutePolicy> for RouteBinding`.
unfoldable pub route_binding : RoutePolicy → RouteBinding
route_binding r = record {
  party_id = r.party_id;
  route_id = r.route_id;
  adapter = r.adapter;
  executable = r.executable;
  family = r.family;
  provider = r.provider;
  text_model = r.text_model;
  multimodal_model = r.multimodal_model;
  perspective = r.perspective;
}

abbrev pub unwrap_or : Option ℕ → ℕ → ℕ
unwrap_or none d = d
unwrap_or (some n) d = n

unfoldable pub timeout_for_phase : Policy → String → ℕ
timeout_for_phase p phase =
    if str_eq phase "R1"
    then unwrap_or p.r1_timeout_seconds p.timeout_seconds
    else if str_eq phase "R2"
    then unwrap_or p.r2_timeout_seconds p.timeout_seconds
    else if str_eq phase "R3"
    then unwrap_or p.r3_timeout_seconds p.timeout_seconds
    else p.timeout_seconds
