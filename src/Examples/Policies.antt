-- ===== src/Examples/Policies.antt =====
-- The installed policy (src/policy.rs).
use quinte.Prelude.{◌≡◌, refl, true, false, none, some, ok, err, trim, trim_start, is_whitespace}
use quinte.Policy.Checks.{
  Resolver, legacy_not_runnable, bad_attempts, valid_binding_identifier, valid_route_id,
  validate_route_id, validate_seat_binding, validate_adapter_capability, validate_route_binding,
}
use quinte.Policy.Validate.{
  check_binding, check_perspective, check_party, check_roster, check_arbiter, check_attempts,
  check_rate, check_limits, validate_with_options, validate,
}
use quinte.Policy.Load.{CompatiblePolicy, resolve_counterpart, read_compatible, load_for_runtime}
use quinte.Policy.Defaults.{production_route, default_roster, default_policy}
use quinte.Policy.Accepted.{
  IsAccepted, validate_with_options-IsAccepted, HasProductionLimits, validate-HasProductionLimits,
}

-- A file system without executables.
abbrev pub no_files : Resolver
no_files = λ s. none

pub default_ok : validate_with_options no_files default_policy false ≡ ok tt
unfolding validate_with_options default_policy default_roster production_route validate_seat_binding
    valid_binding_identifier check_roster check_party check_perspective check_binding check_arbiter
    check_limits check_attempts check_rate validate_route_id valid_route_id validate_route_binding
    validate_adapter_capability trim trim_start is_whitespace
default_ok = refl

default_valid : validate no_files default_policy ≡ ok tt
unfolding validate
default_valid = default_ok

validate_with_options-IsAccepted_example : IsAccepted default_policy
validate_with_options-IsAccepted_example =
    validate_with_options-IsAccepted no_files default_policy false default_ok

validate-HasProductionLimits_example : HasProductionLimits default_policy
validate-HasProductionLimits_example =
    validate-HasProductionLimits no_files default_policy default_valid

-- The document of the installed policy.
abbrev document : CompatiblePolicy
document = record {
  rest = default_policy;
  counterpart = some default_policy.counterpart_arbiter;
  auditor = none;
}

document_loads : load_for_runtime no_files false document ≡ ok default_policy
unfolding load_for_runtime read_compatible resolve_counterpart validate_with_options default_policy
    default_roster production_route validate_seat_binding valid_binding_identifier check_roster
    check_party check_perspective check_binding check_arbiter check_limits check_attempts check_rate
    validate_route_id valid_route_id validate_route_binding validate_adapter_capability trim
    trim_start is_whitespace
document_loads = refl

-- A v1 document is observed but never run; a production policy makes exactly three attempts.
legacy_document :
    load_for_runtime no_files false
      (record document { rest = record default_policy { legacy_v1_source = true } })
    ≡ err legacy_not_runnable
unfolding load_for_runtime read_compatible resolve_counterpart default_policy default_roster
    production_route
legacy_document = refl

two_attempts : check_limits false (record default_policy { max_attempts = 2 }) ≡ err bad_attempts
unfolding check_limits check_attempts default_policy default_roster production_route
two_attempts = refl
