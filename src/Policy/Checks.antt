-- ===== src/Policy/Checks.antt =====
-- The checks on one route, seat or identifier (src/policy.rs, `validate_seat_binding` to
-- `validate_route_id`).
use Prim.Native.String.{len}
use quinte.Prelude.{
  ℕ, String, Bool, true, false, not, ◌&&◌, ◌||◌, List, [], ◌∷◌, Option, none, some, Result, ok, err,
  ◌>>◌, bail_if, str_eq, str_ne, leb, ◌==◌, if◌then◌else◌, all, is_empty, codes, trim, is_lower,
  is_digit, is_alphanumeric, contains,
}
use quinte.Model.Routes.{SeatBinding, RoutePolicy}

-- One constructor for each message of src/policy.rs.
pub data PolicyError : Type 0 where
  bad_version not_five_parties bad_seat_identifier roster_order index_out_of_range : PolicyError
  bad_route_id duplicate_route_id empty_perspective duplicate_perspective : PolicyError
  empty_adapter_or_executable unsupported_adapter bad_route_identifier : PolicyError
  not_single_family legacy_adapter unsupported_family wrong_provider wrong_adapter : PolicyError
  parent_traversal unresolvable not_regular_files no_counterpart no_primary : PolicyError
  model_alias bad_concurrency bad_attempts timeout_range phase_timeout_range : PolicyError
  backoff_range backoff_max_range interval_range rate_limit_fixed output_range : PolicyError
  legacy_not_runnable manual_arbiter duplicate_field missing_field : PolicyError

unfoldable pub valid_binding_identifier : String → Bool
valid_binding_identifier s =
    not (str_eq s "")
    && leb (len s) 128
    && all (λ c. is_alphanumeric c || c == b'.' || c == b'-' || c == b'_') (codes s)

abbrev first_alphanumeric : List ℕ → Bool
first_alphanumeric [] = false
first_alphanumeric (c ∷ cs) = is_alphanumeric c

unfoldable pub valid_route_id : String → Bool
valid_route_id s =
    not (str_eq s "")
    && leb (len s) 64
    && all (λ c. is_lower c || is_digit c || c == b'-' || c == b'_') (codes s)
    && first_alphanumeric (codes s)

unfoldable pub validate_route_id : String → Result PolicyError (Unit {0})
validate_route_id s = bail_if (not (valid_route_id s)) bad_route_id

unfoldable pub validate_seat_binding : SeatBinding → Result PolicyError (Unit {0})
validate_seat_binding seat =
    bail_if (not (valid_binding_identifier seat.seat_id)) bad_seat_identifier
    >> (bail_if (not (valid_binding_identifier seat.family)) bad_seat_identifier
        >> (bail_if (not (valid_binding_identifier seat.provider)) bad_seat_identifier
            >> (bail_if (not (valid_binding_identifier seat.text_model)) bad_seat_identifier
                >> bail_if (not (valid_binding_identifier seat.multimodal_model))
                    bad_seat_identifier)))

abbrev pub legacy_adapters : List String
legacy_adapters = "codewhale" ∷ "opencode" ∷ "kilo" ∷ "mimo" ∷ "omp" ∷ "claude" ∷ []

abbrev pub production_adapters : List String
production_adapters = "deepseek" ∷ "qwen" ∷ "a2a" ∷ []

-- The provider and the adapter that a production family requires.
abbrev pub expected_binding : String → Option (String × String)
expected_binding family =
    if str_eq family "deepseek"
    then some ("deepseek", "deepseek")
    else if str_eq family "qwen"
    then some ("qwen", "qwen")
    else if str_eq family "pi"
    then some ("pi", "a2a")
    else none

abbrev expect_binding :
    RoutePolicy → SeatBinding → Option (String × String) → Result PolicyError (Unit {0})
expect_binding route seat none = err unsupported_family
expect_binding route seat (some (provider, adapter)) =
    bail_if (str_ne seat.provider provider) wrong_provider
    >> bail_if (str_ne route.adapter adapter) wrong_adapter

unfoldable pub validate_adapter_capability :
    RoutePolicy → SeatBinding → Bool → Result PolicyError (Unit {0})
validate_adapter_capability route seat true =
    bail_if (not (contains legacy_adapters route.adapter)) legacy_adapter
validate_adapter_capability route seat false =
    expect_binding route seat (expected_binding seat.family)

-- The two tests at the end of `validate_route_binding`: one family, and an adapter that it allows.
abbrev pub mixed_family : RoutePolicy → SeatBinding → Bool
mixed_family route seat =
    str_ne route.family seat.family
    || str_ne route.provider seat.provider
    || str_ne route.text_model seat.text_model
    || str_ne route.multimodal_model seat.multimodal_model

abbrev pub bad_identifiers : RoutePolicy → Bool
bad_identifiers route =
    not (valid_binding_identifier route.family)
    || not (valid_binding_identifier route.provider)
    || not (valid_binding_identifier route.text_model)
    || not (valid_binding_identifier route.multimodal_model)

unfoldable pub validate_route_binding :
    RoutePolicy → SeatBinding → Bool → Bool → Result PolicyError (Unit {0})
validate_route_binding route seat fake legacy =
    bail_if (is_empty (trim route.executable) || is_empty (trim route.adapter))
      empty_adapter_or_executable
    >> (bail_if (not fake && not legacy && not (contains production_adapters route.adapter))
          unsupported_adapter
        >> (bail_if (bad_identifiers route) bad_route_identifier
            >> (bail_if (mixed_family route seat) not_single_family
                >> (if fake then ok tt else validate_adapter_capability route seat legacy))))

abbrev is_dot_dot : List ℕ → Bool
is_dot_dot (a ∷ b ∷ []) = a == b'.' && b == b'.'
is_dot_dot _ = false

-- Whether a path, read from the component `acc` on (in reverse), has a component `..`.
abbrev pub has_parent_from : List ℕ → List ℕ → Bool
has_parent_from acc [] = is_dot_dot acc
has_parent_from acc (c ∷ cs) =
    (c == b'/' && is_dot_dot acc) || has_parent_from (if c == b'/' then [] else c ∷ acc) cs

-- What the file system says of an executable: whether its program and its source are regular
-- files, or nothing where the command does not resolve.
abbrev pub Resolver : Type 0
Resolver = String → Option (Bool × Bool)

abbrev regular : Option (Bool × Bool) → Result PolicyError (Unit {0})
regular none = err unresolvable
regular (some (program, source)) = bail_if (not program || not source) not_regular_files

unfoldable pub validate_fake_executable : Resolver → String → Result PolicyError (Unit {0})
validate_fake_executable resolve executable =
    bail_if (has_parent_from [] (codes executable)) parent_traversal >> regular (resolve executable)
