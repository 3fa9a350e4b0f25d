-- ===== src/Policy/Validate.antt =====
-- `validate_with_options` of src/policy.rs: the whole check of a policy, in the source's order.
use quinte.Prelude.{
  ℕ, ◌*◌, String, Bool, true, false, not, ◌&&◌, ◌||◌, List, [], ◌∷◌, Option, none, some, Result, ok,
  err, ◌>>=◌, ◌>>◌, bail_if, str_ne, ltb, ◌==◌, if◌then◌else◌, length, is_empty, trim, contains,
  contains_codes,
}
use quinte.Model.Routes.{SeatBinding, RoutePolicy, Policy}
use quinte.Policy.Checks.{
  PolicyError, bad_version, not_five_parties, roster_order, index_out_of_range, duplicate_route_id,
  empty_perspective, duplicate_perspective, no_counterpart, no_primary, model_alias,
  bad_concurrency, bad_attempts, timeout_range, phase_timeout_range, backoff_range,
  backoff_max_range, interval_range, rate_limit_fixed, output_range, validate_route_id,
  validate_seat_binding, validate_route_binding, Resolver, validate_fake_executable,
}

abbrev pub policy_version_2 : String
policy_version_2 = "2.0"

abbrev pub expected_parties : List String
expected_parties = "Party A" ∷ "Party B" ∷ "Party C" ∷ "Party D" ∷ "Party E" ∷ []

abbrev pub fake_party_adapters : List String
fake_party_adapters = "fake" ∷ "fake_envelope" ∷ "fake_codewhale" ∷ []

abbrev pub fake_arbiter_adapters : List String
fake_arbiter_adapters = "fake" ∷ "fake_envelope" ∷ "fake_arbiter" ∷ []

module _ (resolve : Resolver) (allow_fake : Bool) (legacy : Bool) (seat : SeatBinding) where
  -- The end of the loop body and of each arbiter's check: binding, and the test executable.
  unfoldable pub check_binding : List String → RoutePolicy → Result PolicyError (Unit {0})
  check_binding fakes route =
      let fake = allow_fake && contains fakes route.adapter in
      validate_route_binding route seat fake legacy
      >> (if fake then validate_fake_executable resolve route.executable else ok tt)

  -- The school of a route: declared, and distinct from the earlier ones.
  unfoldable pub check_perspective : List (List ℕ) → RoutePolicy → Result PolicyError (Unit {0})
  check_perspective schools route =
      if legacy
      then ok tt
      else bail_if (is_empty (trim route.perspective)) empty_perspective
        >> bail_if (contains_codes schools (trim route.perspective)) duplicate_perspective

  -- One round of the loop over the roster, with the sets `route_ids` and `perspectives`.
  unfoldable pub check_party :
      String → List String → List (List ℕ) → RoutePolicy → Result PolicyError (Unit {0})
  check_party party ids schools route =
      bail_if (str_ne route.party_id party || not route.required) roster_order
      >> (validate_route_id route.route_id
          >> (bail_if (contains ids route.route_id) duplicate_route_id
              >> (check_perspective schools route >> check_binding fake_party_adapters route)))

  -- The loop; it returns the set of route ids.
  unfoldable pub check_roster :
      List String
      → List String
      → List (List ℕ)
      → List RoutePolicy
      → Result PolicyError (List String)
  check_roster parties ids schools [] = ok ids
  check_roster [] ids schools (route ∷ roster) = err index_out_of_range
  check_roster (party ∷ parties) ids schools (route ∷ roster) =
      check_party party ids schools route
      >> check_roster parties (route.route_id ∷ ids) (trim route.perspective ∷ schools) roster

  unfoldable pub check_arbiter :
      String → PolicyError → List String → RoutePolicy → Result PolicyError (List String)
  check_arbiter party missing ids route =
      bail_if (str_ne route.party_id party || not route.required) missing
      >> (validate_route_id route.route_id
          >> (bail_if (contains ids route.route_id) duplicate_route_id
              >> (check_binding fake_arbiter_adapters route >> ok (route.route_id ∷ ids))))

abbrev out_of_range : ℕ → Bool
out_of_range t = ltb t 5 || ltb 3600 t

abbrev pub phase_out_of_range : Option ℕ → Bool
phase_out_of_range none = false
phase_out_of_range (some t) = out_of_range t

-- The attempts and the rate limits: bounded for test adapters, fixed in production.
unfoldable pub check_attempts : Bool → Policy → Result PolicyError (Unit {0})
check_attempts true p = bail_if (p.max_attempts == 0 || ltb 3 p.max_attempts) bad_attempts
check_attempts false p = bail_if (not (p.max_attempts == 3)) bad_attempts

unfoldable pub check_rate : Bool → Policy → Result PolicyError (Unit {0})
check_rate true p =
    bail_if (ltb 300 p.retry_backoff_seconds) backoff_range
    >> (bail_if
          (ltb p.retry_backoff_max_seconds p.retry_backoff_seconds
            || ltb 900 p.retry_backoff_max_seconds)
          backoff_max_range
        >> bail_if (ltb 120 p.r2_min_interval_seconds) interval_range)
check_rate false p =
    bail_if
      (not (p.retry_backoff_seconds == 15)
        || not (p.retry_backoff_max_seconds == 120)
        || not (p.r2_min_interval_seconds == 10))
      rate_limit_fixed

-- The rest of the function, from the model aliases on.
unfoldable pub check_limits : Bool → Policy → Result PolicyError (Unit {0})
check_limits allow_fake p =
    bail_if
      (str_ne p.text_model p.seat.text_model || str_ne p.multimodal_model p.seat.multimodal_model)
      model_alias
    >> (bail_if (not (p.max_parallel_r1 == 5) || not (p.max_parallel_r2 == 1)) bad_concurrency
        >> (check_attempts allow_fake p
            >> (bail_if (out_of_range p.timeout_seconds) timeout_range
                >> (bail_if
                      (phase_out_of_range p.r1_timeout_seconds
                        || phase_out_of_range p.r2_timeout_seconds
                        || phase_out_of_range p.r3_timeout_seconds)
                      phase_timeout_range
                    >> (check_rate allow_fake p
                        >> bail_if
                            (ltb p.max_output_bytes (4 * 1024)
                              || ltb (16 * 1024 * 1024) p.max_output_bytes)
                            output_range)))))

unfoldable pub validate_with_options : Resolver → Policy → Bool → Result PolicyError (Unit {0})
validate_with_options resolve p allow_fake = do
  bail_if (str_ne p.policy_version policy_version_2) bad_version
  bail_if (not (length p.roster == 5)) not_five_parties
  validate_seat_binding p.seat
  ids ← check_roster resolve allow_fake p.legacy_v1_source p.seat expected_parties [] [] p.roster
  ids' ←
      check_arbiter resolve allow_fake p.legacy_v1_source p.seat "Counterpart Arbiter"
        no_counterpart ids p.counterpart_arbiter
  ids'' ←
      check_arbiter resolve allow_fake p.legacy_v1_source p.seat "Primary Arbiter" no_primary ids'
        p.primary_arbiter
  check_limits allow_fake p

unfoldable pub validate : Resolver → Policy → Result PolicyError (Unit {0})
validate resolve p = validate_with_options resolve p false
