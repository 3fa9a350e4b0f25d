-- ===== src/Policy/Load.antt =====
-- Reading a policy (src/policy.rs): the document after its JSON has been parsed, the choice of the
-- arbiter's route, and the three ways to load.
use quinte.Prelude.{Bool, not, Option, none, some, Result, ok, err, ◌>>=◌, ◌>>◌, bail_if, str_ne}
use quinte.Model.Routes.{RoutePolicy, Policy}
use quinte.Policy.Checks.{
  PolicyError, no_counterpart, duplicate_field, missing_field, legacy_not_runnable, manual_arbiter,
  Resolver,
}
use quinte.Policy.Validate.{validate_with_options, validate}

-- `CompatiblePolicy`: a policy whose arbiter stands in the current or in the retired field. The
-- other fields are those of the policy that the document becomes, `rest`; its own arbiter is not
-- read.
pub record CompatiblePolicy : Type 0 where
  pub rest : Policy
  pub counterpart : Option RoutePolicy
  pub auditor : Option RoutePolicy

unfoldable pub resolve_counterpart :
    Option RoutePolicy → Option RoutePolicy → Result PolicyError RoutePolicy
resolve_counterpart (some route) none = ok route
resolve_counterpart none (some route) =
    bail_if (str_ne route.party_id "Auditor B") no_counterpart
    >> ok (record route { party_id = "Counterpart Arbiter" })
resolve_counterpart (some _) (some _) = err duplicate_field
resolve_counterpart none none = err missing_field

unfoldable pub read_compatible : CompatiblePolicy → Result PolicyError Policy
unfolding resolve_counterpart
read_compatible c = do
  route ← resolve_counterpart c.counterpart c.auditor
  ok (record (c.rest) { counterpart_arbiter = route })

module _ (resolve : Resolver) where
  unfoldable pub load : CompatiblePolicy → Result PolicyError Policy
  load c = do p ← read_compatible c; validate resolve p; ok p

  -- `allow_fake` is the environment's QUINTE_ALLOW_FAKE_ADAPTERS in a test build, and false else.
  unfoldable pub load_for_runtime : Bool → CompatiblePolicy → Result PolicyError Policy
  load_for_runtime allow_fake c = do
    p ← read_compatible c
    bail_if p.legacy_v1_source legacy_not_runnable
    bail_if (not p.auto_primary_arbiter) manual_arbiter
    validate_with_options resolve p allow_fake
    ok p

  unfoldable pub load_for_observation : Bool → CompatiblePolicy → Result PolicyError Policy
  load_for_observation allow_fake c = do
    p ← read_compatible c
    validate_with_options resolve p allow_fake
    ok p
