-- ===== src/Finance/Profile.antt =====
-- The finance policy, the review profile and the claims that a run preregisters
-- (`validate_finance_policy`, `validate_profile` and `validate_claim_manifest` of src/finance.rs).
pub mod Preregistered
pub mod Families
pub mod Seating
use quinte.Prelude.{
  ℕ, suc, ◌+◌, String, Bool, true, false, not, ◌&&◌, ◌||◌, List, [], ◌∷◌, ◌++◌, map, Option, none,
  some, Result, ok, err, ◌>>=◌, ◌>>◌, bail_if, context, try_each, ◌==◌, ltb, str_eq, str_ne,
  contains, if◌then◌else◌, length, any, is_empty, is_some, is_none,
}
use quinte.Finance.Types.{
  SchoolId, factor_risk_model, event_driven, fundamental_supply_chain, trend_technical_regime,
  market_microstructure, school_eq, school_bindings, SchoolAuthority, FinanceSchoolRoute,
  FinanceArbiterRoute, FinancePolicy, FinanceReviewProfile, ApplicabilityMode, mandatory,
  conditional, out_of_scope, PreregisteredApplicability, Applicability, FinanceClaim,
  FinanceClaimManifest, FinanceError, bad_policy_version, not_five_schools, wrong_school_map,
  duplicate_route, bad_arbiter, mixed_families, too_many_families, bad_profile_version,
  wrong_profile_map, bad_manifest_version, duplicate_claim, not_all_schools, no_claim_class,
  forbidden_class, missing_applicability, mandatory_predicate, no_predicate_code, unknown_predicate,
  out_of_scope_predicate,
}

-- `(&route.family, &route.provider, &route.model)`.
abbrev pub Family : Type 0
Family = String × String × String

abbrev pub family_eq : Family → Family → Bool
family_eq (a, b, c) (x, y, z) = str_eq a x && str_eq b y && str_eq c z

abbrev pub has_family : List Family → Family → Bool
has_family [] f = false
has_family (g ∷ gs) f = family_eq g f || has_family gs f

-- The size of the set of families.
abbrev pub family_count : List Family → ℕ
family_count [] = 0
family_count (f ∷ fs) = if has_family fs f then family_count fs else suc (family_count fs)

abbrev pub Sets : Type 0
Sets = List String × List Family

-- The loop over the schools, zipped with the routes, with the sets of route ids and families.
unfoldable pub check_school_routes :
    List (String × SchoolId) → List FinanceSchoolRoute → Sets → Result FinanceError Sets
check_school_routes [] routes sets = ok sets
check_school_routes (binding ∷ bindings) [] sets = ok sets
check_school_routes ((party, school) ∷ bindings) (route ∷ routes) (ids, families) =
    bail_if (str_ne route.party_id party || not (school_eq route.school_id school)) wrong_school_map
    >> (bail_if (contains ids route.route_id) duplicate_route
        >> check_school_routes bindings routes
            (route.route_id ∷ ids, (route.family, route.provider, route.model) ∷ families))

unfoldable pub check_finance_arbiter :
    String → FinanceArbiterRoute → Sets → Result FinanceError Sets
check_finance_arbiter role route (ids, families) =
    bail_if (str_ne route.arbiter_role role || contains ids route.route_id) bad_arbiter
    >> ok (route.route_id ∷ ids, (route.family, route.provider, route.model) ∷ families)

unfoldable pub validate_finance_policy : FinancePolicy → Result FinanceError (Unit {0})
validate_finance_policy p = do
  bail_if
      (str_ne p.policy_version "3.0"
        || str_ne p.protocol_version "2.0"
        || str_ne p.isolation_backend "process_information_flow_v1")
      bad_policy_version
  bail_if (not (length p.school_bindings == 5)) not_five_schools
  schools ← check_school_routes school_bindings p.school_bindings ([], [])
  one ← check_finance_arbiter "counterpart_arbiter" p.counterpart_arbiter schools
  both ← check_finance_arbiter "primary_arbiter" p.primary_arbiter one
  bail_if (p.same_family_required && not (family_count both.1 == 1)) mixed_families
  bail_if (not p.same_family_required && ltb 3 (family_count both.1)) too_many_families

unfoldable pub check_authorities :
    List (String × SchoolId) → List SchoolAuthority → Result FinanceError (Unit {0})
check_authorities [] authorities = ok tt
check_authorities (binding ∷ bindings) [] = ok tt
check_authorities ((party, school) ∷ bindings) (authority ∷ authorities) =
    bail_if (str_ne authority.party_id party || not (school_eq authority.school_id school))
      wrong_profile_map
    >> check_authorities bindings authorities

unfoldable pub validate_profile : FinanceReviewProfile → Result FinanceError (Unit {0})
validate_profile profile =
    bail_if (str_ne profile.finance_review_profile_version "1.0") bad_profile_version
    >> (bail_if (not (length profile.schools == 5)) not_five_schools
        >> check_authorities school_bindings profile.schools)

abbrev count_if : Bool → ℕ → ℕ
count_if true n = suc n
count_if false n = n

-- `claim.school_applicability.len()`.
abbrev pub applicability_len : Applicability → ℕ
applicability_len a = count_if (is_some (a factor_risk_model)) (
    count_if (is_some (a event_driven)) (
      count_if (is_some (a fundamental_supply_chain)) (
        count_if (is_some (a trend_technical_regime))
          (count_if (is_some (a market_microstructure)) 0))))

abbrev pub in_scope : Option PreregisteredApplicability → Bool
in_scope none = false
in_scope (some rule) = elim (rule.mode) [ out_of_scope ↦ false | _ ↦ true ]

-- A claim of a class that a school's authority forbids, in the scope of that school.
abbrev pub is_forbidden : FinanceClaim → SchoolAuthority → Bool
is_forbidden claim authority =
    any (contains authority.forbidden_claim_classes) claim.claim_classes
    && in_scope (claim.school_applicability authority.school_id)

abbrev pub is_result : Option Bool → Bool → Bool
is_result none b = false
is_result (some true) b = b
is_result (some false) b = not b

-- The `match rule.mode` at one school.
abbrev pub check_rule :
    List String → ApplicabilityMode → PreregisteredApplicability → Result FinanceError (Unit {0})
check_rule predicates mandatory rule =
    bail_if (is_some rule.predicate_code || not (is_result rule.predicate_result true))
      mandatory_predicate
check_rule predicates conditional rule = do
  code ← context rule.predicate_code no_predicate_code
  bail_if (not (contains predicates code) || is_none rule.predicate_result) unknown_predicate
check_rule predicates out_of_scope rule =
    bail_if (is_some rule.predicate_code || not (is_result rule.predicate_result false))
      out_of_scope_predicate

abbrev pub check_applicability :
    List String → Option PreregisteredApplicability → Result FinanceError (Unit {0})
check_applicability predicates none = err missing_applicability
check_applicability predicates (some rule) = check_rule predicates rule.mode rule

-- The loop over the five schools.
abbrev pub check_rules :
    List String → Applicability → List (String × SchoolId) → Result FinanceError (Unit {0})
check_rules predicates a [] = ok tt
check_rules predicates a ((_, school) ∷ bindings) =
    check_applicability predicates (a school) >> check_rules predicates a bindings

unfoldable pub check_claim : FinanceReviewProfile → FinanceClaim → Result FinanceError (Unit {0})
check_claim profile claim =
    bail_if (not (applicability_len claim.school_applicability == 5)) not_all_schools
    >> (bail_if (is_empty claim.claim_classes) no_claim_class
        >> (try_each (λ (a : SchoolAuthority). bail_if (is_forbidden claim a) forbidden_class)
              profile.schools
            >> check_rules profile.applicability_predicate_codes claim.school_applicability
                school_bindings))

unfoldable pub check_claims :
    FinanceReviewProfile → List String → List FinanceClaim → Result FinanceError (Unit {0})
check_claims profile ids [] = ok tt
check_claims profile ids (claim ∷ claims) =
    bail_if (contains ids claim.claim_id) duplicate_claim
    >> (check_claim profile claim >> check_claims profile (claim.claim_id ∷ ids) claims)

unfoldable pub validate_claim_manifest :
    FinanceReviewProfile → FinanceClaimManifest → Result FinanceError (Unit {0})
validate_claim_manifest profile manifest =
    bail_if (str_ne manifest.finance_claim_manifest_version "1.0") bad_manifest_version
    >> check_claims profile [] manifest.claims
