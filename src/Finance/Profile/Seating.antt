-- ===== src/Finance/Profile/Seating.antt =====
-- How an accepted finance policy and profile seat the schools (`validate_finance_policy` and
-- `validate_profile` of src/finance.rs).
use quinte.Prelude.{
  Result, ◌≤◌, String, ◌≡◌, refl, sym, ap, ◌∙◌, subst, Bool, true, false, not, ◌&&◌, ◌||◌, List, [],
  ◌∷◌, map, ok, ◌>>=◌, ◌>>◌, bail_if, arith, Distinct, contains, length, str_ne, str_ne-false,
  >>=-ok, bail_if-ok, ltb, ◌==◌,
}
use quinte.Finance.Types.{
  FinanceError, SchoolId, school_eq, school_bindings, SchoolAuthority, FinanceSchoolRoute,
  FinanceArbiterRoute, FinancePolicy, FinanceReviewProfile, bad_policy_version, not_five_schools,
  wrong_school_map, duplicate_route, bad_arbiter, mixed_families, too_many_families,
  bad_profile_version, wrong_profile_map,
}
use quinte.Finance.Profile.Families.{AllEqual, one_family}
use quinte.Finance.Profile.{
  Family, family_count, Sets, check_school_routes, check_finance_arbiter, validate_finance_policy,
  check_authorities, validate_profile,
}

-- The ids and the families of routes, the latest first.
abbrev pub ids_latest : List FinanceSchoolRoute → List String → List String
ids_latest [] ids = ids
ids_latest (r ∷ rs) ids = ids_latest rs (r.route_id ∷ ids)

abbrev pub families_latest : List FinanceSchoolRoute → List Family → List Family
families_latest [] families = families
families_latest (r ∷ rs) families = families_latest rs ((r.family, r.provider, r.model) ∷ families)

-- The ids and the families of the seven routes of a policy.
abbrev pub policy_ids : FinancePolicy → List String
policy_ids p =
    p.primary_arbiter.route_id ∷ p.counterpart_arbiter.route_id ∷ ids_latest p.school_bindings []

abbrev arbiter_family : FinanceArbiterRoute → Family
arbiter_family a = (a.family, a.provider, a.model)

abbrev pub policy_families : FinancePolicy → List Family
policy_families p =
    arbiter_family p.primary_arbiter
    ∷ arbiter_family p.counterpart_arbiter
    ∷ families_latest p.school_bindings []

school_eq-≡ : (a b : SchoolId) → school_eq a b ≡ true → a ≡ b
school_eq-≡ a b h = ground arith

check_school_routes-facts :
    (bindings : List (String × SchoolId)) (routes : List FinanceSchoolRoute) (ids : List String)
    (families : List Family) {sets : Sets}
    → length routes ≡ length bindings
    → check_school_routes bindings routes (ids, families) ≡ ok sets
    → (map (λ (r : FinanceSchoolRoute). (r.party_id, r.school_id)) routes ≡ bindings)
      × (sets ≡ (ids_latest routes ids, families_latest routes families))
      × (Distinct ids → Distinct (ids_latest routes ids))
unfolding check_school_routes
check_school_routes-facts [] [] ids families n h = (refl, ground (arith, h), λ d. d)
check_school_routes-facts [] (r ∷ rs) ids families n h = absurd (omega arith)
check_school_routes-facts (b ∷ bs) [] ids families n h = absurd (omega arith)
check_school_routes-facts ((party, school) ∷ bs) (r ∷ rs) ids families n h =
    let rest =
      check_school_routes bs rs (r.route_id ∷ ids, (r.family, r.provider, r.model) ∷ families) in
    let (seat, k) =
      bail_if-ok (str_ne r.party_id party || not (school_eq r.school_id school)) wrong_school_map
        (bail_if (contains ids r.route_id) duplicate_route >> rest) h in
    let (new, later) = bail_if-ok (contains ids r.route_id) duplicate_route rest k in
    let one : str_ne r.party_id party ≡ false = ground (arith, seat) in
    let two : school_eq r.school_id school ≡ true = ground (arith, seat) in
    let ih =
      check_school_routes-facts bs rs (r.route_id ∷ ids)
        ((r.family, r.provider, r.model) ∷ families) (omega (arith, n)) later in
    (
      cc (ih.0, str_ne-false r.party_id party one, school_eq-≡ r.school_id school two),
      ih.1,
      λ d. ih.2 (new, d),
    )

check_finance_arbiter-facts :
    (role : String) (a : FinanceArbiterRoute) (sets : Sets) {after : Sets}
    → check_finance_arbiter role a sets ≡ ok after
    → (a.arbiter_role ≡ role)
      × (contains sets.0 a.route_id ≡ false)
      × (after ≡ (a.route_id ∷ sets.0, arbiter_family a ∷ sets.1))
unfolding check_finance_arbiter
check_finance_arbiter-facts role a (ids, families) h =
    let (guard, k) =
      bail_if-ok (str_ne a.arbiter_role role || contains ids a.route_id) bad_arbiter
        (ok (a.route_id ∷ ids, arbiter_family a ∷ families)) h in
    let r : str_ne a.arbiter_role role ≡ false = ground (arith, guard) in
    (str_ne-false a.arbiter_role role r, ground (arith, guard), ground (arith, k))

-- The seats of an accepted policy.
pub record IsSeated (p : FinancePolicy) : Type 0 where
  pub seats :
      map (λ (r : FinanceSchoolRoute). (r.party_id, r.school_id)) p.school_bindings
      ≡ school_bindings
  pub arbiters :
      (p.counterpart_arbiter.arbiter_role ≡ "counterpart_arbiter")
      × (p.primary_arbiter.arbiter_role ≡ "primary_arbiter")
  pub distinct_ids : Distinct (policy_ids p)
  pub one_family : p.same_family_required ≡ true → AllEqual (policy_families p)
  pub few_families : family_count (policy_families p) ≤ 3

-- The two tests on the number of families.
abbrev check_families : Bool → List Family → Result FinanceError (Unit {0})
check_families same fs =
    bail_if (same && not (family_count fs == 1)) mixed_families
    >> bail_if (not same && ltb 3 (family_count fs)) too_many_families

check_families-count :
    (same : Bool) (fs : List Family)
    → check_families same fs ≡ ok tt
    → (family_count fs ≤ 3) × (same ≡ true → family_count fs ≡ 1)
check_families-count same fs h = (ground arith, λ e. ground arith)

-- The steps of an accepted check.
policy_parts :
    (p : FinancePolicy)
    → validate_finance_policy p ≡ ok tt
    → (length p.school_bindings ≡ 5)
      × (s one both : Sets) × (check_school_routes school_bindings p.school_bindings ([], [])
          ≡ ok s)
      × (check_finance_arbiter "counterpart_arbiter" p.counterpart_arbiter s ≡ ok one)
      × (check_finance_arbiter "primary_arbiter" p.primary_arbiter one ≡ ok both)
      × (check_families p.same_family_required both.1 ≡ ok tt)
unfolding validate_finance_policy
policy_parts p h =
    let last = λ (both : Sets). check_families p.same_family_required both.1 in
    let second =
      λ (one : Sets). check_finance_arbiter "primary_arbiter" p.primary_arbiter one >>= last in
    let first = λ (s : Sets).
      check_finance_arbiter "counterpart_arbiter" p.counterpart_arbiter s >>= second in
    let loop = check_school_routes school_bindings p.school_bindings ([], []) in
    let (_, k1) =
      bail_if-ok
        (str_ne p.policy_version "3.0"
          || str_ne p.protocol_version "2.0"
          || str_ne p.isolation_backend "process_information_flow_v1")
        bad_policy_version
        (bail_if (not (length p.school_bindings == 5)) not_five_schools >> (loop >>= first)) h in
    let (five, k2) =
      bail_if-ok (not (length p.school_bindings == 5)) not_five_schools (loop >>= first) k1 in
    let (s, checked, k3) = >>=-ok loop first k2 in
    let (one, counterpart, k4) =
      >>=-ok (check_finance_arbiter "counterpart_arbiter" p.counterpart_arbiter s) second k3 in
    let (both, primary, k5) =
      >>=-ok (check_finance_arbiter "primary_arbiter" p.primary_arbiter one) last k4 in
    (ground (arith, five), s, one, both, checked, counterpart, primary, k5)

-- An accepted finance policy seats Party A to Party E with the five schools in the fixed order and
-- gives the arbiters their roles; the ids of its seven routes are pairwise distinct; the routes are
-- of at most three families, and all of one family if the policy requires it.
pub validate_finance_policy-IsSeated :
    (p : FinancePolicy) → validate_finance_policy p ≡ ok tt → IsSeated p
validate_finance_policy-IsSeated p h =
    let (five, s, one, both, checked, counterpart, primary, limits) = policy_parts p h in
    let routes = check_school_routes-facts school_bindings p.school_bindings [] [] five checked in
    let c = check_finance_arbiter-facts "counterpart_arbiter" p.counterpart_arbiter s counterpart in
    let q = check_finance_arbiter-facts "primary_arbiter" p.primary_arbiter one primary in
    let one_is : one ≡ (
      p.counterpart_arbiter.route_id ∷ ids_latest p.school_bindings [],
      arbiter_family p.counterpart_arbiter ∷ families_latest p.school_bindings [],
    ) =
      c.2
      ∙ ap
          (λ (x : Sets).
            (p.counterpart_arbiter.route_id ∷ x.0, arbiter_family p.counterpart_arbiter ∷ x.1))
          routes.1 in
    let both_is : both.1 ≡ policy_families p =
      ap (λ (x : Sets). x.1) q.2
      ∙ ap (λ (x : Sets). arbiter_family p.primary_arbiter ∷ x.1) one_is in
    let counts = check_families-count p.same_family_required (policy_families p) (
      subst (λ (fs : List Family). check_families p.same_family_required fs ≡ ok tt) both_is
        limits) in
    record {
      seats = routes.0;
      arbiters = (c.0, q.0);
      distinct_ids = (
        subst (λ (x : Sets). contains x.0 p.primary_arbiter.route_id ≡ false) one_is q.1,
        (
          subst (λ (x : Sets). contains x.0 p.counterpart_arbiter.route_id ≡ false) routes.1 c.1,
          routes.2 tt,
        ),
      );
      one_family = λ required. one_family (policy_families p) (counts.1 required);
      few_families = counts.0;
    }

-- An accepted profile lists the schools' authorities in the same fixed order.
authorities_seated :
    (bindings : List (String × SchoolId)) (authorities : List SchoolAuthority)
    → length authorities ≡ length bindings
    → check_authorities bindings authorities ≡ ok tt
    → map (λ (a : SchoolAuthority). (a.party_id, a.school_id)) authorities ≡ bindings
unfolding check_authorities
authorities_seated [] [] n h = refl
authorities_seated [] (a ∷ authorities) n h = absurd (omega arith)
authorities_seated (b ∷ bs) [] n h = absurd (omega arith)
authorities_seated ((party, school) ∷ bs) (a ∷ authorities) n h =
    let (seat, k) =
      bail_if-ok (str_ne a.party_id party || not (school_eq a.school_id school)) wrong_profile_map
        (check_authorities bs authorities) h in
    let one : str_ne a.party_id party ≡ false = ground (arith, seat) in
    let two : school_eq a.school_id school ≡ true = ground (arith, seat) in
    cc (
      authorities_seated bs authorities (omega (arith, n)) k,
      str_ne-false a.party_id party one,
      school_eq-≡ a.school_id school two,
    )

-- Under an accepted policy and an accepted profile, the routes and the authorities name the same
-- parties and the same schools, place by place.
pub policy_matches_profile :
    (p : FinancePolicy) (profile : FinanceReviewProfile)
    → validate_finance_policy p ≡ ok tt
    → validate_profile profile ≡ ok tt
    → map {B = String × SchoolId}
        (λ (r : FinanceSchoolRoute). (r.party_id, r.school_id))
        p.school_bindings
      ≡ map (λ (a : SchoolAuthority). (a.party_id, a.school_id)) profile.schools
unfolding validate_profile
policy_matches_profile p profile h k =
    let (_, k1) =
      bail_if-ok (str_ne profile.finance_review_profile_version "1.0") bad_profile_version
        (bail_if (not (length profile.schools == 5)) not_five_schools
          >> check_authorities school_bindings profile.schools)
        k in
    let (five, k2) =
      bail_if-ok (not (length profile.schools == 5)) not_five_schools
        (check_authorities school_bindings profile.schools) k1 in
    (validate_finance_policy-IsSeated p h).seats
    ∙ sym (authorities_seated school_bindings profile.schools (ground (arith, five)) k2)
