-- ===== src/Finance/Profile/Preregistered.antt =====
-- What an accepted claim manifest preregisters (`validate_claim_manifest` of src/finance.rs).
use quinte.Prelude.{
  bail_each-All, String, ◌≡◌, refl, true, false, not, List, [], ◌∷◌, map, Option, none, some, ok,
  ◌>>◌, bail_if, try_each, arith, All, Distinct, In, here, there, contains, eq_iff, str_ne, >>-ok,
  bail_if-ok, Bool, any, subst, Bool-cases, inl, inr, ◌⊎◌, is_some, is_empty, ◌==◌,
}
use quinte.Finance.Types.{
  SchoolId, school_bindings, school_listed, SchoolAuthority, FinanceReviewProfile,
  ApplicabilityMode, mandatory, conditional, out_of_scope, PreregisteredApplicability,
  Applicability, FinanceClaim, FinanceClaimManifest, bad_manifest_version, duplicate_claim,
  not_all_schools, no_claim_class, forbidden_class,
}
use quinte.Finance.Profile.{
  applicability_len, in_scope, is_forbidden, check_rule, check_applicability, check_rules,
  check_claim, check_claims, validate_claim_manifest,
}

-- A rule that names a predicate exactly if it is conditional, one of the profile's then, and whose
-- result is true if it is mandatory and false if it is out of scope.
abbrev pub IsWellFormed : List String → PreregisteredApplicability → ApplicabilityMode → Type 0
IsWellFormed predicates rule mandatory =
    (rule.predicate_code ≡ none) × (rule.predicate_result ≡ some true)
IsWellFormed predicates rule conditional =
    (code : String) × (rule.predicate_code ≡ some code)
    × (contains predicates code ≡ true)
    × (is_some rule.predicate_result ≡ true)
IsWellFormed predicates rule out_of_scope =
    (rule.predicate_code ≡ none) × (rule.predicate_result ≡ some false)

-- The rule of one school, as the loop accepts it.
abbrev pub RuleOf : List String → Applicability → SchoolId → Type 0
RuleOf predicates a school =
    (rule : PreregisteredApplicability) × (a school ≡ some rule)
    × IsWellFormed predicates rule rule.mode

-- The school forbids no class of the claim, or has the claim out of its scope.
abbrev pub Allows : FinanceClaim → SchoolAuthority → Type 0
Allows claim a =
    All (λ c. contains a.forbidden_claim_classes c ≡ false) claim.claim_classes
    ⊎ ((rule : PreregisteredApplicability) × (claim.school_applicability a.school_id ≡ some rule)
        × (rule.mode ≡ out_of_scope))

none_of : (p : String → Bool) (l : List String) → any p l ≡ false → All (λ x. p x ≡ false) l
none_of p [] h = tt
none_of p (x ∷ l) h = (ground (arith, h), none_of p l (ground (arith, h)))

in_scope-mode :
    (rule : PreregisteredApplicability) → in_scope (some rule) ≡ false → rule.mode ≡ out_of_scope
in_scope-mode rule h = ground (arith, h)

is_forbidden-Allows :
    (claim : FinanceClaim) (a : SchoolAuthority) (rule : PreregisteredApplicability)
    → claim.school_applicability a.school_id ≡ some rule
    → is_forbidden claim a ≡ false
    → Allows claim a
is_forbidden-Allows claim a rule e h =
    elim (Bool-cases (any (contains a.forbidden_claim_classes) claim.claim_classes)) [
      | inr none_there ↦
          inl (none_of (contains a.forbidden_claim_classes) claim.claim_classes none_there)
      | inl some_there ↦
          let outside : in_scope (claim.school_applicability a.school_id) ≡ false =
            ground (arith, h, some_there) in
          inr (rule, e, in_scope-mode rule (subst (λ o. in_scope o ≡ false) e outside))
    ]

each-Allows :
    (predicates : List String) (claim : FinanceClaim) (l : List SchoolAuthority)
    → ((school : SchoolId) → RuleOf predicates claim.school_applicability school)
    → All (λ a. is_forbidden claim a ≡ false) l
    → All (Allows claim) l
each-Allows predicates claim [] rules h = tt
each-Allows predicates claim (a ∷ l) rules h =
    let (rule, registered, _) = rules a.school_id in
    (is_forbidden-Allows claim a rule registered h.0, each-Allows predicates claim l rules h.1)

-- Every school has a well-formed rule for the claim, the claim has a class, and no school in whose
-- scope it stands forbids one.
pub record IsRegistered (profile : FinanceReviewProfile) (claim : FinanceClaim) : Type 0 where
  pub rules :
      (school : SchoolId)
      → RuleOf profile.applicability_predicate_codes claim.school_applicability school
  pub classes : is_empty claim.claim_classes ≡ false
  pub allowed : All (Allows claim) profile.schools

check_rule-IsWellFormed :
    (predicates : List String) (m : ApplicabilityMode) (rule : PreregisteredApplicability)
    → check_rule predicates m rule ≡ ok tt
    → IsWellFormed predicates rule m
check_rule-IsWellFormed predicates mandatory rule h = (ground (arith, h), ground (arith, h))
check_rule-IsWellFormed predicates conditional rule h = named rule.predicate_code refl
  where
    named :
        (o : Option String)
        → rule.predicate_code ≡ o
        → (code : String) × (rule.predicate_code ≡ some code)
          × (contains predicates code ≡ true)
          × (is_some rule.predicate_result ≡ true)
    named none e = absurd (ground (arith, h, e))
    named (some code) e = (code, e, ground (arith, h, e), ground (arith, h, e))
check_rule-IsWellFormed predicates out_of_scope rule h = (ground (arith, h), ground (arith, h))

check_applicability-rule :
    (predicates : List String) (o : Option PreregisteredApplicability)
    → check_applicability predicates o ≡ ok tt
    → (rule : PreregisteredApplicability) × (o ≡ some rule) × IsWellFormed predicates rule rule.mode
check_applicability-rule predicates none h = cc
check_applicability-rule predicates (some rule) h =
    (rule, refl, check_rule-IsWellFormed predicates rule.mode rule h)

check_rules-RuleOf :
    (predicates : List String) (a : Applicability) (bindings : List (String × SchoolId))
    → check_rules predicates a bindings ≡ ok tt
    → (party : String) (school : SchoolId) → In (party, school) bindings
    → RuleOf predicates a school
check_rules-RuleOf predicates a [] h party school m = elim m [ ]
check_rules-RuleOf predicates a ((party, school) ∷ bindings) h _ _ here =
    check_applicability-rule predicates (a school)
      (>>-ok (check_applicability predicates (a school)) (check_rules predicates a bindings) h).0
check_rules-RuleOf predicates a ((p, s) ∷ bindings) h party school (there m) =
    check_rules-RuleOf predicates a bindings
      (>>-ok (check_applicability predicates (a s)) (check_rules predicates a bindings) h).1 party
      school m

module _ (profile : FinanceReviewProfile) where
  check_claim-IsRegistered :
      (claim : FinanceClaim) → check_claim profile claim ≡ ok tt → IsRegistered profile claim
  unfolding check_claim
  check_claim-IsRegistered claim h =
      let each =
        try_each (λ (a : SchoolAuthority). bail_if (is_forbidden claim a) forbidden_class)
          profile.schools in
      let rules =
        check_rules profile.applicability_predicate_codes claim.school_applicability
          school_bindings in
      let (_, k1) =
        bail_if-ok (not (applicability_len claim.school_applicability == 5)) not_all_schools
          (bail_if (is_empty claim.claim_classes) no_claim_class >> (each >> rules)) h in
      let (classes, k2) =
        bail_if-ok (is_empty claim.claim_classes) no_claim_class (each >> rules) k1 in
      let (allowed, k3) = >>-ok each rules k2 in
      let each_rule : (school : SchoolId)
          → RuleOf profile.applicability_predicate_codes claim.school_applicability school =
        λ school.
          let (party, listed) = school_listed school in
          check_rules-RuleOf profile.applicability_predicate_codes claim.school_applicability
            school_bindings k3 party school listed in
      record {
        rules = each_rule;
        classes = classes;
        allowed =
            each-Allows profile.applicability_predicate_codes claim profile.schools each_rule
              (bail_each-All (is_forbidden claim) forbidden_class profile.schools allowed);
      }

  check_claims-IsRegistered :
      (ids : List String) (claims : List FinanceClaim)
      → check_claims profile ids claims ≡ ok tt
      → All (IsRegistered profile) claims
        × All (λ (c : FinanceClaim). contains ids c.claim_id ≡ false) claims
        × Distinct (map (λ (c : FinanceClaim). c.claim_id) claims)
  unfolding check_claims
  check_claims-IsRegistered ids [] h = (tt, tt, tt)
  check_claims-IsRegistered ids (c ∷ claims) h =
      let (new, k) =
        bail_if-ok (contains ids c.claim_id) duplicate_claim
          (check_claim profile c >> check_claims profile (c.claim_id ∷ ids) claims) h in
      let (now, later) =
        >>-ok (check_claim profile c) (check_claims profile (c.claim_id ∷ ids) claims) k in
      let ih = check_claims-IsRegistered (c.claim_id ∷ ids) claims later in
      (
        (check_claim-IsRegistered c now, ih.0),
        (new, older c.claim_id claims ih.1),
        (fresh c.claim_id claims ih.1, ih.2),
      )
    where
      older :
          (id : String) (l : List FinanceClaim)
          → All (λ (x : FinanceClaim). contains (id ∷ ids) x.claim_id ≡ false) l
          → All (λ (x : FinanceClaim). contains ids x.claim_id ≡ false) l
      older id [] h = tt
      older id (x ∷ l) h = (ground (arith, h.0), older id l h.1)

      fresh :
          (id : String) (l : List FinanceClaim)
          → All (λ (x : FinanceClaim). contains (id ∷ ids) x.claim_id ≡ false) l
          → contains (map (λ (x : FinanceClaim). x.claim_id) l) id ≡ false
      fresh id [] h = refl
      fresh id (x ∷ l) h =
          ground (arith, h.0, eq_iff id x.claim_id, eq_iff x.claim_id id, fresh id l h.1)

  -- An accepted claim manifest has pairwise distinct claim ids; every claim has a class, no class
  -- that a school in its scope forbids, and for each of the five schools one well-formed rule.
  pub validate_claim_manifest_sound :
      (manifest : FinanceClaimManifest)
      → validate_claim_manifest profile manifest ≡ ok tt
      → Distinct (map (λ (c : FinanceClaim). c.claim_id) manifest.claims)
        × All (IsRegistered profile) manifest.claims
  unfolding validate_claim_manifest
  validate_claim_manifest_sound manifest h =
      let k =
        (bail_if-ok (str_ne manifest.finance_claim_manifest_version "1.0") bad_manifest_version
          (check_claims profile [] manifest.claims) h).1 in
      let facts = check_claims-IsRegistered [] manifest.claims k in (facts.2, facts.0)
