-- ===== src/Finance/Fold/Total.antt =====
-- When the conservative fold of src/finance.rs gives a result.
use quinte.Prelude.{
  ◌≤◌, String, ◌≡◌, refl, ap, subst, Bool, true, not, List, [], ◌∷◌, map, Option, none, some,
  Result, ok, err, is_ok, arith, All, In, here, there, all, contains, length, Option-cases, All-In,
  str_eq, eq_iff, Bool-cases, inl, inr, if◌then◌else◌,
}
use quinte.Finance.Types.{
  SchoolId, school_eq, school_bindings, FinanceReviewProfile, PreregisteredApplicability,
  FinanceClaim, FinanceClaimManifest, FinanceEvidenceIndex, FinancePhase, r1, r2, is_not_applicable,
  SchoolClaimDecision, SchoolLaneOutput, FoldedSchoolDecision, FinanceError,
}
use quinte.Finance.Profile.{validate_claim_manifest}
use quinte.Finance.Profile.Preregistered.{IsRegistered, validate_claim_manifest_sound}
use quinte.Finance.Lanes.{validate_lane_claims_and_evidence}
use quinte.Finance.Lanes.Complete.{IsComplete, validate_lane_claims_and_evidence-IsComplete}
use quinte.Finance.Fold.{
  validate_school_output_set, output_of, decision_for, is_effective, fold_pair, fold_school,
  fold_claim, fold_claims, conservative_fold, first_run_id,
}
use quinte.Finance.Fold.Outputs.{Belongs, output_count, validate_school_output_set_sound}

abbrev decision_respects : PreregisteredApplicability → Option SchoolClaimDecision → Bool
decision_respects rule none = true
decision_respects rule (some d) =
    if is_effective rule.mode rule.predicate_result
    then not (is_not_applicable d.disposition)
    else is_not_applicable d.disposition

abbrev rule_respected : Option PreregisteredApplicability → Option SchoolClaimDecision → Bool
rule_respected none d = true
rule_respected (some rule) d = decision_respects rule d

-- The school calls the claim inapplicable exactly if its rule for the claim is not in effect.
abbrev pub respects_rule : FinanceClaim → SchoolLaneOutput → Bool
respects_rule claim o =
    rule_respected (claim.school_applicability o.school_id)
      (decision_for claim.claim_id o.decisions)

abbrev pub respects_rules : FinanceClaimManifest → List SchoolLaneOutput → Bool
respects_rules manifest outputs =
    all (λ (c : FinanceClaim). all (respects_rule c) outputs) manifest.claims

all-In {ℓ} :
    {A : Type ℓ} (p : A → Bool) {x : A} (xs : List A) → all p xs ≡ true → In x xs → p x ≡ true
all-In p _ h here = ground (arith, h)
all-In p _ h (there m) = all-In p _ (ground (arith, h)) m

ok-value : {A : Type 0} (m : Result FinanceError A) → is_ok m ≡ true → (a : A) × (m ≡ ok a)
ok-value (ok a) h = (a, refl)
ok-value (err e) h = cc

school_eq-same : (a b : SchoolId) → school_eq a b ≡ true → a ≡ b
school_eq-same a b h = ground arith

abbrev pub Member : SchoolId → List SchoolLaneOutput → SchoolLaneOutput → Type 0
Member s os o = In o os × (o.school_id ≡ s)

pub output_of-Member :
    (s : SchoolId) (os : List SchoolLaneOutput) (x : SchoolLaneOutput)
    → output_of s os ≡ some x
    → Member s os x
unfolding output_of
output_of-Member s [] x h = absurd (cc)
output_of-Member s (o ∷ os) x h = elim (Option-cases (output_of s os)) [
  | inr (y, e) ↦
      let same : y ≡ x = ground (arith, h, e) in
      let m = output_of-Member s os y e in subst (Member s (o ∷ os)) same (there m.0, m.1)
  | inl e ↦ elim (Bool-cases (school_eq o.school_id s)) [
    | inl own ↦
        let same : o ≡ x = ground (arith, h, e, own) in
        subst (Member s (o ∷ os)) same (here, school_eq-same o.school_id s own)
    | inr other ↦ absurd (ground (arith, h, e, other))
  ]
]

output_found :
    (s : SchoolId) (os : List SchoolLaneOutput)
    → 1 ≤ output_count s os
    → (o : SchoolLaneOutput) × (output_of s os ≡ some o)
unfolding output_of
output_found s [] h = absurd (omega arith)
output_found s (o ∷ os) h = elim (Option-cases (output_of s os)) [
  | inr (y, e) ↦ (y, rw e refl)
  | inl e ↦ elim (Bool-cases (school_eq o.school_id s)) [
    | inl own ↦ (o, rw (e, own) refl)
    | inr other ↦
        let (y, found) = output_found s os (ground (arith, h, other)) in absurd (cc (e, found))
  ]
]

claim_listed :
    (c : FinanceClaim) (cs : List FinanceClaim)
    → In c cs
    → contains (map (λ (x : FinanceClaim). x.claim_id) cs) c.claim_id ≡ true
claim_listed c _ here = ground (arith, eq_iff c.claim_id c.claim_id)
claim_listed c (x ∷ xs) (there m) = ground (arith, claim_listed c xs m)

decision_found :
    (id : String) (ds : List SchoolClaimDecision)
    → contains (map (λ (d : SchoolClaimDecision). d.claim_id) ds) id ≡ true
    → (d : SchoolClaimDecision) × (decision_for id ds ≡ some d)
decision_found id [] h = absurd (cc)
decision_found id (d ∷ ds) h = elim (Bool-cases (str_eq d.claim_id id)) [
  | inl same ↦ (d, rw same refl)
  | inr other ↦
      let (x, found) = decision_found id ds (ground (arith, h, other)) in (x, rw other found)
]

fold_pair-total :
    (profile : FinanceReviewProfile) (admitted : List String) (claim : FinanceClaim)
    (school : SchoolId) (rule : PreregisteredApplicability) (first second : SchoolClaimDecision)
    → decision_respects rule (some first) ≡ true
    → decision_respects rule (some second) ≡ true
    → is_ok (fold_pair profile admitted claim school rule first second) ≡ true
unfolding fold_pair
fold_pair-total profile admitted claim school rule first second h k = ground (arith, h, k)

is_ok-fold_school :
    {rule : PreregisteredApplicability} {one two : SchoolLaneOutput}
    {first second : SchoolClaimDecision} (profile : FinanceReviewProfile) (admitted : List String)
    (outputs1 outputs2 : List SchoolLaneOutput) (claim : FinanceClaim) (school : SchoolId)
    → claim.school_applicability school ≡ some rule
    → output_of school outputs1 ≡ some one
    → decision_for claim.claim_id one.decisions ≡ some first
    → output_of school outputs2 ≡ some two
    → decision_for claim.claim_id two.decisions ≡ some second
    → is_ok (fold_pair profile admitted claim school rule first second) ≡ true
    → is_ok (fold_school profile admitted outputs1 outputs2 claim school) ≡ true
unfolding fold_school
is_ok-fold_school profile admitted outputs1 outputs2 claim school r o1 d1 o2 d2 h =
    rw (r, o1, d1, o2, d2) h

module _ (profile : FinanceReviewProfile) (manifest : FinanceClaimManifest)
    (evidence : FinanceEvidenceIndex) where
  -- The decision of a school on a claim in one phase.
  phase_decision :
      (outputs : List SchoolLaneOutput) (claim : FinanceClaim) (school : SchoolId)
      (rule : PreregisteredApplicability)
      → ((s : SchoolId) → output_count s outputs ≡ 1)
      → All (IsComplete manifest) outputs
      → respects_rules manifest outputs ≡ true
      → In claim manifest.claims
      → claim.school_applicability school ≡ some rule
      → (o : SchoolLaneOutput) × (output_of school outputs ≡ some o)
        × (d : SchoolClaimDecision) × (decision_for claim.claim_id o.decisions ≡ some d)
        × (decision_respects rule (some d) ≡ true)
  phase_decision outputs claim school rule one grounded respects member registered =
      let (o, found) = output_found school outputs (omega (arith, one school)) in
      let (within, own) = output_of-Member school outputs o found in
      let facts = All-In (IsComplete manifest) outputs grounded within in
      let listed = claim_listed claim manifest.claims member in
      let (d, decided) =
        decision_found claim.claim_id o.decisions ((facts.decides claim.claim_id).1 listed) in
      let every =
        all-In (λ (c : FinanceClaim). all (respects_rule c) outputs) manifest.claims respects
          member in
      let respected : respects_rule claim o ≡ true =
        all-In (respects_rule claim) outputs every within in
      let its : claim.school_applicability o.school_id ≡ some rule = cc (own, registered) in
      (
        o,
        found,
        d,
        decided,
        subst (λ (x : Option PreregisteredApplicability). rule_respected x (some d) ≡ true) its
            (subst
              (λ (x : Option SchoolClaimDecision).
                rule_respected (claim.school_applicability o.school_id) x ≡ true)
              decided respected),
      )

  module _ (outputs1 outputs2 : List SchoolLaneOutput) (admitted : List String)
      (one1 : (s : SchoolId) → output_count s outputs1 ≡ 1)
      (one2 : (s : SchoolId) → output_count s outputs2 ≡ 1)
      (grounded1 : All (IsComplete manifest) outputs1)
      (grounded2 : All (IsComplete manifest) outputs2)
      (respects1 : respects_rules manifest outputs1 ≡ true)
      (respects2 : respects_rules manifest outputs2 ≡ true) where
    fold_school-total :
        (claim : FinanceClaim) (school : SchoolId)
        → In claim manifest.claims
        → IsRegistered profile claim
        → is_ok (fold_school profile admitted outputs1 outputs2 claim school) ≡ true
    fold_school-total claim school member registered =
        let (rule, its, _) = registered.rules school in
        let (a, f1, d, g1, h1) =
          phase_decision outputs1 claim school rule one1 grounded1 respects1 member its in
        let (b, f2, e, g2, h2) =
          phase_decision outputs2 claim school rule one2 grounded2 respects2 member its in
        is_ok-fold_school profile admitted outputs1 outputs2 claim school its f1 g1 f2 g2
          (fold_pair-total profile admitted claim school rule d e h1 h2)

    fold_claim-total :
        (claim : FinanceClaim) (bindings : List (String × SchoolId))
        → In claim manifest.claims
        → IsRegistered profile claim
        → is_ok (fold_claim profile admitted outputs1 outputs2 claim bindings) ≡ true
    unfolding fold_claim
    fold_claim-total claim [] member registered = refl
    fold_claim-total claim ((p, s) ∷ bindings) member registered =
        let (d, now) =
          ok-value (fold_school profile admitted outputs1 outputs2 claim s)
            (fold_school-total claim s member registered) in
        let (rest, later) =
          ok-value (fold_claim profile admitted outputs1 outputs2 claim bindings)
            (fold_claim-total claim bindings member registered) in
        rw (now, later) refl

    fold_claims-total :
        (claims : List FinanceClaim)
        → ((c : FinanceClaim) → In c claims → In c manifest.claims)
        → All (IsRegistered profile) claims
        → is_ok (fold_claims profile admitted outputs1 outputs2 claims) ≡ true
    unfolding fold_claims
    fold_claims-total [] within registered = refl
    fold_claims-total (c ∷ claims) within registered =
        let (d, now) =
          ok-value (fold_claim profile admitted outputs1 outputs2 c school_bindings)
            (fold_claim-total c school_bindings (within c here) registered.0) in
        let (rest, later) =
          ok-value (fold_claims profile admitted outputs1 outputs2 claims)
            (fold_claims-total claims (λ x m. within x (there m)) registered.1) in
        rw (now, later) refl

first_run :
    (run_id : String) (phase : FinancePhase) (outputs : List SchoolLaneOutput)
    → length outputs ≡ 5
    → All (Belongs run_id phase) outputs
    → first_run_id outputs ≡ some run_id
first_run run_id phase [] n all = absurd (omega arith)
first_run run_id phase (o ∷ os) n all = ap some all.0.1

-- The fold gives a result for every accepted claim manifest and every two accepted sets of outputs of
-- one run, whose lanes are accepted too, if each school calls a claim inapplicable exactly where its
-- rule is not in effect: no claim and no decision is then missing.
pub conservative_fold-total :
    (run_id : String) (profile : FinanceReviewProfile) (manifest : FinanceClaimManifest)
    (evidence : FinanceEvidenceIndex) (outputs1 outputs2 : List SchoolLaneOutput)
    (admitted : List String)
    → validate_claim_manifest profile manifest ≡ ok tt
    → validate_school_output_set run_id r1 outputs1 ≡ ok tt
    → validate_school_output_set run_id r2 outputs2 ≡ ok tt
    → validate_lane_claims_and_evidence profile manifest evidence outputs1 ≡ ok tt
    → validate_lane_claims_and_evidence profile manifest evidence outputs2 ≡ ok tt
    → respects_rules manifest outputs1 ≡ true
    → respects_rules manifest outputs2 ≡ true
    → (folded : List FoldedSchoolDecision) × (conservative_fold profile manifest outputs1 outputs2
          admitted
        ≡ ok folded)
unfolding conservative_fold
conservative_fold-total run_id profile manifest evidence outputs1 outputs2 admitted claims set1 set2
      lanes1 lanes2 respects1 respects2 =
    let s1 = validate_school_output_set_sound run_id r1 outputs1 set1 in
    let s2 = validate_school_output_set_sound run_id r2 outputs2 set2 in
    let (folded, e) = ok-value (fold_claims profile admitted outputs1 outputs2 manifest.claims) (
      fold_claims-total profile manifest evidence outputs1 outputs2 admitted s1.2 s2.2
        (validate_lane_claims_and_evidence-IsComplete profile manifest evidence outputs1 lanes1)
        (validate_lane_claims_and_evidence-IsComplete profile manifest evidence outputs2 lanes2)
        respects1 respects2 manifest.claims (λ c m. m)
        (validate_claim_manifest_sound profile manifest claims).1) in
    (folded, rw (first_run run_id r1 outputs1 s1.0 s1.1, set1, set2) e)
