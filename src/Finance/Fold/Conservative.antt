-- ===== src/Finance/Fold/Conservative.antt =====
-- What a folded decision says of the two phases (`conservative_fold` of src/finance.rs).
use quinte.Prelude.{
  context-ok, suc, ◌*◌, ◌≤◌, String, ◌≡◌, refl, ap, subst, true, false, not, ◌||◌, List, [], ◌∷◌,
  ◌++◌, some, Result, ok, err, ◌>>=◌, ◌>>◌, context, arith, length, length-append, In, here, there,
  >>=-ok, >>-ok,
}
use quinte.Finance.Types.{
  SchoolId, school_bindings, school_listed, FinanceReviewProfile, PreregisteredApplicability,
  FinanceClaim, FinanceClaimManifest, not_applicable, is_clear, is_not_applicable, rank,
  SchoolClaimDecision, SchoolLaneOutput, FoldedSchoolDecision, r1, r2, missing_applicability,
  missing_school, missing_r1_claim, missing_r2_claim, missing_r1,
}
use quinte.Finance.Fold.{
  output_of, decision_for, is_unresolved, is_effective, fold_pair, fold_school, fold_claim,
  fold_claims, conservative_fold, first_run_id, validate_school_output_set, blocking_disposition,
}

-- What the fold of one school's two decisions on a claim keeps of them. If the school's rule is in
-- effect, no phase is not applicable, and the fold blocks exactly if a phase is unresolved, is as
-- severe as every unresolved phase, and is clear exactly if it does not block; if the rule is not in
-- effect, both phases are not applicable and the fold is too.
pub record KeepsWorst (profile : FinanceReviewProfile) (admitted : List String)
    (rule : PreregisteredApplicability) (first second : SchoolClaimDecision)
    (d : FoldedSchoolDecision) : Type 0 where
  pub mode : d.applicability ≡ rule.mode
  pub blocks :
      is_effective rule.mode rule.predicate_result ≡ true
      → d.blocking ≡ (is_unresolved profile admitted first || is_unresolved profile admitted second)
  pub severe1 :
      is_effective rule.mode rule.predicate_result ≡ true
      → is_unresolved profile admitted first ≡ true
      → rank first.disposition ≤ rank d.disposition
  pub severe2 :
      is_effective rule.mode rule.predicate_result ≡ true
      → is_unresolved profile admitted second ≡ true
      → rank second.disposition ≤ rank d.disposition
  pub clears :
      is_effective rule.mode rule.predicate_result ≡ true
      → d.blocking ≡ not (is_clear d.disposition)
  pub applies :
      is_effective rule.mode rule.predicate_result ≡ true
      → (is_not_applicable first.disposition ≡ false)
        × (is_not_applicable second.disposition ≡ false)
  pub ineffective :
      is_effective rule.mode rule.predicate_result ≡ false
      → (first.disposition ≡ not_applicable)
        × (second.disposition ≡ not_applicable)
        × (d.disposition ≡ not_applicable)
        × (d.blocking ≡ false)

module _ (profile : FinanceReviewProfile) (admitted : List String) where
  unresolved_blocks :
      (d : SchoolClaimDecision)
      → is_unresolved profile admitted d ≡ true
      → is_clear d.disposition ≡ false
  unfolding blocking_disposition
  unresolved_blocks d h = ground (arith, h)

  fold_pair-KeepsWorst :
      (claim : FinanceClaim) (school : SchoolId) (rule : PreregisteredApplicability)
      (first second : SchoolClaimDecision) {d : FoldedSchoolDecision}
      → fold_pair profile admitted claim school rule first second ≡ ok d
      → (d.claim_id ≡ claim.claim_id)
        × (d.school_id ≡ school)
        × KeepsWorst profile admitted rule first second d
  unfolding fold_pair
  fold_pair-KeepsWorst claim school rule first second h = (
    ground (arith, h),
    ground (arith, h),
    record {
      mode = ground (arith, h);
      blocks = λ e. ground (arith, h, unresolved_blocks first, unresolved_blocks second);
      severe1 = λ e u. ground (arith, h);
      severe2 = λ e u. ground (arith, h);
      clears = λ e. ground (arith, h);
      applies = λ e. (ground (arith, h), ground (arith, h));
      ineffective =
          λ e. (ground (arith, h), ground (arith, h), ground (arith, h), ground (arith, h));
    },
  )

-- `d` is the fold of what a school decided on a claim in the two phases, under its registered rule.
pub record FoldedFrom (profile : FinanceReviewProfile) (admitted : List String)
    (outputs1 outputs2 : List SchoolLaneOutput) (claim : FinanceClaim) (school : SchoolId)
    (d : FoldedSchoolDecision) : Type 0 where
  pub rule : PreregisteredApplicability
  pub registered : claim.school_applicability school ≡ some rule
  pub one : SchoolLaneOutput
  pub from_one : output_of school outputs1 ≡ some one
  pub first : SchoolClaimDecision
  pub decided_first : decision_for claim.claim_id one.decisions ≡ some first
  pub two : SchoolLaneOutput
  pub from_two : output_of school outputs2 ≡ some two
  pub second : SchoolClaimDecision
  pub decided_second : decision_for claim.claim_id two.decisions ≡ some second
  pub about : (d.claim_id ≡ claim.claim_id) × (d.school_id ≡ school)
  pub keeps : KeepsWorst profile admitted rule first second d

both-ok :
    {E A B C : Type 0} (m : Result E A) (n : Result E B) (f : A → B → C) {x : C}
    → (m >>= λ a. n >>= λ b. ok (f a b)) ≡ ok x
    → (a : A) × (b : B) × (m ≡ ok a) × (n ≡ ok b) × (f a b ≡ x)
both-ok (err e) n f h = cc
both-ok (ok a) (err e) f h = cc
both-ok (ok a) (ok b) f h = (a, b, refl, refl, cc)

In-append1 {ℓ} : {A : Type ℓ} {x : A} (xs ys : List A) → In x xs → In x (xs ++ ys)
In-append1 _ ys here = here
In-append1 _ ys (there m) = there (In-append1 _ ys m)

In-append2 {ℓ} : {A : Type ℓ} {x : A} (xs ys : List A) → In x ys → In x (xs ++ ys)
In-append2 [] ys m = m
In-append2 (x ∷ xs) ys m = there (In-append2 xs ys m)

module _ (profile : FinanceReviewProfile) (admitted : List String)
    (outputs1 outputs2 : List SchoolLaneOutput) where
  fold_school-FoldedFrom :
      (claim : FinanceClaim) (school : SchoolId) {d : FoldedSchoolDecision}
      → fold_school profile admitted outputs1 outputs2 claim school ≡ ok d
      → FoldedFrom profile admitted outputs1 outputs2 claim school d
  unfolding fold_school
  fold_school-FoldedFrom claim school h =
      let (rule, h1, k1) = >>=-ok _ _ h in
      let (one, h2, k2) = >>=-ok _ _ k1 in
      let (first, h3, k3) = >>=-ok _ _ k2 in
      let (two, h4, k4) = >>=-ok _ _ k3 in
      let (second, h5, k5) = >>=-ok _ _ k4 in
      let facts = fold_pair-KeepsWorst profile admitted claim school rule first second k5 in
      record {
        rule = rule;
        registered = context-ok (claim.school_applicability school) missing_applicability h1;
        one = one;
        from_one = context-ok (output_of school outputs1) missing_school h2;
        first = first;
        decided_first = context-ok (decision_for claim.claim_id one.decisions) missing_r1_claim h3;
        two = two;
        from_two = context-ok (output_of school outputs2) missing_school h4;
        second = second;
        decided_second = context-ok (decision_for claim.claim_id two.decisions) missing_r2_claim h5;
        about = (facts.0, facts.1);
        keeps = facts.2;
      }

  abbrev pub Entry : List FoldedSchoolDecision → FinanceClaim → SchoolId → Type 0
  Entry folded claim school =
      (d : FoldedSchoolDecision) × In d folded
      × FoldedFrom profile admitted outputs1 outputs2 claim school d

  fold_claim_covers :
      (claim : FinanceClaim) (bindings : List (String × SchoolId))
      {folded : List FoldedSchoolDecision}
      → fold_claim profile admitted outputs1 outputs2 claim bindings ≡ ok folded
      → (length folded ≡ length bindings)
        × ((party : String) (school : SchoolId)
            → In (party, school) bindings
            → Entry folded claim school)
  unfolding fold_claim
  fold_claim_covers claim [] h = (ground (arith, h), λ party school m. elim m [ ])
  fold_claim_covers claim ((p, s) ∷ bindings) {folded} h =
      let (d, rest, now, later, e) =
        both-ok (fold_school profile admitted outputs1 outputs2 claim s)
          (fold_claim profile admitted outputs1 outputs2 claim bindings) (λ a b. a ∷ b) h in
      let ih = fold_claim_covers claim bindings later in
      subst
        (λ (l : List FoldedSchoolDecision).
          (length l ≡ suc (length bindings))
          × ((party : String) (school : SchoolId)
              → In (party, school) ((p, s) ∷ bindings)
              → Entry l claim school))
        e (ap suc ih.0, λ party school m. cover d rest now ih.1 party school m)
    where
      cover :
          (d : FoldedSchoolDecision) (rest : List FoldedSchoolDecision)
          → fold_school profile admitted outputs1 outputs2 claim s ≡ ok d
          → ((party : String) (school : SchoolId)
              → In (party, school) bindings
              → Entry rest claim school)
          → (party : String) (school : SchoolId) → In (party, school) ((p, s) ∷ bindings)
          → Entry (d ∷ rest) claim school
      cover d rest now ih _ _ here = (d, here, fold_school-FoldedFrom claim s now)
      cover d rest now ih party school (there m) =
          let (x, at, from) = ih party school m in (x, there at, from)

  fold_claims_covers :
      (claims : List FinanceClaim) {folded : List FoldedSchoolDecision}
      → fold_claims profile admitted outputs1 outputs2 claims ≡ ok folded
      → (length folded ≡ 5 * length claims)
        × ((claim : FinanceClaim) (party : String) (school : SchoolId)
            → In claim claims
            → In (party, school) school_bindings
            → Entry folded claim school)
  unfolding fold_claims
  fold_claims_covers [] h = (ground (arith, h), λ claim party school m. elim m [ ])
  fold_claims_covers (c ∷ claims) {folded} h =
      let (now, rest, first, later, e) =
        both-ok (fold_claim profile admitted outputs1 outputs2 c school_bindings)
          (fold_claims profile admitted outputs1 outputs2 claims) (λ a b. a ++ b) h in
      let one = fold_claim_covers c school_bindings first in
      let ih = fold_claims_covers claims later in
      subst
        (λ (l : List FoldedSchoolDecision).
          (length l ≡ 5 * suc (length claims))
          × ((claim : FinanceClaim) (party : String) (school : SchoolId)
              → In claim (c ∷ claims)
              → In (party, school) school_bindings
              → Entry l claim school))
        e
        (
          omega (arith, length-append now rest, one.0, ih.0),
          λ claim party school m. cover now rest one.1 ih.1 claim party school m,
        )
    where
      cover :
          (now rest : List FoldedSchoolDecision)
          → ((party : String) (school : SchoolId)
              → In (party, school) school_bindings
              → Entry now c school)
          → ((claim : FinanceClaim) (party : String) (school : SchoolId)
              → In claim claims
              → In (party, school) school_bindings
              → Entry rest claim school)
          → (claim : FinanceClaim) (party : String) (school : SchoolId) → In claim (c ∷ claims)
          → In (party, school) school_bindings
          → Entry (now ++ rest) claim school
      cover now rest one ih _ party school here b =
          let (x, at, from) = one party school b in (x, In-append1 now rest at, from)
      cover now rest one ih claim party school (there m) b =
          let (x, at, from) = ih claim party school m b in (x, In-append2 now rest at, from)

  pub conservative_fold_covers :
      (manifest : FinanceClaimManifest) {folded : List FoldedSchoolDecision}
      → conservative_fold profile manifest outputs1 outputs2 admitted ≡ ok folded
      → (length folded ≡ 5 * length manifest.claims)
        × ((claim : FinanceClaim) (school : SchoolId)
            → In claim manifest.claims
            → Entry folded claim school)
  unfolding conservative_fold
  conservative_fold_covers manifest h =
      let (run_id, _, k1) =
        >>=-ok (context (first_run_id outputs1) missing_r1)
          (λ run.
            validate_school_output_set run r1 outputs1
            >> (validate_school_output_set run r2 outputs2
                >> fold_claims profile admitted outputs1 outputs2 manifest.claims))
          h in
      let k2 =
        (>>-ok (validate_school_output_set run_id r1 outputs1)
          (validate_school_output_set run_id r2 outputs2
            >> fold_claims profile admitted outputs1 outputs2 manifest.claims)
          k1).1 in
      let k3 =
        (>>-ok (validate_school_output_set run_id r2 outputs2)
          (fold_claims profile admitted outputs1 outputs2 manifest.claims) k2).1 in
      let covers = fold_claims_covers manifest.claims k3 in
      (
        covers.0,
        λ claim school m.
            let (party, listed) = school_listed school in covers.1 claim party school m listed,
      )
