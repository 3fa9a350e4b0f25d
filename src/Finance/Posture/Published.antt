-- ===== src/Finance/Posture/Published.antt =====
-- The fold and the posture together: what a published review says of each school's decisions
-- (`conservative_fold` and `publication_posture` of src/finance.rs).
use quinte.Prelude.{
  ◌≤◌, String, ◌≡◌, ◌≢◌, refl, sym, ◌∙◌, subst, ◌⊎◌, inl, inr, Bool, true, false, ◌||◌, List, [],
  ◌∷◌, Option, none, some, ok, arith, All, In, here, there, All-In, all, contains, length, is_empty,
  eq_iff, str_eq, Bool-cases,
}
use quinte.Finance.Types.{
  SchoolId, FinanceReviewProfile, ApplicabilityMode, mandatory, conditional, out_of_scope,
  PreregisteredApplicability, FinanceClaim, FinanceClaimManifest, FinanceEvidenceIndex,
  PrimaryAuthority, clear, not_applicable, is_not_applicable, SchoolClaimDecision, SchoolLaneOutput,
  FoldedSchoolDecision, publish_bounded,
}
use quinte.Finance.Fold.{
  output_of, decision_for, blocking_disposition, can_close, is_unresolved, is_effective,
  conservative_fold,
}
use quinte.Finance.Fold.Total.{output_of-Member}
use quinte.Finance.Fold.Conservative.{KeepsWorst, conservative_fold_covers}
use quinte.Finance.Posture.{publication_posture}
use quinte.Finance.Posture.Publish.{Permits, publish_iff}

-- A decision is closed by a registered rule, with evidence that is admitted.
pub record Closed (profile : FinanceReviewProfile) (admitted : List String)
    (d : SchoolClaimDecision) : Type 0 where
  pub rule : String
  pub closing : d.closure_rule_code ≡ some rule
  pub registered : contains profile.closure_rule_codes rule ≡ true
  pub with_evidence : 1 ≤ length d.closure_evidence_refs
  pub admissible : All (λ ref. contains admitted ref ≡ true) d.closure_evidence_refs

-- The school has decided the claim in an output; its decision calls the claim applicable, and is
-- clear or closed.
pub record Settled (profile : FinanceReviewProfile) (admitted : List String)
    (outputs : List SchoolLaneOutput) (claim : FinanceClaim) (school : SchoolId) : Type 0 where
  pub output : SchoolLaneOutput
  pub submitted : In output outputs
  pub own : output.school_id ≡ school
  pub decision : SchoolClaimDecision
  pub decided : In decision output.decisions
  pub on_claim : decision.claim_id ≡ claim.claim_id
  pub applicable : decision.disposition ≢ not_applicable
  pub settled : (decision.disposition ≡ clear) ⊎ Closed profile admitted decision

-- The rule is in effect for its claim.
abbrev pub InEffect : PreregisteredApplicability → Type 0
InEffect rule =
    (rule.mode ≡ mandatory) ⊎ ((rule.mode ≡ conditional) × (rule.predicate_result ≡ some true))

InEffect-is_effective :
    (rule : PreregisteredApplicability)
    → InEffect rule
    → is_effective rule.mode rule.predicate_result ≡ true
InEffect-is_effective rule (inl always) = ground (arith, always)
InEffect-is_effective rule (inr (depends, met)) = rw (depends, met) refl

decision_for-In :
    (id : String) (ds : List SchoolClaimDecision) {d : SchoolClaimDecision}
    → decision_for id ds ≡ some d
    → In d ds × (d.claim_id ≡ id)
decision_for-In id [] h = absurd (cc)
decision_for-In id (x ∷ ds) {d} h = elim (Bool-cases (str_eq x.claim_id id)) [
  | inl own ↦
      let same : x ≡ d = ground (arith, h, own) in
      subst (λ (y : SchoolClaimDecision). In y (x ∷ ds) × (y.claim_id ≡ id)) same
        (here, (eq_iff x.claim_id id).0 own)
  | inr other ↦
      let later = decision_for-In id ds {d = d} (ground (arith, h, other)) in
      (there later.0, later.1)
]

all-All : (p : String → Bool) (l : List String) → all p l ≡ true → All (λ x. p x ≡ true) l
all-All p [] h = tt
all-All p (x ∷ l) h = (ground (arith, h), all-All p l (ground (arith, h)))

can_close-Closed :
    (profile : FinanceReviewProfile) (admitted : List String) (d : SchoolClaimDecision)
    (rule : Option String)
    → d.closure_rule_code ≡ rule
    → can_close profile admitted d ≡ true
    → Closed profile admitted d
unfolding can_close
can_close-Closed profile admitted d none e h = absurd (ground (arith, h, e))
can_close-Closed profile admitted d (some rule) e h = record {
  rule = rule;
  closing = e;
  registered = ground (arith, h, e);
  with_evidence = not_empty d.closure_evidence_refs (ground (arith, h, e));
  admissible = all-All (contains admitted) d.closure_evidence_refs (ground (arith, h, e));
}
  where
    not_empty : (l : List String) → is_empty l ≡ false → 1 ≤ length l
    not_empty [] h = absurd (cc)
    not_empty (x ∷ l) h = omega arith

settled_of :
    (profile : FinanceReviewProfile) (admitted : List String) (d : SchoolClaimDecision)
    → is_not_applicable d.disposition ≡ false
    → is_unresolved profile admitted d ≡ false
    → (d.disposition ≡ clear) ⊎ Closed profile admitted d
unfolding blocking_disposition
settled_of profile admitted d applies resolved = elim (Bool-cases (can_close profile admitted d)) [
  | inl closes ↦ inr (can_close-Closed profile admitted d d.closure_rule_code refl closes)
  | inr open_still ↦ inl (ground (arith, applies, resolved, open_still))
]

Settled-of :
    (profile : FinanceReviewProfile) (admitted : List String) (outputs : List SchoolLaneOutput)
    (claim : FinanceClaim) (school : SchoolId) (o : SchoolLaneOutput) (d : SchoolClaimDecision)
    → output_of school outputs ≡ some o
    → decision_for claim.claim_id o.decisions ≡ some d
    → is_not_applicable d.disposition ≡ false
    → is_unresolved profile admitted d ≡ false
    → Settled profile admitted outputs claim school
Settled-of profile admitted outputs claim school o d found decided applies resolved =
    let (within, own) = output_of-Member school outputs o found in
    let (listed, on_claim) = decision_for-In claim.claim_id o.decisions {d = d} decided in
    record {
      output = o;
      submitted = within;
      own = own;
      decision = d;
      decided = listed;
      on_claim = on_claim;
      applicable = λ e. ground (arith, e, applies);
      settled = settled_of profile admitted d applies resolved;
    }

-- A permitted decision of a rule in effect does not block.
not_blocking :
    (profile : FinanceReviewProfile) (admitted : List String) (rule : PreregisteredApplicability)
    (first second : SchoolClaimDecision) (d : FoldedSchoolDecision)
    → KeepsWorst profile admitted rule first second d
    → Permits d
    → is_effective rule.mode rule.predicate_result ≡ true
    → d.blocking ≡ false
not_blocking profile admitted rule first second d keeps permits effective =
    by_mode rule.mode keeps.mode effective
  where
    by_mode :
        (m : ApplicabilityMode)
        → d.applicability ≡ m
        → is_effective m rule.predicate_result ≡ true
        → d.blocking ≡ false
    by_mode mandatory e h = ground (arith, keeps.clears effective, permits.0 e)
    by_mode conditional e h = permits.1 e
    by_mode out_of_scope e h = cc

-- If the fold of the two phases is published, then for every claim of the manifest and every school
-- whose rule is in effect there, the school decided the claim in both phases, did not call it
-- inapplicable, and cleared it or closed its decision by a registered rule, with at least one piece
-- of evidence and with admitted evidence only.
pub published-Settled :
    (profile : FinanceReviewProfile) (manifest : FinanceClaimManifest)
    (outputs1 outputs2 : List SchoolLaneOutput) (admitted : List String)
    (primary : PrimaryAuthority) (evidence : FinanceEvidenceIndex)
    (open_residuals invalidations : List String) (folded : List FoldedSchoolDecision)
    (claim : FinanceClaim) (school : SchoolId) (rule : PreregisteredApplicability)
    → conservative_fold profile manifest outputs1 outputs2 admitted ≡ ok folded
    → (publication_posture primary evidence folded open_residuals invalidations).posture
      ≡ publish_bounded
    → In claim manifest.claims
    → claim.school_applicability school ≡ some rule
    → InEffect rule
    → Settled profile admitted outputs1 claim school
      × Settled profile admitted outputs2 claim school
published-Settled profile manifest outputs1 outputs2 admitted primary evidence open_residuals
      invalidations folded claim school rule fold publish member registered in_force =
    let effective = InEffect-is_effective rule in_force in
    let may = (publish_iff primary evidence folded open_residuals invalidations).0.0 publish in
    let covers = conservative_fold_covers profile admitted outputs1 outputs2 manifest fold in
    let (d, at, from) = covers.1 claim school member in
    let same : from.rule ≡ rule = cc (from.registered, registered) in
    let in_effect : is_effective (from.rule).mode (from.rule).predicate_result ≡ true =
      cc (same, effective) in
    let quiet =
      not_blocking profile admitted from.rule from.first from.second d from.keeps
        (All-In Permits folded may.permitted at) in_effect in
    let none_open : (is_unresolved profile admitted from.first
          || is_unresolved profile admitted from.second)
        ≡ false =
      sym ((from.keeps).blocks in_effect) ∙ quiet in
    let applies = (from.keeps).applies in_effect in
    (
      Settled-of profile admitted outputs1 claim school from.one from.first from.from_one
          from.decided_first applies.0 (ground (arith, none_open)),
      Settled-of profile admitted outputs2 claim school from.two from.second from.from_two
          from.decided_second applies.1 (ground (arith, none_open)),
    )
