-- ===== src/Finance/Lanes/Grounded.antt =====
-- What accepted school outputs are grounded in (`validate_lane_claims_and_evidence` of
-- src/finance.rs).
use quinte.Prelude.{
  context-ok, try_each-All, bail_each-All, String, ◌≡◌, refl, subst, ◌⊎◌, inl, inr, Bool, true,
  false, not, ◌||◌, List, [], ◌∷◌, ◌++◌, Option, none, some, ok, ◌>>◌, bail_if, context, try_each,
  arith, All, In, here, there, Distinct, contains, any, find, length, is_empty, distinct_count,
  >>=-ok, >>-ok, bail_if-ok, Bool-cases, ◌==◌,
}
use quinte.Finance.Types.{
  SchoolId, school_eq, SchoolAuthority, FinanceReviewProfile, FinanceClaimManifest,
  FinanceEvidenceItem, FinanceEvidenceIndex, FinanceClosureState, open_closure, closed_closure,
  FinanceResidual, SchoolClaimDecision, SchoolLaneOutput, no_authority, wrong_decision_set,
  unsorted_field, unsorted_residuals, unknown_evidence, wrong_evidence_class, unregistered_rule,
  unknown_claim_or_evidence,
}
use quinte.Finance.Lanes.{
  fields_sorted, residuals_sorted, claim_ids, decided_ids, same_set, item_of, authority_of,
  admitted, check_class, check_reference, check_closure, check_decision, unregistered,
  check_closure_state, check_residual, check_output, validate_lane_claims_and_evidence,
}
use quinte.Finance.Lanes.Cited.{
  evidence_refs_of, found_accepted, IsOrdered, fields_sorted-IsOrdered,
}
use quinte.Finance.Lanes.Grounds.{IsCitable, IsGroundedDecision, IsGroundedResidual, IsGrounded}
use quinte.Finance.Lanes.Complete.{check_output-IsComplete}

-- No member of the list is outside.
any-All :
    (p : String → Bool) (l : List String) → any (λ x. not (p x)) l ≡ false → All (λ x. p x ≡ true) l
any-All p [] h = tt
any-All p (x ∷ l) h = (ground (arith, h), any-All p l (ground (arith, h)))

school_eq-≡ : (a b : SchoolId) → school_eq a b ≡ true → a ≡ b
school_eq-≡ a b h = ground arith

authority_of-In :
    (schools : List SchoolAuthority) (school : SchoolId) {a : SchoolAuthority}
    → find (λ (x : SchoolAuthority). school_eq x.school_id school) schools ≡ some a
    → In a schools × (a.school_id ≡ school)
authority_of-In [] school found = absurd (cc)
authority_of-In (x ∷ schools) school {a} found = elim (Bool-cases (school_eq x.school_id school)) [
  | inl own ↦
      let same : x ≡ a = ground (arith, found, own) in
      subst (λ (y : SchoolAuthority). In y (x ∷ schools) × (y.school_id ≡ school)) same
        (here, school_eq-≡ x.school_id school own)
  | inr other ↦
      let later = authority_of-In schools school {a = a} (ground (arith, found, other)) in
      (there later.0, later.1)
]

sorted_each :
    (l : List SchoolClaimDecision)
    → All (λ (d : SchoolClaimDecision). not (fields_sorted d) ≡ false) l
    → All IsOrdered l
sorted_each [] h = tt
sorted_each (d ∷ l) h = (fields_sorted-IsOrdered d (ground (arith, h.0)), sorted_each l h.1)

-- No reference of the index has two items (`validate_evidence_artifacts` refuses such an index).
module _ (profile : FinanceReviewProfile) (manifest : FinanceClaimManifest)
    (evidence : FinanceEvidenceIndex) (distinct : Distinct (evidence_refs_of evidence.items)) where
  check_class-item :
      (authority : SchoolAuthority) (reference : String)
      → check_class profile manifest evidence authority reference ≡ ok tt
      → (item : FinanceEvidenceItem) × (item_of evidence reference ≡ some item)
        × (contains authority.accepted_evidence_classes item.evidence_class ≡ true)
  unfolding check_class
  check_class-item authority reference h =
      let (item, looked, class) =
        >>=-ok (context (item_of evidence reference) unknown_evidence)
          (λ (i : FinanceEvidenceItem).
            bail_if (not (contains authority.accepted_evidence_classes i.evidence_class))
              wrong_evidence_class)
          h in
      (item, context-ok (item_of evidence reference) unknown_evidence looked, ground (arith, class))

  check_class-IsCitable :
      (authority : SchoolAuthority) (reference : String)
      → admitted profile manifest evidence reference ≡ true
      → check_class profile manifest evidence authority reference ≡ ok tt
      → IsCitable profile manifest evidence authority reference
  check_class-IsCitable authority reference known class =
      let (item, found, class_ok) = check_class-item authority reference class in
      let here_it = found_accepted evidence.items reference distinct known found in
      (item, here_it.0, here_it.1, here_it.2, class_ok)

  check_reference-IsCitable :
      (authority : SchoolAuthority) (reference : String)
      → check_reference profile manifest evidence authority reference ≡ ok tt
      → IsCitable profile manifest evidence authority reference
  unfolding check_reference
  check_reference-IsCitable authority reference h =
      let (known, class) =
        bail_if-ok (not (admitted profile manifest evidence reference)) unknown_evidence
          (check_class profile manifest evidence authority reference) h in
      check_class-IsCitable authority reference (ground (arith, known)) class

  check_closure_cases :
      (rule : Option String) (refs : List String)
      → check_closure profile manifest evidence rule refs ≡ ok tt
      → ((rule ≡ none) × (is_empty refs ≡ true))
        ⊎ ((code : String) × (rule ≡ some code)
            × (contains profile.closure_rule_codes code ≡ true)
            × (is_empty refs ≡ false))
  check_closure_cases none refs h = inl (refl, ground (arith, h))
  check_closure_cases (some code) refs h = inr (code, refl, ground (arith, h), ground (arith, h))

  -- References that are admitted, and whose items are of a class.
  citable :
      (authority : SchoolAuthority) (refs : List String)
      → All (λ ref. admitted profile manifest evidence ref ≡ true) refs
      → try_each (check_class profile manifest evidence authority) refs ≡ ok tt
      → All (IsCitable profile manifest evidence authority) refs
  citable authority [] known class = tt
  citable authority (ref ∷ refs) known class =
      let (now, later) =
        >>-ok (check_class profile manifest evidence authority ref)
          (try_each (check_class profile manifest evidence authority) refs) class in
      (check_class-IsCitable authority ref known.0 now, citable authority refs known.1 later)

  check_decision-IsGroundedDecision :
      (authority : SchoolAuthority) (d : SchoolClaimDecision)
      → check_decision profile manifest evidence authority d ≡ ok tt
      → IsGroundedDecision profile manifest evidence authority d
  unfolding check_decision
  check_decision-IsGroundedDecision authority d h =
      let check = check_reference profile manifest evidence authority in
      let (refs, rule) =
        >>-ok (try_each check (d.evidence_refs ++ d.closure_evidence_refs))
          (check_closure profile manifest evidence d.closure_rule_code d.closure_evidence_refs) h in
      record {
        cited =
            try_each-All check (IsCitable profile manifest evidence authority)
              (check_reference-IsCitable authority) (d.evidence_refs ++ d.closure_evidence_refs)
              refs;
        closure = check_closure_cases d.closure_rule_code d.closure_evidence_refs rule;
      }

  check_residual-IsGroundedResidual :
      (authority : SchoolAuthority) (r : FinanceResidual)
      → check_residual profile manifest evidence authority r ≡ ok tt
      → IsGroundedResidual profile manifest evidence authority r
  unfolding check_residual
  check_residual-IsGroundedResidual authority r h =
      let known = contains (claim_ids manifest) in
      let in_evidence = admitted profile manifest evidence in
      let classes =
        try_each (check_class profile manifest evidence authority) r.closure_evidence_refs in
      let state = check_closure_state profile manifest evidence r.closure_state r in
      let rule =
        bail_if (unregistered profile manifest evidence r.closure_rule_code) unregistered_rule in
      let (cited, k1) =
        bail_if-ok
          (any (λ id. not (known id)) r.affected_claim_ids
            || any (λ ref. not (in_evidence ref)) r.closure_evidence_refs)
          unknown_claim_or_evidence (rule >> (classes >> state)) h in
      let (registered, k2) = >>-ok rule (classes >> state) k1 in
      let (class, closed) = >>-ok classes state k2 in
      record {
        affected = any-All known r.affected_claim_ids (ground (arith, cited));
        cited =
            citable authority r.closure_evidence_refs
              (any-All in_evidence r.closure_evidence_refs (ground (arith, cited))) class;
        closure = by_state r.closure_state r.closure_rule_code refl refl registered closed;
      }
    where
      by_state :
          (s : FinanceClosureState) (o : Option String)
          → r.closure_state ≡ s
          → r.closure_rule_code ≡ o
          → bail_if (unregistered profile manifest evidence o) unregistered_rule ≡ ok tt
          → check_closure_state profile manifest evidence s r ≡ ok tt
          → ((r.closure_state ≡ open_closure)
              × (r.closure_rule_code ≡ none)
              × (is_empty r.closure_evidence_refs ≡ true))
            ⊎ ((r.closure_state ≡ closed_closure)
                × (rule : String) × (r.closure_rule_code ≡ some rule)
                × (contains profile.closure_rule_codes rule ≡ true)
                × (is_empty r.closure_evidence_refs ≡ false))
      by_state open_closure none es eo g h = inl (es, eo, ground (arith, h, eo))
      by_state open_closure (some code) es eo g h = absurd (ground (arith, h, eo))
      by_state closed_closure none es eo g h = absurd (ground (arith, h, eo))
      by_state closed_closure (some code) es eo g h =
          inr (es, code, eo, ground (arith, g), ground (arith, h, eo))

  check_output-IsGrounded :
      (output : SchoolLaneOutput)
      → check_output profile manifest evidence output ≡ ok tt
      → IsGrounded profile manifest evidence output
  unfolding check_output
  check_output-IsGrounded output h =
      let wrong =
        not (distinct_count (decided_ids output) == length output.decisions)
        || not (same_set (decided_ids output) (claim_ids manifest)) in
      let fields =
        try_each (λ (d : SchoolClaimDecision). bail_if (not (fields_sorted d)) unsorted_field)
          output.decisions in
      let order = bail_if (not (residuals_sorted output.residuals)) unsorted_residuals in
      let decide = λ (a : SchoolAuthority).
        try_each (check_decision profile manifest evidence a) output.decisions in
      let close = λ (a : SchoolAuthority).
        try_each (check_residual profile manifest evidence a) output.residuals in
      let (a, looked, k1) =
        >>=-ok (context (authority_of profile output.school_id) no_authority)
          (λ (x : SchoolAuthority).
            bail_if wrong wrong_decision_set >> (fields >> (order >> (decide x >> close x))))
          h in
      let (right, k2) =
        bail_if-ok wrong wrong_decision_set (fields >> (order >> (decide a >> close a))) k1 in
      let (sorted, k3) = >>-ok fields (order >> (decide a >> close a)) k2 in
      let (_, k4) = >>-ok order (decide a >> close a) k3 in
      let (decided, closed) = >>-ok (decide a) (close a) k4 in
      record {
        authority = a;
        listed =
            (authority_of-In profile.schools output.school_id
              (context-ok (authority_of profile output.school_id) no_authority looked)).0;
        own =
            (authority_of-In profile.schools output.school_id
              (context-ok (authority_of profile output.school_id) no_authority looked)).1;
        complete = check_output-IsComplete profile manifest evidence output h;
        ordered = sorted_each output.decisions (
            bail_each-All (λ (d : SchoolClaimDecision). not (fields_sorted d)) unsorted_field
              output.decisions sorted);
        decisions =
            try_each-All (check_decision profile manifest evidence a)
              (IsGroundedDecision profile manifest evidence a) (check_decision-IsGroundedDecision a)
              output.decisions decided;
        residuals =
            try_each-All (check_residual profile manifest evidence a)
              (IsGroundedResidual profile manifest evidence a) (check_residual-IsGroundedResidual a)
              output.residuals closed;
      }

  -- If no reference of the evidence index has two items: each accepted output is of a school of the
  -- profile and decides every registered claim and no other, each once. What its decisions and its
  -- closed residuals cite are items of the index that are accepted and of a class that the school's
  -- authority takes; a decision or a residual is closed exactly by a registered rule together with
  -- such evidence; and the decisions list their references and codes in ascending order.
  pub validate_lane_claims_and_evidence-IsGrounded :
      (outputs : List SchoolLaneOutput)
      → validate_lane_claims_and_evidence profile manifest evidence outputs ≡ ok tt
      → All (IsGrounded profile manifest evidence) outputs
  unfolding validate_lane_claims_and_evidence
  validate_lane_claims_and_evidence-IsGrounded outputs h =
      try_each-All (check_output profile manifest evidence) (IsGrounded profile manifest evidence)
        check_output-IsGrounded outputs h
