-- ===== src/Finance/Posture/Publish.antt =====
-- When `publication_posture` of src/finance.rs publishes, and which reasons it can give.
use quinte.Prelude.{
  String, ◌≡◌, refl, ◌↔◌, inl, inr, Bool, true, false, not, ◌&&◌, List, [], ◌∷◌, any, is_empty,
  str_lt, arith, All, Bool-cases, ◌==◌, ltb,
}
use quinte.Finance.Types.{
  ApplicabilityMode, mandatory, conditional, out_of_scope, is_accepted, accepted,
  FinanceEvidenceItem, FinanceEvidenceIndex, PrimaryAuthority, is_clear, clear,
  FoldedSchoolDecision, publish_bounded, abstain, PostureReason, invalid_not_applicable,
  SchoolDisposition, mandatory_school_not_clear, conditional_school_not_clear, primary_not_accepted,
  primary_expired, primary_provenance_incomplete, evidence_provenance_incomplete,
  open_material_residual, active_invalidation,
}
use quinte.Finance.Posture.{
  reason_rank, insert_reason, insert_if, match_decision, decision_reasons, posture_reasons,
  publication_posture,
}

-- A folded decision that stands in no way of publication.
abbrev pub Permits : FoldedSchoolDecision → Type 0
Permits d =
    (d.applicability ≡ mandatory → d.disposition ≡ clear)
    × (d.applicability ≡ conditional → d.blocking ≡ false)

insert_reason-ne-nil :
    (r : PostureReason) (l : List PostureReason) → is_empty (insert_reason r l) ≡ false
unfolding insert_reason
insert_reason-ne-nil r [] = refl
insert_reason-ne-nil r (x ∷ l) = ground arith

insert_if_empty :
    (b : Bool) (r : PostureReason) (l : List PostureReason)
    → is_empty (insert_if b r l) ≡ (not b && is_empty l)
insert_if_empty true r l = insert_reason-ne-nil r l
insert_if_empty false r l = refl

abbrev permits : FoldedSchoolDecision → Bool
permits d = elim (d.applicability) [
  | mandatory ↦ is_clear d.disposition
  | conditional ↦ not d.blocking
  | out_of_scope ↦ true
]

permits_iff : (d : FoldedSchoolDecision) → (permits d ≡ true) ↔ Permits d
permits_iff d = (λ h. (λ m. ground arith, λ c. ground arith), λ h. ground (arith, h.0, h.1))

match_decision_empty :
    (m : ApplicabilityMode) (s : SchoolDisposition) (b : Bool) (l : List PostureReason)
    → is_empty (match_decision m s b l) ≡ (
        elim m [ mandatory ↦ is_clear s | conditional ↦ not b | out_of_scope ↦ true ] && is_empty l)
match_decision_empty mandatory s b l = ground (
  arith,
  insert_reason-ne-nil mandatory_school_not_clear l,
  insert_reason-ne-nil invalid_not_applicable l,
)
match_decision_empty conditional s b l =
    ground (arith, insert_reason-ne-nil conditional_school_not_clear l)
match_decision_empty out_of_scope s b l = refl

all_permit : List FoldedSchoolDecision → Bool
all_permit [] = true
all_permit (d ∷ ds) = permits d && all_permit ds

all_permit_iff : (ds : List FoldedSchoolDecision) → (all_permit ds ≡ true) ↔ All Permits ds
unfolding all_permit
all_permit_iff [] = (λ h. tt, λ h. refl)
all_permit_iff (d ∷ ds) =
    let one = permits_iff d in
    let ih = all_permit_iff ds in
    (
      λ h.
          let p : (permits d ≡ true) × (all_permit ds ≡ true) =
            (ground (arith, h), ground (arith, h)) in
          (one.0 p.0, ih.0 p.1),
      λ h. rw (one.1 h.0) (ih.1 h.1),
    )

decision_reasons_empty :
    (ds : List FoldedSchoolDecision) (l : List PostureReason)
    → is_empty (decision_reasons ds l) ≡ (all_permit ds && is_empty l)
unfolding decision_reasons all_permit
decision_reasons_empty [] l = refl
decision_reasons_empty (d ∷ ds) l = ground (
  arith,
  decision_reasons_empty ds (match_decision d.applicability d.disposition d.blocking l),
  match_decision_empty d.applicability d.disposition d.blocking l,
)

-- Every condition of publication.
pub record MayPublish (primary : PrimaryAuthority) (evidence : FinanceEvidenceIndex)
    (folded : List FoldedSchoolDecision) (open_residuals invalidations : List String) : Type 0 where
  pub status : primary.status ≡ accepted
  pub unexpired : str_lt primary.expiry_session primary.evaluation_session ≡ false
  pub provenance : primary.provenance_complete ≡ true
  pub items : any (λ (i : FinanceEvidenceItem). not i.provenance_complete) evidence.items ≡ false
  pub permitted : All Permits folded
  pub no_residual : is_empty open_residuals ≡ true
  pub no_invalidation : is_empty invalidations ≡ true

module _ (primary : PrimaryAuthority) (evidence : FinanceEvidenceIndex)
    (folded : List FoldedSchoolDecision) (open_residuals invalidations : List String) where
  incomplete : Bool
  incomplete = any (λ (i : FinanceEvidenceItem). not i.provenance_complete) evidence.items

  reasons_empty :
      is_empty (posture_reasons primary evidence folded open_residuals invalidations) ≡ (
        is_empty invalidations
        && (is_empty open_residuals
            && (all_permit folded
                && (not incomplete
                    && (primary.provenance_complete
                        && (not (str_lt primary.expiry_session primary.evaluation_session)
                            && is_accepted primary.status))))))
  unfolding posture_reasons incomplete
  reasons_empty =
      let l1 = insert_if (not (is_accepted primary.status)) primary_not_accepted [] in
      let l2 =
        insert_if (str_lt primary.expiry_session primary.evaluation_session) primary_expired l1 in
      let l3 = insert_if (not primary.provenance_complete) primary_provenance_incomplete l2 in
      let l4 = insert_if incomplete evidence_provenance_incomplete l3 in
      let l5 = decision_reasons folded l4 in
      let l6 = insert_if (not (is_empty open_residuals)) open_material_residual l5 in
      ground (
        arith,
        insert_if_empty (not (is_empty invalidations)) active_invalidation l6,
        insert_if_empty (not (is_empty open_residuals)) open_material_residual l5,
        decision_reasons_empty folded l4,
        insert_if_empty incomplete evidence_provenance_incomplete l3,
        insert_if_empty (not primary.provenance_complete) primary_provenance_incomplete l2,
        insert_if_empty (str_lt primary.expiry_session primary.evaluation_session) primary_expired
            l1,
        insert_if_empty (not (is_accepted primary.status)) primary_not_accepted [],
      )

  -- A review is published exactly when the primary contract is accepted, not expired at the session
  -- and of complete provenance, every evidence item has complete provenance, every mandatory
  -- decision of the fold is clear and no conditional one blocks, and neither an open material
  -- residual nor an active invalidation is left. Otherwise the posture is to abstain.
  pub publish_iff :
      let decision = publication_posture primary evidence folded open_residuals invalidations in
      ((decision.posture ≡ publish_bounded)
        ↔ MayPublish primary evidence folded open_residuals invalidations)
      × ((decision.posture ≡ abstain)
          ↔ ¬ (MayPublish primary evidence folded open_residuals invalidations))
  unfolding publication_posture incomplete
  publish_iff =
      let e = reasons_empty in
      let permit = all_permit_iff folded in
      let fine : is_empty (posture_reasons primary evidence folded open_residuals invalidations)
            ≡ true
          → MayPublish primary evidence folded open_residuals invalidations =
        λ p. record {
          status = ground (arith, e, p);
          unexpired = ground (arith, e, p);
          provenance = ground (arith, e, p);
          items = ground (arith, e, p);
          permitted = permit.0 (ground (arith, e, p));
          no_residual = ground (arith, e, p);
          no_invalidation = ground (arith, e, p);
        } in
      let back : MayPublish primary evidence folded open_residuals invalidations
          → is_empty (posture_reasons primary evidence folded open_residuals invalidations) ≡ true =
        λ h. ground (
          arith,
          e,
          permit.1 h.permitted,
          h.status,
          h.unexpired,
          h.provenance,
          h.items,
          h.no_residual,
          h.no_invalidation,
        ) in
      (
        (λ p. fine (ground (arith, p)), λ h. ground (arith, back h)),
        (
          λ p h. ground (arith, back h, p),
          λ no.
              elim (Bool-cases
                (is_empty (posture_reasons primary evidence folded open_residuals invalidations))) [
                  | inl clean ↦ absurd (no (fine clean))
                  | inr other ↦ ground (arith, other)
                ],
        ),
      )

abbrev pub Other : PostureReason → Type 0
Other r = ¬ (r ≡ invalid_not_applicable)

insert_reason-Other :
    (r : PostureReason) (l : List PostureReason)
    → Other r
    → All Other l
    → All Other (insert_reason r l)
unfolding insert_reason
insert_reason-Other r [] o h = (o, tt)
insert_reason-Other r (x ∷ l) o h = elim (Bool-cases (reason_rank r == reason_rank x)) [
  | inl same ↦ rw same h
  | inr other ↦ elim (Bool-cases (ltb (reason_rank r) (reason_rank x))) [
    | inl less ↦ rw (other, less) (o, h)
    | inr more ↦ rw (other, more) (h.0, insert_reason-Other r l o h.1)
  ]
]

insert_if-Other :
    (b : Bool) (r : PostureReason) (l : List PostureReason)
    → Other r
    → All Other l
    → All Other (insert_if b r l)
insert_if-Other true r l o h = insert_reason-Other r l o h
insert_if-Other false r l o h = h

match_decision-Other :
    (m : ApplicabilityMode) (s : SchoolDisposition) (b : Bool) (l : List PostureReason)
    → All Other l
    → All Other (match_decision m s b l)
match_decision-Other mandatory clear b l h = h
match_decision-Other mandatory _ b l h =
    insert_reason-Other mandatory_school_not_clear l (λ e. cc) h
match_decision-Other conditional s true l h =
    insert_reason-Other conditional_school_not_clear l (λ e. cc) h
match_decision-Other conditional s false l h = h
match_decision-Other out_of_scope s b l h = h

decision_reasons-Other :
    (ds : List FoldedSchoolDecision) (l : List PostureReason)
    → All Other l
    → All Other (decision_reasons ds l)
unfolding decision_reasons
decision_reasons-Other [] l h = h
decision_reasons-Other (d ∷ ds) l h =
    decision_reasons-Other ds (match_decision d.applicability d.disposition d.blocking l)
      (match_decision-Other d.applicability d.disposition d.blocking l h)

-- No decision ever gives the reason that a mandatory school is invalidly not applicable: the arm for
-- it stands after one that takes every disposition other than clear.
pub publication_posture_never_invalid :
    (primary : PrimaryAuthority) (evidence : FinanceEvidenceIndex)
    (folded : List FoldedSchoolDecision) (open_residuals invalidations : List String)
    → All Other
        (publication_posture primary evidence folded open_residuals invalidations).reason_codes
unfolding publication_posture posture_reasons
publication_posture_never_invalid primary evidence folded open_residuals invalidations =
    let s = not (is_accepted primary.status) in
    let x = str_lt primary.expiry_session primary.evaluation_session in
    let c = not primary.provenance_complete in
    let i = any (λ (i : FinanceEvidenceItem). not i.provenance_complete) evidence.items in
    let l1 = insert_if s primary_not_accepted [] in
    let l2 = insert_if x primary_expired l1 in
    let l3 = insert_if c primary_provenance_incomplete l2 in
    let l4 = insert_if i evidence_provenance_incomplete l3 in
    let l5 = decision_reasons folded l4 in
    let l6 = insert_if (not (is_empty open_residuals)) open_material_residual l5 in
    let h1 : All Other l1 = insert_if-Other s primary_not_accepted [] (λ e. cc) tt in
    let h2 : All Other l2 = insert_if-Other x primary_expired l1 (λ e. cc) h1 in
    let h3 : All Other l3 = insert_if-Other c primary_provenance_incomplete l2 (λ e. cc) h2 in
    let h4 : All Other l4 = insert_if-Other i evidence_provenance_incomplete l3 (λ e. cc) h3 in
    let h6 : All Other l6 =
      insert_if-Other (not (is_empty open_residuals)) open_material_residual l5 (λ e. cc)
        (decision_reasons-Other folded l4 h4) in
    insert_if-Other (not (is_empty invalidations)) active_invalidation l6 (λ e. cc) h6
