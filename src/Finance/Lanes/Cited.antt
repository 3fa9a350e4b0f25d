-- ===== src/Finance/Lanes/Cited.antt =====
-- The evidence that a reference names, and the order of a decision's lists
-- (`validate_lane_claims_and_evidence` of src/finance.rs).
use quinte.Prelude.{
  String, ◌≡◌, subst, inl, inr, true, false, List, [], ◌∷◌, map, some, arith, In, here, there,
  Distinct, contains, find, eq_iff, str_eq, str_lt, Bool-cases,
}
use quinte.Prelude.Order.{Ascending, above_trans}
use quinte.Finance.Types.{
  EvidenceStatus, accepted, is_accepted, FinanceEvidenceItem, SchoolClaimDecision,
}
use quinte.Finance.Lanes.{admitted_refs, sorted, fields_sorted}

-- The references of an evidence index.
abbrev pub evidence_refs_of : List FinanceEvidenceItem → List String
evidence_refs_of items = map (λ (i : FinanceEvidenceItem). i.evidence_ref) items

admitted_refs-contains :
    (items : List FinanceEvidenceItem) (reference : String)
    → contains (admitted_refs items) reference ≡ true
    → contains (evidence_refs_of items) reference ≡ true
admitted_refs-contains [] reference h = h
admitted_refs-contains (i ∷ items) reference h = elim (Bool-cases (is_accepted i.status)) [
  | inl yes_it ↦ ground (arith, h, yes_it, admitted_refs-contains items reference)
  | inr no_it ↦ ground (arith, h, no_it, admitted_refs-contains items reference)
]

is_accepted-≡ : (s : EvidenceStatus) → is_accepted s ≡ true → s ≡ accepted
is_accepted-≡ s h = ground arith

status :
    (i : FinanceEvidenceItem) (items : List FinanceEvidenceItem) (reference : String)
    → str_eq i.evidence_ref reference ≡ true
    → contains (evidence_refs_of items) i.evidence_ref ≡ false
    → contains (admitted_refs (i ∷ items)) reference ≡ true
    → i.status ≡ accepted
status i items reference own distinct known = elim (Bool-cases (is_accepted i.status)) [
  | inl taken ↦ is_accepted-≡ i.status taken
  | inr other ↦
      let same = (eq_iff i.evidence_ref reference).0 own in
      let again : contains (evidence_refs_of items) reference ≡ true =
        admitted_refs-contains items reference (ground (arith, known, other)) in
      let never : contains (evidence_refs_of items) reference ≡ false =
        subst (λ r. contains (evidence_refs_of items) r ≡ false) same distinct in
      absurd (cc (again, never))
]

-- The first item of a reference is the accepted one, if no reference has two items.
pub found_accepted :
    (items : List FinanceEvidenceItem) (reference : String) {item : FinanceEvidenceItem}
    → Distinct (evidence_refs_of items)
    → contains (admitted_refs items) reference ≡ true
    → find (λ (i : FinanceEvidenceItem). str_eq i.evidence_ref reference) items ≡ some item
    → In item items × (item.evidence_ref ≡ reference) × (item.status ≡ accepted)
found_accepted [] reference distinct known found = absurd (cc)
found_accepted (i ∷ items) reference {item = item} distinct known found =
    elim (Bool-cases (str_eq i.evidence_ref reference)) [
      | inl own ↦
          let same : i ≡ item = ground (arith, found, own) in
          subst
            (λ (x : FinanceEvidenceItem).
              In x (i ∷ items) × (x.evidence_ref ≡ reference) × (x.status ≡ accepted))
            same
            (
              here,
              (eq_iff i.evidence_ref reference).0 own,
              status i items reference own distinct.0 known,
            )
      | inr other ↦
          let later =
            found_accepted items reference {item = item} distinct.1 (ground (arith, known, other))
              (ground (arith, found, other)) in
          (there later.0, later.1, later.2)
    ]

sorted-Ascending : (l : List String) → sorted l ≡ true → Ascending l
sorted-Ascending [] h = tt
sorted-Ascending (x ∷ []) h = (tt, tt)
sorted-Ascending (x ∷ y ∷ l) h =
    let ih = sorted-Ascending (y ∷ l) (ground (arith, h)) in
    let less : str_lt x y ≡ true = ground (arith, h) in ((less, above_trans x y l less ih.0), ih)

-- A decision lists its references and its codes in strictly ascending order.
pub record IsOrdered (d : SchoolClaimDecision) : Type 0 where
  pub evidence_refs : Ascending d.evidence_refs
  pub alternative_codes : Ascending d.alternative_codes
  pub confounder_codes : Ascending d.confounder_codes
  pub falsifier_codes : Ascending d.falsifier_codes
  pub invalidation_codes : Ascending d.invalidation_codes
  pub limitation_codes : Ascending d.limitation_codes
  pub missing_evidence_codes : Ascending d.missing_evidence_codes
  pub closure_evidence_refs : Ascending d.closure_evidence_refs

pub fields_sorted-IsOrdered : (d : SchoolClaimDecision) → fields_sorted d ≡ true → IsOrdered d
fields_sorted-IsOrdered d h = record {
  evidence_refs = sorted-Ascending d.evidence_refs (ground (arith, h));
  alternative_codes = sorted-Ascending d.alternative_codes (ground (arith, h));
  confounder_codes = sorted-Ascending d.confounder_codes (ground (arith, h));
  falsifier_codes = sorted-Ascending d.falsifier_codes (ground (arith, h));
  invalidation_codes = sorted-Ascending d.invalidation_codes (ground (arith, h));
  limitation_codes = sorted-Ascending d.limitation_codes (ground (arith, h));
  missing_evidence_codes = sorted-Ascending d.missing_evidence_codes (ground (arith, h));
  closure_evidence_refs = sorted-Ascending d.closure_evidence_refs (ground (arith, h));
}
