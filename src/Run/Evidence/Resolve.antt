-- ===== src/Run/Evidence/Resolve.antt =====
-- What an accepted lane output or verdict satisfies (`validate_evidence_refs` and
-- `validate_arbiter_semantics` of src/run.rs).
use quinte.Prelude.{
  try_each-All, String, ◌≡◌, refl, sym, ap, subst, ◌∙◌, ◌↔◌, ◌⊎◌, true, false, List, [], ◌∷◌, ◌++◌,
  map, ok, try_each, >>-ok, >>=-ok, arith, All, Distinct, contains, eq_iff,
}
use quinte.Model.Lanes.{Residual, Claim, LaneOutput, ArbiterVerdict}
use quinte.Run.Evidence.{
  unique_ids_from, validate_unique_ids, validate_unique_claim_ids, validate_unique_residual_ids,
  validate_evidence_reference, check_refs, remap_residuals, remap_claims,
  validate_residual_evidence_refs, validate_arbiter_semantics, validate_evidence_refs,
}

abbrev FreshFrom : List String → List String → Type 0
FreshFrom seen = All (λ id. contains seen id ≡ false)

not_contains :
    (id : String) (seen ids : List String) → FreshFrom (id ∷ seen) ids → contains ids id ≡ false
not_contains id seen [] h = refl
not_contains id seen (x ∷ ids) h =
    ground (arith, eq_iff id x, eq_iff x id, not_contains id seen ids h.1, h.0)

FreshFrom-tail :
    (id : String) (seen ids : List String) → FreshFrom (id ∷ seen) ids → FreshFrom seen ids
FreshFrom-tail id seen [] h = tt
FreshFrom-tail id seen (x ∷ ids) h = (ground (arith, h.0), FreshFrom-tail id seen ids h.1)

FreshFrom-cons :
    (id : String) (seen ids : List String)
    → contains ids id ≡ false
    → FreshFrom seen ids
    → FreshFrom (id ∷ seen) ids
FreshFrom-cons id seen [] c h = tt
FreshFrom-cons id seen (x ∷ ids) c h = (
  ground (arith, eq_iff id x, eq_iff x id, h.0),
  FreshFrom-cons id seen ids (ground (arith, c)) h.1,
)

unique_ids_from_iff :
    (seen ids : List String)
    → (unique_ids_from seen ids ≡ ok tt) ↔ (Distinct ids × FreshFrom seen ids)
unfolding unique_ids_from
unique_ids_from_iff seen [] = (λ h. (tt, tt), λ h. refl)
unique_ids_from_iff seen (id ∷ ids) =
    let ih = unique_ids_from_iff (id ∷ seen) ids in
    (
      λ h.
          let rest = ih.0 (>>-ok _ _ h).1 in
          (
            (not_contains id seen ids rest.1, rest.0),
            (ground (arith, h), FreshFrom-tail id seen ids rest.1),
          ),
      λ h. rw (h.1.0) (ih.1 (h.0.1, FreshFrom-cons id seen ids h.0.0 h.1.1)),
    )

-- The check for duplicates accepts exactly the lists whose members are pairwise distinct.
pub validate_unique_ids_iff : (ids : List String) → (validate_unique_ids ids ≡ ok tt) ↔ Distinct ids
unfolding validate_unique_ids
validate_unique_ids_iff ids = (
  λ h. ((unique_ids_from_iff [] ids).0 h).0,
  λ d. (unique_ids_from_iff [] ids).1 (d, nothing_seen ids),
)
  where
    nothing_seen : (l : List String) → FreshFrom [] l
    nothing_seen [] = tt
    nothing_seen (x ∷ l) = (refl, nothing_seen l)

-- A reference that resolves: it is empty, or in the snapshot.
abbrev pub Resolves : List String → String → Type 0
Resolves valid reference = (reference ≡ "") ⊎ (contains valid reference ≡ true)

validate_evidence_reference-Resolves :
    (valid : List String) (reference : String)
    → validate_evidence_reference valid reference ≡ ok tt
    → Resolves valid reference
unfolding validate_evidence_reference
validate_evidence_reference-Resolves valid reference h = ground (arith, eq_iff reference "")

check_refs-Resolves :
    (valid refs : List String) → check_refs valid refs ≡ ok tt → All (Resolves valid) refs
check_refs-Resolves valid [] h = tt
check_refs-Resolves valid (r ∷ refs) h =
    let parts = >>-ok _ _ h in
    (validate_evidence_reference-Resolves valid r parts.0, check_refs-Resolves valid refs parts.1)

All-append_split {ℓ} :
    {A : Type ℓ} (P : A → Type 0) (l m : List A) → All P (l ++ m) → All P l × All P m
All-append_split P [] m h = (tt, h)
All-append_split P (x ∷ l) m h = let ih = All-append_split P l m h.1 in ((h.0, ih.0), ih.1)

-- Both reference lists of a residual resolve.
abbrev pub ResidualResolves : List String → Residual → Type 0
ResidualResolves valid r =
    All (Resolves valid) r.evidence_refs × All (Resolves valid) r.closure_evidence

unique_residuals :
    (residuals : List Residual)
    → validate_unique_residual_ids residuals ≡ ok tt
    → Distinct (map (λ (r : Residual). r.id) residuals)
unfolding validate_unique_residual_ids
unique_residuals residuals h =
    (validate_unique_ids_iff (map (λ (r : Residual). r.id) residuals)).0 h

unique_claims :
    (claims : List Claim)
    → validate_unique_claim_ids claims ≡ ok tt
    → Distinct (map (λ (c : Claim). c.id) claims)
unfolding validate_unique_claim_ids
unique_claims claims h = (validate_unique_ids_iff (map (λ (c : Claim). c.id) claims)).0 h

refs-ResidualResolves :
    (valid : List String) (r : Residual)
    → check_refs valid (r.evidence_refs ++ r.closure_evidence) ≡ ok tt
    → ResidualResolves valid r
refs-ResidualResolves valid r h =
    All-append_split (Resolves valid) r.evidence_refs r.closure_evidence
      (check_refs-Resolves valid (r.evidence_refs ++ r.closure_evidence) h)

residuals-Resolve :
    (valid : List String) (residuals : List Residual)
    {done : List Residual × List (String × String)}
    → validate_residual_evidence_refs valid residuals ≡ ok done
    → (done ≡ remap_residuals valid residuals) × All (ResidualResolves valid) done.0
unfolding validate_residual_evidence_refs
residuals-Resolve valid residuals {done} h =
    let refs = λ (r : Residual). check_refs valid (r.evidence_refs ++ r.closure_evidence) in
    let parts = >>-ok (try_each refs (remap_residuals valid residuals).0) _ h in
    let same : remap_residuals valid residuals ≡ done = ground arith in
    (
      sym same,
      subst (λ (d : List Residual × List (String × String)). All (ResidualResolves valid) d.0) same
          (try_each-All refs (ResidualResolves valid) (refs-ResidualResolves valid)
            (remap_residuals valid residuals).0 parts.0),
    )

-- An accepted verdict has distinct residual ids, and every reference that stands in it after the
-- repairs is empty or in the snapshot. Only the residuals are changed, by the repairs.
pub validate_arbiter_semantics_sound :
    (valid : List String) (verdict : ArbiterVerdict)
    {done : ArbiterVerdict × List (String × String)}
    → validate_arbiter_semantics valid verdict ≡ ok done
    → Distinct (map (λ (r : Residual). r.id) verdict.residuals)
      × (done.0 ≡ record verdict { residuals = (remap_residuals valid verdict.residuals).0 })
      × All (ResidualResolves valid) done.0.residuals
unfolding validate_arbiter_semantics
validate_arbiter_semantics_sound valid verdict {done} h =
    let first = >>-ok (validate_unique_residual_ids verdict.residuals) _ h in
    let (found, checked, last) =
      >>=-ok (validate_residual_evidence_refs valid verdict.residuals) _ first.1 in
    let (same, resolve) = residuals-Resolve valid verdict.residuals checked in
    let e : record verdict { residuals = found.0 } ≡ done.0 = ground (arith, last) in
    (
      unique_residuals verdict.residuals first.0,
      sym e
          ∙ ap (λ (d : List Residual × List (String × String)). record verdict { residuals = d.0 })
              same,
      subst (λ (v : ArbiterVerdict). All (ResidualResolves valid) v.residuals) e resolve,
    )

-- An accepted lane output has distinct claim ids and distinct residual ids, and every reference that
-- stands in it after the repairs, of a claim or of a residual, is empty or in the snapshot.
pub validate_evidence_refs_sound :
    (valid : List String) (output : LaneOutput) {done : LaneOutput × List (String × String)}
    → validate_evidence_refs valid output ≡ ok done
    → Distinct (map (λ (c : Claim). c.id) output.claims)
      × Distinct (map (λ (r : Residual). r.id) output.residuals)
      × All (λ (c : Claim). All (Resolves valid) c.evidence_refs) done.0.claims
      × All (λ (r : Residual). All (Resolves valid) r.evidence_refs) done.0.residuals
      × All (λ (r : Residual). All (Resolves valid) r.closure_evidence) done.0.residuals
unfolding validate_evidence_refs
validate_evidence_refs_sound valid output {done} h =
    let claim_refs = λ (c : Claim). check_refs valid c.evidence_refs in
    let residual_refs = λ (r : Residual). check_refs valid r.evidence_refs in
    let closure_refs = λ (r : Residual). check_refs valid r.closure_evidence in
    let claims = (remap_claims valid output.claims).0 in
    let residuals = (remap_residuals valid output.residuals).0 in
    let a = >>-ok (validate_unique_claim_ids output.claims) _ h in
    let b = >>-ok (validate_unique_residual_ids output.residuals) _ a.1 in
    let c = >>-ok (try_each claim_refs claims) _ b.1 in
    let d = >>-ok (try_each residual_refs residuals) _ c.1 in
    let e = >>-ok (try_each closure_refs residuals) _ d.1 in
    let same_claims : claims ≡ done.0.claims = ground (arith, e.1) in
    let same_residuals : residuals ≡ done.0.residuals = ground (arith, e.1) in
    (
      unique_claims output.claims a.0,
      unique_residuals output.residuals b.0,
      subst (All (λ (x : Claim). All (Resolves valid) x.evidence_refs)) same_claims (
          try_each-All claim_refs (λ (x : Claim). All (Resolves valid) x.evidence_refs)
            (λ x. check_refs-Resolves valid x.evidence_refs) claims c.0),
      subst (All (λ (x : Residual). All (Resolves valid) x.evidence_refs)) same_residuals (
          try_each-All residual_refs (λ (x : Residual). All (Resolves valid) x.evidence_refs)
            (λ x. check_refs-Resolves valid x.evidence_refs) residuals d.0),
      subst (All (λ (x : Residual). All (Resolves valid) x.closure_evidence)) same_residuals (
          try_each-All closure_refs (λ (x : Residual). All (Resolves valid) x.closure_evidence)
            (λ x. check_refs-Resolves valid x.closure_evidence) residuals e.0),
    )
