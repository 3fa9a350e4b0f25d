-- ===== src/Run/Evidence.antt =====
-- The evidence references of a lane or an arbiter (`validate_unique_ids` to
-- `validate_evidence_refs` of src/run.rs): near misses are repaired, anything else must resolve.
pub mod Distance
pub mod Repair
pub mod Resolve
use quinte.Prelude.{
  ℕ, zero, suc, ◌+◌, min, String, ◌≡◌, Bool, true, false, not, ◌&&◌, ◌||◌, List, [], ◌∷◌, ◌++◌, map,
  Option, none, some, Result, ok, err, ◌>>=◌, ◌>>◌, bail_if, try_each, leb, ltb, ◌==◌, str_eq,
  codes, if◌then◌else◌, contains,
}
use text.Mathlib.Text.{starts_with}
use quinte.Model.Lanes.{Residual, Claim, LaneOutput, ArbiterVerdict}

pub data EvidenceError : Type 0 where
  duplicate_id unresolvable_reference : String → EvidenceError

-- `validate_unique_ids`, with the ids seen so far.
unfoldable pub unique_ids_from : List String → List String → Result EvidenceError (Unit {0})
unique_ids_from seen [] = ok tt
unique_ids_from seen (id ∷ ids) =
    bail_if (contains seen id) (duplicate_id id) >> unique_ids_from (id ∷ seen) ids

unfoldable pub validate_unique_ids : List String → Result EvidenceError (Unit {0})
unfolding unique_ids_from
validate_unique_ids ids = unique_ids_from [] ids

unfoldable pub validate_unique_claim_ids : List Claim → Result EvidenceError (Unit {0})
validate_unique_claim_ids claims = validate_unique_ids (map (λ (c : Claim). c.id) claims)

unfoldable pub validate_unique_residual_ids : List Residual → Result EvidenceError (Unit {0})
validate_unique_residual_ids residuals =
    validate_unique_ids (map (λ (r : Residual). r.id) residuals)

unfoldable pub validate_evidence_reference : List String → String → Result EvidenceError (Unit {0})
validate_evidence_reference valid reference =
    if str_eq reference ""
    then ok tt
    else bail_if (not (contains valid reference)) (unresolvable_reference reference)

-- `usize::from(ca != *cb)`.
abbrev pub cost : ℕ → ℕ → ℕ
cost a b = if a == b then 0 else 1

-- The inner loop of `levenshtein`: the entries of `curr` after one at `left`, from those of `prev`.
unfoldable pub fill_row : ℕ → ℕ → List ℕ → List ℕ → List ℕ
fill_row ca left prev [] = []
fill_row ca left [] (cb ∷ bs) = []
fill_row ca left (p ∷ []) (cb ∷ bs) = []
fill_row ca left (p ∷ above ∷ prev) (cb ∷ bs) =
    let entry = min (min (p + cost ca cb) (above + 1)) (left + 1) in
    entry ∷ fill_row ca entry (above ∷ prev) bs

-- The outer loop; the number of rounds done is `i`.
unfoldable pub rows : ℕ → List ℕ → List ℕ → List ℕ → List ℕ
unfolding fill_row
rows i [] prev bs = prev
rows i (ca ∷ rest) prev bs = rows (i + 1) rest ((i + 1) ∷ fill_row ca (i + 1) prev bs) bs

-- `(0..=b.len()).collect()`, from a number on.
unfoldable pub first_row : ℕ → List ℕ → List ℕ
first_row n [] = n ∷ []
first_row n (b ∷ bs) = n ∷ first_row (n + 1) bs

-- `prev[b.len()]`, the last entry.
unfoldable pub last_or : ℕ → List ℕ → ℕ
last_or d [] = d
last_or d (x ∷ xs) = last_or x xs

unfoldable pub levenshtein : List ℕ → List ℕ → ℕ
unfolding rows first_row last_or
levenshtein a b = last_or 0 (rows 0 a (first_row 0 b) b)

abbrev pub usize_max : ℕ
usize_max = 18446744073709551615

-- The loop of `best_ref_remap`, with `best` and `second`.
abbrev pub second_after : Option (String × ℕ) → ℕ → ℕ
second_after none second = second
second_after (some (_, d)) second = d

abbrev pub improves : Option (String × ℕ) → ℕ → Bool
improves none distance = true
improves (some (_, d)) distance = ltb distance d

unfoldable pub scan_refs :
    (String → ℕ) → Option (String × ℕ) → ℕ → List String → Option (String × ℕ) × ℕ
scan_refs distance best second [] = (best, second)
scan_refs distance best second (c ∷ cs) =
    let d = distance c in
    scan_refs distance (if improves best d then some (c, d) else best)
      (if improves best d then second_after best second else if ltb d second then d else second) cs

abbrev accept_best : Option (String × ℕ) × ℕ → Option String
accept_best (none, second) = none
accept_best (some (c, d), second) = if leb d 3 && leb (d + 3) second then some c else none

unfoldable pub best_ref_remap : String → List String → Option String
unfolding scan_refs levenshtein
best_ref_remap reference valid =
    if contains valid reference
    then none
    else accept_best (scan_refs (λ c. levenshtein (codes reference) (codes c)) none usize_max valid)

-- One reference of `remap_evidence_refs`: what stands in its place, and the repair if there is one.
abbrev repaired : String → Option String → String × List (String × String)
repaired reference none = (reference, [])
repaired reference (some found) = (found, (reference, found) ∷ [])

unfoldable pub remap_reference : List String → String → String × List (String × String)
remap_reference valid reference =
    if str_eq reference ""
      || not (starts_with reference "snapshot://" || starts_with reference "attachment://")
    then (reference, [])
    else repaired reference (best_ref_remap reference valid)

-- The new references, and the repairs in order.
unfoldable pub remap_evidence_refs :
    List String → List String → List String × List (String × String)
remap_evidence_refs valid [] = ([], [])
remap_evidence_refs valid (reference ∷ refs) =
    let (new, repairs) = remap_reference valid reference in
    let (news, more) = remap_evidence_refs valid refs in (new ∷ news, repairs ++ more)

unfoldable pub remap_residual : List String → Residual → Residual × List (String × String)
remap_residual valid r =
    let (refs, repairs) = remap_evidence_refs valid r.evidence_refs in
    let (closure, more) = remap_evidence_refs valid r.closure_evidence in
    (record r { evidence_refs = refs; closure_evidence = closure }, repairs ++ more)

unfoldable pub remap_residuals :
    List String → List Residual → List Residual × List (String × String)
remap_residuals valid [] = ([], [])
remap_residuals valid (r ∷ rs) =
    let (r', repairs) = remap_residual valid r in
    let (rs', more) = remap_residuals valid rs in (r' ∷ rs', repairs ++ more)

unfoldable pub remap_claims : List String → List Claim → List Claim × List (String × String)
remap_claims valid [] = ([], [])
remap_claims valid (c ∷ cs) =
    let (refs, repairs) = remap_evidence_refs valid c.evidence_refs in
    let (cs', more) = remap_claims valid cs in
    (record c { evidence_refs = refs } ∷ cs', repairs ++ more)

abbrev pub check_refs : List String → List String → Result EvidenceError (Unit {0})
check_refs valid = try_each (validate_evidence_reference valid)

-- `valid` is the set that `allowed_evidence_refs` reads from the snapshot manifest, in its order.
-- The functions return the changed value with the repairs.
unfoldable pub validate_residual_evidence_refs :
    List String → List Residual → Result EvidenceError (List Residual × List (String × String))
validate_residual_evidence_refs valid residuals = do
  let done = remap_residuals valid residuals
  try_each (λ (r : Residual). check_refs valid (r.evidence_refs ++ r.closure_evidence)) done.0
  ok done

unfoldable pub validate_arbiter_semantics :
    List String → ArbiterVerdict → Result EvidenceError (ArbiterVerdict × List (String × String))
validate_arbiter_semantics valid verdict = do
  validate_unique_residual_ids verdict.residuals
  done ← validate_residual_evidence_refs valid verdict.residuals
  ok (record verdict { residuals = done.0 }, done.1)

unfoldable pub validate_evidence_refs :
    List String → LaneOutput → Result EvidenceError (LaneOutput × List (String × String))
validate_evidence_refs valid output = do
  validate_unique_claim_ids output.claims
  validate_unique_residual_ids output.residuals
  let claims = remap_claims valid output.claims
  let residuals = remap_residuals valid output.residuals
  try_each (λ (c : Claim). check_refs valid c.evidence_refs) claims.0
  try_each (λ (r : Residual). check_refs valid r.evidence_refs) residuals.0
  try_each (λ (r : Residual). check_refs valid r.closure_evidence) residuals.0
  ok (record output { claims = claims.0; residuals = residuals.0 }, claims.1 ++ residuals.1)
