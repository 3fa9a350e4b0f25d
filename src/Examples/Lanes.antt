-- ===== src/Examples/Lanes.antt =====
-- Contested lanes and repaired references (src/run.rs).
use quinte.Prelude.{
  ◌+◌, ◌≤◌, String, ◌≡◌, refl, ◌↔◌, ◌⊎◌, true, false, List, [], ◌∷◌, map, some, ok, err, All,
  Distinct, contains, codes, trim, trim_start, is_whitespace,
}
use quinte.Model.Lanes.{
  below_half, unresolved, open_closure, Residual, Claim, LaneOutput, ArbiterVerdict, LaneAccepted,
}
use quinte.Prelude.Keyed
use quinte.Run.Contest.{
  verdicts_differ, insert_all, update_all, any_conflict, dispositions_conflict, mark_against,
  mark_pairs, mark_unsupported, attest_lane, attestations, omitting, mark_asymmetric, marks,
  flagged, r1_contestation,
}
use quinte.Run.Contest.Unanimous.{IsUnanimous, uncontested_iff_IsUnanimous}
use quinte.Run.Evidence.{
  duplicate_id, unique_ids_from, validate_unique_ids, validate_unique_claim_ids,
  validate_unique_residual_ids, validate_evidence_reference, fill_row, rows, first_row, last_or,
  levenshtein, scan_refs, best_ref_remap, remap_reference, remap_evidence_refs, remap_residual,
  remap_residuals, remap_claims, validate_residual_evidence_refs, validate_arbiter_semantics,
  validate_evidence_refs,
}
use quinte.Run.Evidence.Distance.{edit, reverse_onto, levenshtein-eq-edit}
use quinte.Run.Evidence.Repair.{best_ref_remap_sound}
use quinte.Run.Evidence.Resolve.{
  Resolves, ResidualResolves, validate_arbiter_semantics_sound, validate_evidence_refs_sound,
}
use quinte.Examples.Inputs.{lane, residual, five_lanes, verdict}

abbrev two_verdicts : List LaneAccepted
two_verdicts =
    lane "Party A" "a" "Hold" []
    ∷ lane "Party B" "b" "Ship" []
    ∷ lane "Party C" "c" " Hold " []
    ∷ []

uncontested_iff_IsUnanimous_example : (r1_contestation five_lanes ≡ []) ↔ IsUnanimous five_lanes
uncontested_iff_IsUnanimous_example = uncontested_iff_IsUnanimous five_lanes

differ : verdicts_differ (lane "Party A" "a" "Hold" []) (lane "Party B" "b" "Ship" []) ≡ true
unfolding verdicts_differ trim trim_start is_whitespace
differ = refl

-- Five lanes that agree are not contested; with two verdicts among three, every lane is.
five_uncontested : r1_contestation five_lanes ≡ []
unfolding r1_contestation flagged marks mark_pairs mark_against verdicts_differ
    dispositions_conflict insert_all update_all any_conflict mark_unsupported mark_asymmetric
    attestations attest_lane omitting below_half trim trim_start is_whitespace Keyed.get
    Keyed.insert
five_uncontested = refl

three_contested : r1_contestation two_verdicts ≡ 0 ∷ 1 ∷ 2 ∷ []
unfolding r1_contestation flagged marks mark_pairs mark_against verdicts_differ
    dispositions_conflict insert_all update_all any_conflict mark_unsupported mark_asymmetric
    attestations attest_lane omitting below_half trim trim_start is_whitespace Keyed.get
    Keyed.insert
three_contested = refl

abbrev snapshot : List String
snapshot = "snapshot://src/lib.rs" ∷ "snapshot://tests/run_end_to_end.rs" ∷ []

two_of_one : validate_unique_ids ("C-1" ∷ "C-2" ∷ "C-1" ∷ []) ≡ err (duplicate_id "C-1")
unfolding validate_unique_ids unique_ids_from
two_of_one = refl

levenshtein-eq-edit_example :
    levenshtein (codes "kitten") (codes "sitting")
    ≡ edit (reverse_onto (codes "kitten") []) (reverse_onto (codes "sitting") [])
levenshtein-eq-edit_example = levenshtein-eq-edit (codes "kitten") (codes "sitting")

kitten : levenshtein (codes "kitten") (codes "sitting") ≡ 3
unfolding levenshtein rows first_row fill_row last_or
kitten = refl

remapped : best_ref_remap "snapshot://src/lib.rz" snapshot ≡ some "snapshot://src/lib.rs"
unfolding best_ref_remap scan_refs levenshtein rows first_row fill_row last_or
remapped = refl

best_ref_remap_sound_example :
    (contains snapshot "snapshot://src/lib.rz" ≡ false)
    × (contains snapshot "snapshot://src/lib.rs" ≡ true)
    × (levenshtein (codes "snapshot://src/lib.rz") (codes "snapshot://src/lib.rs") ≤ 3)
    × All
        (λ x.
          (x ≡ "snapshot://src/lib.rs")
          ⊎ (levenshtein (codes "snapshot://src/lib.rz") (codes "snapshot://src/lib.rs") + 3
              ≤ levenshtein (codes "snapshot://src/lib.rz") (codes x)))
        snapshot
best_ref_remap_sound_example = best_ref_remap_sound "snapshot://src/lib.rz" snapshot remapped

abbrev output : LaneOutput
output = (lane "Party A" "a" "Hold" (residual "R-1" unresolved open_closure ∷ [])).output

abbrev repaired_output : LaneOutput × List (String × String)
repaired_output = (
  record output {
    claims =
        map (λ (c : Claim). record c { evidence_refs = "snapshot://src/lib.rs" ∷ [] })
          output.claims;
  },
  ("snapshot://src/lib.rz", "snapshot://src/lib.rs") ∷ [],
)

output_accepted : validate_evidence_refs snapshot output ≡ ok repaired_output
unfolding validate_evidence_refs validate_unique_claim_ids validate_unique_residual_ids
    validate_unique_ids unique_ids_from remap_claims remap_residuals remap_residual
    remap_evidence_refs remap_reference best_ref_remap scan_refs levenshtein rows first_row fill_row
    last_or validate_evidence_reference
output_accepted = refl

validate_evidence_refs_sound_example :
    Distinct (map (λ (c : Claim). c.id) output.claims)
    × Distinct (map (λ (r : Residual). r.id) output.residuals)
    × All (λ (c : Claim). All (Resolves snapshot) c.evidence_refs) repaired_output.0.claims
    × All (λ (r : Residual). All (Resolves snapshot) r.evidence_refs) repaired_output.0.residuals
    × All (λ (r : Residual). All (Resolves snapshot) r.closure_evidence) repaired_output.0.residuals
validate_evidence_refs_sound_example = validate_evidence_refs_sound snapshot output output_accepted

abbrev finding : ArbiterVerdict
finding = verdict (residual "R-1" unresolved open_closure ∷ [])

finding_accepted : validate_arbiter_semantics snapshot finding ≡ ok (finding, [])
unfolding validate_arbiter_semantics validate_residual_evidence_refs validate_unique_residual_ids
    validate_unique_ids unique_ids_from remap_residuals remap_residual remap_evidence_refs
    remap_reference best_ref_remap validate_evidence_reference
finding_accepted = refl

validate_arbiter_semantics_sound_example :
    Distinct (map (λ (r : Residual). r.id) finding.residuals)
    × (finding ≡ record finding { residuals = (remap_residuals snapshot finding.residuals).0 })
    × All (ResidualResolves snapshot) finding.residuals
validate_arbiter_semantics_sound_example =
    validate_arbiter_semantics_sound snapshot finding finding_accepted
