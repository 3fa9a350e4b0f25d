-- ===== src/Run/Contest.antt =====
-- Which R1 outputs R2 re-examines (`r1_contestation` of src/run.rs). The source marks flags in four
-- passes; here each pass gives the list of indices that it marks, in the source's order.
pub mod Range
pub mod Entries
pub mod Stances
pub mod Reports
pub mod Skip
pub mod Unanimous
pub mod Reasons
use quinte.Prelude.{
  ℕ, zero, suc, ◌+◌, ◌/◌, String, Bool, true, false, not, ◌&&◌, ◌||◌, List, [], ◌∷◌, ◌++◌, Option,
  none, some, ltb, leb, ◌==◌, if◌then◌else◌, length, trim, codes_eq,
}
use quinte.Prelude.Keyed
use quinte.Prelude.Keyed.{Keyed}
use quinte.Model.Lanes.{
  F64, below_half, Disposition, disposition_eq, Residual, LaneOutput, LaneAccepted,
}

-- `r1.iter().enumerate()`, from an index on.
abbrev pub Indexed : Type 0
Indexed = ℕ × LaneAccepted

abbrev pub enumerate : ℕ → List LaneAccepted → List Indexed
enumerate i [] = []
enumerate i (lane ∷ lanes) = (i, lane) ∷ enumerate (i + 1) lanes

-- Rule 1.
unfoldable pub verdicts_differ : LaneAccepted → LaneAccepted → Bool
verdicts_differ a b = not (codes_eq (trim a.output.verdict) (trim b.output.verdict))

-- Rule 2: the dispositions of a residual id in two lanes. `by_id.insert` and `by_id.get_mut`.
unfoldable pub insert_all :
    List Residual → Keyed (Disposition × Disposition) → Keyed (Disposition × Disposition)
insert_all [] m = m
insert_all (r ∷ rs) m = insert_all rs (Keyed.insert r.id (r.disposition, r.disposition) m)

abbrev pub set_second :
    Residual
    → Option (Disposition × Disposition)
    → Keyed (Disposition × Disposition)
    → Keyed (Disposition × Disposition)
set_second r none m = m
set_second r (some (first, second)) m = Keyed.insert r.id (first, r.disposition) m

unfoldable pub update_all :
    List Residual → Keyed (Disposition × Disposition) → Keyed (Disposition × Disposition)
update_all [] m = m
update_all (r ∷ rs) m = update_all rs (set_second r (Keyed.get r.id m) m)

unfoldable pub any_conflict : Keyed (Disposition × Disposition) → Bool
any_conflict [] = false
any_conflict ((id, (a, b)) ∷ m) = not (disposition_eq a b) || any_conflict m

unfoldable pub dispositions_conflict : LaneAccepted → LaneAccepted → Bool
dispositions_conflict a b =
    any_conflict (update_all b.output.residuals (insert_all a.output.residuals []))

-- The loops `for i in 0..n { for j in (i + 1)..n { if test { mark i; mark j } } }`.
unfoldable pub mark_against : (LaneAccepted → LaneAccepted → Bool) → Indexed → List Indexed → List ℕ
mark_against test (i, a) [] = []
mark_against test (i, a) ((j, b) ∷ rest) =
    (if test a b then i ∷ j ∷ [] else []) ++ mark_against test (i, a) rest

unfoldable pub mark_pairs : (LaneAccepted → LaneAccepted → Bool) → List Indexed → List ℕ
mark_pairs test [] = []
mark_pairs test (lane ∷ lanes) = mark_against test lane lanes ++ mark_pairs test lanes

-- Rule 3: unsupported confidence.
unfoldable pub mark_unsupported : List Indexed → List ℕ
mark_unsupported [] = []
mark_unsupported ((i, lane) ∷ lanes) =
    (if below_half lane.output.confidence then i ∷ [] else []) ++ mark_unsupported lanes

-- Rule 4: the lanes that attest each residual id. `entry(id).or_default().push(i)`.
abbrev pub push : ℕ → Option (List ℕ) → List ℕ
push i none = i ∷ []
push i (some l) = l ++ i ∷ []

unfoldable pub attest_lane : ℕ → List Residual → Keyed (List ℕ) → Keyed (List ℕ)
attest_lane i [] m = m
attest_lane i (r ∷ rs) m = attest_lane i rs (Keyed.insert r.id (push i (Keyed.get r.id m)) m)

unfoldable pub attestations : List Indexed → Keyed (List ℕ) → Keyed (List ℕ)
attestations [] m = m
attestations ((i, lane) ∷ lanes) m = attestations lanes (attest_lane i lane.output.residuals m)

abbrev pub has : List ℕ → ℕ → Bool
has [] i = false
has (j ∷ l) i = (j == i) || has l i

-- `for i in 0..n { if !lanes.contains(&i) … }`, for the indices that are left.
unfoldable pub omitting : List ℕ → List Indexed → List ℕ
omitting lanes [] = []
omitting lanes ((i, _) ∷ rest) = (if has lanes i then [] else i ∷ []) ++ omitting lanes rest

abbrev pub is_asymmetric : ℕ → List ℕ → Bool
is_asymmetric n lanes = leb (n / 2 + 1) (length lanes) && ltb (length lanes) n

unfoldable pub mark_asymmetric : List Indexed → Keyed (List ℕ) → List ℕ
unfolding omitting
mark_asymmetric all [] = []
mark_asymmetric all ((id, lanes) ∷ m) =
    (if is_asymmetric (length all) lanes then lanes ++ omitting lanes all else [])
    ++ mark_asymmetric all m

-- All marks of the four passes.
unfoldable pub marks : List Indexed → List ℕ
marks lanes =
    mark_pairs verdicts_differ lanes
    ++ (mark_pairs dispositions_conflict lanes
        ++ (mark_unsupported lanes ++ mark_asymmetric lanes (attestations lanes [])))

-- The indices whose flag is set, in order.
unfoldable pub flagged : List ℕ → List Indexed → List ℕ
flagged set [] = []
flagged set ((i, _) ∷ lanes) = (if has set i then i ∷ [] else []) ++ flagged set lanes

unfoldable pub r1_contestation : List LaneAccepted → List ℕ
r1_contestation r1 = let lanes = enumerate 0 r1 in flagged (marks lanes) lanes
