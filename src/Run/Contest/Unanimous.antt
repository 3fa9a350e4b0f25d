-- ===== src/Run/Contest/Unanimous.antt =====
-- When R2 is skipped (`r1_contestation` of src/run.rs), in words of the lanes' outputs alone.
use quinte.Prelude.{
  ℕ, ◌*◌, ◌^◌, ◌≤◌, String, ◌≡◌, ◌↔◌, refl, Bool, true, false, ◌∷◌, List, [], arith, All, length,
  trim, codes_eq,
}
use quinte.Model.Lanes.{below_half, LaneAccepted}
use quinte.Run.Contest.{verdicts_differ, dispositions_conflict, r1_contestation}
use quinte.Run.Contest.Stances.{stance, Compatible, dispositions_conflict_iff}
use quinte.Run.Contest.Reports.{all_reports, HalfOrAll, asymmetric_iff}
use quinte.Run.Contest.Skip.{NoPair, uncontested_iff_IsUnmarked}

-- Every two lanes are related, the earlier one first.
abbrev pub Pairwise : (LaneAccepted → LaneAccepted → Type 0) → List LaneAccepted → Type 0
Pairwise R [] = Unit
Pairwise R (a ∷ lanes) = All (R a) lanes × Pairwise R lanes

abbrev pub SameVerdict : LaneAccepted → LaneAccepted → Type 0
SameVerdict a b = trim a.output.verdict ≡ trim b.output.verdict

-- What both say last of a residual is the same, for every id.
abbrev pub SameStances : LaneAccepted → LaneAccepted → Type 0
SameStances a b =
    (id : String) → Compatible (stance id a.output.residuals) (stance id b.output.residuals)

-- The confidence is at least one half.
abbrev pub IsConfident : LaneAccepted → Type 0
IsConfident lane =
    (lane.output.confidence.negative ≡ false)
    × (2 ^ lane.output.confidence.scale ≤ 2 * lane.output.confidence.mantissa)

-- Every two lanes have the same verdict, but for the space around it, and agree on the residuals
-- that both report; every lane is confident; and every id of a residual is reported at most half as
-- often as there are lanes, or at least as often.
pub record IsUnanimous (r1 : List LaneAccepted) : Type 0 where
  pub same_verdict : Pairwise SameVerdict r1
  pub same_stances : Pairwise SameStances r1
  pub confident : All IsConfident r1
  pub symmetric : (id : String) → HalfOrAll (length r1) (all_reports id r1)

codes_eq_iff : (xs ys : List ℕ) → (codes_eq xs ys ≡ true) ↔ (xs ≡ ys)
codes_eq_iff [] [] = (λ h. refl, λ h. refl)
codes_eq_iff [] (y ∷ ys) = (λ h. absurd (cc), λ h. absurd (cc))
codes_eq_iff (x ∷ xs) [] = (λ h. absurd (cc), λ h. absurd (cc))
codes_eq_iff (x ∷ xs) (y ∷ ys) =
    let ih = codes_eq_iff xs ys in (λ h. ground (arith, h, ih), λ h. ground (arith, h, ih))

verdicts_differ_iff : (a b : LaneAccepted) → (verdicts_differ a b ≡ false) ↔ SameVerdict a b
unfolding verdicts_differ
verdicts_differ_iff a b =
    let same = codes_eq_iff (trim a.output.verdict) (trim b.output.verdict) in
    (λ h. same.0 (ground (arith, h)), λ h. ground (arith, same.1 h))

below_half_iff :
    (lane : LaneAccepted) → (below_half lane.output.confidence ≡ false) ↔ IsConfident lane
unfolding below_half
below_half_iff lane = (λ h. (ground (arith, h), ground (arith, h)), λ h. ground (arith, h.0, h.1))

All_iff :
    (P Q : LaneAccepted → Type 0) (r1 : List LaneAccepted)
    → ((a : LaneAccepted) → P a ↔ Q a)
    → All P r1 ↔ All Q r1
All_iff P Q [] each = (λ h. tt, λ h. tt)
All_iff P Q (a ∷ r1) each =
    let ih = All_iff P Q r1 each in
    (λ h. ((each a).0 h.0, ih.0 h.1), λ h. ((each a).1 h.0, ih.1 h.1))

Pairwise-iff :
    (test : LaneAccepted → LaneAccepted → Bool) (R : LaneAccepted → LaneAccepted → Type 0)
    (r1 : List LaneAccepted)
    → ((a b : LaneAccepted) → (test a b ≡ false) ↔ R a b)
    → NoPair test r1 ↔ Pairwise R r1
Pairwise-iff test R [] each = (λ h. tt, λ h. tt)
Pairwise-iff test R (a ∷ r1) each =
    let one = All_iff (λ b. test a b ≡ false) (R a) r1 (each a) in
    let ih = Pairwise-iff test R r1 each in (λ h. (one.0 h.0, ih.0 h.1), λ h. (one.1 h.0, ih.1 h.1))

-- R2 is skipped, that is, no lane is contested, exactly if R1 is unanimous: all verdicts are equal
-- but for the space around them, every two lanes that report a residual give it, the last time they
-- do, the same disposition, every confidence is at least one half, and the reports of an id number
-- at most half the lanes or at least as many as there are lanes.
pub uncontested_iff_IsUnanimous :
    (r1 : List LaneAccepted) → (r1_contestation r1 ≡ []) ↔ IsUnanimous r1
uncontested_iff_IsUnanimous r1 =
    let unmarked = uncontested_iff_IsUnmarked r1 in
    let verdicts = Pairwise-iff verdicts_differ SameVerdict r1 verdicts_differ_iff in
    let stances = Pairwise-iff dispositions_conflict SameStances r1 dispositions_conflict_iff in
    let confidence =
      All_iff (λ lane. below_half lane.output.confidence ≡ false) IsConfident r1 below_half_iff in
    let reported = asymmetric_iff (length r1) r1 in
    (
      λ h.
          let u = unmarked.0 h in
          record {
            same_verdict = verdicts.0 u.same_verdict;
            same_stances = stances.0 u.same_dispositions;
            confident = confidence.0 u.confident;
            symmetric = reported.0 u.symmetric;
          },
      λ u. unmarked.1 (record {
        same_verdict = verdicts.1 u.same_verdict;
        same_dispositions = stances.1 u.same_stances;
        confident = confidence.1 u.confident;
        symmetric = reported.1 u.symmetric;
      }),
    )
