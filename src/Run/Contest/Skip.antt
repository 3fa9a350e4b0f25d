-- ===== src/Run/Contest/Skip.antt =====
-- When no pass of `r1_contestation` (src/run.rs) marks a lane.
use quinte.Prelude.{
  ℕ, suc, ◌+◌, String, ◌≡◌, refl, sym, ap, ◌∙◌, ◌↔◌, Bool, true, false, ◌&&◌, List, [], ◌∷◌, ◌++◌,
  if◌then◌else◌, length, arith, All, ltb,
}
use quinte.Prelude.Keyed.{Keyed}
use quinte.Model.Lanes.{below_half, LaneAccepted}
use quinte.Run.Contest.{
  Indexed, enumerate, verdicts_differ, dispositions_conflict, mark_against, mark_pairs,
  mark_unsupported, mark_asymmetric, attestations, marks, has, omitting, is_asymmetric,
  r1_contestation,
}
use quinte.Run.Contest.Range.{Below, marks-Below, has-r1_contestation}

-- `test` fails on every two lanes, the earlier one first.
abbrev pub NoPair : (LaneAccepted → LaneAccepted → Bool) → List LaneAccepted → Type 0
NoPair test [] = Unit
NoPair test (a ∷ lanes) = All (λ b. test a b ≡ false) lanes × NoPair test lanes

-- The tests of the four passes fail on every lane, pair of lanes and entry.
pub record IsUnmarked (r1 : List LaneAccepted) : Type 0 where
  pub same_verdict : NoPair verdicts_differ r1
  pub same_dispositions : NoPair dispositions_conflict r1
  pub confident : All (λ lane. below_half lane.output.confidence ≡ false) r1
  pub symmetric :
      All
        (λ (e : String × List ℕ). is_asymmetric (length r1) e.1 ≡ false)
        (attestations (enumerate 0 r1) [])

append_nil : (l m : List ℕ) → l ++ m ≡ [] → (l ≡ []) × (m ≡ [])
append_nil [] m h = (refl, h)
append_nil (x ∷ l) m h = absurd (cc)

if_nil : (b : Bool) (x : ℕ) (l : List ℕ) → (if b then x ∷ l else []) ≡ [] → b ≡ false
if_nil true x l h = absurd (cc)
if_nil false x l h = refl

length-enumerate : (i : ℕ) (r1 : List LaneAccepted) → length (enumerate i r1) ≡ length r1
length-enumerate i [] = refl
length-enumerate i (lane ∷ r1) = ap suc (length-enumerate (i + 1) r1)

module _ (test : LaneAccepted → LaneAccepted → Bool) where
  mark_against_iff :
      (i j : ℕ) (a : LaneAccepted) (r1 : List LaneAccepted)
      → (mark_against test (i, a) (enumerate j r1) ≡ []) ↔ All (λ b. test a b ≡ false) r1
  unfolding mark_against
  mark_against_iff i j a [] = (λ h. tt, λ h. refl)
  mark_against_iff i j a (b ∷ r1) =
      let ih = mark_against_iff i (j + 1) a r1 in
      (
        λ h.
            let parts =
              append_nil (if test a b then i ∷ j ∷ [] else [])
                (mark_against test (i, a) (enumerate (j + 1) r1)) h in
            (if_nil (test a b) i (j ∷ []) parts.0, ih.0 parts.1),
        λ h. rw (h.0) (ih.1 h.1),
      )

  mark_pairs_iff :
      (i : ℕ) (r1 : List LaneAccepted) → (mark_pairs test (enumerate i r1) ≡ []) ↔ NoPair test r1
  unfolding mark_pairs
  mark_pairs_iff i [] = (λ h. tt, λ h. refl)
  mark_pairs_iff i (a ∷ r1) =
      let one = mark_against_iff i (i + 1) a r1 in
      let ih = mark_pairs_iff (i + 1) r1 in
      (
        λ h.
            let parts =
              append_nil (mark_against test (i, a) (enumerate (i + 1) r1))
                (mark_pairs test (enumerate (i + 1) r1)) h in
            (one.0 parts.0, ih.0 parts.1),
        λ h. rw (one.1 h.0) (ih.1 h.1),
      )

mark_unsupported_iff :
    (i : ℕ) (r1 : List LaneAccepted)
    → (mark_unsupported (enumerate i r1) ≡ [])
      ↔ All (λ lane. below_half lane.output.confidence ≡ false) r1
unfolding mark_unsupported
mark_unsupported_iff i [] = (λ h. tt, λ h. refl)
mark_unsupported_iff i (lane ∷ r1) =
    let ih = mark_unsupported_iff (i + 1) r1 in
    (
      λ h.
          let parts =
            append_nil (if below_half lane.output.confidence then i ∷ [] else [])
              (mark_unsupported (enumerate (i + 1) r1)) h in
          (if_nil (below_half lane.output.confidence) i [] parts.0, ih.0 parts.1),
      λ h. rw (h.0) (ih.1 h.1),
    )

-- A majority is never empty, so an asymmetric entry leaves a mark.
asymmetric_marks :
    (n : ℕ) (lanes : List ℕ) (all : List Indexed)
    → (if is_asymmetric n lanes then lanes ++ omitting lanes all else []) ≡ []
    → is_asymmetric n lanes ≡ false
asymmetric_marks n [] all h = ground arith
asymmetric_marks n (x ∷ lanes) all h = if_nil (is_asymmetric n (x ∷ lanes)) x _ h

mark_asymmetric_iff :
    (lanes : List Indexed) (m : Keyed (List ℕ))
    → (mark_asymmetric lanes m ≡ [])
      ↔ All (λ (e : String × List ℕ). is_asymmetric (length lanes) e.1 ≡ false) m
unfolding mark_asymmetric
mark_asymmetric_iff lanes [] = (λ h. tt, λ h. refl)
mark_asymmetric_iff lanes ((id, l) ∷ m) =
    let ih = mark_asymmetric_iff lanes m in
    (
      λ h.
          let parts =
            append_nil (if is_asymmetric (length lanes) l then l ++ omitting l lanes else [])
              (mark_asymmetric lanes m) h in
          (asymmetric_marks (length lanes) l lanes parts.0, ih.0 parts.1),
      λ h. rw (h.0) (ih.1 h.1),
    )

marks_iff : (r1 : List LaneAccepted) → (marks (enumerate 0 r1) ≡ []) ↔ IsUnmarked r1
unfolding marks
marks_iff r1 =
    let lanes = enumerate 0 r1 in
    let asymmetric = mark_asymmetric_iff lanes (attestations lanes []) in
    let n = length-enumerate 0 r1 in
    (
      λ h.
          let a = append_nil (mark_pairs verdicts_differ lanes) _ h in
          let b = append_nil (mark_pairs dispositions_conflict lanes) _ a.1 in
          let c = append_nil (mark_unsupported lanes) _ b.1 in
          record {
            same_verdict = (mark_pairs_iff verdicts_differ 0 r1).0 a.0;
            same_dispositions = (mark_pairs_iff dispositions_conflict 0 r1).0 b.0;
            confident = (mark_unsupported_iff 0 r1).0 c.0;
            symmetric = rw n at (asymmetric.0 c.1);
          },
      λ u. rw ((mark_pairs_iff verdicts_differ 0 r1).1 u.same_verdict) (
          rw ((mark_pairs_iff dispositions_conflict 0 r1).1 u.same_dispositions)
            (rw ((mark_unsupported_iff 0 r1).1 u.confident) (asymmetric.1 (rw n u.symmetric)))),
    )

-- A mark in range is contested, so nothing is contested only if nothing is marked.
nil_of_uncontested :
    (r1 : List LaneAccepted) (l : List ℕ)
    → Below (length r1) l
    → ((k : ℕ) → (has l k && ltb k (length r1)) ≡ false)
    → l ≡ []
nil_of_uncontested r1 [] below none_set = refl
nil_of_uncontested r1 (j ∷ l) below none_set = absurd (ground (arith, none_set j, below.0))

nil_of_no_member : (l : List ℕ) → ((k : ℕ) → has l k ≡ false) → l ≡ []
nil_of_no_member [] h = refl
nil_of_no_member (j ∷ l) h = absurd (ground (arith, h j))

-- No lane is contested exactly if no pass marks one.
pub uncontested_iff_IsUnmarked :
    (r1 : List LaneAccepted) → (r1_contestation r1 ≡ []) ↔ IsUnmarked r1
uncontested_iff_IsUnmarked r1 = (
  λ h. (marks_iff r1).0 (
      nil_of_uncontested r1 (marks (enumerate 0 r1)) (marks-Below r1)
        (λ k. sym (has-r1_contestation r1 k) ∙ ap (λ l. has l k) h)),
  λ u.
      nil_of_no_member (r1_contestation r1) (λ k.
        has-r1_contestation r1 k ∙ ap (λ l. has l k && ltb k (length r1)) ((marks_iff r1).1 u)),
)
