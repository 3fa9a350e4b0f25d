-- ===== src/Run/Contest/Reports.antt =====
-- Which residuals a majority reports and the rest omits (`r1_contestation` of src/run.rs, rule 4).
use quinte.Prelude.{
  ℕ, ◌+◌, String, ◌≡◌, ◌↔◌, refl, sym, ◌∙◌, ap, subst, Bool, true, false, List, [], ◌∷◌, Option,
  none, some, if◌then◌else◌, length, length-append, arith, All, eq_iff, str_eq, Bool-cases, ltb,
  inl, inr, ◌⊎◌, ◌≤◌, ◌*◌,
}
use quinte.Prelude.Keyed
use quinte.Prelude.Keyed.{Keyed, get-insert}
use quinte.Prelude.Order.{Ascending, Ascending-Distinct, keys, insert-Ascending}
use quinte.Model.Lanes.{Residual, LaneAccepted}
use quinte.Run.Contest.{Indexed, enumerate, push, attest_lane, attestations, is_asymmetric}
use quinte.Run.Contest.Entries.{OnSome, entries_iff}

-- How often an id is reported, by one lane and by all.
unfoldable pub reports : String → List Residual → ℕ
reports id [] = 0
reports id (r ∷ rs) = (if str_eq r.id id then 1 else 0) + reports id rs

unfoldable pub all_reports : String → List LaneAccepted → ℕ
all_reports id [] = 0
all_reports id (lane ∷ lanes) = reports id lane.output.residuals + all_reports id lanes

abbrev size : Option (List ℕ) → ℕ
size none = 0
size (some l) = length l

size-push :
    (i : ℕ) (b : Bool) (o p : Option (List ℕ))
    → (b ≡ true → p ≡ o)
    → size (if b then some (push i o) else p) ≡ size p + (if b then 1 else 0)
size-push i true none p same = rw (same refl) refl
size-push i true (some l) p same = rw (same refl) (length-append l (i ∷ []))
size-push i false o p same = omega arith

size-attest_lane :
    (i : ℕ) (id : String) (rs : List Residual) (m : Keyed (List ℕ))
    → size (Keyed.get id (attest_lane i rs m)) ≡ size (Keyed.get id m) + reports id rs
unfolding attest_lane reports
size-attest_lane i id [] m = omega arith
size-attest_lane i id (r ∷ rs) m =
    let next = Keyed.insert r.id (push i (Keyed.get r.id m)) m in
    let pushed =
      ap size (get-insert r.id id (push i (Keyed.get r.id m)) m)
      ∙ size-push i (str_eq r.id id) (Keyed.get r.id m) (Keyed.get id m)
          (λ same. ap (λ k. Keyed.get k m) (sym ((eq_iff r.id id).0 same))) in
    omega (arith, size-attest_lane i id rs next, pushed)

size-attestations :
    (s : ℕ) (id : String) (r1 : List LaneAccepted) (m : Keyed (List ℕ))
    → size (Keyed.get id (attestations (enumerate s r1) m))
      ≡ size (Keyed.get id m) + all_reports id r1
unfolding attestations all_reports
size-attestations s id [] m = omega arith
size-attestations s id (lane ∷ r1) m = omega (
  arith,
  size-attestations (s + 1) id r1 (attest_lane s lane.output.residuals m),
  size-attest_lane s id lane.output.residuals m,
)

attest_lane-Ascending :
    (i : ℕ) (rs : List Residual) (m : Keyed (List ℕ))
    → Ascending (keys m)
    → Ascending (keys (attest_lane i rs m))
unfolding attest_lane
attest_lane-Ascending i [] m h = h
attest_lane-Ascending i (r ∷ rs) m h =
    attest_lane-Ascending i rs (Keyed.insert r.id (push i (Keyed.get r.id m)) m)
      (insert-Ascending r.id (push i (Keyed.get r.id m)) m h)

attestations-Ascending :
    (lanes : List Indexed) (m : Keyed (List ℕ))
    → Ascending (keys m)
    → Ascending (keys (attestations lanes m))
unfolding attestations
attestations-Ascending [] m h = h
attestations-Ascending ((i, lane) ∷ lanes) m h =
    attestations-Ascending lanes (attest_lane i lane.output.residuals m)
      (attest_lane-Ascending i lane.output.residuals m h)

-- Not more than half of `n`, or all.
abbrev pub HalfOrAll : ℕ → ℕ → Type 0
HalfOrAll n k = (2 * k ≤ n) ⊎ (n ≤ k)

symmetric_iff :
    (n : ℕ) (o : Option (List ℕ)) → OnSome (λ l. is_asymmetric n l ≡ false) o ↔ HalfOrAll n (size o)
symmetric_iff n none = (λ h. inl (omega arith), λ h. tt)
symmetric_iff n (some l) = (
  λ h. elim (Bool-cases (ltb (length l) n)) [
    | inl fewer ↦ inl (ground (arith, h, fewer))
    | inr all ↦ inr (ground (arith, all))
  ],
  back,
)
  where
    back : HalfOrAll n (length l) → is_asymmetric n l ≡ false
    back (inl half) = ground arith
    back (inr all) = ground arith

pub asymmetric_iff :
    (n : ℕ) (r1 : List LaneAccepted)
    → All (λ (e : String × List ℕ). is_asymmetric n e.1 ≡ false) (attestations (enumerate 0 r1) [])
      ↔ ((id : String) → HalfOrAll n (all_reports id r1))
unfolding Keyed.get
asymmetric_iff n r1 =
    let m = attestations (enumerate 0 r1) [] in
    let entries =
      entries_iff (λ l. is_asymmetric n l ≡ false) m
        (Ascending-Distinct (keys m) (attestations-Ascending (enumerate 0 r1) [] tt)) in
    let count : (id : String) → size (Keyed.get id m) ≡ all_reports id r1 =
      λ id. size-attestations 0 id r1 [] ∙ omega arith in
    (
      λ h id.
          subst (HalfOrAll n) (count id) ((symmetric_iff n (Keyed.get id m)).0 (entries.0 h id)),
      λ h. entries.1 (λ id.
          (symmetric_iff n (Keyed.get id m)).1 (subst (HalfOrAll n) (sym (count id)) (h id))),
    )
