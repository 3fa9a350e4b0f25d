-- ===== src/Run/Contest/Stances.antt =====
-- When two lanes disagree on a residual (`r1_contestation` of src/run.rs, rule 2).
use quinte.Prelude.{
  String, ◌≡◌, ◌↔◌, refl, sym, ◌∙◌, ap, subst, Bool, true, false, List, [], ◌∷◌, Option, none, some,
  if◌then◌else◌, arith, All, eq_iff, str_eq, Bool-cases, inl, inr,
}
use quinte.Prelude.Keyed
use quinte.Prelude.Keyed.{Keyed, get-insert}
use quinte.Prelude.Order.{Ascending, Ascending-Distinct, keys, insert-Ascending}
use quinte.Model.Lanes.{Disposition, disposition_eq, Residual, LaneAccepted}
use quinte.Run.Contest.{insert_all, set_second, update_all, any_conflict, dispositions_conflict}
use quinte.Run.Contest.Entries.{OnSome, entries_iff}

-- What a lane says of a residual: the disposition of the last one with the id.
abbrev last_of : Option Disposition → Option Disposition → Option Disposition
last_of (some d) now = some d
last_of none now = now

unfoldable pub stance : String → List Residual → Option Disposition
stance id [] = none
stance id (r ∷ rs) = last_of (stance id rs) (if str_eq r.id id then some r.disposition else none)

abbrev Pair : Type 0
Pair = Disposition × Disposition

abbrev paired : Option Disposition → Option Pair → Option Pair
paired none o = o
paired (some x) o = some (x, x)

abbrev seconded : Option Disposition → Option Pair → Option Pair
seconded y none = none
seconded none (some p) = some p
seconded (some y) (some p) = some (p.0, y)

paired-last_of :
    (s : Option Disposition) (b : Bool) (x : Disposition) (o : Option Pair)
    → paired s (if b then some (x, x) else o) ≡ paired (last_of s (if b then some x else none)) o
paired-last_of none true x o = refl
paired-last_of none false x o = refl
paired-last_of (some d) true x o = refl
paired-last_of (some d) false x o = refl

seconded-none : (o : Option Pair) → o ≡ seconded none o
seconded-none none = refl
seconded-none (some p) = refl

seconded-last_of :
    (s t : Option Disposition) (o : Option Pair)
    → seconded s (seconded t o) ≡ seconded (last_of s t) o
seconded-last_of s t none = refl
seconded-last_of none t (some p) = sym (seconded-none (seconded t (some p)))
seconded-last_of (some d) none (some p) = refl
seconded-last_of (some d) (some x) (some p) = refl

get-set_second :
    (id : String) (r : Residual) (m : Keyed Pair) (o : Option Pair)
    → Keyed.get r.id m ≡ o
    → Keyed.get id (set_second r o m)
      ≡ seconded (if str_eq r.id id then some r.disposition else none) (Keyed.get id m)
get-set_second id r m none h = elim (Bool-cases (str_eq r.id id)) [
  | inl same ↦
      let absent : Keyed.get id m ≡ none =
        subst (λ x. Keyed.get x m ≡ none) ((eq_iff r.id id).0 same) h in
      rw (same, absent) refl
  | inr other ↦ rw other (seconded-none (Keyed.get id m))
]
get-set_second id r m (some (x, y)) h = elim (Bool-cases (str_eq r.id id)) [
  | inl same ↦
      let bound : Keyed.get id m ≡ some (x, y) =
        subst (λ z. Keyed.get z m ≡ some (x, y)) ((eq_iff r.id id).0 same) h in
      get-insert r.id id (x, r.disposition) m ∙ rw (same, bound) refl
  | inr other ↦ get-insert r.id id (x, r.disposition) m ∙ rw other (seconded-none (Keyed.get id m))
]

get-insert_all :
    (id : String) (rs : List Residual) (m : Keyed Pair)
    → Keyed.get id (insert_all rs m) ≡ paired (stance id rs) (Keyed.get id m)
unfolding insert_all stance
get-insert_all id [] m = refl
get-insert_all id (r ∷ rs) m =
    get-insert_all id rs (Keyed.insert r.id (r.disposition, r.disposition) m)
    ∙ (ap (paired (stance id rs)) (get-insert r.id id (r.disposition, r.disposition) m)
        ∙ paired-last_of (stance id rs) (str_eq r.id id) r.disposition (Keyed.get id m))

get-update_all :
    (id : String) (rs : List Residual) (m : Keyed Pair)
    → Keyed.get id (update_all rs m) ≡ seconded (stance id rs) (Keyed.get id m)
unfolding update_all stance
get-update_all id [] m = seconded-none (Keyed.get id m)
get-update_all id (r ∷ rs) m =
    get-update_all id rs (set_second r (Keyed.get r.id m) m)
    ∙ (ap (seconded (stance id rs)) (get-set_second id r m (Keyed.get r.id m) refl)
        ∙ seconded-last_of (stance id rs) (if str_eq r.id id then some r.disposition else none)
            (Keyed.get id m))

insert_all-Ascending :
    (rs : List Residual) (m : Keyed Pair) → Ascending (keys m) → Ascending (keys (insert_all rs m))
unfolding insert_all
insert_all-Ascending [] m h = h
insert_all-Ascending (r ∷ rs) m h =
    insert_all-Ascending rs (Keyed.insert r.id (r.disposition, r.disposition) m)
      (insert-Ascending r.id (r.disposition, r.disposition) m h)

set_second-Ascending :
    (r : Residual) (o : Option Pair) (m : Keyed Pair)
    → Ascending (keys m)
    → Ascending (keys (set_second r o m))
set_second-Ascending r none m h = h
set_second-Ascending r (some (x, y)) m h = insert-Ascending r.id (x, r.disposition) m h

update_all-Ascending :
    (rs : List Residual) (m : Keyed Pair) → Ascending (keys m) → Ascending (keys (update_all rs m))
unfolding update_all
update_all-Ascending [] m h = h
update_all-Ascending (r ∷ rs) m h =
    update_all-Ascending rs (set_second r (Keyed.get r.id m) m)
      (set_second-Ascending r (Keyed.get r.id m) m h)

disposition_eq_iff : (a b : Disposition) → (disposition_eq a b ≡ true) ↔ (a ≡ b)
disposition_eq_iff a b = (λ h. ground (arith, h), λ h. ground (arith, h))

any_conflict_iff :
    (m : Keyed Pair) → (any_conflict m ≡ false) ↔ All (λ (e : String × Pair). e.1.0 ≡ e.1.1) m
unfolding any_conflict
any_conflict_iff [] = (λ h. tt, λ h. refl)
any_conflict_iff ((id, (a, b)) ∷ m) =
    let ih = any_conflict_iff m in
    let eq = disposition_eq_iff a b in
    (
      λ h. (ground (arith, h, eq), ih.0 (ground (arith, h))),
      λ h. ground (arith, eq.1 h.0, ih.1 h.1),
    )

-- Two answers, where both are given, are one.
abbrev pub Compatible : Option Disposition → Option Disposition → Type 0
Compatible (some x) (some y) = x ≡ y
Compatible _ _ = Unit

Compatible-iff :
    (x y : Option Disposition)
    → OnSome (λ (p : Pair). p.0 ≡ p.1) (seconded y (paired x none)) ↔ Compatible x y
Compatible-iff none none = (λ h. h, λ h. h)
Compatible-iff none (some y) = (λ h. h, λ h. h)
Compatible-iff (some x) none = (λ h. tt, λ h. refl)
Compatible-iff (some x) (some y) = (λ h. h, λ h. h)

-- Two lanes have no conflict exactly if they agree on every residual that both report.
pub dispositions_conflict_iff :
    (a b : LaneAccepted)
    → (dispositions_conflict a b ≡ false)
      ↔ ((id : String) → Compatible (stance id a.output.residuals) (stance id b.output.residuals))
unfolding dispositions_conflict Keyed.get
dispositions_conflict_iff a b =
    let first = insert_all a.output.residuals [] in
    let both = update_all b.output.residuals first in
    let ascending =
      update_all-Ascending b.output.residuals first
        (insert_all-Ascending a.output.residuals [] tt) in
    let entries =
      entries_iff (λ (p : Pair). p.0 ≡ p.1) both (Ascending-Distinct (keys both) ascending) in
    let bound : (id : String)
        → Keyed.get id both
          ≡ seconded (stance id b.output.residuals) (paired (stance id a.output.residuals) none) =
      λ id.
        get-update_all id b.output.residuals first
        ∙ ap (seconded (stance id b.output.residuals)) (get-insert_all id a.output.residuals []) in
    (
      λ h id. (Compatible-iff (stance id a.output.residuals) (stance id b.output.residuals)).0 (
          subst (OnSome (λ (p : Pair). p.0 ≡ p.1)) (bound id)
            (entries.0 ((any_conflict_iff both).0 h) id)),
      λ h. (any_conflict_iff both).1 (
          entries.1 (λ id. subst (OnSome (λ (p : Pair). p.0 ≡ p.1)) (sym (bound id)) (
            (Compatible-iff (stance id a.output.residuals) (stance id b.output.residuals)).1
              (h id)))),
    )
