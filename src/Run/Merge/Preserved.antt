-- ===== src/Run/Merge/Preserved.antt =====
-- What the merged result keeps (`merge_verdicts` of src/run.rs).
use quinte.Prelude.{
  String, ◌≡◌, refl, sym, subst, ◌∙◌, inl, inr, Bool, true, false, List, [], ◌∷◌, ◌++◌, Option,
  none, some, if◌then◌else◌, arith, All, is_some, str_eq, eq_iff, Bool-cases,
}
use quinte.Prelude.Keyed
use quinte.Prelude.Keyed.{Keyed, get-insert}
use quinte.Prelude.Order.{Ascending, keys, insert-Ascending}
use quinte.Prelude.{str_lt}
use quinte.Model.Lanes.{Residual}
use quinte.Run.Merge.{
  DissentNote, Merged, residual_fields_conflict, conservative_unresolved, merge_found,
  merge_residuals, preserve_one, preserve_omitted,
}
use quinte.Run.Merge.Entries.{IsConservative, conservative_unresolved-IsConservative}

-- Every entry stands under its own id.
abbrev pub SelfKeyed : Keyed Residual → Type 0
SelfKeyed = All (λ (e : String × Residual). e.1.id ≡ e.0)

insert-SelfKeyed :
    (k : String) (r : Residual) (m : Keyed Residual)
    → r.id ≡ k
    → SelfKeyed m
    → SelfKeyed (Keyed.insert k r m)
unfolding Keyed.insert
insert-SelfKeyed k r [] e h = (e, tt)
insert-SelfKeyed k r ((j, w) ∷ m) e h = elim (Bool-cases (str_eq j k)) [
  | inl same ↦ rw same (e, h.1)
  | inr other ↦ elim (Bool-cases (str_lt k j)) [
    | inl less ↦ rw (other, less) (e, (h.0, h.1))
    | inr more ↦ rw (other, more) (h.0, insert-SelfKeyed k r m e h.1)
  ]
]

pub get-SelfKeyed :
    (k : String) (m : Keyed Residual) {r : Residual}
    → SelfKeyed m
    → Keyed.get k m ≡ some r
    → r.id ≡ k
unfolding Keyed.get
get-SelfKeyed k [] h e = absurd (cc)
get-SelfKeyed k ((j, w) ∷ m) {r} h e = elim (Bool-cases (str_eq j k)) [
  | inl same ↦ ground (arith, eq_iff j k, h.0)
  | inr other ↦ get-SelfKeyed k m {r = r} h.1 (ground arith)
]

pub merge_residuals-SelfKeyed :
    (note : String → DissentNote) (rs : List Residual) (state : Merged)
    → SelfKeyed state.0
    → SelfKeyed (merge_residuals note rs state).0
unfolding merge_residuals
merge_residuals-SelfKeyed note [] state h = h
merge_residuals-SelfKeyed note (r ∷ rs) state h =
    merge_residuals-SelfKeyed note rs (merge_found note r (Keyed.get r.id state.0) state)
      (one (Keyed.get r.id state.0) refl)
  where
    clash :
        (b : Bool) (x : Residual)
        → x.id ≡ r.id
        → SelfKeyed
            (if b
              then (
                Keyed.insert r.id (conservative_unresolved x) state.0,
                state.1 ++ note r.id ∷ [],
              )
              else state).0
    clash true x e =
        insert-SelfKeyed r.id (conservative_unresolved x) state.0
          (unfold conservative_unresolved in e) h
    clash false x e = h

    one :
        (o : Option Residual)
        → Keyed.get r.id state.0 ≡ o
        → SelfKeyed (merge_found note r o state).0
    one none e = insert-SelfKeyed r.id r state.0 refl h
    one (some x) e = clash (residual_fields_conflict x r) x (get-SelfKeyed r.id state.0 h e)

-- The three things that one round of `preserve_omitted` keeps.
pub record Keeps (m m' : Keyed Residual) : Type 0 where
  pub present : (id : String) (e : Residual) → Keyed.get id m ≡ some e → Keyed.get id m' ≡ some e
  pub ascending : Ascending (keys m) → Ascending (keys m')
  pub self_keyed : SelfKeyed m → SelfKeyed m'

insert-Keeps :
    (id : String) (r : Residual) (m : Keyed Residual)
    → r.id ≡ id
    → Keyed.get id m ≡ none
    → Keeps m (Keyed.insert id (conservative_unresolved r) m)
unfolding conservative_unresolved
insert-Keeps id r m e absent = record {
  present = λ j x found.
      ground (arith, eq_iff id j, get-insert id j (conservative_unresolved r) m, found, absent);
  ascending = insert-Ascending id (conservative_unresolved r) m;
  self_keyed = insert-SelfKeyed id (conservative_unresolved r) m e;
}

Keeps-refl : (m : Keyed Residual) → Keeps m m
Keeps-refl m = record { present = λ id e p. p; ascending = λ a. a; self_keyed = λ s. s }

Keeps-trans : {a b c : Keyed Residual} → Keeps a b → Keeps b c → Keeps a c
Keeps-trans one rest = record {
  present = λ j x found. rest.present j x (one.present j x found);
  ascending = λ a. rest.ascending (one.ascending a);
  self_keyed = λ s. rest.self_keyed (one.self_keyed s);
}

preserve_one-Keeps :
    (id : String) (r : Residual) (o : Option Residual) (state : Merged)
    → r.id ≡ id
    → Keyed.get id state.0 ≡ o
    → Keeps state.0 (preserve_one id r o state).0
preserve_one-Keeps id r none state e absent = insert-Keeps id r state.0 e absent
preserve_one-Keeps id r (some x) state e found = Keeps-refl state.0

pub preserve_omitted-Keeps :
    (earlier : Keyed Residual) (state : Merged)
    → SelfKeyed earlier
    → Keeps state.0 (preserve_omitted earlier state).0
unfolding preserve_omitted
preserve_omitted-Keeps [] state h = Keeps-refl state.0
preserve_omitted-Keeps ((id, r) ∷ earlier) state h =
    Keeps-trans (preserve_one-Keeps id r (Keyed.get id state.0) state h.0 refl)
      (preserve_omitted-Keeps earlier (preserve_one id r (Keyed.get id state.0) state) h.1)

-- A round at another id leaves an absent id absent.
preserve_one_absent :
    (j id : String) (r : Residual) (o : Option Residual) (state : Merged)
    → str_eq j id ≡ false
    → Keyed.get id state.0 ≡ none
    → Keyed.get id (preserve_one j r o state).0 ≡ none
preserve_one_absent j id r none state other absent =
    get-insert j id (conservative_unresolved r) state.0 ∙ rw other absent
preserve_one_absent j id r (some x) state other absent = absent

-- An earlier residual that the map lacks is put back as unresolved and open.
pub preserve_omitted-restores :
    (earlier : Keyed Residual) (state : Merged) (id : String)
    → SelfKeyed earlier
    → is_some (Keyed.get id earlier) ≡ true
    → Keyed.get id state.0 ≡ none
    → (e : Residual) × (Keyed.get id (preserve_omitted earlier state).0 ≡ some e) × IsConservative e
unfolding preserve_omitted Keyed.get
preserve_omitted-restores [] state id h known absent = absurd (cc)
preserve_omitted-restores ((j, r) ∷ earlier) state id h known absent =
    elim (Bool-cases (str_eq j id)) [
      | inl same ↦ at_id ((eq_iff j id).0 same)
      | inr other ↦
          preserve_omitted-restores earlier (preserve_one j r (Keyed.get j state.0) state) id h.1
            (ground arith) (preserve_one_absent j id r (Keyed.get j state.0) state other absent)
    ]
  where
    inserted : Keyed Residual
    inserted = Keyed.insert id (conservative_unresolved r) state.0

    restored :
        (o : Option Residual)
        → o ≡ none
        → (e : Residual) × (Keyed.get id (preserve_omitted earlier (preserve_one id r o state)).0
            ≡ some e)
          × IsConservative e
    restored none e = (
      conservative_unresolved r,
      (preserve_omitted-Keeps earlier (preserve_one id r none state) h.1).present id
          (conservative_unresolved r)
          (get-insert id id (conservative_unresolved r) state.0 ∙ ground (arith, eq_iff id id)),
      conservative_unresolved-IsConservative r,
    )
    restored (some x) e = absurd (cc)

    at_id :
        j ≡ id
        → (e : Residual) × (Keyed.get id
              (preserve_omitted earlier (preserve_one j r (Keyed.get j state.0) state)).0
            ≡ some e)
          × IsConservative e
    at_id e =
        subst
          (λ k.
            (x : Residual) × (Keyed.get id
                (preserve_omitted earlier (preserve_one k r (Keyed.get k state.0) state)).0
              ≡ some x)
            × IsConservative x)
          (sym e) (restored (Keyed.get id state.0) absent)
