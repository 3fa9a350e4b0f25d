-- ===== src/Run/Contest/Entries.antt =====
-- What a map of `r1_contestation` (src/run.rs) holds, by entries and by keys.
use quinte.Prelude.{
  String, ◌≡◌, ◌↔◌, refl, subst, true, false, [], ◌∷◌, Option, none, some, arith, All, Distinct,
  contains, eq_iff, str_eq, Bool-cases, inl, inr,
}
use quinte.Prelude.Keyed
use quinte.Prelude.Keyed.{Keyed, get-insert}
use quinte.Prelude.Order.{keys}

-- `P` holds of the value that is there, if one is.
abbrev pub OnSome {ℓ} : {V : Type ℓ} → (V → Type 0) → Option V → Type 0
OnSome P none = Unit
OnSome P (some v) = P v

get_absent :
    {V : Type 0} (k : String) (m : Keyed V) → contains (keys m) k ≡ false → Keyed.get k m ≡ none
unfolding Keyed.get
get_absent k [] h = refl
get_absent k ((j, v) ∷ m) h = ground (arith, h, get_absent k m)

-- The entries of a map are what its keys are bound to.
pub entries_iff :
    {V : Type 0} (P : V → Type 0) (m : Keyed V)
    → Distinct (keys m)
    → All (λ (e : String × V). P e.1) m ↔ ((k : String) → OnSome P (Keyed.get k m))
unfolding Keyed.get
entries_iff P [] distinct = (λ h k. tt, λ h. tt)
entries_iff P ((j, v) ∷ m) distinct =
    let ih = entries_iff P m distinct.1 in
    (
      λ h k. elim (Bool-cases (str_eq j k)) [
        | inl same ↦ rw same (h.0)
        | inr other ↦ rw other (ih.0 h.1 k)
      ],
      λ h.
          let own : str_eq j j ≡ true = (eq_iff j j).1 refl in
          (
            rw own at (h j),
            ih.1 (λ k. elim (Bool-cases (str_eq j k)) [
              | inl same ↦
                  let absent : Keyed.get k m ≡ none =
                    subst (λ x. Keyed.get x m ≡ none) ((eq_iff j k).0 same)
                      (get_absent j m distinct.0) in
                  rw absent tt
              | inr other ↦ rw other at (h k)
            ]),
          ),
    )
