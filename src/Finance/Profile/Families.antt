-- ===== src/Finance/Profile/Families.antt =====
-- The families of a finance policy's routes, as `validate_finance_policy` of src/finance.rs counts
-- them.
use quinte.Prelude.{
  ◌≡◌, refl, sym, ◌∙◌, subst, Bool, true, false, ◌||◌, List, [], ◌∷◌, arith, All, eq_iff,
  Bool-cases, ◌⊎◌, inl, inr,
}
use quinte.Finance.Profile.{Family, family_eq, has_family, family_count}

-- Every family of the list is `f`.
abbrev pub AllEqual : List Family → Type 0
AllEqual [] = Unit
AllEqual (f ∷ fs) = All (λ g. g ≡ f) fs

family_eq-≡ : (f g : Family) → family_eq f g ≡ true → f ≡ g
family_eq-≡ (a, b, c) (x, y, z) h = ground (arith, eq_iff a x, eq_iff b y, eq_iff c z, h)

or_cases : (a b : Bool) → (a || b) ≡ true → (a ≡ true) ⊎ (b ≡ true)
or_cases true b h = inl refl
or_cases false b h = inr h

count_zero : (fs : List Family) → family_count fs ≡ 0 → fs ≡ []
count_zero [] h = refl
count_zero (f ∷ fs) h = elim (Bool-cases (has_family fs f)) [
  | inl again ↦ absurd (found fs again (count_zero fs (ground (arith, h, again))))
  | inr fresh ↦ absurd (ground (arith, h, fresh))
]
  where
    found : (gs : List Family) → has_family gs f ≡ true → gs ≡ [] → ⊥
    found [] m e = cc
    found (g ∷ gs) m e = cc

has-All : (f g : Family) (fs : List Family) → has_family fs f ≡ true → All (λ x. x ≡ g) fs → f ≡ g
has-All f g [] h all = absurd (cc)
has-All f g (x ∷ fs) h all = elim (or_cases (family_eq x f) (has_family fs f) h) [
  | inl same ↦ sym (family_eq-≡ x f same) ∙ all.0
  | inr later ↦ has-All f g fs later all.1
]

pub one_family : (fs : List Family) → family_count fs ≡ 1 → AllEqual fs
one_family [] h = tt
one_family (f ∷ fs) h = elim (Bool-cases (has_family fs f)) [
  | inl again ↦ spread fs again (one_family fs (ground (arith, h, again)))
  | inr fresh ↦ subst (λ l. All (λ g. g ≡ f) l) (sym (count_zero fs (ground (arith, h, fresh)))) tt
]
  where
    spread : (gs : List Family) → has_family gs f ≡ true → AllEqual gs → All (λ g. g ≡ f) gs
    spread [] m all = tt
    spread (g ∷ gs) m all =
        let same : f ≡ g = has-All f g (g ∷ gs) m (refl, all) in
        (sym same, subst (λ x. All (λ y. y ≡ x) gs) (sym same) all)
