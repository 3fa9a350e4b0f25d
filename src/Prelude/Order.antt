-- ===== src/Prelude/Order.antt =====
-- The order of texts is strict and total, and `Keyed.insert` keeps the keys ascending.
use Prim.Native.Nat.{ℕ}
use Prim.Native.Char.{code}
use Prim.Native.String.{String}
use mathlib.Core.Path.{◌≡◌, refl, ap, subst}
use mathlib.Core.Logic.{◌⊎◌, inl, inr}
use mathlib.Core.Bool.{true, false}
use mathlib.Core.List.{List, [], ◌∷◌}
use native.Mathlib.Omega.{arith}
use text.Mathlib.Text.{◌==◌ as str_eq}
use text.Mathlib.TextEquality.{eq_iff, Char-path}
use quinte.Prelude.Tests.{Bool-cases}
use quinte.Prelude.Lists.{All, contains, Distinct}
use quinte.Prelude.Text.{codes, codes_lt, str_lt}
use quinte.Prelude.Keyed
use quinte.Prelude.Keyed.{Keyed}

codes_lt_irrefl : (x : List ℕ) → codes_lt x x ≡ false
codes_lt_irrefl [] = refl
codes_lt_irrefl (a ∷ x) = ground (arith, codes_lt_irrefl x)

codes_lt_trans : (x y z : List ℕ) → codes_lt x y ≡ true → codes_lt y z ≡ true → codes_lt x z ≡ true
codes_lt_trans [] [] z h k = absurd (cc)
codes_lt_trans [] (b ∷ y) [] h k = absurd (cc)
codes_lt_trans [] (b ∷ y) (c ∷ z) h k = refl
codes_lt_trans (a ∷ x) [] z h k = absurd (cc)
codes_lt_trans (a ∷ x) (b ∷ y) [] h k = absurd (cc)
codes_lt_trans (a ∷ x) (b ∷ y) (c ∷ z) h k = ground (arith, codes_lt_trans x y z)

codes_lt_total : (x y : List ℕ) → codes_lt x y ≡ false → (x ≡ y) ⊎ (codes_lt y x ≡ true)
codes_lt_total [] [] h = inl refl
codes_lt_total [] (b ∷ y) h = absurd (cc)
codes_lt_total (a ∷ x) [] h = inr refl
codes_lt_total (a ∷ x) (b ∷ y) h = ground (arith, codes_lt_total x y)

codes-injective : (s t : String) → codes s ≡ codes t → s ≡ t
codes-injective String.[] String.[] h = refl
codes-injective String.[] (String.◌∷◌ d t) h = absurd (cc)
codes-injective (String.◌∷◌ c s) String.[] h = absurd (cc)
codes-injective (String.◌∷◌ c s) (String.◌∷◌ d t) h =
    let e : code c ≡ code d = cc in
    let r : codes s ≡ codes t = cc in cc (Char-path c d e, codes-injective s t r)

pub str_lt_irrefl : (s : String) → str_lt s s ≡ false
str_lt_irrefl s = codes_lt_irrefl (codes s)

pub str_lt_trans : (r s t : String) → str_lt r s ≡ true → str_lt s t ≡ true → str_lt r t ≡ true
str_lt_trans r s t h k = codes_lt_trans (codes r) (codes s) (codes t) h k

pub str_lt_total : (s t : String) → str_eq t s ≡ false → str_lt s t ≡ false → str_lt t s ≡ true
str_lt_total s t ne h = elim (codes_lt_total (codes s) (codes t) h) [
  | inl e ↦ absurd (ground (arith, eq_iff t s, codes-injective s t e))
  | inr less ↦ less
]

-- Texts in strictly ascending order.
abbrev pub Ascending : List String → Type 0
Ascending [] = Unit
Ascending (x ∷ xs) = All (λ y. str_lt x y ≡ true) xs × Ascending xs

pub above_trans :
    (k j : String) (l : List String)
    → str_lt k j ≡ true
    → All (λ y. str_lt j y ≡ true) l
    → All (λ y. str_lt k y ≡ true) l
above_trans k j [] h all = tt
above_trans k j (x ∷ l) h all = (str_lt_trans k j x h all.0, above_trans k j l h all.1)

above-Distinct :
    (x : String) (l : List String) → All (λ y. str_lt x y ≡ true) l → contains l x ≡ false
above-Distinct x [] h = refl
above-Distinct x (y ∷ l) h =
    let e : str_eq y x ≡ false = distinct y h.0 in rw e (above-Distinct x l h.1)
  where
    distinct : (z : String) → str_lt x z ≡ true → str_eq z x ≡ false
    distinct z lt = elim (Bool-cases (str_eq z x)) [
      | inl same ↦ absurd (ground (arith, str_lt_irrefl x, ap (str_lt x) ((eq_iff z x).0 same), lt))
      | inr other ↦ other
    ]

pub Ascending-Distinct : (l : List String) → Ascending l → Distinct l
Ascending-Distinct [] h = tt
Ascending-Distinct (x ∷ l) h = (above-Distinct x l h.0, Ascending-Distinct l h.1)

module _ {ℓ} {V : Type ℓ} where
  abbrev pub keys : Keyed V → List String
  keys [] = []
  keys ((k, v) ∷ m) = k ∷ keys m

  above-insert :
      (x k : String) (v : V) (m : Keyed V)
      → str_lt x k ≡ true
      → All (λ y. str_lt x y ≡ true) (keys m)
      → All (λ y. str_lt x y ≡ true) (keys (Keyed.insert k v m))
  unfolding Keyed.insert
  above-insert x k v [] h all = (h, tt)
  above-insert x k v ((j, w) ∷ m) h all = elim (Bool-cases (str_eq j k)) [
    | inl same ↦ rw same (h, all.1)
    | inr other ↦ elim (Bool-cases (str_lt k j)) [
      | inl less ↦ rw (other, less) (h, (all.0, all.1))
      | inr more ↦ rw (other, more) (all.0, above-insert x k v m h all.1)
    ]
  ]

  pub insert-Ascending :
      (k : String) (v : V) (m : Keyed V)
      → Ascending (keys m)
      → Ascending (keys (Keyed.insert k v m))
  unfolding Keyed.insert
  insert-Ascending k v [] h = (tt, tt)
  insert-Ascending k v ((j, w) ∷ m) h = elim (Bool-cases (str_eq j k)) [
    | inl same ↦
        rw same (subst (λ x. All (λ y. str_lt x y ≡ true) (keys m)) ((eq_iff j k).0 same) h.0, h.1)
    | inr other ↦ elim (Bool-cases (str_lt k j)) [
      | inl less ↦ rw (other, less) ((less, above_trans k j (keys m) less h.0), h)
      | inr more ↦
          rw (other, more)
            (above-insert j k v m (str_lt_total k j other more) h.0, insert-Ascending k v m h.1)
    ]
  ]
