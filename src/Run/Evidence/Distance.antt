-- ===== src/Run/Evidence/Distance.antt =====
-- `levenshtein` of src/run.rs computes the edit distance.
use mathlib.Core.List.{append-nil}
use quinte.Prelude.{ℕ, ◌+◌, min, ◌≡◌, refl, sym, ap, ◌∙◌, ◌↔◌, List, [], ◌∷◌, ◌++◌, length, arith}
use quinte.Run.Evidence.{cost, fill_row, rows, first_row, last_or, levenshtein}

-- The recursive definition of the distance: substitute, delete or insert.
unfoldable pub edit : List ℕ → List ℕ → ℕ
edit [] [] = 0
edit [] (b ∷ ys) = length (b ∷ ys)
edit (a ∷ xs) [] = length (a ∷ xs)
edit (a ∷ xs) (b ∷ ys) =
    min (min (edit xs ys + cost a b) (edit xs (b ∷ ys) + 1)) (edit (a ∷ xs) ys + 1)

-- The row of the table for a prefix `x` of the first text, after a prefix `y` of the second; both
-- prefixes are reversed.
row_rest : List ℕ → List ℕ → List ℕ → List ℕ
row_rest x y [] = []
row_rest x y (b ∷ bs) = edit x (b ∷ y) ∷ row_rest x (b ∷ y) bs

abbrev pub reverse_onto : List ℕ → List ℕ → List ℕ
reverse_onto [] y = y
reverse_onto (b ∷ bs) y = reverse_onto bs (b ∷ y)

fill_row-eq-row_rest :
    (a : ℕ) (x y bs : List ℕ)
    → fill_row a (edit (a ∷ x) y) (edit x y ∷ row_rest x y bs) bs ≡ row_rest (a ∷ x) y bs
unfolding fill_row row_rest edit
fill_row-eq-row_rest a x y [] = refl
fill_row-eq-row_rest a x y (b ∷ bs) =
    ap (λ l. edit (a ∷ x) (b ∷ y) ∷ l) (fill_row-eq-row_rest a x (b ∷ y) bs)

edit_nil : (x : List ℕ) → edit x [] ≡ length x
unfolding edit
edit_nil [] = refl
edit_nil (a ∷ x) = refl

nil_edit : (y : List ℕ) → edit [] y ≡ length y
unfolding edit
nil_edit [] = refl
nil_edit (b ∷ y) = refl

first_row-eq : (n : ℕ) (y bs : List ℕ) → n ≡ length y → first_row n bs ≡ n ∷ row_rest [] y bs
unfolding first_row row_rest
first_row-eq n y [] h = refl
first_row-eq n y (b ∷ bs) h =
    let ih = first_row-eq (n + 1) (b ∷ y) bs (omega arith) in
    let e : edit [] (b ∷ y) ≡ n + 1 = omega (arith, nil_edit (b ∷ y)) in rw e (ap (λ l. n ∷ l) ih)

rows-eq :
    (i : ℕ) (a x bs : List ℕ)
    → i ≡ length x
    → rows i a (edit x [] ∷ row_rest x [] bs) bs
      ≡ edit (reverse_onto a x) [] ∷ row_rest (reverse_onto a x) [] bs
unfolding rows
rows-eq i [] x bs h = refl
rows-eq i (c ∷ a) x bs h =
    let e : i + 1 ≡ edit (c ∷ x) [] = omega (arith, edit_nil (c ∷ x)) in
    ap (λ n. rows (i + 1) a (n ∷ fill_row c n (edit x [] ∷ row_rest x [] bs) bs) bs) e
    ∙ ap (λ l. rows (i + 1) a (edit (c ∷ x) [] ∷ l) bs) (fill_row-eq-row_rest c x [] bs)
    ∙ rows-eq (i + 1) a (c ∷ x) bs (omega arith)

last_or-row :
    (d : ℕ) (x y bs : List ℕ) → last_or d (edit x y ∷ row_rest x y bs) ≡ edit x (reverse_onto bs y)
unfolding last_or row_rest
last_or-row d x y [] = refl
last_or-row d x y (b ∷ bs) = last_or-row (edit x y) x (b ∷ y) bs

-- The two-row loop computes the recursive edit distance, of the texts read from the end.
pub levenshtein-eq-edit :
    (a b : List ℕ) → levenshtein a b ≡ edit (reverse_onto a []) (reverse_onto b [])
unfolding levenshtein
levenshtein-eq-edit a b =
    let e : first_row 0 b ≡ edit [] [] ∷ row_rest [] [] b =
      first_row-eq 0 [] b refl ∙ ap (λ n. n ∷ row_rest [] [] b) (sym (edit_nil [])) in
    ap (λ l. last_or 0 (rows 0 a l b)) e
    ∙ ap (last_or 0) (rows-eq 0 a [] b refl)
    ∙ last_or-row 0 (reverse_onto a []) [] b

edit_self : (x : List ℕ) → edit x x ≡ 0
unfolding edit
edit_self [] = refl
edit_self (a ∷ x) = ground (arith, edit_self x)

eq_of_edit_zero : (x y : List ℕ) → edit x y ≡ 0 → x ≡ y
unfolding edit
eq_of_edit_zero [] [] h = refl
eq_of_edit_zero [] (b ∷ y) h = absurd (omega arith)
eq_of_edit_zero (a ∷ x) [] h = absurd (omega arith)
eq_of_edit_zero (a ∷ x) (b ∷ y) h = ground (arith, eq_of_edit_zero x y)

edit_comm : (x y : List ℕ) → edit x y ≡ edit y x
unfolding edit
edit_comm [] [] = refl
edit_comm [] (b ∷ y) = refl
edit_comm (a ∷ x) [] = refl
edit_comm (a ∷ x) (b ∷ y) = ground (arith, edit_comm x y, edit_comm x (b ∷ y), edit_comm (a ∷ x) y)

reverse_onto_twice : (x y z : List ℕ) → reverse_onto (reverse_onto x y) z ≡ reverse_onto y (x ++ z)
reverse_onto_twice [] y z = refl
reverse_onto_twice (a ∷ x) y z = reverse_onto_twice x (a ∷ y) z

reverse_onto_injective : (x y : List ℕ) → reverse_onto x [] ≡ reverse_onto y [] → x ≡ y
reverse_onto_injective x y h =
    sym (append-nil x)
    ∙ sym (reverse_onto_twice x [] [])
    ∙ ap (λ l. reverse_onto l []) h
    ∙ reverse_onto_twice y [] []
    ∙ append-nil y

-- The distance is symmetric, and is 0 exactly on equal texts.
pub levenshtein_zero_iff :
    (a b : List ℕ) → (levenshtein a b ≡ levenshtein b a) × ((levenshtein a b ≡ 0) ↔ (a ≡ b))
levenshtein_zero_iff a b = (
  levenshtein-eq-edit a b
      ∙ edit_comm (reverse_onto a []) (reverse_onto b [])
      ∙ sym (levenshtein-eq-edit b a),
  (
    λ h. reverse_onto_injective a b (
        eq_of_edit_zero (reverse_onto a []) (reverse_onto b [])
          (sym (levenshtein-eq-edit a b) ∙ h)),
    λ e.
        levenshtein-eq-edit a b
        ∙ ap (λ x. edit (reverse_onto a []) (reverse_onto x [])) (sym e)
        ∙ edit_self (reverse_onto a []),
  ),
)
