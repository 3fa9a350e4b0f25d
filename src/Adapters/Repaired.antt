-- ===== src/Adapters/Repaired.antt =====
-- What a repaired text has and keeps (src/adapters.rs).
use quinte.Prelude.{
  ℕ, ◌/◌, ◌%◌, ◌<◌, ◌≡◌, ◌↔◌, refl, sym, ◌∙◌, ap, Bool, true, false, ◌||◌, if◌then◌else◌, List, [],
  ◌∷◌, ◌++◌, ◌==◌, arith, Bool-cases, inl, inr,
}
use quinte.Adapters.{
  is_control, hex_digit, hex4, escape_of, escape_from, escape_raw_control_chars_in_strings,
}

-- A control character stands in a string of the text, and not right after a backslash. The flags
-- say whether the text begins inside a string, and whether it begins after a backslash.
unfoldable pub has_raw : Bool → Bool → List ℕ → Bool
has_raw in_string escaped [] = false
has_raw in_string true (c ∷ text) = has_raw in_string false text
has_raw true false (c ∷ text) =
    let next = has_raw true true text in
    let outside = has_raw false false text in
    let rest = has_raw true false text in
    if c == b'\\' then next else if c == b'"' then outside else is_control c || rest
has_raw false false (c ∷ text) =
    let inside = has_raw true false text in
    let rest = has_raw false false text in if c == b'"' then inside else rest

special : ℕ → Bool
special c = (c == b'\\') || (c == b'"') || is_control c

abbrev Skipped : List ℕ → Type 0
Skipped part = (text : List ℕ) → has_raw true false (part ++ text) ≡ has_raw true false text

Skipped-if : (b : Bool) (x y : List ℕ) → Skipped x → Skipped y → Skipped (if b then x else y)
Skipped-if true x y sx sy = sx
Skipped-if false x y sx sy = sy

Skipped-∷ : (c : ℕ) (part : List ℕ) → special c ≡ false → Skipped part → Skipped (c ∷ part)
unfolding special has_raw
Skipped-∷ c part h rest text = ground (arith, rest text)

hex_digit_plain : (d : ℕ) → d < 16 → special (hex_digit d) ≡ false
unfolding special
hex_digit_plain d lt = ground arith

hex4-Skipped : (c : ℕ) → Skipped (hex4 c)
hex4-Skipped c =
    let d2 = hex_digit (c / 256 % 16) in
    let d1 = hex_digit (c / 16 % 16) in
    let d0 = hex_digit (c % 16) in
    Skipped-∷ (hex_digit (c / 4096 % 16)) (d2 ∷ d1 ∷ d0 ∷ [])
      (hex_digit_plain (c / 4096 % 16) (omega arith))
      (Skipped-∷ d2 (d1 ∷ d0 ∷ []) (hex_digit_plain (c / 256 % 16) (omega arith)) (
        Skipped-∷ d1 (d0 ∷ []) (hex_digit_plain (c / 16 % 16) (omega arith))
          (Skipped-∷ d0 [] (hex_digit_plain (c % 16) (omega arith)) (λ text. refl))))

escape-Skipped : (l : ℕ) (part : List ℕ) → Skipped part → Skipped (b'\\' ∷ l ∷ part)
unfolding has_raw
escape-Skipped l part rest text = rest text

escape_of-Skipped : (c : ℕ) → Skipped (escape_of c)
escape_of-Skipped c =
    Skipped-if (c == 10) (b'\\' ∷ b'n' ∷ []) _ (escape-Skipped b'n' [] (λ text. refl)) (
      Skipped-if (c == 13) (b'\\' ∷ b'r' ∷ []) _ (escape-Skipped b'r' [] (λ text. refl)) (
        Skipped-if (c == 9) (b'\\' ∷ b't' ∷ []) (b'\\' ∷ b'u' ∷ hex4 c)
          (escape-Skipped b't' [] (λ text. refl)) (escape-Skipped b'u' (hex4 c) (hex4-Skipped c))))

control_step :
    (c : ℕ) (text : List ℕ)
    → is_control c ≡ true
    → escape_from true false (c ∷ text) ≡ escape_of c ++ escape_from true false text
unfolding escape_from
control_step c text h = ground arith

escape_from-has_raw :
    (in_string escaped : Bool) (text : List ℕ)
    → has_raw in_string escaped (escape_from in_string escaped text) ≡ false
unfolding escape_from has_raw
escape_from-has_raw in_string escaped [] = refl
escape_from-has_raw in_string true (c ∷ text) = escape_from-has_raw in_string false text
escape_from-has_raw true false (c ∷ text) = elim (Bool-cases (is_control c)) [
  | inl control ↦
      ap (has_raw true false) (control_step c text control)
      ∙ (escape_of-Skipped c (escape_from true false text) ∙ escape_from-has_raw true false text)
  | inr plain ↦ ground (
    arith,
    escape_from-has_raw true true text,
    escape_from-has_raw false false text,
    escape_from-has_raw true false text,
  )
]
escape_from-has_raw false false (c ∷ text) =
    ground (arith, escape_from-has_raw true false text, escape_from-has_raw false false text)

kept_from :
    (in_string escaped : Bool) (text : List ℕ)
    → has_raw in_string escaped text ≡ false
    → escape_from in_string escaped text ≡ text
unfolding escape_from has_raw
kept_from in_string escaped [] h = refl
kept_from in_string true (c ∷ text) h = ap (λ t. c ∷ t) (kept_from in_string false text h)
kept_from true false (c ∷ text) h =
    ground (arith, kept_from true true text, kept_from false false text, kept_from true false text)
kept_from false false (c ∷ text) h =
    ground (arith, kept_from true false text, kept_from false false text)

-- A repaired text has no control character in a string, but right after a backslash; and a text is
-- kept as it is exactly if it has none. So a second repair changes nothing.
pub escape_raw_control_chars_in_strings_lem :
    (text : List ℕ)
    → (has_raw false false (escape_raw_control_chars_in_strings text) ≡ false)
      × ((escape_raw_control_chars_in_strings text ≡ text) ↔ (has_raw false false text ≡ false))
unfolding escape_raw_control_chars_in_strings
escape_raw_control_chars_in_strings_lem text = (
  escape_from-has_raw false false text,
  (
    (λ same. ap (has_raw false false) (sym same) ∙ escape_from-has_raw false false text),
    kept_from false false text,
  ),
)
