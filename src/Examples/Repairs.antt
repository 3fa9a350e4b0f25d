-- ===== src/Examples/Repairs.antt =====
-- Texts that are repaired (src/adapters.rs).
use quinte.Prelude.{◌≡◌, refl, ◌↔◌, false, List, ◌∷◌, ℕ, codes, ◌++◌}
use quinte.Adapters.{escape_from, escape_raw_control_chars_in_strings}
use quinte.Adapters.Repaired.{has_raw, escape_raw_control_chars_in_strings_lem}

-- A line feed in a string, one outside and one after a backslash.
abbrev broken : List ℕ
broken = codes "{\"a\": \"b" ++ 10 ∷ codes "c\"," ++ 10 ∷ codes "\"d\\" ++ 10 ∷ codes "\"}"

abbrev mended : List ℕ
mended = codes "{\"a\": \"b\\nc\"," ++ 10 ∷ codes "\"d\\" ++ 10 ∷ codes "\"}"

-- The one after a backslash is kept.
repaired : escape_raw_control_chars_in_strings broken ≡ mended
unfolding escape_raw_control_chars_in_strings escape_from
repaired = refl

escape_raw_control_chars_in_strings_lem_example :
    (has_raw false false (escape_raw_control_chars_in_strings broken) ≡ false)
    × ((escape_raw_control_chars_in_strings broken ≡ broken) ↔ (has_raw false false broken ≡ false))
escape_raw_control_chars_in_strings_lem_example = escape_raw_control_chars_in_strings_lem broken
