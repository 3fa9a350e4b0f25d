-- ===== src/Adapters.antt =====
-- The repair of what a model wrote for JSON (src/adapters.rs). Texts are code points.
pub mod Repaired
use quinte.Prelude.{
  ℕ, ◌+◌, ◌/◌, ◌%◌, Bool, true, false, not, ◌&&◌, ◌||◌, List, [], ◌∷◌, ◌++◌, ltb, leb, ◌==◌,
  if◌then◌else◌,
}

-- `char::is_control`.
abbrev pub is_control : ℕ → Bool
is_control c = ltb c 0x20 || (leb 0x7f c && ltb c 0xa0)

abbrev pub hex_digit : ℕ → ℕ
hex_digit d = if ltb d 10 then b'0' + d else b'W' + d

-- `{:04x}` for a character below 2^16, as a control character is.
abbrev pub hex4 : ℕ → List ℕ
hex4 c =
    hex_digit (c / 4096 % 16)
    ∷ hex_digit (c / 256 % 16)
    ∷ hex_digit (c / 16 % 16)
    ∷ hex_digit (c % 16)
    ∷ []

abbrev pub escape_of : ℕ → List ℕ
escape_of c =
    if c == 10
    then b'\\' ∷ b'n' ∷ []
    else if c == 13
    then b'\\' ∷ b'r' ∷ []
    else if c == 9
    then b'\\' ∷ b't' ∷ []
    else b'\\' ∷ b'u' ∷ hex4 c

-- The loop, with its flags `in_string` and `escaped`.
unfoldable pub escape_from : Bool → Bool → List ℕ → List ℕ
escape_from in_string escaped [] = []
escape_from in_string true (c ∷ text) = c ∷ escape_from in_string false text
escape_from in_string false (c ∷ text) =
    let next = escape_from in_string true text in
    let toggled = escape_from (not in_string) false text in
    let rest = escape_from in_string false text in
    if c == b'\\' && in_string
    then c ∷ next
    else if c == b'"'
    then c ∷ toggled
    else if in_string && is_control c
    then escape_of c ++ rest
    else c ∷ rest

unfoldable pub escape_raw_control_chars_in_strings : List ℕ → List ℕ
escape_raw_control_chars_in_strings text = escape_from false false text
