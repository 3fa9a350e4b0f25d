-- ===== src/Run/Packet/Scrubbed.antt =====
-- What `replace_identity_token` of src/run.rs replaces, and that its loop ends.
use quinte.Prelude.{
  length-append, ℕ, zero, suc, ◌≤◌, ◌<◌, ◌≡◌, ◌≢◌, refl, sym, ◌∙◌, ap, subst, true, false, List, [],
  ◌∷◌, ◌++◌, map, Option, none, some, length, arith, Bool-cases, Option-cases, inl, inr,
}
use quinte.Run.Packet.{
  starts, skip, find_token, after_first, replace_loop, replace_identity_token, fold_for,
}

-- No part of the text equals the token, up to the folding of its characters.
unfoldable pub Free : (ℕ → ℕ) → List ℕ → List ℕ → Type 0
Free fold token text =
    (before matched after : List ℕ)
    → text ≡ before ++ (matched ++ after)
    → map fold matched ≢ map fold token

-- A text and the text in which every place of the token, read from the left, is replaced.
pub data Replaced (fold : ℕ → ℕ) (token replacement : List ℕ) : List ℕ → List ℕ → Type 0 where
  rest_free : (text : List ℕ) → Free fold token text → Replaced fold token replacement text text
  place :
      (before matched : List ℕ) {rest out : List ℕ}
      → Free fold token before
      → map fold matched ≡ map fold token
      → Replaced fold token replacement rest out
      → Replaced fold token replacement
          (before ++ (matched ++ rest))
          (before ++ (replacement ++ out))

tail : List ℕ → List ℕ
tail [] = []
tail (x ∷ xs) = xs

starts-match :
    (fold : ℕ → ℕ) (token matched after : List ℕ)
    → map fold matched ≡ map fold token
    → starts fold token (matched ++ after) ≡ true
unfolding starts
starts-match fold [] matched after h = refl
starts-match fold (t ∷ token) [] after h = ground arith
starts-match fold (t ∷ token) (c ∷ matched) after h =
    ground (arith, starts-match fold token matched after)

-- The characters at the head that the token stands on.
unfoldable stood_on : List ℕ → List ℕ → List ℕ
stood_on [] text = []
stood_on (t ∷ token) [] = []
stood_on (t ∷ token) (c ∷ text) = c ∷ stood_on token text

starts-split :
    (fold : ℕ → ℕ) (token text : List ℕ)
    → starts fold token text ≡ true
    → (text ≡ stood_on token text ++ skip token text)
      × (map fold (stood_on token text) ≡ map fold token)
unfolding starts skip stood_on
starts-split fold [] text h = (refl, refl)
starts-split fold (t ∷ token) [] h = ground arith
starts-split fold (t ∷ token) (c ∷ text) h =
    let tail = starts-split fold token text (ground arith) in
    (ap (λ s. c ∷ s) (tail.0), ground (arith, tail.1))

starts-append :
    (fold : ℕ → ℕ) (token text more : List ℕ)
    → starts fold token (text ++ more) ≡ false
    → starts fold token text ≡ false
unfolding starts
starts-append fold [] text more h = h
starts-append fold (t ∷ token) [] more h = refl
starts-append fold (t ∷ token) (c ∷ text) more h =
    ground (arith, starts-append fold token text more)

Free-empty : (fold : ℕ → ℕ) (t : ℕ) (token : List ℕ) → Free fold (t ∷ token) []
unfolding Free
Free-empty fold t token [] [] after e h = ground arith
Free-empty fold t token [] (m ∷ matched) after e h = ground arith
Free-empty fold t token (b ∷ before) matched after e h = ground arith

Free-cons :
    (fold : ℕ → ℕ) (token : List ℕ) (c : ℕ) (text : List ℕ)
    → starts fold token (c ∷ text) ≡ false
    → Free fold token text
    → Free fold token (c ∷ text)
unfolding Free tail
Free-cons fold token c text at free [] matched after e h =
    ground (arith, starts-match fold token matched after h, ap (starts fold token) e)
Free-cons fold token c text at free (b ∷ before) matched after e h =
    free before matched after (ap tail e) h

-- What `find_token` gives.
unfoldable Found : (ℕ → ℕ) → List ℕ → List ℕ → Option (List ℕ × List ℕ) → Type 0
Found fold token text none = Free fold token text
Found fold token text (some (before, rest)) =
    (matched : List ℕ) × (text ≡ before ++ (matched ++ rest))
    × (map fold matched ≡ map fold token)
    × Free fold token before

Found-later :
    (fold : ℕ → ℕ) (t : ℕ) (token : List ℕ) (c : ℕ) (text : List ℕ)
    (found : Option (List ℕ × List ℕ))
    → starts fold (t ∷ token) (c ∷ text) ≡ false
    → Found fold (t ∷ token) text found
    → Found fold (t ∷ token) (c ∷ text) (after_first c found)
unfolding Found
Found-later fold t token c text none at free = Free-cons fold (t ∷ token) c text at free
Found-later fold t token c text (some (before, rest)) at (matched, split, same, free) = (
  matched,
  ap (λ s. c ∷ s) split,
  same,
  Free-cons fold (t ∷ token) c before
      (starts-append fold (t ∷ token) (c ∷ before) (matched ++ rest)
        (sym (ap (λ s. starts fold (t ∷ token) (c ∷ s)) split) ∙ at))
      free,
)

find_token_lem :
    (fold : ℕ → ℕ) (t : ℕ) (token text : List ℕ)
    → Found fold (t ∷ token) text (find_token fold (t ∷ token) text)
unfolding Found find_token
find_token_lem fold t token [] = Free-empty fold t token
find_token_lem fold t token (c ∷ text) = elim (Bool-cases (starts fold (t ∷ token) (c ∷ text))) [
  | inl here ↦
      let split = starts-split fold (t ∷ token) (c ∷ text) here in
      rw here (stood_on (t ∷ token) (c ∷ text), split.0, split.1, Free-empty fold t token)
  | inr later ↦ rw later (
      Found-later fold t token c text (find_token fold (t ∷ token) text) later
        (find_token_lem fold t token text))
]

length-Found :
    (fold : ℕ → ℕ) (t : ℕ) (token text before matched rest : List ℕ)
    → text ≡ before ++ (matched ++ rest)
    → map fold matched ≡ map fold (t ∷ token)
    → length rest < length text
length-Found fold t token text before [] rest split same = ground (arith, same)
length-Found fold t token text before (m ∷ matched) rest split same =
    ground (
      arith,
      ap length split,
      length-append before (m ∷ matched ++ rest),
      length-append matched rest,
    )

replace_loop_lem :
    (fuel : ℕ) (fold : ℕ → ℕ) (t : ℕ) (token replacement text : List ℕ)
    → length text ≤ fuel
    → Replaced fold
        (t ∷ token)
        replacement
        text
        (replace_loop fuel fold (t ∷ token) replacement text)
unfolding replace_loop Found
replace_loop_lem zero fold t token replacement [] le = rest_free [] (Free-empty fold t token)
replace_loop_lem zero fold t token replacement (c ∷ text) le = ground arith
replace_loop_lem (suc fuel) fold t token replacement text le =
    elim (Option-cases (find_token fold (t ∷ token) text)) [
      | inl missing ↦
          rw (missing, replace_loop)
            (rest_free text
              (subst (Found fold (t ∷ token) text) missing (find_token_lem fold t token text)))
      | inr ((before, rest), hit) ↦
          let found = subst (Found fold (t ∷ token) text) hit (find_token_lem fold t token text) in
          let matched = found.0 in
          let later =
            replace_loop_lem fuel fold t token replacement rest (
              ground (arith, length-Found fold t token text before matched rest found.1 found.2)) in
          rw (hit, replace_loop)
            (subst
              (λ s.
                Replaced fold (t ∷ token) replacement s
                  (before ++ (replacement ++ replace_loop fuel fold (t ∷ token) replacement rest)))
              (sym found.1) (place before matched found.3 found.2 later))
    ]

-- For every token that is not empty: the loop of `replace_identity_token` goes through the whole
-- text, and what it gives is the text with the replacement at places of the token only. The pieces
-- of the text before, between and after these places are kept, and none of them has the token
-- in it, up to the case of letters where the token is of ASCII.
pub replace_identity_token_scrubs :
    (t : ℕ) (token replacement text : List ℕ)
    → Replaced
        (fold_for (t ∷ token))
        (t ∷ token)
        replacement
        text
        (replace_identity_token text (t ∷ token) replacement)
unfolding replace_identity_token
replace_identity_token_scrubs t token replacement text =
    replace_loop_lem (length text) (fold_for (t ∷ token)) t token replacement text (omega arith)
