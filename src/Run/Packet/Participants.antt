-- ===== src/Run/Packet/Participants.antt =====
-- Who takes part in R2 under which label (`build_r2_packet` of src/run.rs).
use quinte.Prelude.{
  ℕ, zero, suc, ◌+◌, ◌<◌, ◌≡◌, ◌↔◌, refl, sym, ◌∙◌, ap, subst, String, true, false, inl, inr, List,
  [], ◌∷◌, Option, some, ok, >>=-ok, ok-injective, arith, Bool-cases, str_eq, get_elem?, contains,
  Distinct, ◌⊎◌, ◌≢◌,
}
use text.Mathlib.TextEquality.{eq_iff}
use quinte.Prelude.Keyed
use quinte.Prelude.Keyed.{Keyed, get-insert}
use quinte.Model.Lanes.{LaneOutput, LaneAccepted}
use quinte.Model.Routes.{Policy}
use quinte.Run.Contest.{r1_contestation}
use quinte.Run.Packet.{
  Value, Token, R2Packet, mem, labels, rotate_left, r2_identity_replacements, scrub_lane_output,
  participants_from, build_r2_packet,
}

rotate_left-Distinct : (n : ℕ) → n < 5 → Distinct (rotate_left n labels)
unfolding rotate_left
rotate_left-Distinct zero lt = (refl, (refl, (refl, (refl, (refl, tt)))))
rotate_left-Distinct (suc zero) lt = (refl, (refl, (refl, (refl, (refl, tt)))))
rotate_left-Distinct (suc (suc zero)) lt = (refl, (refl, (refl, (refl, (refl, tt)))))
rotate_left-Distinct (suc (suc (suc zero))) lt = (refl, (refl, (refl, (refl, (refl, tt)))))
rotate_left-Distinct (suc (suc (suc (suc zero)))) lt = (refl, (refl, (refl, (refl, (refl, tt)))))
rotate_left-Distinct (suc (suc (suc (suc (suc n))))) lt = ground arith

get_elem?-contains :
    (ls : List String) (j : ℕ) (k : String) → get_elem? ls j ≡ some k → contains ls k ≡ true
get_elem?-contains [] j k h = ground arith
get_elem?-contains (l ∷ ls) zero k h = ground (arith, eq_iff l k, h)
get_elem?-contains (l ∷ ls) (suc j) k h = ground (arith, get_elem?-contains ls j k h)

get-empty :
    (label : String) (output : LaneOutput)
    → Keyed.get label (let m : Keyed LaneOutput = [] in m) ≢ some output
unfolding Keyed.get
get-empty label output h = ground arith

some-injective : {A : Type 0} {a b : A} → some a ≡ some b → a ≡ b
some-injective h = cc

module _ (to_value : LaneOutput → Value) (from_value : Value → Option LaneOutput) where
  -- A contested lane, counted from an index on, with its label and its scrubbed output.
  unfoldable pub Entry :
      List Token → List ℕ → ℕ → List String → List LaneAccepted → String → LaneOutput → Type 0
  Entry tokens contested i ls lanes label output =
      (j : ℕ) × (lane : LaneAccepted) × (get_elem? ls j ≡ some label)
      × (get_elem? lanes j ≡ some lane)
      × (mem (i + j) contested ≡ true)
      × (scrub_lane_output to_value from_value tokens lane.output ≡ ok output)

  Entry-later :
      (tokens : List Token) (contested : List ℕ) (i : ℕ) (l : String) (ls : List String)
      (a : LaneAccepted) (lanes : List LaneAccepted) (label : String) (output : LaneOutput)
      → Entry tokens contested (i + 1) ls lanes label output
      → Entry tokens contested i (l ∷ ls) (a ∷ lanes) label output
  unfolding Entry
  Entry-later tokens contested i l ls a lanes label output (j, lane, at, of, in_it, ran) =
      (suc j, lane, at, of, subst (λ n. mem n contested ≡ true) (omega arith) in_it, ran)

  -- One round of the loop that succeeds.
  round :
      (tokens : List Token) (contested : List ℕ) (i : ℕ) (l : String) (ls : List String)
      (lane : LaneAccepted) (lanes : List LaneAccepted) (m : Keyed LaneOutput)
      {all : Keyed LaneOutput}
      → participants_from to_value from_value tokens contested i (l ∷ ls) (lane ∷ lanes) m ≡ ok all
      → ((mem i contested ≡ false)
          × (participants_from to_value from_value tokens contested (i + 1) ls lanes m ≡ ok all))
        ⊎ ((mem i contested ≡ true)
            × (o : LaneOutput) × (scrub_lane_output to_value from_value tokens lane.output ≡ ok o)
            × (participants_from to_value from_value tokens contested
                  (i + 1)
                  ls
                  lanes
                  (Keyed.insert l o m)
                ≡ ok all))
  unfolding participants_from
  round tokens contested i l ls lane lanes m h = elim (Bool-cases (mem i contested)) [
    | inl there ↦
        let chain =
          >>=-ok (scrub_lane_output to_value from_value tokens lane.output)
            (λ o.
              participants_from to_value from_value tokens contested (i + 1) ls lanes
                (Keyed.insert l o m))
            (ground (arith, h)) in
        inr (there, chain.0, chain.1, chain.2)
    | inr out ↦ inl (out, ground (arith, h))
  ]

  kept :
      (tokens : List Token) (contested : List ℕ) (i : ℕ) (ls : List String)
      (lanes : List LaneAccepted) (m : Keyed LaneOutput) (label : String) {all : Keyed LaneOutput}
      → contains ls label ≡ false
      → participants_from to_value from_value tokens contested i ls lanes m ≡ ok all
      → Keyed.get label all ≡ Keyed.get label m
  unfolding participants_from
  kept tokens contested i [] lanes m label other h = ap (Keyed.get label) (sym (ok-injective h))
  kept tokens contested i (l ∷ ls) [] m label other h = ap (Keyed.get label) (sym (ok-injective h))
  kept tokens contested i (l ∷ ls) (lane ∷ lanes) m label other h =
      elim (round tokens contested i l ls lane lanes m h) [
        | inl (out, later) ↦ kept tokens contested (i + 1) ls lanes m label (ground arith) later
        | inr (in_it, o, ran, later) ↦
            kept tokens contested (i + 1) ls lanes (Keyed.insert l o m) label (ground arith) later
            ∙ ground (arith, get-insert l label o m)
      ]

  inserted :
      (tokens : List Token) (contested : List ℕ) (i : ℕ) (l : String) (ls : List String)
      (lane : LaneAccepted) (lanes : List LaneAccepted) (m : Keyed LaneOutput) (label : String)
      (o output : LaneOutput)
      → mem i contested ≡ true
      → scrub_lane_output to_value from_value tokens lane.output ≡ ok o
      → Keyed.get label (Keyed.insert l o m) ≡ some output
      → (Keyed.get label m ≡ some output)
        ⊎ Entry tokens contested i (l ∷ ls) (lane ∷ lanes) label output
  unfolding Entry
  inserted tokens contested i l ls lane lanes m label o output there ran old =
      elim (Bool-cases (str_eq l label)) [
        | inl same ↦ inr (
          0,
          lane,
          ap some ((eq_iff l label).0 same),
          refl,
          subst (λ n. mem n contested ≡ true) (omega arith) there,
          ran ∙ ap ok (some-injective (ground (arith, get-insert l label o m, old, same))),
        )
        | inr other ↦ inl (ground (arith, get-insert l label o m, old, other))
      ]

  -- Every participant is in the map before, or an entry of a contested lane.
  origin :
      (tokens : List Token) (contested : List ℕ) (i : ℕ) (ls : List String)
      (lanes : List LaneAccepted) (m : Keyed LaneOutput) (label : String) (output : LaneOutput)
      {all : Keyed LaneOutput}
      → participants_from to_value from_value tokens contested i ls lanes m ≡ ok all
      → Keyed.get label all ≡ some output
      → (Keyed.get label m ≡ some output) ⊎ Entry tokens contested i ls lanes label output
  unfolding participants_from Entry
  origin tokens contested i [] lanes m label output h at =
      inl (ap (Keyed.get label) (ok-injective h) ∙ at)
  origin tokens contested i (l ∷ ls) [] m label output h at =
      inl (ap (Keyed.get label) (ok-injective h) ∙ at)
  origin tokens contested i (l ∷ ls) (lane ∷ lanes) m label output h at =
      elim (round tokens contested i l ls lane lanes m h) [
        | inl (out, later) ↦
            elim (origin tokens contested (i + 1) ls lanes m label output later at) [
              | inl old ↦ inl old
              | inr new ↦ inr (Entry-later tokens contested i l ls lane lanes label output new)
            ]
        | inr (in_it, o, ran, later) ↦
            elim (origin tokens contested (i + 1) ls lanes (Keyed.insert l o m) label output later
              at) [
                | inl old ↦
                    inserted tokens contested i l ls lane lanes m label o output in_it ran old
                | inr new ↦ inr (Entry-later tokens contested i l ls lane lanes label output new)
              ]
      ]

  -- Every entry of a contested lane is a participant.
  entered :
      (tokens : List Token) (contested : List ℕ) (i : ℕ) (ls : List String)
      (lanes : List LaneAccepted) (m : Keyed LaneOutput) (j : ℕ) (label : String)
      (lane : LaneAccepted) {all : Keyed LaneOutput}
      → Distinct ls
      → participants_from to_value from_value tokens contested i ls lanes m ≡ ok all
      → get_elem? ls j ≡ some label
      → get_elem? lanes j ≡ some lane
      → mem (i + j) contested ≡ true
      → (output : LaneOutput) × (scrub_lane_output to_value from_value tokens lane.output
          ≡ ok output)
        × (Keyed.get label all ≡ some output)
  entered tokens contested i [] lanes m j label lane distinct h at of in_it = ground arith
  entered tokens contested i (l ∷ ls) [] m j label lane distinct h at of in_it = ground arith
  entered tokens contested i (l ∷ ls) (a ∷ lanes) m zero label lane distinct h at of in_it =
      elim (round tokens contested i l ls a lanes m h) [
        | inl (out, later) ↦ ground (arith, out, in_it)
        | inr (there, o, ran, later) ↦ (
          o,
          ap (λ (x : LaneAccepted). scrub_lane_output to_value from_value tokens x.output)
                (sym (some-injective of))
              ∙ ran,
          kept tokens contested (i + 1) ls lanes (Keyed.insert l o m) label
                (subst (λ x. contains ls x ≡ false) (some-injective at) distinct.0) later
              ∙ ground (arith, get-insert l label o m, eq_iff l label, some-injective at),
        )
      ]
  entered tokens contested i (l ∷ ls) (a ∷ lanes) m (suc j) label lane distinct h at of in_it =
      let further = subst (λ n. mem n contested ≡ true) (omega arith) in_it in
      elim (round tokens contested i l ls a lanes m h) [
        | inl (out, later) ↦
            entered tokens contested (i + 1) ls lanes m j label lane distinct.1 later at of further
        | inr (there, o, ran, later) ↦
            entered tokens contested (i + 1) ls lanes (Keyed.insert l o m) j label lane distinct.1
              later at of further
      ]

-- When the R2 packet is built, for each of the five rotations: its participants are the contested
-- R1 lanes, each under the label that the rotation has at the lane's place, with the output of the
-- lane after the scrubbing. Nobody else takes part, and no contested lane that has a label is left
-- out or hidden by another lane.
pub build_r2_packet-Entry :
    (to_value : LaneOutput → Value) (from_value : Value → Option LaneOutput) (rotation : ℕ)
    (run_id question snapshot : String) (r1 : List LaneAccepted) (p : Policy) {packet : R2Packet}
    (label : String) (output : LaneOutput)
    → rotation < 5
    → build_r2_packet to_value from_value rotation run_id question snapshot r1 p ≡ ok packet
    → (Keyed.get label packet.participants ≡ some output)
      ↔ Entry to_value from_value
          (r2_identity_replacements p)
          (r1_contestation r1)
          0
          (rotate_left rotation labels)
          r1
          label
          output
unfolding build_r2_packet Entry
build_r2_packet-Entry to_value from_value rotation run_id question snapshot r1 p {packet} label
      output lt h =
    let chain =
      >>=-ok
        (participants_from to_value from_value (r2_identity_replacements p) (r1_contestation r1) 0
          (rotate_left rotation labels) r1 [])
        _ h in
    let same = ap (λ (x : R2Packet). x.participants) (ok-injective chain.2) in
    (
      (λ at.
          elim (origin to_value from_value (r2_identity_replacements p) (r1_contestation r1) 0
            (rotate_left rotation labels) r1 [] label output chain.1
            (ap (Keyed.get label) same ∙ at)) [
              | inl old ↦ absurd (get-empty label output old)
              | inr new ↦ new
            ]),
      (λ e.
          let got =
            entered to_value from_value (r2_identity_replacements p) (r1_contestation r1) 0
              (rotate_left rotation labels) r1 [] e.0 label e.1 (rotate_left-Distinct rotation lt)
              chain.1 e.2 e.3 e.4 in
          ap (Keyed.get label) (sym same) ∙ got.2 ∙ ap some (ok-injective (sym got.1 ∙ e.5))),
    )
