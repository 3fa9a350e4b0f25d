-- ===== src/Run/Packet.antt =====
-- The packet of R2 (src/run.rs): the contested outputs under rotated labels, with the tokens that
-- would name a lane scrubbed. Texts are code points; `Value` is the JSON value of serde_json.
pub mod Scrubbed
pub mod Participants
use quinte.Prelude.{
  ℕ, zero, suc, ◌+◌, String, Bool, true, false, not, ◌&&◌, ◌||◌, List, [], ◌∷◌, ◌++◌, Option, none,
  some, Result, ok, err, ◌>>=◌, context, ltb, leb, ◌==◌, if◌then◌else◌, length, codes, is_empty,
  all, str_eq,
}
use quinte.Prelude.Keyed
use quinte.Prelude.Keyed.{Keyed}
use quinte.Model.Lanes.{LaneOutput, LaneAccepted}
use quinte.Model.Routes.{RoutePolicy, Policy}
use quinte.Run.Contest.{r1_contestation}

-- `to_ascii_lowercase` on a code point.
abbrev pub lower : ℕ → ℕ
lower c = if leb b'A' c && leb c b'Z' then c + 32 else c

abbrev pub same : ℕ → ℕ
same c = c

abbrev pub is_ascii : List ℕ → Bool
is_ascii = all (λ c. ltb c 128)

-- What the search compares: lower case for an ASCII token, the characters themselves otherwise.
abbrev pub fold_for : List ℕ → ℕ → ℕ
fold_for token = if is_ascii token then lower else same

-- The token stands at the head of a text.
unfoldable pub starts : (ℕ → ℕ) → List ℕ → List ℕ → Bool
starts fold [] text = true
starts fold (t ∷ token) [] = false
starts fold (t ∷ token) (c ∷ text) = (fold t == fold c) && starts fold token text

-- What is left after the token.
unfoldable pub skip : List ℕ → List ℕ → List ℕ
skip [] text = text
skip (t ∷ token) [] = []
skip (t ∷ token) (c ∷ text) = skip token text

abbrev pub after_first : ℕ → Option (List ℕ × List ℕ) → Option (List ℕ × List ℕ)
after_first c none = none
after_first c (some (before, rest)) = some (c ∷ before, rest)

-- `find`, with the text before the first place and the text after the token there.
unfoldable pub find_token : (ℕ → ℕ) → List ℕ → List ℕ → Option (List ℕ × List ℕ)
find_token fold token [] = none
find_token fold token (c ∷ text) =
    let later = find_token fold token text in
    if starts fold token (c ∷ text) then some ([], skip token (c ∷ text)) else after_first c later

-- The loop of `replace_identity_token`. Its fuel is the length of the text, of which every round
-- takes at least one character.
unfoldable pub replace_loop : ℕ → (ℕ → ℕ) → List ℕ → List ℕ → List ℕ → List ℕ
replace_loop zero fold token replacement text = text
replace_loop (suc fuel) fold token replacement text = elim (find_token fold token text) [
  | none ↦ text
  | some hit ↦ hit.0 ++ (replacement ++ replace_loop fuel fold token replacement hit.1)
]

unfoldable pub replace_identity_token : List ℕ → List ℕ → List ℕ → List ℕ
replace_identity_token text token replacement =
    if is_empty token
    then text
    else replace_loop (length text) (fold_for token) token replacement text

abbrev pub Token : Type 0
Token = List ℕ × List ℕ

abbrev route_tokens : RoutePolicy → List Token
route_tokens r =
    (codes r.route_id, codes "[route]")
    ∷ (codes r.party_id, codes "[party]")
    ∷ (if str_eq r.perspective "" then [] else (codes r.perspective, codes "[perspective]") ∷ [])

abbrev all_route_tokens : List RoutePolicy → List Token
all_route_tokens [] = []
all_route_tokens (r ∷ rs) = route_tokens r ++ all_route_tokens rs

abbrev retain_long : List Token → List Token
retain_long [] = []
retain_long ((token, replacement) ∷ tokens) =
    let rest = retain_long tokens in
    if leb 3 (length token) then (token, replacement) ∷ rest else rest

unfoldable pub r2_identity_replacements : Policy → List Token
r2_identity_replacements p = retain_long (
    all_route_tokens (p.roster ++ p.counterpart_arbiter ∷ p.primary_arbiter ∷ [])
    ++ (codes p.seat.text_model, codes "[model]")
      ∷ (codes p.seat.multimodal_model, codes "[model]")
      ∷ [])

-- Numbers, Booleans and null are `other`.
mutual
  pub data Value : Type 0 where
    text : List ℕ → Value
    array : Values → Value
    object : Fields → Value
    other : ℕ → Value

  pub data Values : Type 0 where
    no_values : Values
    value : Value → Values → Values

  pub data Fields : Type 0 where
    no_fields : Fields
    field : List ℕ → Value → Fields → Fields

abbrev pub scrub_text : List Token → List ℕ → List ℕ
scrub_text [] t = t
scrub_text ((token, replacement) ∷ tokens) t =
    scrub_text tokens (replace_identity_token t token replacement)

unfoldable mutual
  pub scrub_identity_markers : List Token → Value → Value
  scrub_identity_markers tokens (text t) = text (scrub_text tokens t)
  scrub_identity_markers tokens (array vs) = array (scrub_values tokens vs)
  scrub_identity_markers tokens (object fs) = object (scrub_fields tokens fs)
  scrub_identity_markers tokens (other n) = other n

  pub scrub_values : List Token → Values → Values
  scrub_values tokens no_values = no_values
  scrub_values tokens (value v vs) =
      value (scrub_identity_markers tokens v) (scrub_values tokens vs)

  pub scrub_fields : List Token → Fields → Fields
  scrub_fields tokens no_fields = no_fields
  scrub_fields tokens (field k v fs) =
      field k (scrub_identity_markers tokens v) (scrub_fields tokens fs)

pub record R2Packet : Type 0 where
  pub packet_version : String
  pub run_id : String
  pub question : String
  pub participants : Keyed LaneOutput
  pub evidence_manifest_sha256 : String

pub data PacketError : Type 0 where
  unreadable_output : PacketError

abbrev pub labels : List String
labels =
    "Participant A" ∷ "Participant B" ∷ "Participant C" ∷ "Participant D" ∷ "Participant E" ∷ []

-- `rotate_left`, one place at a time.
abbrev rotate_once : List String → List String
rotate_once [] = []
rotate_once (l ∷ ls) = ls ++ l ∷ []

unfoldable pub rotate_left : ℕ → List String → List String
rotate_left zero ls = ls
rotate_left (suc n) ls = rotate_left n (rotate_once ls)

abbrev pub mem : ℕ → List ℕ → Bool
mem i [] = false
mem i (j ∷ js) = (j == i) || mem i js

-- `to_value` and `from_value` are serde_json's, with the derived instances of `LaneOutput`.
module _ (to_value : LaneOutput → Value) (from_value : Value → Option LaneOutput) where
  unfoldable pub scrub_lane_output : List Token → LaneOutput → Result PacketError LaneOutput
  scrub_lane_output tokens output =
      context (from_value (scrub_identity_markers tokens (to_value output))) unreadable_output

  -- The labels and the lanes in step, from an index on; the entries are collected in a map.
  unfoldable pub participants_from :
      List Token
      → List ℕ
      → ℕ
      → List String
      → List LaneAccepted
      → Keyed LaneOutput
      → Result PacketError (Keyed LaneOutput)
  participants_from tokens contested i [] lanes m = ok m
  participants_from tokens contested i (label ∷ ls) [] m = ok m
  participants_from tokens contested i (label ∷ ls) (lane ∷ lanes) m =
      if mem i contested
      then (scrub_lane_output tokens lane.output >>= λ o.
          participants_from tokens contested (i + 1) ls lanes (Keyed.insert label o m))
      else participants_from tokens contested (i + 1) ls lanes m

  -- `rotation` is the random number below five.
  unfoldable pub build_r2_packet :
      ℕ → String → String → String → List LaneAccepted → Policy → Result PacketError R2Packet
  build_r2_packet rotation run_id question snapshot r1 p = do
    participants ←
        participants_from (r2_identity_replacements p) (r1_contestation r1) 0
          (rotate_left rotation labels) r1 []
    ok (record {
      packet_version = "1.0";
      run_id = run_id;
      question = question;
      participants = participants;
      evidence_manifest_sha256 = snapshot;
    })
