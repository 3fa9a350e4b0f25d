-- ===== src/Examples/Packets.antt =====
-- R2 packets (src/run.rs). The value of an output is its verdict, and what is read back tells
-- whether the route was scrubbed out of it.
use quinte.Prelude.{
  String, ◌≡◌, ◌↔◌, arith, refl, List, [], ◌∷◌, Option, some, ok, codes, codes_eq, if◌then◌else◌,
  trim, trim_start, is_whitespace,
}
use quinte.Prelude.Keyed
use quinte.Model.Lanes.{below_half, LaneOutput, LaneAccepted}
use quinte.Policy.Defaults.{production_route, default_roster, default_policy}
use quinte.Run.Contest.{
  verdicts_differ, insert_all, update_all, any_conflict, dispositions_conflict, mark_against,
  mark_pairs, mark_unsupported, attest_lane, attestations, omitting, mark_asymmetric, marks,
  flagged, r1_contestation,
}
use quinte.Run.Packet.{
  Value, text, array, object, other, starts, skip, find_token, fold_for, replace_loop,
  replace_identity_token, r2_identity_replacements, scrub_identity_markers, scrub_lane_output,
  participants_from, labels, rotate_left, R2Packet, build_r2_packet,
}
use quinte.Run.Packet.Participants.{Entry, build_r2_packet-Entry}
use quinte.Run.Packet.Scrubbed.{Replaced, replace_identity_token_scrubs}
use quinte.Examples.Inputs.{lane}

replaced :
    replace_identity_token (codes "Ask KIMI-1, then kimi-1.") (codes "Kimi-1") (codes "[x]")
    ≡ codes "Ask [x], then [x]."
unfolding replace_identity_token replace_loop find_token starts skip
replaced = refl

replace_identity_token_scrubs_example :
    Replaced
      (fold_for (codes "Kimi-1"))
      (codes "Kimi-1")
      (codes "[x]")
      (codes "Ask KIMI-1, then kimi-1.")
      (replace_identity_token (codes "Ask KIMI-1, then kimi-1.") (codes "Kimi-1") (codes "[x]"))
replace_identity_token_scrubs_example =
    replace_identity_token_scrubs 75 (codes "imi-1") (codes "[x]")
      (codes "Ask KIMI-1, then kimi-1.")

abbrev output_of : String → LaneOutput
output_of verdict = (lane "Party A" "a" verdict []).output

abbrev verdict_value : LaneOutput → Value
verdict_value o = text (codes o.verdict)

abbrev read_back : Value → Option LaneOutput
read_back (text t) =
    if codes_eq t (codes "[route] holds")
    then some (output_of "[route] holds")
    else some (output_of "Ship")
read_back (array vs) = some (output_of "?")
read_back (object fs) = some (output_of "?")
read_back (other n) = some (output_of "?")

abbrev r1 : List LaneAccepted
r1 = lane "Party A" "deepseek-a" "DeepSeek-A holds" [] ∷ lane "Party B" "b" "Ship" [] ∷ []

abbrev packet : R2Packet
packet = record {
  packet_version = "1.0";
  run_id = "run-1";
  question = "Does it hold?";
  participants =
      ("Participant C", output_of "[route] holds") ∷ ("Participant D", output_of "Ship") ∷ [];
  evidence_manifest_sha256 = "sha256:1";
}

built :
    build_r2_packet verdict_value read_back 2 "run-1" "Does it hold?" "sha256:1" r1 default_policy
    ≡ ok packet
unfolding build_r2_packet participants_from scrub_lane_output scrub_identity_markers
    r2_identity_replacements rotate_left replace_identity_token replace_loop find_token starts skip
    r1_contestation flagged marks mark_pairs mark_against verdicts_differ dispositions_conflict
    insert_all update_all any_conflict mark_unsupported mark_asymmetric attestations attest_lane
    omitting below_half trim trim_start is_whitespace Keyed.get Keyed.insert default_policy
    default_roster production_route
built = refl

build_r2_packet-Entry_example :
    (Keyed.get "Participant C" packet.participants ≡ some (output_of "[route] holds"))
    ↔ Entry verdict_value read_back
        (r2_identity_replacements default_policy)
        (r1_contestation r1)
        0
        (rotate_left 2 labels)
        r1
        "Participant C"
        (output_of "[route] holds")
build_r2_packet-Entry_example =
    build_r2_packet-Entry verdict_value read_back 2 "run-1" "Does it hold?" "sha256:1" r1
      default_policy "Participant C" (output_of "[route] holds") (omega arith) built
