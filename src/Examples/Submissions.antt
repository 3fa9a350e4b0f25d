-- ===== src/Examples/Submissions.antt =====
-- A challenge, the response to it, and its submission (src/run.rs). A response's digest is its
-- verdict's summary.
use quinte.Prelude.{String, ◌≡◌, ◌≢◌, refl, Bool, true, false, [], Option, none, some, ok, err, All}
use quinte.Model.Status.{waiting_primary_arbiter}
use quinte.Run.Arbiter.{
  PrimaryArbiterChallenge, PrimaryArbiterResponse, staging, accepted, SubmissionReceipt,
  ArbiterManifest, RunFiles, different_submission, check_expiry, create_primary_arbiter_challenge,
  bound_primary_response, validate_primary_arbiter_response_binding,
  validate_new_primary_arbiter_response, read_owned_primary_arbiter_response,
  recover_primary_arbiter_submission,
}
use quinte.Run.Arbiter.Binding.{with_challenge, challenge_roundtrip}
use quinte.Run.Arbiter.Once.{submitted_sha256, first_submission_wins}
use quinte.Run.Arbiter.Retried.{Accepts, submission_repeatable}
use quinte.Run.Arbiter.Submit.{submit_primary_arbiter_response, staged, written}
use quinte.Examples.Inputs.{verdict}

abbrev digest : PrimaryArbiterResponse → String
digest r = r.verdict.summary

abbrev well_formed : PrimaryArbiterResponse → Bool
well_formed r = true

abbrev in_time : String → Option Bool
in_time text = some false

abbrev too_late : String → Option Bool
too_late text = some true

abbrev unchallenged : ArbiterManifest
unchallenged = record {
  run_id = "run-1";
  status = waiting_primary_arbiter;
  policy_sha256 = "sha256:1";
  input_receipt = some "sha256:2";
  challenge = none;
  submission = none;
}

abbrev challenge : PrimaryArbiterChallenge
challenge = record {
  challenge_version = "1.0";
  run_id = "run-1";
  nonce = "n-1";
  policy_sha256 = "sha256:1";
  evidence_packet_sha256 = "sha256:3";
  input_receipt_sha256 = "sha256:2";
  action_scope = none;
  issued_at = "2026-07-13T00:00:00Z";
  expires_at = "2026-07-14T00:00:00Z";
  consumed = false;
}

abbrev response : PrimaryArbiterResponse
response = record {
  primary_arbiter_response_version = "1.0";
  run_id = "run-1";
  nonce = "n-1";
  policy_sha256 = "sha256:1";
  evidence_packet_sha256 = "sha256:3";
  input_receipt_sha256 = "sha256:2";
  action_scope = none;
  verdict = verdict [];
}

issued :
    create_primary_arbiter_challenge "n-1" "2026-07-13T00:00:00Z" "2026-07-14T00:00:00Z"
      unchallenged none "sha256:3"
    ≡ ok challenge
unfolding create_primary_arbiter_challenge
issued = refl

answered : bound_primary_response (with_challenge challenge unchallenged) (verdict []) ≡ ok response
unfolding bound_primary_response
answered = refl

challenge_roundtrip_example :
    (validate_new_primary_arbiter_response in_time
        (with_challenge challenge unchallenged)
        response
        none
        "sha256:3"
      ≡ check_expiry (in_time "2026-07-14T00:00:00Z"))
    × ((q : PrimaryArbiterResponse)
        → validate_primary_arbiter_response_binding
            (with_challenge challenge unchallenged)
            q
            none
            "sha256:3"
          ≡ ok tt
        → (q.run_id ≡ "run-1")
          × (q.nonce ≡ "n-1")
          × (q.policy_sha256 ≡ "sha256:1")
          × (q.evidence_packet_sha256 ≡ "sha256:3")
          × (q.input_receipt_sha256 ≡ "sha256:2")
          × (q.action_scope ≡ none))
challenge_roundtrip_example =
    challenge_roundtrip in_time "n-1" "2026-07-13T00:00:00Z" "2026-07-14T00:00:00Z" unchallenged
      none "sha256:3" (verdict []) issued answered

abbrev waiting : RunFiles
waiting = record {
  manifest = with_challenge challenge unchallenged;
  response = none;
  hm_response = none;
}

-- The run after the response is staged, before it is written.
abbrev cut_off : RunFiles
cut_off = staged digest well_formed "t1" "sha256:2" response waiting

abbrev receipt : SubmissionReceipt
receipt = record {
  submission_receipt_version = "1.0";
  state = staging;
  response_ref = "r3/primary-arbiter-response.json";
  response_sha256 = "one open risk";
  input_receipt_sha256 = "sha256:2";
  staged_at = "t1";
  accepted_at = none;
}

abbrev other : PrimaryArbiterResponse
other = record response { verdict = record (verdict []) { summary = "no risk" } }

first_submission_wins_example :
    All
      (λ q. submitted_sha256 q.manifest ≡ some receipt.response_sha256)
      (submit_primary_arbiter_response digest well_formed in_time "t2" none "sha256:3" other
        cut_off).writes
    × (digest other ≢ receipt.response_sha256
        → submit_primary_arbiter_response digest well_formed in_time "t2" none "sha256:3" other
            cut_off
          ≡ record { writes = []; outcome = err different_submission })
first_submission_wins_example =
    first_submission_wins digest well_formed in_time "t2" none "sha256:3" other cut_off refl

abbrev finished : RunFiles
finished = record (written digest well_formed response cut_off) {
  manifest = record cut_off.manifest {
    submission = some (record receipt { state = accepted; accepted_at = some "t1" });
    challenge = some (record challenge { consumed = true });
  };
}

submitted :
    (submit_primary_arbiter_response digest well_formed in_time "t1" none "sha256:3" response
      waiting).outcome
    ≡ ok finished
unfolding submit_primary_arbiter_response recover_primary_arbiter_submission
    read_owned_primary_arbiter_response validate_primary_arbiter_response_binding
    validate_new_primary_arbiter_response
submitted = refl

submission_repeatable_example :
    All
      (Accepts digest well_formed in_time none "sha256:3" too_late "t9" response)
      (submit_primary_arbiter_response digest well_formed in_time "t1" none "sha256:3" response
        waiting).writes
submission_repeatable_example =
    submission_repeatable digest well_formed in_time none "sha256:3" too_late "t1" "t9" response
      waiting refl submitted
