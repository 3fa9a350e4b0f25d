-- ===== src/Run/Arbiter.antt =====
-- The submission of the primary arbiter (src/run.rs, records of src/model.rs): a challenge is issued
-- once, a response must bind it, and the scheduler stages, writes and accepts exactly one response.
-- `RunFiles` has the fields of the manifest and the files that these functions read or write.
pub mod Submit
pub mod Binding
pub mod Once
pub mod Retried
use quinte.Prelude.{
  ℕ, String, Bool, true, false, not, ◌&&◌, ◌||◌, List, [], ◌∷◌, Option, none, some, Result, ok, err,
  ◌>>=◌, ◌>>◌, bail_if, context, str_eq, str_ne, option_str_eq, if◌then◌else◌, is_empty, ltb,
  length, codes, is_some,
}
use quinte.Model.Lanes.{ArbiterVerdict}
use quinte.Model.Status.{RunStatus, waiting_primary_arbiter}
use quinte.Store.{status_eq}

pub record PrimaryArbiterChallenge : Type 0 where
  pub challenge_version : String
  pub run_id : String
  pub nonce : String
  pub policy_sha256 : String
  pub evidence_packet_sha256 : String
  pub input_receipt_sha256 : String
  pub action_scope : Option String
  pub issued_at : String
  pub expires_at : String
  pub consumed : Bool

pub record PrimaryArbiterResponse : Type 0 where
  pub primary_arbiter_response_version : String
  pub run_id : String
  pub nonce : String
  pub policy_sha256 : String
  pub evidence_packet_sha256 : String
  pub input_receipt_sha256 : String
  pub action_scope : Option String
  pub verdict : ArbiterVerdict

pub data SubmissionState : Type 0 where
  staging accepted : SubmissionState

pub record SubmissionReceipt : Type 0 where
  pub submission_receipt_version : String
  pub state : SubmissionState
  pub response_ref : String
  pub response_sha256 : String
  pub input_receipt_sha256 : String
  pub staged_at : String
  pub accepted_at : Option String

-- `input_receipt` is the digest in `r3_input_receipt`.
pub record ArbiterManifest : Type 0 where
  pub run_id : String
  pub status : RunStatus
  pub policy_sha256 : String
  pub input_receipt : Option String
  pub challenge : Option PrimaryArbiterChallenge
  pub submission : Option SubmissionReceipt

-- The two names that a response may have on disk, the older one second.
pub record RunFiles : Type 0 where
  pub manifest : ArbiterManifest
  pub response : Option PrimaryArbiterResponse
  pub hm_response : Option PrimaryArbiterResponse

pub data ArbiterError : Type 0 where
  receipt_missing challenge_missing not_bound consumed_already expired bad_expiry : ArbiterError
  artifact_missing response_changed wrong_inputs unconsumed no_receipt : ArbiterError
  invalid_reference ambiguous invalid_file different_submission not_waiting : ArbiterError
  not_accepted degenerate : ArbiterError

abbrev pub response_path : String
response_path = "r3/primary-arbiter-response.json"

abbrev pub hm_path : String
hm_path = "r3/hm-response.json"

-- `MIN_VERDICT_TEXT_CHARS`.
unfoldable pub verdict_looks_degenerate : ArbiterVerdict → Bool
verdict_looks_degenerate v =
    is_empty v.residuals
    && (ltb (length (codes v.summary)) 20 || ltb (length (codes v.recommendation)) 20)

unfoldable pub ensure_verdict_not_degenerate :
    ArbiterVerdict → Bool → Result ArbiterError (Unit {0})
unfolding verdict_looks_degenerate
ensure_verdict_not_degenerate v force = bail_if (not force && verdict_looks_degenerate v) degenerate

-- `nonce`, `issued_at` and `expires_at` are drawn by the caller; `evidence` is the digest of the
-- evidence packet, and `scope` the action scope of the brief.
unfoldable pub create_primary_arbiter_challenge :
    String
    → String
    → String
    → ArbiterManifest
    → Option String
    → String
    → Result ArbiterError PrimaryArbiterChallenge
create_primary_arbiter_challenge nonce issued_at expires_at m scope evidence =
    context m.input_receipt receipt_missing >>= λ receipt. ok (record {
      challenge_version = "1.0";
      run_id = m.run_id;
      nonce = nonce;
      policy_sha256 = m.policy_sha256;
      evidence_packet_sha256 = evidence;
      input_receipt_sha256 = receipt;
      action_scope = scope;
      issued_at = issued_at;
      expires_at = expires_at;
      consumed = false;
    })

-- The response that the scheduler builds round a bare verdict, here and in
-- `submit_primary_arbiter_verdict`.
unfoldable pub bound_primary_response :
    ArbiterManifest → ArbiterVerdict → Result ArbiterError PrimaryArbiterResponse
bound_primary_response m verdict = context m.challenge challenge_missing >>= λ c. ok (record {
  primary_arbiter_response_version = "1.0";
  run_id = c.run_id;
  nonce = c.nonce;
  policy_sha256 = c.policy_sha256;
  evidence_packet_sha256 = c.evidence_packet_sha256;
  input_receipt_sha256 = c.input_receipt_sha256;
  action_scope = c.action_scope;
  verdict = verdict;
})

-- `expected == actual`.
abbrev pub repeats_challenge : PrimaryArbiterChallenge → PrimaryArbiterResponse → Bool
repeats_challenge c r =
    str_eq c.run_id r.run_id
    && str_eq c.nonce r.nonce
    && str_eq c.policy_sha256 r.policy_sha256
    && str_eq c.evidence_packet_sha256 r.evidence_packet_sha256
    && str_eq c.input_receipt_sha256 r.input_receipt_sha256
    && option_str_eq c.action_scope r.action_scope

abbrev pub is_some_of : Option String → String → Bool
is_some_of none a = false
is_some_of (some b) a = str_eq a b

unfoldable pub validate_primary_arbiter_response_binding :
    ArbiterManifest
    → PrimaryArbiterResponse
    → Option String
    → String
    → Result ArbiterError (Unit {0})
validate_primary_arbiter_response_binding m r scope evidence =
    context m.challenge challenge_missing >>= λ c.
    bail_if
      (not (repeats_challenge c r)
        || str_ne r.run_id m.run_id
        || str_ne r.policy_sha256 m.policy_sha256
        || str_ne r.evidence_packet_sha256 evidence
        || not (is_some_of m.input_receipt r.input_receipt_sha256)
        || not (option_str_eq r.action_scope scope))
      not_bound

-- `is_past` tells whether a time is over, if its text can be read.
abbrev pub check_expiry : Option Bool → Result ArbiterError (Unit {0})
check_expiry none = err bad_expiry
check_expiry (some past) = bail_if past expired

abbrev check_unused :
    (String → Option Bool) → Option PrimaryArbiterChallenge → Result ArbiterError (Unit {0})
check_unused is_past none = err challenge_missing
check_unused is_past (some c) =
    bail_if c.consumed consumed_already >> check_expiry (is_past c.expires_at)

unfoldable pub validate_new_primary_arbiter_response :
    (String → Option Bool)
    → ArbiterManifest
    → PrimaryArbiterResponse
    → Option String
    → String
    → Result ArbiterError (Unit {0})
validate_new_primary_arbiter_response is_past m r scope evidence =
    validate_primary_arbiter_response_binding m r scope evidence >> check_unused is_past m.challenge

-- The file that a receipt names.
abbrev pub file_at : RunFiles → String → Option PrimaryArbiterResponse
file_at d ref =
    if str_eq ref response_path
    then d.response
    else if str_eq ref hm_path
    then d.hm_response
    else none

abbrev pub is_ambiguous : RunFiles → String → Bool
is_ambiguous d ref = if str_eq ref response_path then is_some d.hm_response else is_some d.response

abbrev pub is_staging : SubmissionState → Bool
is_staging staging = true
is_staging accepted = false

abbrev pub consume : Option PrimaryArbiterChallenge → Option PrimaryArbiterChallenge
consume none = none
consume (some c) = some (record c { consumed = true })

abbrev pub is_consumed : Option PrimaryArbiterChallenge → Bool
is_consumed none = false
is_consumed (some c) = c.consumed

-- The end of `recover_primary_arbiter_submission`: a staged receipt is accepted.
abbrev pub accept_receipt :
    String → ArbiterManifest → SubmissionReceipt → Result ArbiterError (Bool × ArbiterManifest)
accept_receipt now m receipt =
    if is_staging receipt.state
    then ok (
      true,
      record m {
        submission = some (record receipt { state = accepted; accepted_at = some now });
        challenge = consume m.challenge;
      },
    )
    else (bail_if (not (is_consumed m.challenge)) unconsumed >> ok (true, m))

-- `digest` is the SHA-256 of a response as the scheduler writes it, and `valid` its schema's check.
module _ (digest : PrimaryArbiterResponse → String) (valid : PrimaryArbiterResponse → Bool) where
  unfoldable pub read_owned_primary_arbiter_response :
      RunFiles → Result ArbiterError PrimaryArbiterResponse
  read_owned_primary_arbiter_response d = do
    receipt ← context d.manifest.submission no_receipt
    bail_if (not (str_eq receipt.response_ref response_path || str_eq receipt.response_ref hm_path))
        invalid_reference
    bail_if (is_ambiguous d receipt.response_ref) ambiguous
    response ← context (file_at d receipt.response_ref) artifact_missing
    bail_if (not (valid response)) invalid_file
    ok response

  abbrev pub recover_file :
      String
      → Option String
      → String
      → RunFiles
      → SubmissionReceipt
      → PrimaryArbiterResponse
      → Result ArbiterError (Bool × ArbiterManifest)
  recover_file now scope evidence d receipt file = do
    bail_if (str_ne (digest file) receipt.response_sha256) response_changed
    inputs ← context d.manifest.input_receipt receipt_missing
    bail_if (str_ne receipt.input_receipt_sha256 inputs) wrong_inputs
    response ← read_owned_primary_arbiter_response d
    validate_primary_arbiter_response_binding d.manifest response scope evidence
    accept_receipt now d.manifest receipt

  abbrev pub recover_receipt :
      String
      → Option String
      → String
      → RunFiles
      → SubmissionReceipt
      → Option PrimaryArbiterResponse
      → Result ArbiterError (Bool × ArbiterManifest)
  recover_receipt now scope evidence d receipt (some file) =
      recover_file now scope evidence d receipt file
  recover_receipt now scope evidence d receipt none =
      if is_staging receipt.state then ok (false, d.manifest) else err artifact_missing

  -- Whether the submission is ready, and the manifest after it, which the caller saves.
  unfoldable pub recover_primary_arbiter_submission :
      String → Option String → String → RunFiles → Result ArbiterError (Bool × ArbiterManifest)
  recover_primary_arbiter_submission now scope evidence d = elim d.manifest.submission [
    | none ↦ ok (false, d.manifest)
    | some receipt ↦ recover_receipt now scope evidence d receipt (file_at d receipt.response_ref)
  ]
