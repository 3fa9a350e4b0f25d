-- ===== src/Run/Arbiter/Submit.antt =====
-- A submission from outside and one of the scheduler's own lane (`submit_primary_arbiter_response`
-- and `stage_primary_response` of src/run.rs): the run directory after each write, and the end. A save
-- of the manifest reaches the disk, which `save_manifest` of src/store.rs drops in a run that is being
-- cancelled.
use quinte.Prelude.{
  String, Bool, true, false, not, List, [], ◌∷◌, ◌++◌, Option, none, some, Result, ok, err, ◌>>=◌,
  ◌>>◌, bail_if, context, str_ne, if◌then◌else◌,
}
use quinte.Model.Status.{waiting_primary_arbiter}
use quinte.Store.{status_eq}
use quinte.Run.Arbiter.{
  PrimaryArbiterChallenge, PrimaryArbiterResponse, staging, SubmissionReceipt, ArbiterManifest,
  RunFiles, ArbiterError, different_submission, not_waiting, consumed_already, receipt_missing,
  not_accepted, response_path, validate_new_primary_arbiter_response,
  recover_primary_arbiter_submission,
}

pub record Submitted : Type 0 where
  pub writes : List RunFiles
  pub outcome : Result ArbiterError RunFiles

abbrev pub is_spent : Option PrimaryArbiterChallenge → Bool
is_spent none = false
is_spent (some c) = c.consumed

module _ (digest : PrimaryArbiterResponse → String) (valid : PrimaryArbiterResponse → Bool) where
  -- The manifest with the staged receipt.
  abbrev pub staged : String → String → PrimaryArbiterResponse → RunFiles → RunFiles
  staged now inputs r d = record d {
    manifest = record d.manifest {
      submission = some (record {
        submission_receipt_version = "1.0";
        state = staging;
        response_ref = response_path;
        response_sha256 = digest r;
        input_receipt_sha256 = inputs;
        staged_at = now;
        accepted_at = none;
      });
    };
  }

  abbrev pub written : PrimaryArbiterResponse → RunFiles → RunFiles
  written r d = record d { response = some r }

  -- The response is on disk; what `recover_primary_arbiter_submission` makes of it is saved.
  abbrev pub settle :
      List RunFiles → RunFiles → Result ArbiterError (Bool × ArbiterManifest) → Submitted
  settle before d (err e) = record { writes = before; outcome = err e }
  settle before d (ok (false, m)) = record { writes = before; outcome = err not_accepted }
  settle before d (ok (true, m)) =
      let d' = record d { manifest = m } in record { writes = before ++ d' ∷ []; outcome = ok d' }

  -- Which directory the response is written to, and the writes before.
  abbrev pub first_receipt :
      (String → Option Bool)
      → String
      → Option String
      → String
      → PrimaryArbiterResponse
      → RunFiles
      → Result ArbiterError RunFiles
  first_receipt is_past now scope evidence r d = do
    bail_if (not (status_eq d.manifest.status waiting_primary_arbiter)) not_waiting
    bail_if (is_spent d.manifest.challenge) consumed_already
    validate_new_primary_arbiter_response is_past d.manifest r scope evidence
    inputs ← context d.manifest.input_receipt receipt_missing
    ok (staged now inputs r d)

  abbrev pub finish_from :
      String
      → Option String
      → String
      → PrimaryArbiterResponse
      → List RunFiles
      → RunFiles
      → Submitted
  finish_from now scope evidence r before d =
      settle (before ++ written r d ∷ []) (written r d)
        (recover_primary_arbiter_submission digest valid now scope evidence (written r d))

  abbrev pub from_receipt :
      String
      → Option String
      → String
      → PrimaryArbiterResponse
      → Result ArbiterError RunFiles
      → Submitted
  from_receipt now scope evidence r (err e) = record { writes = []; outcome = err e }
  from_receipt now scope evidence r (ok d) = finish_from now scope evidence r (d ∷ []) d

  abbrev pub repeated :
      String
      → Option String
      → String
      → PrimaryArbiterResponse
      → RunFiles
      → SubmissionReceipt
      → Submitted
  repeated now scope evidence r d receipt =
      if str_ne receipt.response_sha256 (digest r)
      then record { writes = []; outcome = err different_submission }
      else finish_from now scope evidence r [] d

  -- After the check of the run's integrity and before the call of `advance`.
  unfoldable pub submit_primary_arbiter_response :
      (String → Option Bool)
      → String
      → Option String
      → String
      → PrimaryArbiterResponse
      → RunFiles
      → Submitted
  submit_primary_arbiter_response is_past now scope evidence r d = elim d.manifest.submission [
    | some receipt ↦ repeated now scope evidence r d receipt
    | none ↦ from_receipt now scope evidence r (first_receipt is_past now scope evidence r d)
  ]
