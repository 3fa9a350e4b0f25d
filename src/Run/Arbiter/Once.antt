-- ===== src/Run/Arbiter/Once.antt =====
-- The first submission wins (`submit_primary_arbiter_response` of src/run.rs).
use quinte.Prelude.{
  All, All-append, >>-ok, context-ok, bail_if, context, ◌>>◌, String, ◌≡◌, ◌≢◌, refl, sym, ap, Bool,
  true, false, List, [], ◌∷◌, ◌++◌, Option, none, some, Result, ok, err, ◌>>=◌, bail_if-ok, >>=-ok,
  arith, str_ne, str_ne-false, if◌then◌else◌, Bool-cases, inl, inr,
}
use quinte.Run.Arbiter.{
  PrimaryArbiterResponse, SubmissionReceipt, ArbiterManifest, RunFiles, ArbiterError,
  different_submission, response_changed, receipt_missing, wrong_inputs, accept_receipt,
  recover_file, recover_receipt, file_at, recover_primary_arbiter_submission,
  validate_primary_arbiter_response_binding, read_owned_primary_arbiter_response,
}
use quinte.Run.Arbiter.Submit.{submit_primary_arbiter_response, settle, finish_from, written}

abbrev sha256_of : Option SubmissionReceipt → Option String
sha256_of none = none
sha256_of (some receipt) = some receipt.response_sha256

-- The digest of the response that a run has taken.
abbrev pub submitted_sha256 : ArbiterManifest → Option String
submitted_sha256 m = sha256_of m.submission

module _ (digest : PrimaryArbiterResponse → String) (valid : PrimaryArbiterResponse → Bool)
    (is_past : String → Option Bool) (now : String) (scope : Option String)
    (evidence : String) where
  accept_receipt-sha256 :
      (m : ArbiterManifest) (receipt : SubmissionReceipt) (b : Bool) (m' : ArbiterManifest)
      → m.submission ≡ some receipt
      → accept_receipt now m receipt ≡ ok (b, m')
      → submitted_sha256 m' ≡ some receipt.response_sha256
  accept_receipt-sha256 m receipt b m' there h = ground (arith, ap sha256_of there)

  -- What a successful recovery of a written response has checked.
  pub record IsRecovered (d : RunFiles) (receipt : SubmissionReceipt)
      (file : PrimaryArbiterResponse) (x : Bool × ArbiterManifest) : Type 0 where
    pub same_digest : str_ne (digest file) receipt.response_sha256 ≡ false
    pub inputs : String
    pub has_inputs : d.manifest.input_receipt ≡ some inputs
    pub same_inputs : str_ne receipt.input_receipt_sha256 inputs ≡ false
    pub response : PrimaryArbiterResponse
    pub owned : read_owned_primary_arbiter_response digest valid d ≡ ok response
    pub bound : validate_primary_arbiter_response_binding d.manifest response scope evidence ≡ ok tt
    pub taken : accept_receipt now d.manifest receipt ≡ ok x

  pub recover_file-IsRecovered :
      (d : RunFiles) (receipt : SubmissionReceipt) (file : PrimaryArbiterResponse)
      {x : Bool × ArbiterManifest}
      → recover_file digest valid now scope evidence d receipt file ≡ ok x
      → IsRecovered d receipt file x
  recover_file-IsRecovered d receipt file h =
      let after_binding : PrimaryArbiterResponse → Result ArbiterError (Bool × ArbiterManifest) =
        λ response.
          validate_primary_arbiter_response_binding d.manifest response scope evidence
          >> accept_receipt now d.manifest receipt in
      let after_inputs : String → Result ArbiterError (Bool × ArbiterManifest) = λ inputs.
        bail_if (str_ne receipt.input_receipt_sha256 inputs) wrong_inputs
        >> (read_owned_primary_arbiter_response digest valid d >>= after_binding) in
      let (same, h1) =
        bail_if-ok (str_ne (digest file) receipt.response_sha256) response_changed
          (context d.manifest.input_receipt receipt_missing >>= after_inputs) h in
      let (inputs, there, h2) =
        >>=-ok (context d.manifest.input_receipt receipt_missing) after_inputs h1 in
      let (same_inputs, h3) =
        bail_if-ok (str_ne receipt.input_receipt_sha256 inputs) wrong_inputs
          (read_owned_primary_arbiter_response digest valid d >>= after_binding) h2 in
      let (response, owned, h4) =
        >>=-ok (read_owned_primary_arbiter_response digest valid d) after_binding h3 in
      let (bound, taken) =
        >>-ok (validate_primary_arbiter_response_binding d.manifest response scope evidence)
          (accept_receipt now d.manifest receipt) h4 in
      record {
        same_digest = same;
        inputs = inputs;
        has_inputs = context-ok d.manifest.input_receipt receipt_missing there;
        same_inputs = same_inputs;
        response = response;
        owned = owned;
        bound = bound;
        taken = taken;
      }

  recover_receipt-sha256 :
      (d : RunFiles) (receipt : SubmissionReceipt) (file : Option PrimaryArbiterResponse) (b : Bool)
      (m' : ArbiterManifest)
      → d.manifest.submission ≡ some receipt
      → recover_receipt digest valid now scope evidence d receipt file ≡ ok (b, m')
      → submitted_sha256 m' ≡ some receipt.response_sha256
  recover_receipt-sha256 d receipt (some file) b m' there h =
      accept_receipt-sha256 d.manifest receipt b m' there
        (recover_file-IsRecovered d receipt file h).taken
  recover_receipt-sha256 d receipt none b m' there h = ground (arith, ap sha256_of there)

  recover-sha256 :
      (d : RunFiles) (receipt : SubmissionReceipt) (b : Bool) (m' : ArbiterManifest)
      → d.manifest.submission ≡ some receipt
      → recover_primary_arbiter_submission digest valid now scope evidence d ≡ ok (b, m')
      → submitted_sha256 m' ≡ some receipt.response_sha256
  unfolding recover_primary_arbiter_submission
  recover-sha256 d receipt b m' there h =
      recover_receipt-sha256 d receipt (file_at d receipt.response_ref) b m' there
        (rw (there, recover_primary_arbiter_submission) at h)

  finish_from-sha256 :
      (r : PrimaryArbiterResponse) (before : List RunFiles) (d : RunFiles)
      (receipt : SubmissionReceipt)
      → d.manifest.submission ≡ some receipt
      → All (λ q. submitted_sha256 q.manifest ≡ some receipt.response_sha256) before
      → All
          (λ q. submitted_sha256 q.manifest ≡ some receipt.response_sha256)
          (finish_from digest valid now scope evidence r before d).writes
  finish_from-sha256 r before d receipt there same =
      settled
        (recover_primary_arbiter_submission digest valid now scope evidence
          (written digest valid r d))
        refl
    where
      P : RunFiles → Type 0
      P q = submitted_sha256 q.manifest ≡ some receipt.response_sha256

      first : All P (before ++ written digest valid r d ∷ [])
      first = All-append P before (written digest valid r d ∷ []) same (ap sha256_of there, tt)

      settled :
          (x : Result ArbiterError (Bool × ArbiterManifest))
          → recover_primary_arbiter_submission digest valid now scope evidence
              (written digest valid r d)
            ≡ x
          → All P
              (settle digest valid
                (before ++ written digest valid r d ∷ [])
                (written digest valid r d)
                x).writes
      settled (err e) h = first
      settled (ok (false, m)) h = first
      settled (ok (true, m)) h =
          All-append P (before ++ written digest valid r d ∷ []) _ first
            (recover-sha256 (written digest valid r d) receipt true m there h, tt)

  -- The first submission wins: once a receipt stands in the manifest, staged or accepted, no state
  -- that a later submission saves names another digest, and a response with another digest is
  -- refused and nothing is written.
  pub first_submission_wins :
      (r : PrimaryArbiterResponse) (d : RunFiles) {receipt : SubmissionReceipt}
      → d.manifest.submission ≡ some receipt
      → All
          (λ q. submitted_sha256 q.manifest ≡ some receipt.response_sha256)
          (submit_primary_arbiter_response digest valid is_past now scope evidence r d).writes
        × (digest r ≢ receipt.response_sha256
            → submit_primary_arbiter_response digest valid is_past now scope evidence r d
              ≡ record { writes = []; outcome = err different_submission })
  unfolding submit_primary_arbiter_response
  first_submission_wins r d {receipt} there = (
    rw (there, submit_primary_arbiter_response)
        (by_test (str_ne receipt.response_sha256 (digest r))),
    λ other.
        let differs : str_ne receipt.response_sha256 (digest r) ≡ true =
          elim (Bool-cases (str_ne receipt.response_sha256 (digest r))) [
            | inl differ ↦ differ
            | inr equal ↦
                absurd (other (sym (str_ne-false receipt.response_sha256 (digest r) equal)))
          ] in
        rw (there, differs, submit_primary_arbiter_response),
  )
    where
      by_test :
          (b : Bool)
          → All
              (λ q. submitted_sha256 q.manifest ≡ some receipt.response_sha256)
              (if b
                then record { writes = []; outcome = err different_submission }
                else finish_from digest valid now scope evidence r [] d).writes
      by_test true = tt
      by_test false = finish_from-sha256 r [] d receipt there tt
