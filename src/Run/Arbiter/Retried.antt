-- ===== src/Run/Arbiter/Retried.antt =====
-- A submission that was cut off can be made again (`submit_primary_arbiter_response` of src/run.rs).
use quinte.Prelude.{
  String, ◌≡◌, refl, sym, ap, ◌∙◌, subst, Bool, true, false, not, [], ◌∷◌, Option, none, some,
  Result, ok, err, ◌>>=◌, ◌>>◌, bail_if, bail_if-ok, >>=-ok, >>-ok, context, ok-injective, is_ok,
  str_ne, str_ne_self, All,
}
use quinte.Model.Status.{waiting_primary_arbiter}
use quinte.Store.{status_eq}
use quinte.Run.Arbiter.{
  PrimaryArbiterChallenge, PrimaryArbiterResponse, staging, accepted, SubmissionReceipt,
  ArbiterManifest, RunFiles, ArbiterError, receipt_missing, response_changed, wrong_inputs,
  unconsumed, not_waiting, consumed_already, response_path, consume, is_consumed, accept_receipt,
  recover_file, recover_primary_arbiter_submission, validate_primary_arbiter_response_binding,
  validate_new_primary_arbiter_response, read_owned_primary_arbiter_response,
}
use quinte.Run.Arbiter.Submit.{
  is_spent, submit_primary_arbiter_response, settle, from_receipt, written, staged, first_receipt,
}
use quinte.Run.Arbiter.Once.{IsRecovered, recover_file-IsRecovered}

-- The binding of a response does not look at the submission, nor at whether the challenge is used.
consume-binding :
    (m : ArbiterManifest) (o : Option PrimaryArbiterChallenge) (s : Option SubmissionReceipt)
    (r : PrimaryArbiterResponse) (scope : Option String) (evidence : String)
    → validate_primary_arbiter_response_binding (record m { challenge = o }) r scope evidence
      ≡ ok tt
    → (validate_primary_arbiter_response_binding
          (record m { challenge = consume o; submission = s })
          r
          scope
          evidence
        ≡ ok tt)
      × (is_consumed (consume o) ≡ true)
unfolding validate_primary_arbiter_response_binding
consume-binding m none s r scope evidence h = absurd (cc)
consume-binding m (some c) s r scope evidence h = (h, refl)

-- The checks of `recover_file`, all of which pass.
checks-pass :
    {X : Type 0} (changed : Bool) (inputs : Option String) (wrong : String → Bool)
    (owned : Result ArbiterError PrimaryArbiterResponse)
    (bound : PrimaryArbiterResponse → Result ArbiterError (Unit {0})) (rest : Result ArbiterError X)
    {input : String} {response : PrimaryArbiterResponse}
    → changed ≡ false
    → inputs ≡ some input
    → wrong input ≡ false
    → owned ≡ ok response
    → bound response ≡ ok tt
    → (bail_if changed response_changed
        >> (context inputs receipt_missing >>= λ i.
            bail_if (wrong i) wrong_inputs >> (owned >>= λ r. bound r >> rest)))
      ≡ rest
checks-pass changed inputs wrong owned bound rest a b c d e = rw (a, b, c, d, e)

module _ (digest : PrimaryArbiterResponse → String) (valid : PrimaryArbiterResponse → Bool)
    (is_past : String → Option Bool) (scope : Option String) (evidence : String) where
  -- The clock does not matter to what a recovery checks.
  recover_file-later :
      (now later : String) (d : RunFiles) (receipt : SubmissionReceipt)
      (file : PrimaryArbiterResponse) {x : Bool × ArbiterManifest}
      → IsRecovered digest valid is_past now scope evidence d receipt file x
      → recover_file digest valid later scope evidence d receipt file
        ≡ accept_receipt later d.manifest receipt
  recover_file-later now later d receipt file r =
      checks-pass (str_ne (digest file) receipt.response_sha256) d.manifest.input_receipt
        (str_ne receipt.input_receipt_sha256) (read_owned_primary_arbiter_response digest valid d)
        (λ q. validate_primary_arbiter_response_binding d.manifest q scope evidence)
        (accept_receipt later d.manifest receipt) r.same_digest r.has_inputs r.same_inputs r.owned
        r.bound

  -- A directory whose receipt is for the response, and whose recovery succeeds once it is written.
  resubmitted :
      (past : String → Option Bool) (later : String) (r : PrimaryArbiterResponse) (q : RunFiles)
      (receipt : SubmissionReceipt) (m : ArbiterManifest)
      → q.manifest.submission ≡ some receipt
      → receipt.response_sha256 ≡ digest r
      → recover_primary_arbiter_submission digest valid later scope evidence
          (written digest valid r q)
        ≡ ok (true, m)
      → is_ok (submit_primary_arbiter_response digest valid past later scope evidence r q).outcome
        ≡ true
  unfolding submit_primary_arbiter_response
  resubmitted past later r q receipt m there same ready =
      let equal : str_ne receipt.response_sha256 (digest r) ≡ false =
        subst (λ x. str_ne x (digest r) ≡ false) (sym same) (str_ne_self (digest r)) in
      rw (there, equal, ready, submit_primary_arbiter_response)

  abbrev receipt_of : String → String → PrimaryArbiterResponse → SubmissionReceipt
  receipt_of now inputs r = record {
    submission_receipt_version = "1.0";
    state = staging;
    response_ref = response_path;
    response_sha256 = digest r;
    input_receipt_sha256 = inputs;
    staged_at = now;
    accepted_at = none;
  }

  -- The three directories that a first submission leaves.
  abbrev second : String → String → PrimaryArbiterResponse → RunFiles → RunFiles
  second now inputs r d = written digest valid r (staged digest valid now inputs r d)

  abbrev third : String → String → PrimaryArbiterResponse → RunFiles → RunFiles
  third now inputs r d = record (second now inputs r d) {
    manifest = record (second now inputs r d).manifest {
      submission =
          some (record (receipt_of now inputs r) { state = accepted; accepted_at = some now });
      challenge = consume d.manifest.challenge;
    };
  }

  recover-second :
      (now later inputs : String) (r : PrimaryArbiterResponse) (d : RunFiles)
      {x : Bool × ArbiterManifest}
      → IsRecovered digest valid is_past now scope evidence
          (second now inputs r d)
          (receipt_of now inputs r)
          r
          x
      → recover_primary_arbiter_submission digest valid later scope evidence (second now inputs r d)
        ≡ ok (
          true,
          record (second now inputs r d).manifest {
            submission =
                some
                  (record (receipt_of now inputs r) { state = accepted; accepted_at = some later });
            challenge = consume d.manifest.challenge;
          },
        )
  unfolding recover_primary_arbiter_submission
  recover-second now later inputs r d found =
      recover_file-later now later (second now inputs r d) (receipt_of now inputs r) r found

  recover-third :
      (now later inputs : String) (r : PrimaryArbiterResponse) (d : RunFiles)
      {x : Bool × ArbiterManifest}
      → IsRecovered digest valid is_past now scope evidence
          (second now inputs r d)
          (receipt_of now inputs r)
          r
          x
      → recover_primary_arbiter_submission digest valid later scope evidence (third now inputs r d)
        ≡ ok (true, (third now inputs r d).manifest)
  unfolding recover_primary_arbiter_submission read_owned_primary_arbiter_response
  recover-third now later inputs r d found =
      let used =
        consume-binding (second now inputs r d).manifest d.manifest.challenge
          (third now inputs r d).manifest.submission found.response scope evidence found.bound in
      let third_manifest : ArbiterManifest = (third now inputs r d).manifest in
      let ready : Result ArbiterError (Bool × ArbiterManifest) = ok (true, third_manifest) in
      checks-pass (str_ne (digest r) (digest r)) d.manifest.input_receipt (str_ne inputs)
        (read_owned_primary_arbiter_response digest valid (third now inputs r d))
        (λ q. validate_primary_arbiter_response_binding third_manifest q scope evidence)
        (bail_if (not (is_consumed (consume d.manifest.challenge))) unconsumed >> ready)
        found.same_digest found.has_inputs found.same_inputs found.owned used.0
      ∙ settled (is_consumed (consume d.manifest.challenge)) used.1
    where
      settled :
          (b : Bool) {x : Result ArbiterError (Bool × ArbiterManifest)}
          → b ≡ true
          → (bail_if (not b) unconsumed >> x) ≡ x
      settled true h = refl
      settled false h = absurd (cc)

  -- The response is accepted at a later time, when other times are past.
  abbrev pub Accepts : (String → Option Bool) → String → PrimaryArbiterResponse → RunFiles → Type 0
  Accepts past later r q =
      is_ok (submit_primary_arbiter_response digest valid past later scope evidence r q).outcome
      ≡ true

  first_receipt-staged :
      (now : String) (r : PrimaryArbiterResponse) (d : RunFiles) {q : RunFiles}
      → first_receipt digest valid is_past now scope evidence r d ≡ ok q
      → (inputs : String) × (staged digest valid now inputs r d ≡ q)
  first_receipt-staged now r d h =
      let staging_of : Result ArbiterError RunFiles =
        context d.manifest.input_receipt receipt_missing >>= λ inputs.
        ok (staged digest valid now inputs r d) in
      let (_, h1) =
        bail_if-ok (not (status_eq d.manifest.status waiting_primary_arbiter)) not_waiting
          (bail_if (is_spent d.manifest.challenge) consumed_already
            >> (validate_new_primary_arbiter_response is_past d.manifest r scope evidence
                >> staging_of))
          h in
      let (_, h2) =
        bail_if-ok (is_spent d.manifest.challenge) consumed_already
          (validate_new_primary_arbiter_response is_past d.manifest r scope evidence >> staging_of)
          h1 in
      let (_, h3) =
        >>-ok (validate_new_primary_arbiter_response is_past d.manifest r scope evidence) staging_of
          h2 in
      let (inputs, _, last) =
        >>=-ok (context d.manifest.input_receipt receipt_missing)
          (λ inputs. ok (staged digest valid now inputs r d)) h3 in
      (inputs, ok-injective last)

  -- The three writes, of which the last is the accepted manifest.
  settled-Accepts :
      (past : String → Option Bool) (now later inputs : String) (r : PrimaryArbiterResponse)
      (d : RunFiles) {end : RunFiles} (y : Result ArbiterError (Bool × ArbiterManifest))
      → recover_primary_arbiter_submission digest valid now scope evidence (second now inputs r d)
        ≡ y
      → (settle digest valid
          (staged digest valid now inputs r d ∷ second now inputs r d ∷ [])
          (second now inputs r d)
          y).outcome
        ≡ ok end
      → All
          (Accepts past later r)
          (settle digest valid
            (staged digest valid now inputs r d ∷ second now inputs r d ∷ [])
            (second now inputs r d)
            y).writes
  unfolding recover_primary_arbiter_submission
  settled-Accepts past now later inputs r d (err e) same done = absurd (cc)
  settled-Accepts past now later inputs r d (ok (false, m)) same done = absurd (cc)
  settled-Accepts past now later inputs r d (ok (true, m)) same done =
      let found =
        recover_file-IsRecovered digest valid is_past now scope evidence (second now inputs r d)
          (receipt_of now inputs r) r same in
      let manifest : (third now inputs r d).manifest ≡ m =
        ap (λ (x : Bool × ArbiterManifest). x.1) (ok-injective found.taken) in
      let ready = recover-second now later inputs r d found in
      (
        resubmitted past later r (staged digest valid now inputs r d) (receipt_of now inputs r) _
            refl refl ready,
        (
          resubmitted past later r (second now inputs r d) (receipt_of now inputs r) _ refl refl
              ready,
          (
            subst (λ x. Accepts past later r (record (second now inputs r d) { manifest = x }))
                manifest
                (resubmitted past later r (third now inputs r d)
                  (record (receipt_of now inputs r) { state = accepted; accepted_at = some now }) _
                  refl refl (recover-third now later inputs r d found)),
            tt,
          ),
        ),
      )

  -- A first submission that succeeds may have been cut off after any of its writes: whichever of
  -- them is on disk, the same response is then accepted again, at whatever time, even if the
  -- challenge has expired by then.
  pub submission_repeatable :
      (past : String → Option Bool) (now later : String) (r : PrimaryArbiterResponse) (d : RunFiles)
      {end : RunFiles}
      → d.manifest.submission ≡ none
      → (submit_primary_arbiter_response digest valid is_past now scope evidence r d).outcome
        ≡ ok end
      → All
          (Accepts past later r)
          (submit_primary_arbiter_response digest valid is_past now scope evidence r d).writes
  unfolding submit_primary_arbiter_response
  submission_repeatable past now later r d {end} fresh done =
      rw (fresh, submit_primary_arbiter_response)
        (received (first_receipt digest valid is_past now scope evidence r d) refl
          (rw (fresh, submit_primary_arbiter_response) at done))
    where
      received :
          (x : Result ArbiterError RunFiles)
          → first_receipt digest valid is_past now scope evidence r d ≡ x
          → (from_receipt digest valid now scope evidence r x).outcome ≡ ok end
          → All (Accepts past later r) (from_receipt digest valid now scope evidence r x).writes
      received (err e) same h = absurd (cc)
      received (ok q) same h =
          let (inputs, is_staged) = first_receipt-staged now r d same in
          subst
            (λ x.
              (from_receipt digest valid now scope evidence r (ok x)).outcome ≡ ok end
              → All (Accepts past later r)
                  (from_receipt digest valid now scope evidence r (ok x)).writes)
            is_staged
            (settled-Accepts past now later inputs r d
              (recover_primary_arbiter_submission digest valid now scope evidence
                (second now inputs r d))
              refl)
            h
