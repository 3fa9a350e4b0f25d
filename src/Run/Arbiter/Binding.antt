-- ===== src/Run/Arbiter/Binding.antt =====
-- A challenge and the response built for it (`create_primary_arbiter_challenge`,
-- `bound_primary_response` and the checks of a response in src/run.rs).
use quinte.Prelude.{
  String, ◌≡◌, refl, sym, ap, ◌∙◌, subst, Bool, true, false, Option, none, some, ok, ok-injective,
  arith, eq_iff, str_ne, str_ne_self, option_str_eq,
}
use quinte.Model.Lanes.{ArbiterVerdict}
use quinte.Run.Arbiter.{
  PrimaryArbiterChallenge, PrimaryArbiterResponse, ArbiterManifest, is_some_of, check_expiry,
  create_primary_arbiter_challenge, bound_primary_response,
  validate_primary_arbiter_response_binding, validate_new_primary_arbiter_response,
}

option_str_eq_self : (a : Option String) → option_str_eq a a ≡ true
option_str_eq_self none = refl
option_str_eq_self (some a) = (eq_iff a a).1 refl

option_str_eq_sound : (a b : Option String) → option_str_eq a b ≡ true → a ≡ b
option_str_eq_sound none none h = refl
option_str_eq_sound (some a) (some b) h = ap some ((eq_iff a b).0 h)
option_str_eq_sound none (some b) h = absurd (cc)
option_str_eq_sound (some a) none h = absurd (cc)

abbrev pub with_challenge : PrimaryArbiterChallenge → ArbiterManifest → ArbiterManifest
with_challenge c m = record m { challenge = some c }

-- A challenge with these fields, and a response that repeats them.
bound-accepted :
    (is_past : String → Option Bool) (m : ArbiterManifest) (c : PrimaryArbiterChallenge)
    (version : String) (verdict : ArbiterVerdict)
    → c.run_id ≡ m.run_id
    → c.policy_sha256 ≡ m.policy_sha256
    → m.input_receipt ≡ some c.input_receipt_sha256
    → c.consumed ≡ false
    → validate_new_primary_arbiter_response is_past
        (with_challenge c m)
        (record {
          primary_arbiter_response_version = version;
          run_id = c.run_id;
          nonce = c.nonce;
          policy_sha256 = c.policy_sha256;
          evidence_packet_sha256 = c.evidence_packet_sha256;
          input_receipt_sha256 = c.input_receipt_sha256;
          action_scope = c.action_scope;
          verdict = verdict;
        })
        c.action_scope
        c.evidence_packet_sha256
      ≡ check_expiry (is_past c.expires_at)
unfolding validate_new_primary_arbiter_response validate_primary_arbiter_response_binding
bound-accepted is_past m c version verdict run policy inputs fresh = ground (
  arith,
  (eq_iff c.run_id c.run_id).1 refl,
  (eq_iff c.nonce c.nonce).1 refl,
  (eq_iff c.policy_sha256 c.policy_sha256).1 refl,
  (eq_iff c.evidence_packet_sha256 c.evidence_packet_sha256).1 refl,
  (eq_iff c.input_receipt_sha256 c.input_receipt_sha256).1 refl,
  option_str_eq_self c.action_scope,
  str_ne_self c.evidence_packet_sha256,
  subst (λ x. str_ne c.run_id x ≡ false) run (str_ne_self c.run_id),
  subst (λ x. str_ne c.policy_sha256 x ≡ false) policy (str_ne_self c.policy_sha256),
  subst (λ x. is_some_of x c.input_receipt_sha256 ≡ true) (sym inputs)
      ((eq_iff c.input_receipt_sha256 c.input_receipt_sha256).1 refl),
)

challenge_fields :
    (nonce issued_at expires_at : String) (m : ArbiterManifest) (scope : Option String)
    (evidence : String) {c : PrimaryArbiterChallenge}
    → create_primary_arbiter_challenge nonce issued_at expires_at m scope evidence ≡ ok c
    → (c.run_id ≡ m.run_id)
      × (c.policy_sha256 ≡ m.policy_sha256)
      × (m.input_receipt ≡ some c.input_receipt_sha256)
      × (c.consumed ≡ false)
      × (c.action_scope ≡ scope)
      × (c.evidence_packet_sha256 ≡ evidence)
      × (c.expires_at ≡ expires_at)
      × (c.nonce ≡ nonce)
unfolding create_primary_arbiter_challenge
challenge_fields nonce issued_at expires_at m scope evidence h = (
  ground arith,
  ground arith,
  ground arith,
  ground arith,
  ground arith,
  ground arith,
  ground arith,
  ground arith,
)

binding-fields :
    (m : ArbiterManifest) (c : PrimaryArbiterChallenge) (r : PrimaryArbiterResponse)
    (scope : Option String) (evidence : String)
    → validate_primary_arbiter_response_binding (with_challenge c m) r scope evidence ≡ ok tt
    → (c.run_id ≡ r.run_id)
      × (c.nonce ≡ r.nonce)
      × (c.policy_sha256 ≡ r.policy_sha256)
      × (c.evidence_packet_sha256 ≡ r.evidence_packet_sha256)
      × (c.input_receipt_sha256 ≡ r.input_receipt_sha256)
      × (c.action_scope ≡ r.action_scope)
unfolding validate_primary_arbiter_response_binding
binding-fields m c r scope evidence h = (
  (eq_iff c.run_id r.run_id).0 (ground arith),
  (eq_iff c.nonce r.nonce).0 (ground arith),
  (eq_iff c.policy_sha256 r.policy_sha256).0 (ground arith),
  (eq_iff c.evidence_packet_sha256 r.evidence_packet_sha256).0 (ground arith),
  (eq_iff c.input_receipt_sha256 r.input_receipt_sha256).0 (ground arith),
  option_str_eq_sound c.action_scope r.action_scope (ground arith),
)

-- A challenge that is issued for a manifest and answered by the scheduler's own response to it is
-- accepted until it expires; and every response that is accepted for it, whoever built it, repeats
-- the run, the nonce, the policy, the evidence packet, the inputs and the action scope of that
-- response, so it differs in its version and its verdict alone.
pub challenge_roundtrip :
    (is_past : String → Option Bool) (nonce issued_at expires_at : String) (m : ArbiterManifest)
    (scope : Option String) (evidence : String) (verdict : ArbiterVerdict)
    {c : PrimaryArbiterChallenge} {r : PrimaryArbiterResponse}
    → create_primary_arbiter_challenge nonce issued_at expires_at m scope evidence ≡ ok c
    → bound_primary_response (with_challenge c m) verdict ≡ ok r
    → (validate_new_primary_arbiter_response is_past (with_challenge c m) r scope evidence
        ≡ check_expiry (is_past expires_at))
      × ((q : PrimaryArbiterResponse)
          → validate_primary_arbiter_response_binding (with_challenge c m) q scope evidence ≡ ok tt
          → (q.run_id ≡ r.run_id)
            × (q.nonce ≡ r.nonce)
            × (q.policy_sha256 ≡ r.policy_sha256)
            × (q.evidence_packet_sha256 ≡ r.evidence_packet_sha256)
            × (q.input_receipt_sha256 ≡ r.input_receipt_sha256)
            × (q.action_scope ≡ r.action_scope))
unfolding bound_primary_response
challenge_roundtrip is_past nonce issued_at expires_at m scope evidence verdict {c} {r} made built =
    let (run, policy, inputs, fresh, same_scope, same_evidence, expiry, _) =
      challenge_fields nonce issued_at expires_at m scope evidence made in
    let response = ok-injective built in
    let sent : PrimaryArbiterResponse = record {
      primary_arbiter_response_version = "1.0";
      run_id = c.run_id;
      nonce = c.nonce;
      policy_sha256 = c.policy_sha256;
      evidence_packet_sha256 = c.evidence_packet_sha256;
      input_receipt_sha256 = c.input_receipt_sha256;
      action_scope = c.action_scope;
      verdict = verdict;
    } in
    (
      subst
          (λ x.
            validate_new_primary_arbiter_response is_past (with_challenge c m) x scope evidence
            ≡ check_expiry (is_past expires_at))
          response
          (ap
              (λ x.
                validate_new_primary_arbiter_response is_past (with_challenge c m) sent x evidence)
              (sym same_scope)
            ∙ ap
                (validate_new_primary_arbiter_response is_past (with_challenge c m) sent
                  c.action_scope)
                (sym same_evidence)
            ∙ bound-accepted is_past m c "1.0" verdict run policy inputs fresh
            ∙ ap (λ x. check_expiry (is_past x)) expiry),
      λ q bound.
          let (a, b, d, e, f, g) = binding-fields m c q scope evidence bound in
          (
            sym a ∙ ap (λ (x : PrimaryArbiterResponse). x.run_id) response,
            sym b ∙ ap (λ (x : PrimaryArbiterResponse). x.nonce) response,
            sym d ∙ ap (λ (x : PrimaryArbiterResponse). x.policy_sha256) response,
            sym e ∙ ap (λ (x : PrimaryArbiterResponse). x.evidence_packet_sha256) response,
            sym f ∙ ap (λ (x : PrimaryArbiterResponse). x.input_receipt_sha256) response,
            sym g ∙ ap (λ (x : PrimaryArbiterResponse). x.action_scope) response,
          ),
    )
