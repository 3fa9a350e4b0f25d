-- ===== src/Examples/Ledgers.antt =====
-- A finance run from its start to its result, and a cancelled one (src/finance.rs).
use quinte.Prelude.{
  suc, ◌≤◌, ◌≡◌, refl, ◌↔◌, ◌⊎◌, true, false, List, [], ◌∷◌, none, some, length, is_some,
}
use quinte.Finance.Types.{
  PortableBinding, r1_running, r2_running, merging, completed, failed, cancelled,
  operator_cancelled, FinanceTerminationFacts, FinanceRunManifest,
}
use quinte.Finance.Transition.{
  legal_transition, is_running, validate_manifest_counts, validate_manifest_termination,
}
use quinte.Finance.Transition.Paths.{Run, start, advance}
use quinte.Finance.Transition.Projection.{
  IsConsistent, facts_iff_ended, artifact_count, advance_grows,
}

merging-Run : Run merging 3
unfolding legal_transition
merging-Run =
    advance r2_running merging 2 (advance r1_running r2_running 1 (start r1_running refl) refl) refl

completed-Run : Run completed 4
unfolding legal_transition
completed-Run = advance merging completed 3 merging-Run refl

abbrev binding : PortableBinding
binding = record {
  artifact_ref = "finance/artifact.json";
  contract_family = "quinte";
  schema_id = none;
  revision = "1.0";
  exact_sha256 = "sha256:0";
  semantic_domain = "artifact";
  semantic_sha256 = "sha256:0";
}

abbrev five : List PortableBinding
five = binding ∷ binding ∷ binding ∷ binding ∷ binding ∷ []

abbrev at_r1 : FinanceRunManifest
at_r1 = record {
  manifest_version = "2.0";
  protocol_version = "2.0";
  run_id = "run-1";
  run_genesis_digest = "sha256:0";
  event_checkpoint = record { sequence = 1; event_sha256 = "sha256:0" };
  status = r1_running;
  termination = none;
  policy = binding;
  invocation = binding;
  r1_packets = five;
  r2_packets = [];
  r1_outputs = [];
  r2_outputs = [];
  arbiter_outputs = [];
  result = none;
}

abbrev at_r2 : FinanceRunManifest
at_r2 = record at_r1 { status = r2_running; r2_packets = five; r1_outputs = five }

abbrev facts : FinanceTerminationFacts
facts = record { phase = r1_running; code = operator_cancelled; retryable = false }

abbrev at_end : FinanceRunManifest
at_end = record at_r1 { status = cancelled; termination = some facts }

r1-IsConsistent : IsConsistent at_r1
unfolding validate_manifest_counts validate_manifest_termination
r1-IsConsistent = record { counts = refl; termination = refl }

r2-IsConsistent : IsConsistent at_r2
unfolding validate_manifest_counts validate_manifest_termination
r2-IsConsistent = record { counts = refl; termination = refl }

end-IsConsistent : IsConsistent at_end
unfolding validate_manifest_counts validate_manifest_termination
end-IsConsistent = record { counts = refl; termination = refl }

r1_to_r2 : legal_transition (some r1_running) r2_running ≡ true
unfolding legal_transition
r1_to_r2 = refl

facts_iff_ended_example :
    ((is_some at_end.termination ≡ true) ↔ ((at_end.status ≡ failed) ⊎ (at_end.status ≡ cancelled)))
    × ((t : FinanceTerminationFacts)
        → at_end.termination ≡ some t
        → (is_running t.phase ≡ true)
          × (t.retryable ≡ false)
          × ((t.code ≡ operator_cancelled) ↔ (at_end.status ≡ cancelled)))
facts_iff_ended_example = facts_iff_ended at_end end-IsConsistent

advance_grows_example :
    (length at_r1.r1_packets ≤ length at_r2.r1_packets)
    × (length at_r1.r2_packets ≤ length at_r2.r2_packets)
    × (length at_r1.r1_outputs ≤ length at_r2.r1_outputs)
    × (length at_r1.r2_outputs ≤ length at_r2.r2_outputs)
    × (length at_r1.arbiter_outputs ≤ length at_r2.arbiter_outputs)
    × ((suc (artifact_count at_r1) ≤ artifact_count at_r2)
        ⊎ ((is_some at_r1.result ≡ false) × (is_some at_r2.result ≡ true)))
advance_grows_example = advance_grows at_r1 at_r2 r1-IsConsistent r2-IsConsistent r1_to_r2 refl
