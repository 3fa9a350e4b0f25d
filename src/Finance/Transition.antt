-- ===== src/Finance/Transition.antt =====
-- The life of a finance run (`legal_transition`, `validate_manifest_counts` and
-- `validate_manifest_termination` of src/finance.rs).
pub mod Paths
pub mod Projection
use quinte.Prelude.{
  ℕ, Bool, true, false, not, ◌&&◌, ◌||◌, List, [], ◌∷◌, Option, none, some, Result, ok, err, ◌>>=◌,
  ◌>>◌, bail_if, context, ◌==◌, length, is_some,
}
use quinte.Finance.Types.{
  FinanceRunStatus, preflight, r1_running, r2_running, merging, completed, degraded, failed,
  cancelled, FinanceTerminationCode, operator_cancelled, FinanceTerminationFacts,
  FinanceRunManifest, FinanceError, no_termination_facts, bad_counts, bad_failed_facts,
  bad_cancelled_facts, unexpected_facts,
}

unfoldable pub legal_transition : Option FinanceRunStatus → FinanceRunStatus → Bool
legal_transition none r1_running = true
legal_transition (some r1_running) r2_running = true
legal_transition (some r1_running) failed = true
legal_transition (some r1_running) cancelled = true
legal_transition (some r2_running) failed = true
legal_transition (some r2_running) cancelled = true
legal_transition (some r2_running) merging = true
legal_transition (some merging) completed = true
legal_transition (some merging) degraded = true
legal_transition (some merging) failed = true
legal_transition (some merging) cancelled = true
legal_transition _ _ = false

abbrev result_is : Bool → Bool → Bool
result_is true b = b
result_is false b = not b

-- `counts == (packets of R1, of R2, outputs of R1, of R2, of the arbiters, result)`.
abbrev counts_are : FinanceRunManifest → ℕ → ℕ → ℕ → ℕ → ℕ → Bool → Bool
counts_are m p1 p2 o1 o2 a r =
    length m.r1_packets == p1
    && length m.r2_packets == p2
    && length m.r1_outputs == o1
    && length m.r2_outputs == o2
    && length m.arbiter_outputs == a
    && result_is r (is_some m.result)

-- The phase whose artifacts a manifest holds: that of the termination facts after a failure.
abbrev pub facts_phase :
    FinanceRunStatus → Option FinanceTerminationFacts → Result FinanceError FinanceRunStatus
facts_phase failed none = err no_termination_facts
facts_phase failed (some t) = ok t.phase
facts_phase cancelled none = err no_termination_facts
facts_phase cancelled (some t) = ok t.phase
facts_phase status _ = ok status

abbrev valid_counts : FinanceRunManifest → FinanceRunStatus → Bool
valid_counts m r1_running = counts_are m 5 0 0 0 0 false
valid_counts m r2_running = counts_are m 5 5 5 0 0 false
valid_counts m merging = counts_are m 5 5 5 5 2 false
valid_counts m completed = counts_are m 5 5 5 5 2 true
valid_counts m degraded = counts_are m 5 5 5 5 2 true
valid_counts m _ = false

unfoldable pub validate_manifest_counts : FinanceRunManifest → Result FinanceError (Unit {0})
validate_manifest_counts m = do
  phase ← facts_phase m.status m.termination
  bail_if (not (valid_counts m phase)) bad_counts

abbrev pub is_running : FinanceRunStatus → Bool
is_running r1_running = true
is_running r2_running = true
is_running merging = true
is_running _ = false

abbrev pub is_operator_cancelled : FinanceTerminationCode → Bool
is_operator_cancelled operator_cancelled = true
is_operator_cancelled _ = false

abbrev termination_facts :
    FinanceRunStatus → Option FinanceTerminationFacts → Bool → Result FinanceError (Unit {0})
termination_facts failed (some t) result =
    bail_if (not (is_running t.phase) || t.retryable || is_operator_cancelled t.code || result)
      bad_failed_facts
termination_facts cancelled (some t) result =
    bail_if
      (not (is_running t.phase) || t.retryable || not (is_operator_cancelled t.code) || result)
      bad_cancelled_facts
termination_facts failed none result = err no_termination_facts
termination_facts cancelled none result = err no_termination_facts
termination_facts _ none result = ok tt
termination_facts _ (some t) result = err unexpected_facts

unfoldable pub validate_manifest_termination : FinanceRunManifest → Result FinanceError (Unit {0})
validate_manifest_termination m = termination_facts m.status m.termination (is_some m.result)
