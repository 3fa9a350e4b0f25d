-- ===== src/Finance/Transition/Projection.antt =====
-- What the two checks on a manifest establish together (src/finance.rs).
use quinte.Prelude.{
  ℕ, suc, ◌+◌, ◌≤◌, ◌≡◌, ◌↔◌, ◌⊎◌, true, false, none, some, ok, arith, length, is_some,
}
use quinte.Finance.Types.{
  completed, degraded, failed, cancelled, FinanceTerminationFacts, FinanceRunManifest,
  operator_cancelled,
}
use quinte.Finance.Transition.{
  legal_transition, is_running, validate_manifest_counts, validate_manifest_termination,
}

-- A manifest that both checks accept.
pub record IsConsistent (m : FinanceRunManifest) : Type 0 where
  pub counts : validate_manifest_counts m ≡ ok tt
  pub termination : validate_manifest_termination m ≡ ok tt

-- A consistent manifest has a result exactly if its run completed or degraded.
pub result_iff_finished :
    (m : FinanceRunManifest)
    → IsConsistent m
    → (is_some m.result ≡ true) ↔ ((m.status ≡ completed) ⊎ (m.status ≡ degraded))
unfolding validate_manifest_counts validate_manifest_termination
result_iff_finished m h =
    (λ r. ground (arith, h.counts, h.termination), λ s. ground (arith, h.counts, h.termination))

-- A consistent manifest carries termination facts exactly if its run failed or was cancelled; the
-- facts then name a running phase and are not retryable, and say that the operator cancelled exactly
-- for a cancelled run.
pub facts_iff_ended :
    (m : FinanceRunManifest)
    → IsConsistent m
    → ((is_some m.termination ≡ true) ↔ ((m.status ≡ failed) ⊎ (m.status ≡ cancelled)))
      × ((t : FinanceTerminationFacts)
          → m.termination ≡ some t
          → (is_running t.phase ≡ true)
            × (t.retryable ≡ false)
            × ((t.code ≡ operator_cancelled) ↔ (m.status ≡ cancelled)))
unfolding validate_manifest_termination
facts_iff_ended m h = (
  (λ e. ground (arith, h.termination), λ s. ground (arith, h.termination)),
  λ t e. (
    ground (arith, h.termination, e),
    ground (arith, h.termination, e),
    (λ c. ground (arith, h.termination, e), λ c. ground (arith, h.termination, e)),
  ),
)

-- The artifacts that a manifest lists.
abbrev pub artifact_count : FinanceRunManifest → ℕ
artifact_count m =
    length m.r1_packets
    + length m.r2_packets
    + length m.r1_outputs
    + length m.r2_outputs
    + length m.arbiter_outputs

-- Along a legal transition between consistent manifests, of which the second has not failed and was
-- not cancelled, no list of artifacts shrinks, and the artifacts or the result grow.
pub advance_grows :
    (m m' : FinanceRunManifest)
    → IsConsistent m
    → IsConsistent m'
    → legal_transition (some m.status) m'.status ≡ true
    → m'.termination ≡ none
    → (length m.r1_packets ≤ length m'.r1_packets)
      × (length m.r2_packets ≤ length m'.r2_packets)
      × (length m.r1_outputs ≤ length m'.r1_outputs)
      × (length m.r2_outputs ≤ length m'.r2_outputs)
      × (length m.arbiter_outputs ≤ length m'.arbiter_outputs)
      × ((suc (artifact_count m) ≤ artifact_count m')
          ⊎ ((is_some m.result ≡ false) × (is_some m'.result ≡ true)))
unfolding validate_manifest_counts validate_manifest_termination legal_transition
advance_grows m m' h h' step running = (
  ground (arith, h.counts, h'.counts),
  ground (arith, h.counts, h'.counts),
  ground (arith, h.counts, h'.counts),
  ground (arith, h.counts, h'.counts),
  ground (arith, h.counts, h'.counts),
  ground (arith, h.counts, h'.counts),
)
