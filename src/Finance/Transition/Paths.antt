-- ===== src/Finance/Transition/Paths.antt =====
-- The runs that `legal_transition` of src/finance.rs allows.
use quinte.Prelude.{ℕ, suc, ◌≤◌, ◌≡◌, refl, ◌⊎◌, inl, inr, true, false, none, some, arith}
use quinte.Finance.Types.{
  FinanceRunStatus, preflight, r1_running, r2_running, merging, completed, degraded, failed,
  cancelled,
}
use quinte.Finance.Transition.{legal_transition, is_running}

-- `n` legal transitions from the start lead to the status.
pub data Run : FinanceRunStatus → ℕ → Type 0 where
  start : (s : FinanceRunStatus) → legal_transition none s ≡ true → Run s 1
  advance :
      (s t : FinanceRunStatus) (n : ℕ)
      → Run s n
      → legal_transition (some s) t ≡ true
      → Run t (suc n)

-- How many transitions a status may be away from the start.
abbrev pub Depth : FinanceRunStatus → ℕ → Type 0
Depth preflight n = ⊥
Depth r1_running n = n ≡ 1
Depth r2_running n = n ≡ 2
Depth merging n = n ≡ 3
Depth completed n = n ≡ 4
Depth degraded n = n ≡ 4
Depth failed n = (2 ≤ n) × (n ≤ 4)
Depth cancelled n = (2 ≤ n) × (n ≤ 4)

Depth-start : (s : FinanceRunStatus) → legal_transition none s ≡ true → Depth s 1
unfolding legal_transition
Depth-start r1_running h = refl
Depth-start _ h = absurd (cc)

Depth-advance :
    (s t : FinanceRunStatus) (n : ℕ)
    → Depth s n
    → legal_transition (some s) t ≡ true
    → Depth t (suc n)
unfolding legal_transition
Depth-advance s preflight n d h = ground arith
Depth-advance s r1_running n d h = ground arith
Depth-advance s r2_running n d h = ground arith
Depth-advance s merging n d h = ground arith
Depth-advance s completed n d h = ground arith
Depth-advance s degraded n d h = ground arith
Depth-advance s failed n d h = ground arith
Depth-advance s cancelled n d h = ground arith

-- A run reaches R1 after one transition, R2 after two, merging after three, and a result after
-- exactly four; it fails or is cancelled after two to four, and never stands in preflight. So no run
-- is longer than four transitions, and no result skips a phase.
pub Run-Depth : {s : FinanceRunStatus} {n : ℕ} → Run s n → Depth s n
Run-Depth (start s h) = Depth-start s h
Run-Depth (advance s t n r h) = Depth-advance s t n (Run-Depth r) h

-- A status that a run reaches either still runs, and then may fail, be cancelled and go on, or is
-- final, and then no transition leaves it.
pub Run-progress :
    {s : FinanceRunStatus} {n : ℕ}
    → Run s n
    → ((is_running s ≡ true)
        × (legal_transition (some s) failed ≡ true)
        × (legal_transition (some s) cancelled ≡ true)
        × (t : FinanceRunStatus) × (legal_transition (some s) t ≡ true)
        × ((is_running t ≡ true) ⊎ (t ≡ completed)))
      ⊎ ((is_running s ≡ false) × ((t : FinanceRunStatus) → legal_transition (some s) t ≡ false))
unfolding legal_transition
Run-progress {s} r = progress s _ (Run-Depth r)
  where
    progress :
        (x : FinanceRunStatus) (k : ℕ)
        → Depth x k
        → ((is_running x ≡ true)
            × (legal_transition (some x) failed ≡ true)
            × (legal_transition (some x) cancelled ≡ true)
            × (t : FinanceRunStatus) × (legal_transition (some x) t ≡ true)
            × ((is_running t ≡ true) ⊎ (t ≡ completed)))
          ⊎ ((is_running x ≡ false)
              × ((t : FinanceRunStatus) → legal_transition (some x) t ≡ false))
    progress preflight k d = absurd d
    progress r1_running k d = inl (refl, refl, refl, r2_running, refl, inl refl)
    progress r2_running k d = inl (refl, refl, refl, merging, refl, inl refl)
    progress merging k d = inl (refl, refl, refl, completed, refl, inr refl)
    progress completed k d = inr (refl, λ t. ground arith)
    progress degraded k d = inr (refl, λ t. ground arith)
    progress failed k d = inr (refl, λ t. ground arith)
    progress cancelled k d = inr (refl, λ t. ground arith)
