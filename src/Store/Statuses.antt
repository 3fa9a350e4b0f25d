-- ===== src/Store/Statuses.antt =====
-- The runs that `transition_allowed` of src/store.rs lets through.
use quinte.Prelude.{ℕ, suc, ◌+◌, ◌≤◌, ◌<◌, ◌≡◌, true, false, arith}
use quinte.Model.Status.{
  RunStatus, queued, preflight, r1_running, r1_gate, r2_packet, r2_running, r2_gate, r3_cc,
  waiting_primary_arbiter, merging, completed, degraded, failed, failed_policy, cancelling,
  cancelled, terminal,
}
use quinte.Store.{status_eq, transition_allowed}

-- How far a run has come.
abbrev pub progress : RunStatus → ℕ
progress queued = 0
progress preflight = 1
progress r1_running = 2
progress r1_gate = 3
progress r2_packet = 4
progress r2_running = 5
progress r2_gate = 6
progress r3_cc = 7
progress waiting_primary_arbiter = 8
progress merging = 9
progress cancelling = 10
progress _ = 11

-- `n` changes of status, each allowed, lead from one status to another.
pub data Changes : RunStatus → RunStatus → ℕ → Type 0 where
  stay : (s : RunStatus) → Changes s s 0
  change :
      (s t u : RunStatus) (n : ℕ)
      → Changes s t n
      → status_eq t u ≡ false
      → transition_allowed t u ≡ true
      → Changes s u (suc n)

allowed_progress :
    (s t : RunStatus)
    → status_eq s t ≡ false
    → transition_allowed s t ≡ true
    → progress s < progress t
unfolding transition_allowed terminal
allowed_progress queued t ne h = ground arith
allowed_progress preflight t ne h = ground arith
allowed_progress r1_running t ne h = ground arith
allowed_progress r1_gate t ne h = ground arith
allowed_progress r2_packet t ne h = ground arith
allowed_progress r2_running t ne h = ground arith
allowed_progress r2_gate t ne h = ground arith
allowed_progress r3_cc t ne h = ground arith
allowed_progress waiting_primary_arbiter t ne h = ground arith
allowed_progress merging t ne h = ground arith
allowed_progress completed t ne h = ground arith
allowed_progress degraded t ne h = ground arith
allowed_progress failed t ne h = ground arith
allowed_progress failed_policy t ne h = ground arith
allowed_progress cancelling t ne h = ground arith
allowed_progress cancelled t ne h = ground arith

Changes-progress : {s t : RunStatus} {n : ℕ} → Changes s t n → progress s + n ≤ progress t
Changes-progress (stay s) = omega arith
Changes-progress (change s t u n c ne h) =
    omega (arith, Changes-progress c, allowed_progress t u ne h)

-- A run changes its status at most eleven times: every change takes it further, so no status comes
-- back, and a terminal status is never left.
pub Changes-bounded :
    {s t : RunStatus} {n : ℕ}
    → Changes s t n
    → (n ≤ 11) × (progress s + n ≤ progress t) × (terminal s ≡ true → n ≡ 0)
unfolding terminal
Changes-bounded {s} {t} {n} c =
    let p = Changes-progress c in (omega (arith, p, top t), p, λ e. ended s t n e p)
  where
    top : (x : RunStatus) → progress x ≤ 11
    top x = ground arith

    ended : (x y : RunStatus) (k : ℕ) → terminal x ≡ true → progress x + k ≤ progress y → k ≡ 0
    ended x y k e p = ground (arith, top y)
