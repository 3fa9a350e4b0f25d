-- ===== src/Run/Attempts/Budget.antt =====
-- The loops over the attempts of a route end within the budget of attempts (`accept_or_retry_lane`
-- and `await_arbiter_output` of src/run.rs).
use quinte.Prelude.{
  ℕ, zero, suc, ◌+◌, ◌≤◌, ◌<◌, max, String, ◌≡◌, ◌≢◌, refl, ap, subst, ◌>>=◌, List, Option, none,
  some, Result, ok, err, arith,
}
use quinte.Run.Retry.{RetryClass, is_retryable, retry_allowed}
use quinte.Run.Attempts.{
  LaneError, out_of_fuel, AttemptOutcome, LaneWorld, LaneContext, persist_retry_deadline,
  wait_for_retry_deadline, run_retry_attempt, lane_pass, arbiter_pass, retry_loop,
  accept_or_retry_lane, await_arbiter_output,
}

-- A result of a loop from an attempt on: not for want of fuel, and within the budget.
abbrev pub InBudget : {A : Type 0} → ℕ → ℕ → Result LaneError (ℕ × A) → Type 0
InBudget first budget (ok (n, a)) = (first ≤ n) × (n ≤ max first budget)
InBudget first budget (err e) = e ≢ out_of_fuel

-- A step that leads to a result in the budget, and does not itself run out of fuel.
bind-InBudget :
    {A B : Type 0} (first budget : ℕ) (m : Result LaneError A) (f : A → Result LaneError (ℕ × B))
    → m ≢ err out_of_fuel
    → ((a : A) → m ≡ ok a → InBudget first budget (f a))
    → InBudget first budget (m >>= f)
bind-InBudget first budget (ok a) f fuel next = next a refl
bind-InBudget first budget (err e) f fuel next = λ same. fuel (ap err same)

run_retry_attempt_next :
    (sha256 : List ℕ → List ℕ) (c : LaneContext) (w : LaneWorld) (route_id : String) (attempt : ℕ)
    (retry : RetryClass)
    → InBudget (attempt + 1) 0 (run_retry_attempt sha256 c w route_id attempt retry)
unfolding run_retry_attempt persist_retry_deadline wait_for_retry_deadline
run_retry_attempt_next sha256 c w route_id attempt retry = ground arith

-- What the loops need of a pass: it is not itself out of fuel, and it asks for another attempt only
-- within the budget.
record IsPass {A : Type 0} (budget : ℕ) (pass : ℕ → AttemptOutcome → Result LaneError (Option A))
    : Type 0 where
  fueled : (n : ℕ) (o : AttemptOutcome) → pass n o ≢ err out_of_fuel
  again : (n : ℕ) (o : AttemptOutcome) → pass n o ≡ ok none → n < budget

module _ {A : Type 0} (sha256 : List ℕ → List ℕ) (c : LaneContext) (w : LaneWorld)
    (route_id : String) (pass : ℕ → AttemptOutcome → Result LaneError (Option A)) where
  InBudget-step :
      (first budget : ℕ) (r : Result LaneError (ℕ × A))
      → InBudget (first + 1) budget r
      → first < budget
      → InBudget first budget r
  InBudget-step first budget (ok (n, a)) (low, high) lt = (omega arith, omega arith)
  InBudget-step first budget (err e) h lt = h

  -- The loop with this fuel stays within the budget.
  abbrev Later : ℕ → Type 0
  Later fuel =
      (n : ℕ) (o : AttemptOutcome)
      → c.policy.max_attempts ≤ fuel + n
      → InBudget n c.policy.max_attempts (retry_loop sha256 pass c w route_id fuel n o)

  retry_loop-InBudget :
      (fuel attempt : ℕ) (o : AttemptOutcome)
      → IsPass c.policy.max_attempts pass
      → c.policy.max_attempts ≤ fuel + attempt
      → InBudget attempt c.policy.max_attempts (retry_loop sha256 pass c w route_id fuel attempt o)
  unfolding retry_loop
  retry_loop-InBudget zero attempt o p enough =
      bind-InBudget attempt c.policy.max_attempts (pass attempt o) _ (p.fueled attempt o) ended
    where
      ended :
          (answer : Option A)
          → pass attempt o ≡ ok answer
          → InBudget attempt c.policy.max_attempts
              (elim answer [ some a ↦ ok (attempt, a) | none ↦ err out_of_fuel ])
      ended (some a) same = (omega arith, omega arith)
      ended none same = absurd (omega (arith, p.again attempt o same))
  retry_loop-InBudget (suc fuel) attempt o p enough =
      bind-InBudget attempt c.policy.max_attempts (pass attempt o) _ (p.fueled attempt o)
        (continued (λ n o' le. retry_loop-InBudget fuel n o' p le))
    where
      later :
          Later fuel
          → attempt < c.policy.max_attempts
          → (next : Result LaneError (ℕ × AttemptOutcome)) → InBudget (attempt + 1) 0 next
          → InBudget attempt c.policy.max_attempts
              (next >>= λ n. retry_loop sha256 pass c w route_id fuel n.0 n.1)
      later loop lt (ok (n, o')) (low, high) =
          let one_more : n ≡ attempt + 1 = omega arith in
          InBudget-step attempt c.policy.max_attempts _
            (subst
              (λ k.
                InBudget k c.policy.max_attempts (retry_loop sha256 pass c w route_id fuel n o'))
              one_more (loop n o' (omega arith)))
            lt
      later loop lt (err e) h = h

      continued :
          Later fuel
          → (answer : Option A) → pass attempt o ≡ ok answer
          → InBudget attempt c.policy.max_attempts (elim answer [
            | some a ↦ ok (attempt, a)
            | none ↦ run_retry_attempt sha256 c w route_id attempt o.retry >>= λ next.
                retry_loop sha256 pass c w route_id fuel next.0 next.1
          ])
      continued loop (some a) same = (omega arith, omega arith)
      continued loop none same =
          later loop (p.again attempt o same)
            (run_retry_attempt sha256 c w route_id attempt o.retry)
            (run_retry_attempt_next sha256 c w route_id attempt o.retry)

lane_pass-IsPass : (c : LaneContext) (w : LaneWorld) → IsPass c.policy.max_attempts (lane_pass c w)
unfolding lane_pass retry_allowed is_retryable
lane_pass-IsPass c w = record {
  fueled = λ n o same. ground arith;
  again = λ n o same. ground arith;
}

arbiter_pass-IsPass :
    (c : LaneContext) (w : LaneWorld) → IsPass c.policy.max_attempts (arbiter_pass c w)
unfolding arbiter_pass retry_allowed is_retryable
arbiter_pass-IsPass c w = record {
  fueled = λ n o same. ground arith;
  again = λ n o same. ground arith;
}

-- Trying a lane and trying an arbiter both end: no loop runs out of the policy's budget of
-- attempts, which is the fuel of the model, whatever the attempts return. The attempt that is
-- accepted is the first one or a later one within the budget.
pub attempts_end :
    (sha256 : List ℕ → List ℕ) (c : LaneContext) (w : LaneWorld) (route_id : String) (attempt : ℕ)
    (o : AttemptOutcome)
    → InBudget attempt c.policy.max_attempts (accept_or_retry_lane sha256 c w route_id attempt o)
      × InBudget attempt c.policy.max_attempts (await_arbiter_output sha256 c w route_id attempt o)
unfolding accept_or_retry_lane await_arbiter_output
attempts_end sha256 c w route_id attempt o = (
  retry_loop-InBudget sha256 c w route_id (lane_pass c w) c.policy.max_attempts attempt o
      (lane_pass-IsPass c w) (omega arith),
  retry_loop-InBudget sha256 c w route_id (arbiter_pass c w) c.policy.max_attempts attempt o
      (arbiter_pass-IsPass c w) (omega arith),
)
