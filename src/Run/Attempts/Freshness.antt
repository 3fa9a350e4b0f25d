-- ===== src/Run/Attempts/Freshness.antt =====
-- The numbers that `next_attempt` of src/run.rs gives.
use quinte.Prelude.{ℕ, ◌+◌, ◌≤◌, max, ◌≡◌, List, [], ◌∷◌, ok, ltb, if◌then◌else◌, All, arith}
use quinte.Run.Attempts.{highest, next_attempt}

highest-ge : (h : ℕ) (ns : List ℕ) → h ≤ highest h ns
unfolding highest
highest-ge h [] = omega arith
highest-ge h (n ∷ ns) = ground (arith, highest-ge (if ltb 0 n then max h n else h) ns)

highest-All : (h : ℕ) (ns : List ℕ) (top : ℕ) → highest h ns ≤ top → All (λ n. n ≤ top) ns
unfolding highest
highest-All h [] top le = tt
highest-All h (n ∷ ns) top le = (
  ground (arith, highest-ge (if ltb 0 n then max h n else h) ns),
  highest-All (if ltb 0 n then max h n else h) ns top le,
)

-- The next attempt of a route has a number that is greater than those of all the attempts whose
-- directories are there, so no directory is used twice; it is at least 1 and within the policy's
-- budget of attempts.
pub next_attempt_fresh :
    (max_attempts : ℕ) (history : List ℕ) {n : ℕ}
    → next_attempt max_attempts history ≡ ok n
    → All (λ k. k + 1 ≤ n) history × (1 ≤ n) × (n ≤ max_attempts)
unfolding next_attempt
next_attempt_fresh max_attempts history {n} h = (
  bounded history (highest-All 0 history (highest 0 history) (omega arith)),
  ground arith,
  ground arith,
)
  where
    bounded : (ns : List ℕ) → All (λ k. k ≤ highest 0 history) ns → All (λ k. k + 1 ≤ n) ns
    bounded [] all = tt
    bounded (k ∷ ns) (le, all) = (ground arith, bounded ns all)
