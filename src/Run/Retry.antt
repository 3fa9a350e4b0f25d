-- ===== src/Run/Retry.antt =====
-- When a failed attempt is tried again, and after how long (`RetryClass` and `retry_schedule` of
-- src/run.rs). Durations are in milliseconds.
use quinte.Prelude.{
  ℕ, zero, suc, ◌+◌, ◌-◌, ◌*◌, ◌/◌, ◌%◌, ◌^◌, ◌≤◌, ◌<◌, min, max, String, ◌≡◌, refl, Bool, true,
  false, ◌&&◌, List, [], ◌∷◌, ◌++◌, Option, none, some, Result, ok, err, ◌>>=◌, ◌>>◌, bail_if, ltb,
  leb, if◌then◌else◌, codes, is_digit, arith, is_ok,
}
use native.Mathlib.Nat.{le_refl, mul-le-mul, pow-le-pow_right, le-pred_of_lt}
use quinte.Model.Routes.{Policy, unwrap_or}

abbrev pub u64_max : ℕ
u64_max = 18446744073709551615

abbrev pub u32_max : ℕ
u32_max = 4294967295

pub record RateLimitSignal : Type 0 where
  pub source : String
  pub retry_after_seconds : Option ℕ

pub data RetryClass : Type 0 where
  never transient_timeout transient_adapter : RetryClass
  rate_limited : RateLimitSignal → RetryClass

unfoldable pub is_retryable : RetryClass → Bool
is_retryable never = false
is_retryable _ = true

unfoldable pub failure_class : RetryClass → String
failure_class never = "non_retryable"
failure_class transient_timeout = "timeout"
failure_class transient_adapter = "transient_adapter"
failure_class (rate_limited _) = "rate_limit"

unfoldable pub retry_allowed : RetryClass → ℕ → ℕ → Bool
unfolding is_retryable
retry_allowed retry attempt max_attempts = is_retryable retry && ltb attempt max_attempts

pub data RetryError : Type 0 where
  not_retryable retry_after_too_long : RetryError

pub record RetrySchedule : Type 0 where
  pub source : String
  pub backoff_seconds : ℕ
  pub retry_after_seconds : Option ℕ
  pub jitter : ℕ
  pub delay : ℕ

-- `u64::saturating_mul`.
abbrev pub saturating_mul : ℕ → ℕ → ℕ
saturating_mul a b = min (a * b) u64_max

-- The `match retry` at the head of `retry_schedule`.
abbrev pub retry_source : RetryClass → Result RetryError (String × Option ℕ)
retry_source never = err not_retryable
retry_source transient_timeout = ok ("host_timeout", none)
retry_source transient_adapter = ok ("adapter_structured_error", none)
retry_source (rate_limited s) = ok (s.source, s.retry_after_seconds)

abbrev exceeds : Option ℕ → ℕ → Bool
exceeds none cap = false
exceeds (some d) cap = ltb cap d

-- A hexadecimal digit, and `u64::from_str_radix(_, 16)` on text that is too short to overflow.
abbrev hex_value : ℕ → Option ℕ
hex_value c =
    if is_digit c
    then some (c - b'0')
    else if leb b'a' c && leb c b'f'
    then some (c - b'a' + 10)
    else if leb b'A' c && leb c b'F'
    then some (c - b'A' + 10)
    else none

abbrev hex_step : Option ℕ → ℕ → Option ℕ
hex_step none acc = none
hex_step (some v) acc = some (acc * 16 + v)

unfoldable pub parse_hex : List ℕ → ℕ → Option ℕ
parse_hex [] acc = some acc
parse_hex (c ∷ cs) acc = elim (hex_step (hex_value c) acc) [ none ↦ none | some a ↦ parse_hex cs a ]

abbrev from_hex : List ℕ → Option ℕ
from_hex [] = none
from_hex (c ∷ cs) = parse_hex (c ∷ cs) 0

-- `seed[7..11]`.
abbrev slice_7_11 : List ℕ → List ℕ
slice_7_11 (_ ∷ _ ∷ _ ∷ _ ∷ _ ∷ _ ∷ _ ∷ a ∷ b ∷ c ∷ d ∷ _) = a ∷ b ∷ c ∷ d ∷ []
slice_7_11 _ = []

-- The decimal digits of a number below 10 ^ fuel, in front of `tail`.
unfoldable pub decimal : ℕ → ℕ → List ℕ → List ℕ
decimal zero n tail = tail
decimal (suc fuel) n tail =
    let rest = decimal fuel (n / 10) ((b'0' + n % 10) ∷ tail) in
    if ltb n 10 then (b'0' + n) ∷ tail else rest

-- `backoff_seconds`: doubled from attempt to attempt, in saturating arithmetic, up to the cap.
unfoldable pub backoff : ℕ → ℕ → ℕ → ℕ
backoff base cap attempt =
    min (saturating_mul base (min (2 ^ min (attempt - 1) u32_max) u64_max)) cap

-- The jitter in milliseconds: up to 2,000 basis points of the backoff.
unfoldable pub jitter_millis : ℕ → ℕ → ℕ
jitter_millis backoff_seconds points =
    saturating_mul (saturating_mul backoff_seconds 1000) points / 10000

-- `Duration::saturating_add`, in whole milliseconds.
abbrev duration_add : ℕ → ℕ → ℕ
duration_add a b = min (a + b) (u64_max * 1000 + 999)

-- `sha256` stands for `sha256_bytes` on the UTF-8 text of a list of code points.
module _ (sha256 : List ℕ → List ℕ) where
  unfoldable pub jitter_points : String → String → String → ℕ → ℕ
  unfolding parse_hex decimal
  jitter_points run_id phase route_id attempt =
      unwrap_or
        (from_hex (
          slice_7_11 (
            sha256 (
              codes run_id
              ++ 0 ∷ (codes phase ++ 0 ∷ (codes route_id ++ 0 ∷ decimal 20 attempt []))))))
        0
      % 2001

  unfoldable pub retry_schedule :
      RetryClass → Policy → String → String → String → ℕ → Result RetryError RetrySchedule
  retry_schedule retry p run_id phase route_id attempt = do
    found ← retry_source retry
    bail_if (exceeds found.1 p.retry_backoff_max_seconds) retry_after_too_long
    let seconds = backoff p.retry_backoff_seconds p.retry_backoff_max_seconds attempt
    let jitter = jitter_millis seconds (jitter_points run_id phase route_id attempt)
    let bounded = min (duration_add (seconds * 1000) jitter) (p.retry_backoff_max_seconds * 1000)
    ok (record {
      source = found.0;
      backoff_seconds = seconds;
      retry_after_seconds = found.1;
      jitter = jitter;
      delay = max bounded (unwrap_or found.1 0 * 1000);
    })

backoff-le_cap : (base cap attempt : ℕ) → backoff base cap attempt ≤ cap
unfolding backoff
backoff-le_cap base cap attempt = omega arith

jitter_points-lt :
    (sha256 : List ℕ → List ℕ) (run_id phase route_id : String) (attempt : ℕ)
    → jitter_points sha256 run_id phase route_id attempt < 2001
unfolding jitter_points
jitter_points-lt sha256 run_id phase route_id attempt = omega arith

-- The jitter is at most a fifth of the backoff.
jitter_millis-le :
    (seconds points : ℕ) → points < 2001 → jitter_millis seconds points ≤ seconds * 200
unfolding jitter_millis
jitter_millis-le seconds points h =
    omega (arith, mul-le-mul (le_refl (min (seconds * 1000) u64_max)) (le-pred_of_lt h))

-- Every schedule waits at least the backoff and at least what the provider asked for, and never
-- longer than the policy's cap, for caps that fit 64 bits; its jitter is at most a fifth of the
-- backoff.
pub retry_schedule_bounds :
    (sha256 : List ℕ → List ℕ) (retry : RetryClass) (p : Policy) (run_id phase route_id : String)
    (attempt : ℕ) {s : RetrySchedule}
    → p.retry_backoff_max_seconds ≤ u64_max
    → retry_schedule sha256 retry p run_id phase route_id attempt ≡ ok s
    → (s.backoff_seconds * 1000 ≤ s.delay)
      × (unwrap_or s.retry_after_seconds 0 * 1000 ≤ s.delay)
      × (s.delay ≤ p.retry_backoff_max_seconds * 1000)
      × (s.jitter ≤ s.backoff_seconds * 200)
unfolding retry_schedule
retry_schedule_bounds sha256 retry p run_id phase route_id attempt fits h = ground (
  arith,
  backoff-le_cap p.retry_backoff_seconds p.retry_backoff_max_seconds attempt,
  jitter_points-lt sha256 run_id phase route_id attempt,
  jitter_millis-le (backoff p.retry_backoff_seconds p.retry_backoff_max_seconds attempt)
      (jitter_points sha256 run_id phase route_id attempt),
)

-- The seconds that the provider asked for.
abbrev pub requested : RetryClass → ℕ
requested (rate_limited s) = unwrap_or s.retry_after_seconds 0
requested _ = 0

-- A schedule exists exactly for the retryable classes whose Retry-After stays within the cap.
pub retry_schedule_exists :
    (sha256 : List ℕ → List ℕ) (retry : RetryClass) (p : Policy) (run_id phase route_id : String)
    (attempt : ℕ)
    → is_ok (retry_schedule sha256 retry p run_id phase route_id attempt)
      ≡ (is_retryable retry && leb (requested retry) p.retry_backoff_max_seconds)
unfolding retry_schedule is_retryable
retry_schedule_exists sha256 never p run_id phase route_id attempt = refl
retry_schedule_exists sha256 _ p run_id phase route_id attempt = ground arith

-- From one attempt to the next the backoff does not fall.
pub backoff_mono : (base cap m n : ℕ) → m ≤ n → backoff base cap m ≤ backoff base cap n
unfolding backoff
backoff_mono base cap m n h =
    let powers = pow-le-pow_right {n = 2} (omega arith) (exponents m n h) in
    omega (
      arith,
      mul-le-mul (le_refl base) (capped (2 ^ min (m - 1) u32_max) (2 ^ min (n - 1) u32_max) powers),
    )
  where
    exponents : (a b : ℕ) → a ≤ b → min (a - 1) u32_max ≤ min (b - 1) u32_max
    exponents a b le = omega arith

    capped : (a b : ℕ) → a ≤ b → min a u64_max ≤ min b u64_max
    capped a b le = omega arith
