-- ===== src/Examples/Retries.antt =====
-- Retries of the installed policy (src/run.rs). The digest is one of zeros.
use quinte.Prelude.{ℕ, ◌*◌, ◌≤◌, ◌≡◌, refl, ◌&&◌, List, some, ok, err, arith, is_ok, leb, codes}
use quinte.Model.Routes.{unwrap_or}
use quinte.Policy.Defaults.{production_route, default_roster, default_policy}
use quinte.Run.Retry.{
  u64_max, RetryClass, rate_limited, is_retryable, RetrySchedule, backoff, jitter_millis,
  jitter_points, retry_schedule, requested, retry_schedule_bounds, retry_schedule_exists, parse_hex,
  decimal, retry_after_too_long,
}

abbrev zeros : List ℕ → List ℕ
zeros text = codes "sha256:0000000000000000"

abbrev third : RetrySchedule
third = record {
  source = "http_429";
  backoff_seconds = 60;
  retry_after_seconds = some 90;
  jitter = 0;
  delay = 90000;
}

abbrev slow_down : ℕ → RetryClass
slow_down seconds =
    rate_limited (record { source = "http_429"; retry_after_seconds = some seconds })

third_attempt :
    retry_schedule zeros (slow_down 90) default_policy "run-1" "R1" "deepseek-a" 3 ≡ ok third
unfolding retry_schedule backoff jitter_millis jitter_points parse_hex decimal default_policy
    default_roster production_route
third_attempt = refl

cap_fits : default_policy.retry_backoff_max_seconds ≤ u64_max
unfolding default_policy default_roster production_route
cap_fits = omega arith

retry_schedule_bounds_example :
    (third.backoff_seconds * 1000 ≤ third.delay)
    × (unwrap_or third.retry_after_seconds 0 * 1000 ≤ third.delay)
    × (third.delay ≤ default_policy.retry_backoff_max_seconds * 1000)
    × (third.jitter ≤ third.backoff_seconds * 200)
retry_schedule_bounds_example =
    retry_schedule_bounds zeros (slow_down 90) default_policy "run-1" "R1" "deepseek-a" 3 cap_fits
      third_attempt

retry_schedule_exists_example :
    is_ok (retry_schedule zeros (slow_down 300) default_policy "run-1" "R1" "deepseek-a" 1) ≡ (
      is_retryable (slow_down 300)
      && leb (requested (slow_down 300)) default_policy.retry_backoff_max_seconds)
retry_schedule_exists_example =
    retry_schedule_exists zeros (slow_down 300) default_policy "run-1" "R1" "deepseek-a" 1

-- A Retry-After of five minutes exceeds the cap.
too_long :
    retry_schedule zeros (slow_down 300) default_policy "run-1" "R1" "deepseek-a" 1
    ≡ err retry_after_too_long
unfolding retry_schedule default_policy default_roster production_route
too_long = refl
