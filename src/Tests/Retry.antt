-- ===== src/Tests/Retry.antt =====
-- `Retry` with the broker's settings, with and without a breaker. Errors are numbers.
use bakery_go.Common.{ℕ, zero, suc, ◌≡◌, ◌<◌, refl, none, some, [], ◌∷◌, arith, All}
use bakery_go.Common.Int.{ℤ, pos, ◌+ℤ◌, ◌-ℤ◌, ◌≤ℤ◌, int64}
use bakery_go.Resilience.Breaker.{CircuitBreaker, closed}
use bakery_go.Resilience.Retry.{RetryConfig, Attempt, retry}
use bakery_go.Resilience.Retry.Laws.{Fails, retry-waits}
use bakery_go.Resilience.Retry.WithBreaker.{Refused, retry_trips}

abbrev double : ℤ → ℤ
double d = int64 (d +ℤ d)

abbrev cfg : RetryConfig
cfg = record {
  max_retries = pos 3;
  base_delay = pos 100000000;
  max_delay = pos 2000000000;
  scale = double;
}

abbrev bad : Attempt ℕ
bad = record { allow_at = pos 50; outcome = some 7; failed_at = pos 60; cancelled = none }

abbrev good : Attempt ℕ
good = record { allow_at = pos 50; outcome = none; failed_at = pos 60; cancelled = none }

-- The third attempt succeeds.
abbrev third : ℕ → Attempt ℕ
third zero = bad
third (suc zero) = bad
third (suc (suc n)) = good

abbrev never : ℕ → Attempt ℕ
never n = bad

third-Fails : (j : ℕ) → j < 2 → Fails (third j)
third-Fails zero h = ((7, refl), refl)
third-Fails (suc zero) h = ((7, refl), refl)
third-Fails (suc (suc j)) h = absurd (omega arith)

retry-waits_example : All (λ w. w ≤ℤ pos 2000000000) (retry cfg never none).waits
retry-waits_example = retry-waits cfg never none (omega arith)

-- The waits double.
waits_run : (retry cfg never none).waits ≡ pos 100000000 ∷ pos 200000000 ∷ pos 400000000 ∷ []
unfolding retry ◌+ℤ◌ int64
waits_run = refl

-- Closed, with three failures counted of five.
abbrev strained : CircuitBreaker
strained = record {
  state = closed;
  failure_count = pos 3;
  success_count = pos 0;
  failure_threshold = pos 5;
  reset_timeout = pos 30000000000;
  last_failure = pos 40;
}

retry_trips_example : Refused (retry cfg never (some strained)) 2
unfolding ◌-ℤ◌ ◌+ℤ◌
retry_trips_example =
    retry_trips cfg never 3 1 3 (pos 5) strained refl (omega arith) (omega arith) (refl, refl, refl)
      refl (λ j h. ((7, refl), refl)) (omega arith)
