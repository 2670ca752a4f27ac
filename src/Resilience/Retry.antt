-- ===== src/Resilience/Retry.antt =====
-- `Retry` of pkg/resilience/circuit_breaker.go. What the world does in an attempt is a value: the
-- error that the call returns, if any, the clock readings, and whether the context is cancelled
-- before the timer fires. The loop returns, beside its result and the breaker, the number of calls
-- made and the waits taken. No other goroutine calls a method of the same breaker meanwhile.
pub mod Laws
pub mod WithBreaker
use bakery_go.Common.{
  ℕ, zero, suc, Bool, true, false, Option, none, some, List, [], ◌∷◌, if◌then◌else◌,
}
use bakery_go.Common.Int.{ℤ, pos, negsuc, ◌+ℤ◌, ltb_ℤ, int64}
use bakery_go.Resilience.Breaker.{CircuitBreaker, allow, record_success, record_failure}

-- `E` is the type of errors. `scale d` stands for `time.Duration(float64(d) * cfg.Multiplier)`.
pub record RetryConfig : Type 0 where
  pub max_retries : ℤ
  pub base_delay : ℤ
  pub max_delay : ℤ
  pub scale : ℤ → ℤ

pub record Attempt {ℓ} (E : Type ℓ) : Type ℓ where
  pub allow_at : ℤ
  pub outcome : Option E
  pub failed_at : ℤ
  pub cancelled : Option E

pub data Result {ℓ} (E : Type ℓ) : Type ℓ where
  success : Result E
  breaker_open : ℤ → Result E
  cancelled_by : E → Result E
  exhausted : ℤ → Option E → Result E

pub record Run {ℓ} (E : Type ℓ) : Type ℓ where
  pub result : Result E
  pub breaker : Option CircuitBreaker
  pub calls : ℕ
  pub waits : List ℤ

-- The breaker's answer before an attempt; without a breaker every attempt may go on.
unfoldable pub check : Option CircuitBreaker → ℤ → Option CircuitBreaker × (Bool × ℤ)
check none now = (none, (true, pos 0))
check (some cb) now = let (cb', answer) = allow cb now in (some cb', answer)

unfoldable pub note_success : Option CircuitBreaker → Option CircuitBreaker
note_success none = none
note_success (some cb) = some (record_success cb)

unfoldable pub note_failure : Option CircuitBreaker → ℤ → Option CircuitBreaker
note_failure none now = none
note_failure (some cb) now = some (record_failure cb now)

unfoldable pub next_delay : RetryConfig → ℤ → ℤ
next_delay cfg delay =
    let scaled = cfg.scale delay in if ltb_ℤ cfg.max_delay scaled then cfg.max_delay else scaled

-- The rounds from `attempt` on; `left` of them are left, and the last does not wait.
-- The rounds of `for attempt := 0; attempt <= max; attempt++`.
abbrev pub rounds : ℤ → ℕ
rounds (pos n) = suc n
rounds (negsuc n) = 0

module _ {ℓ} {E : Type ℓ} where
  -- One more call was made before what `rest` does.
  abbrev pub counted : Run E → Run E
  counted rest = record rest { calls = suc rest.calls }

  -- The `select` on the context and the timer, and what follows.
  abbrev pub waited : Option E → Run E → ℤ → Option CircuitBreaker → Run E
  waited (some e) rest delay cb = record {
    result = cancelled_by e;
    breaker = cb;
    calls = 1;
    waits = delay ∷ [];
  }
  waited none rest delay cb = record rest { calls = suc rest.calls; waits = delay ∷ rest.waits }

  -- What follows the call of an attempt; `again` is the rest of the loop, from the next delay, the
  -- breaker and the last error. `more` tells that a wait and an attempt follow.
  unfoldable pub after_call :
      RetryConfig
      → Attempt E
      → Bool
      → ℤ
      → Option CircuitBreaker
      → (ℤ → Option CircuitBreaker → E → Run E)
      → Run E
  unfolding note_success note_failure next_delay
  after_call cfg a more delay cb again = elim a.outcome [
    | none ↦ record { result = success; breaker = note_success cb; calls = 1; waits = [] }
    | some e ↦
        let cb' = note_failure cb a.failed_at in
        if more
        then waited a.cancelled (again (next_delay cfg delay) cb' e) delay cb'
        else counted (again delay cb' e)
  ]

  unfoldable pub round :
      RetryConfig
      → Attempt E
      → Bool
      → ℤ
      → Option CircuitBreaker
      → (ℤ → Option CircuitBreaker → E → Run E)
      → Run E
  unfolding check after_call
  round cfg a more delay cb again =
      let (cb', (allowed, retry_after)) = check cb a.allow_at in
      if allowed
      then after_call cfg a more delay cb' again
      else record { result = breaker_open retry_after; breaker = cb'; calls = 0; waits = [] }

  -- The rounds from `attempt` on, of which `left` are left. At the end the error of the last attempt
  -- is wrapped; `none` stands for the nil error of a loop that made no round.
  unfoldable pub loop :
      RetryConfig
      → (ℕ → Attempt E)
      → (left attempt : ℕ) → ℤ
      → Option CircuitBreaker
      → Option E
      → Run E
  unfolding round
  loop cfg world zero attempt delay cb last = record {
    result = exhausted (int64 (cfg.max_retries +ℤ pos 1)) last;
    breaker = cb;
    calls = 0;
    waits = [];
  }
  loop cfg world (suc left) attempt delay cb last =
      round cfg (world attempt) (ltb_ℤ (pos attempt) cfg.max_retries) delay cb
        (λ d b e. loop cfg world left (suc attempt) d b (some e))

  unfoldable pub retry : RetryConfig → (ℕ → Attempt E) → Option CircuitBreaker → Run E
  unfolding loop
  retry cfg world cb = loop cfg world (rounds cfg.max_retries) 0 cfg.base_delay cb none
