-- ===== src/Resilience/Retry/Laws.antt =====
-- How many calls `Retry` makes, what it returns, and how long it waits.
use bakery_go.Common.{
  ℕ, zero, suc, ◌+◌, ◌≤◌, ◌<◌, ◌≡◌, Bool, Option, none, some, arith, length, All, ◌∙◌, ap, sym,
}
use bakery_go.Common.Int.{ℤ, pos, ◌+ℤ◌, ◌≤ℤ◌, ltb_ℤ, int64, pos_part, neg_part}
use bakery_go.Resilience.Breaker.{CircuitBreaker}
use bakery_go.Resilience.Retry.{
  RetryConfig, Attempt, success, exhausted, Run, check, note_success, note_failure, next_delay,
  rounds, after_call, round, loop, retry,
}

module _ {ℓ} {E : Type ℓ} where
  round-calls :
      (cfg : RetryConfig) (a : Attempt E) (more : Bool) (delay : ℤ) (cb : Option CircuitBreaker)
      (again : ℤ → Option CircuitBreaker → E → Run E) (n : ℕ)
      → ((d : ℤ) (b : Option CircuitBreaker) (e : E) → (again d b e).calls ≤ n)
      → (round cfg a more delay cb again).calls ≤ suc n
  unfolding round after_call
  round-calls cfg a more delay cb again n h = grind (arith, h)

  loop-calls :
      (cfg : RetryConfig) (world : ℕ → Attempt E) (left attempt : ℕ) (delay : ℤ)
      (cb : Option CircuitBreaker) (last : Option E)
      → (loop cfg world left attempt delay cb last).calls ≤ left
  unfolding loop
  loop-calls cfg world zero attempt delay cb last = omega arith
  loop-calls cfg world (suc left) attempt delay cb last =
      round-calls cfg (world attempt) (ltb_ℤ (pos attempt) cfg.max_retries) delay cb
        (λ d b e. loop cfg world left (suc attempt) d b (some e)) left
        (λ d b e. loop-calls cfg world left (suc attempt) d b (some e))

  -- `Retry` makes at most MaxRetries + 1 calls, and none if MaxRetries is negative, whatever the
  -- breaker, the errors and the clock.
  pub retry-calls :
      (cfg : RetryConfig) (world : ℕ → Attempt E) (cb : Option CircuitBreaker)
      → (retry cfg world cb).calls ≤ rounds cfg.max_retries
  unfolding retry
  retry-calls cfg world cb = loop-calls cfg world (rounds cfg.max_retries) 0 cfg.base_delay cb none

  round-waits :
      (cfg : RetryConfig) (a : Attempt E) (more : Bool) (delay : ℤ) (cb : Option CircuitBreaker)
      (again : ℤ → Option CircuitBreaker → E → Run E)
      → delay ≤ℤ cfg.max_delay
      → ((d : ℤ) (b : Option CircuitBreaker) (e : E)
          → d ≤ℤ cfg.max_delay
          → All (λ w. w ≤ℤ cfg.max_delay) (again d b e).waits)
      → All (λ w. w ≤ℤ cfg.max_delay) (round cfg a more delay cb again).waits
  unfolding round after_call next_delay
  round-waits cfg a more delay cb again le h = grind (arith, h)

  loop-waits :
      (cfg : RetryConfig) (world : ℕ → Attempt E) (left attempt : ℕ) (delay : ℤ)
      (cb : Option CircuitBreaker) (last : Option E)
      → delay ≤ℤ cfg.max_delay
      → All (λ w. w ≤ℤ cfg.max_delay) (loop cfg world left attempt delay cb last).waits
  unfolding loop
  loop-waits cfg world zero attempt delay cb last le = tt
  loop-waits cfg world (suc left) attempt delay cb last le =
      round-waits cfg (world attempt) (ltb_ℤ (pos attempt) cfg.max_retries) delay cb
        (λ d b e. loop cfg world left (suc attempt) d b (some e)) le
        (λ d b e. loop-waits cfg world left (suc attempt) d b (some e))

  -- No wait between two attempts is longer than MaxDelay, if BaseDelay is not, whatever the
  -- multiplier.
  pub retry-waits :
      (cfg : RetryConfig) (world : ℕ → Attempt E) (cb : Option CircuitBreaker)
      → cfg.base_delay ≤ℤ cfg.max_delay
      → All (λ w. w ≤ℤ cfg.max_delay) (retry cfg world cb).waits
  unfolding retry
  retry-waits cfg world cb le =
      loop-waits cfg world (rounds cfg.max_retries) 0 cfg.base_delay cb none le

  -- The call fails, and the context outlives the wait after it.
  abbrev pub Fails : Attempt E → Type ℓ
  Fails a = ((e : E) × (a.outcome ≡ some e)) × (a.cancelled ≡ none)

  loop_success :
      (cfg : RetryConfig) (world : ℕ → Attempt E) (n i k left attempt : ℕ) (delay : ℤ)
      (last : Option E)
      → cfg.max_retries ≡ pos n
      → attempt + left ≡ suc n
      → attempt + k ≡ i
      → i ≤ n
      → ((j : ℕ) → j < i → Fails (world j))
      → (world i).outcome ≡ none
      → let r = loop cfg world left attempt delay none last in
        (r.result ≡ success) × (r.calls ≡ suc k) × (length r.waits ≡ k)
  unfolding loop round after_call check note_success note_failure
  loop_success cfg world n i k zero attempt delay last m all at le fails ok = absurd (omega arith)
  loop_success cfg world n i zero (suc left) attempt delay last m all at le fails ok =
      let here : attempt ≡ i = omega arith in
      let out : (world attempt).outcome ≡ none = rw here ok in ground (arith, out)
  loop_success cfg world n i (suc k) (suc left) attempt delay last m all at le fails ok =
      let f = fails attempt (omega arith) in
      let rest =
        loop_success cfg world n i k left (suc attempt) (next_delay cfg delay) (some f.0.0) m
          (omega arith) (omega arith) le fails ok in
      ground (arith, f.0.1, f.1, rest, ap pos_part m, ap neg_part m)

  loop_exhausted :
      (cfg : RetryConfig) (world : ℕ → Attempt E) (n left attempt : ℕ) (delay : ℤ) (last : Option E)
      → cfg.max_retries ≡ pos n
      → attempt + suc left ≡ suc n
      → ((j : ℕ) → j ≤ n → Fails (world j))
      → let r = loop cfg world (suc left) attempt delay none last in
        (r.result ≡ exhausted (int64 (pos n +ℤ pos 1)) (world n).outcome)
        × (r.calls ≡ suc left)
        × (length r.waits ≡ left)
  unfolding loop round after_call check note_success note_failure
  loop_exhausted cfg world n zero attempt delay last m all fails =
      let f = fails attempt (omega arith) in
      let here : attempt ≡ n = omega arith in
      let out = ap (λ (j : ℕ). (world j).outcome) (sym here) ∙ f.0.1 in
      ground (arith, f.0.1, out, m, ap pos_part m, ap neg_part m)
  loop_exhausted cfg world n (suc left) attempt delay last m all fails =
      let f = fails attempt (omega arith) in
      let rest =
        loop_exhausted cfg world n left (suc attempt) (next_delay cfg delay) (some f.0.0) m
          (omega arith) fails in
      ground (arith, f.0.1, f.1, rest, ap pos_part m, ap neg_part m)

  -- Without a breaker, if the calls before attempt `i` fail, the context outlives the waits after
  -- them, `i` is at most MaxRetries and its call succeeds, then `Retry` succeeds after `i` + 1 calls
  -- and `i` waits.
  pub retry_success :
      (cfg : RetryConfig) (world : ℕ → Attempt E) (n i : ℕ)
      → cfg.max_retries ≡ pos n
      → i ≤ n
      → ((j : ℕ) → j < i → Fails (world j))
      → (world i).outcome ≡ none
      → let r = retry cfg world none in
        (r.result ≡ success) × (r.calls ≡ suc i) × (length r.waits ≡ i)
  unfolding retry
  retry_success cfg world n i m le fails ok = rw (ap rounds m) (
      loop_success cfg world n i i (suc n) 0 cfg.base_delay none m (omega arith) (omega arith) le
        fails ok)

  -- Without a breaker, if all MaxRetries + 1 calls fail and the context outlives the waits, `Retry`
  -- makes them all, waits between them, and returns the error of the last, with MaxRetries + 1 as
  -- the number of attempts.
  pub retry_exhausted :
      (cfg : RetryConfig) (world : ℕ → Attempt E) (n : ℕ)
      → cfg.max_retries ≡ pos n
      → ((j : ℕ) → j ≤ n → Fails (world j))
      → let r = retry cfg world none in
        (r.result ≡ exhausted (int64 (pos n +ℤ pos 1)) (world n).outcome)
        × (r.calls ≡ suc n)
        × (length r.waits ≡ n)
  unfolding retry
  retry_exhausted cfg world n m fails =
      rw (ap rounds m) (loop_exhausted cfg world n n 0 cfg.base_delay none m (omega arith) fails)
