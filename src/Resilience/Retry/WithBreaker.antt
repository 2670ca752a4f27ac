-- ===== src/Resilience/Retry/WithBreaker.antt =====
-- `Retry` together with the circuit breaker that it consults.
use bakery_go.Common.{
  ℕ, zero, suc, ◌+◌, ◌≤◌, ◌<◌, ◌≡◌, inl, inr, true, false, Option, none, some, arith, Bool-cases,
  ◌∙◌, ap, subst,
}
use bakery_go.Common.Int.{ℤ, pos, ◌+ℤ◌, ◌-ℤ◌, ◌<ℤ◌, IsInt64, pos_part, neg_part, ltb_ℤ}
use bakery_go.Resilience.Breaker.{CircuitBreaker, closed, open_state, allow, record_failure}
use bakery_go.Resilience.Breaker.Trips.{Counts, count_one, open-allow_iff}
use bakery_go.Resilience.Retry.{
  RetryConfig, Attempt, breaker_open, Run, check, note_failure, next_delay, rounds, after_call,
  round, loop, retry,
}
use bakery_go.Resilience.Retry.Laws.{Fails}

-- Less than `timeout` has passed since a failure at `t`.
abbrev pub Early : ℤ → ℤ → ℤ → Type 0
Early timeout t now = IsInt64 (now -ℤ t) × (now <ℤ t +ℤ timeout)

Early-refused :
    (cb : CircuitBreaker) (now : ℤ)
    → cb.state ≡ open_state
    → Early cb.reset_timeout cb.last_failure now
    → (allow cb now).1.0 ≡ false
Early-refused cb now o e = elim (Bool-cases (allow cb now).1.0) [
  | inl allowed ↦ absurd (omega (arith, (open-allow_iff cb now o e.0).0 allowed))
  | inr refused ↦ refused
]

closed-allow :
    (cb : CircuitBreaker) (now : ℤ) → cb.state ≡ closed → allow cb now ≡ (cb, (true, pos 0))
unfolding allow
closed-allow cb now c = ground arith

record_failure-Counts :
    (t now : ℤ) (n : ℕ) (cb : CircuitBreaker)
    → IsInt64 t
    → Counts t n cb
    → pos (suc n) <ℤ t
    → Counts t (suc n) (record_failure cb now)
      × ((record_failure cb now).reset_timeout ≡ cb.reset_timeout)
unfolding record_failure
record_failure-Counts t now n cb r h lt = ground (arith, count_one t n r)

record_failure_opens :
    (t now : ℤ) (n : ℕ) (cb : CircuitBreaker)
    → IsInt64 t
    → Counts t n cb
    → pos (suc n) ≡ t
    → ((record_failure cb now).state ≡ open_state)
      × ((record_failure cb now).last_failure ≡ now)
      × ((record_failure cb now).reset_timeout ≡ cb.reset_timeout)
unfolding record_failure
record_failure_opens t now n cb r h e =
    let high = ap pos_part e in
    let low = ap neg_part e in ground (arith, high, low, count_one t n r)

more :
    (cfg : RetryConfig) (n attempt : ℕ)
    → cfg.max_retries ≡ pos n
    → attempt < n
    → ltb_ℤ (pos attempt) cfg.max_retries ≡ true
more cfg n attempt m lt = ground (arith, ap pos_part m, ap neg_part m)

module _ {ℓ} {E : Type ℓ} where
  abbrev pub Refused : Run E → ℕ → Type ℓ
  Refused r k = (d : ℤ) × (r.result ≡ breaker_open d) × (r.calls ≡ k)

  loop-Refused :
      (cfg : RetryConfig) (world : ℕ → Attempt E) (left attempt : ℕ) (delay : ℤ)
      (cb : CircuitBreaker) (last : Option E)
      → cb.state ≡ open_state
      → Early cb.reset_timeout cb.last_failure (world attempt).allow_at
      → Refused (loop cfg world (suc left) attempt delay (some cb) last) 0
  unfolding loop round check
  loop-Refused cfg world left attempt delay cb last o early =
      let now = (world attempt).allow_at in
      let no_pass = Early-refused cb now o early in
      ((allow cb now).1.1, ground (arith, no_pass), ground (arith, no_pass))

  -- A round whose call fails, with a breaker that lets it pass and another round to come.
  round-Fails :
      (cfg : RetryConfig) (a : Attempt E) (delay : ℤ) (cb : CircuitBreaker)
      (again : ℤ → Option CircuitBreaker → E → Run E) (k : ℕ)
      → cb.state ≡ closed
      → (f : Fails a)
      → Refused (again (next_delay cfg delay) (some (record_failure cb a.failed_at)) f.0.0) k
      → Refused (round cfg a true delay (some cb) again) (suc k)
  unfolding round check after_call note_failure
  round-Fails cfg a delay cb again k c f h =
      let pass = closed-allow cb a.allow_at c in
      (h.0, ground (arith, pass, f.0.1, f.1, h.1), ground (arith, pass, f.0.1, f.1, h.2))

  -- The clock reaches attempt `j` + 1 before the reset timeout after the failure of attempt `j`.
  abbrev pub Hurries : (ℕ → Attempt E) → ℤ → ℕ → Type 0
  Hurries world timeout j = Early timeout (world j).failed_at (world (suc j)).allow_at

  -- The rest of the loop after an attempt.
  abbrev rest_of :
      RetryConfig → (ℕ → Attempt E) → (left attempt : ℕ) → ℤ → Option CircuitBreaker → E → Run E
  rest_of cfg world left attempt d b e = loop cfg world left (suc attempt) d b (some e)

  last_failure_trips :
      (cfg : RetryConfig) (world : ℕ → Attempt E) (c left attempt : ℕ) (t delay : ℤ)
      (cb : CircuitBreaker)
      → IsInt64 t
      → Counts t c cb
      → pos (suc c) ≡ t
      → (f : Fails (world attempt)) → Hurries world cb.reset_timeout attempt
      → Refused
          (round cfg (world attempt) true delay (some cb) (rest_of cfg world (suc left) attempt))
          1
  last_failure_trips cfg world c left attempt t delay cb r h e f early =
      let at = (world attempt).failed_at in
      let opened = record_failure_opens t at c cb r h e in
      round-Fails cfg (world attempt) delay cb (rest_of cfg world (suc left) attempt) 0 h.0 f (
        loop-Refused cfg world left (suc attempt) (next_delay cfg delay) (record_failure cb at)
          (some f.0.0) opened.0 (rw (opened.1, opened.2) early))

  loop_trips :
      (cfg : RetryConfig) (world : ℕ → Attempt E) (n z k c left attempt : ℕ) (t delay : ℤ)
      (cb : CircuitBreaker) (last : Option E)
      → cfg.max_retries ≡ pos n
      → attempt + left ≡ suc n
      → attempt + k ≡ z
      → z < n
      → IsInt64 t
      → Counts t c cb
      → pos (suc (c + k)) ≡ t
      → ((j : ℕ) → j ≤ z → Fails (world j))
      → Hurries world cb.reset_timeout z
      → Refused (loop cfg world left attempt delay (some cb) last) (suc k)
  unfolding loop
  loop_trips cfg world n z k c zero attempt t delay cb last m all at lt r h e bad early =
      absurd (omega arith)
  loop_trips cfg world n z k c (suc zero) attempt t delay cb last m all at lt r h e bad early =
      absurd (omega arith)
  loop_trips cfg world n z zero c (suc (suc left)) attempt t delay cb last m all at lt r h e bad
        early =
      let here : z ≡ attempt = omega arith in
      let count : suc c ≡ suc (c + 0) = omega arith in
      rw (more cfg n attempt m (omega arith)) (
        last_failure_trips cfg world c left attempt t delay cb r h (ap pos count ∙ e)
          (bad attempt (omega arith)) (subst (Hurries world cb.reset_timeout) here early))
  loop_trips cfg world n z (suc k) c (suc (suc left)) attempt t delay cb last m all at lt r h e bad
        early =
      let f = bad attempt (omega arith) in
      let cb' = record_failure cb (world attempt).failed_at in
      let high = ap pos_part e in
      let low = ap neg_part e in
      let next =
        record_failure-Counts t (world attempt).failed_at c cb r h (omega (arith, high, low)) in
      let count : suc (suc c + k) ≡ suc (c + suc k) = omega arith in
      rw (more cfg n attempt m (omega arith)) (
        round-Fails cfg (world attempt) delay cb (rest_of cfg world (suc left) attempt) (suc k) h.0
          f
          (loop_trips cfg world n z k (suc c) (suc left) (suc attempt) t (next_delay cfg delay) cb'
            (some f.0.0) m (omega arith) (omega arith) lt r next.0 (ap pos count ∙ e) bad
            (rw next.1 early)))

  -- With a closed breaker that opens at its next `k` + 1 failures, `k` below MaxRetries, calls that
  -- all fail under a context that outlives the waits, and a clock that reaches the attempt after
  -- these failures before the reset timeout has passed, `Retry` makes just `k` + 1 calls and
  -- reports the open breaker in place of the calls' error.
  pub retry_trips :
      (cfg : RetryConfig) (world : ℕ → Attempt E) (n k c : ℕ) (t : ℤ) (cb : CircuitBreaker)
      → cfg.max_retries ≡ pos n
      → k < n
      → IsInt64 t
      → Counts t c cb
      → pos (suc (c + k)) ≡ t
      → ((j : ℕ) → j ≤ k → Fails (world j))
      → Hurries world cb.reset_timeout k
      → Refused (retry cfg world (some cb)) (suc k)
  unfolding retry
  retry_trips cfg world n k c t cb m lt r h e bad early = rw (ap rounds m) (
      loop_trips cfg world n k k c (suc n) 0 t cfg.base_delay cb none m (omega arith) (omega arith)
        lt r h e bad early)
