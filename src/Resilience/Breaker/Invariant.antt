-- ===== src/Resilience/Breaker/Invariant.antt =====
-- What holds of a circuit breaker between two method calls, whatever the order of the calls.
use bakery_go.Common.{◌≡◌, ◌≢◌, ◌⊎◌, true, List, [], ◌∷◌, arith}
use bakery_go.Common.Int.{ℤ, pos, ◌+ℤ◌, ◌<ℤ◌, ◌≤ℤ◌, IsInt64, int64, int64-id, +ℤ_parts, int_laws}
use bakery_go.Resilience.Breaker.{
  State, closed, open_state, half_open, CircuitBreaker, Options, Call, allows, succeeds, fails,
  new_circuit_breaker, allow, record_success, record_failure, step, run,
}

pub record Inv (cb : CircuitBreaker) : Type 0 where
  pub unused : cb.success_count ≡ pos 0
  pub threshold : (pos 0 <ℤ cb.failure_threshold) × IsInt64 cb.failure_threshold
  pub timeout : (pos 0 <ℤ cb.reset_timeout) × IsInt64 cb.reset_timeout
  pub below :
      cb.state ≡ closed → (pos 0 ≤ℤ cb.failure_count) × (cb.failure_count <ℤ cb.failure_threshold)

abbrev pub InRange : Options → Type 0
InRange o = IsInt64 o.failure_threshold × IsInt64 o.reset_timeout

pub new-Inv : (o : Options) → InRange o → Inv (new_circuit_breaker o)
unfolding new_circuit_breaker
new-Inv o h = ground arith

pub count_up : (c t : ℤ) → pos 0 ≤ℤ c → c <ℤ t → IsInt64 t → int64 (c +ℤ pos 1) ≡ c +ℤ pos 1
count_up c t p q r = int64-id (c +ℤ pos 1) (omega int_laws)

allow-Inv : (cb : CircuitBreaker) (now : ℤ) → Inv cb → Inv (allow cb now).0
unfolding allow
allow-Inv cb now h = ground arith

record_success-Inv : (cb : CircuitBreaker) → Inv cb → Inv (record_success cb)
unfolding record_success
record_success-Inv cb h = ground arith

record_failure-Inv : (cb : CircuitBreaker) (now : ℤ) → Inv cb → Inv (record_failure cb now)
unfolding record_failure
record_failure-Inv cb now h =
    ground
      (arith, count_up cb.failure_count cb.failure_threshold, +ℤ_parts cb.failure_count (pos 1))

pub step-Inv : (cb : CircuitBreaker) (c : Call) → Inv cb → Inv (step cb c)
unfolding step
step-Inv cb (allows now) h = allow-Inv cb now h
step-Inv cb succeeds h = record_success-Inv cb h
step-Inv cb (fails now) h = record_failure-Inv cb now h

run-Inv : (cb : CircuitBreaker) (cs : List Call) → Inv cb → Inv (run cb cs)
unfolding run
run-Inv cb [] h = h
run-Inv cb (c ∷ cs) h = run-Inv (step cb c) cs (step-Inv cb c h)

-- After any calls on a new breaker whose options are 64-bit numbers: the threshold and the timeout
-- are positive, the success counter is 0, and while the breaker is closed the failure counter lies
-- from 0 to below the threshold.
pub run_new-Inv : (o : Options) (cs : List Call) → InRange o → Inv (run (new_circuit_breaker o) cs)
run_new-Inv o cs h = run-Inv (new_circuit_breaker o) cs (new-Inv o h)

-- In a half-open breaker that any calls on a new one have led to, every request is allowed, with no
-- wait, and the breaker stays as it was, so that the next request is allowed too.
pub half_open-allow :
    (o : Options) (cs : List Call) (now : ℤ)
    → InRange o
    → (run (new_circuit_breaker o) cs).state ≡ half_open
    → let cb = run (new_circuit_breaker o) cs in allow cb now ≡ (cb, (true, pos 0))
unfolding allow
half_open-allow o cs now r h = ground (arith, (run_new-Inv o cs r).unused)

-- Every call keeps the state or follows one of the four edges, and an edge has its cause: only a
-- failure opens, only a success closes, only a request half-opens.
abbrev pub Caused : Call → State → State → Type 0
Caused (allows now) s t = (s ≡ t) ⊎ ((s ≡ open_state) × (t ≡ half_open))
Caused succeeds s t = (s ≡ t) ⊎ ((s ≡ half_open) × (t ≡ closed))
Caused (fails now) s t = (s ≡ t) ⊎ (t ≡ open_state) × (s ≢ open_state)

-- Every call follows the diagram of the states: it keeps the state, or a failure moves a closed or
-- half-open breaker to open, a success a half-open one to closed, a request an open one to half-open.
pub step-Caused : (cb : CircuitBreaker) (c : Call) → Caused c cb.state (step cb c).state
unfolding step allow record_success record_failure
step-Caused cb (allows now) = ground arith
step-Caused cb succeeds = ground arith
step-Caused cb (fails now) = ground arith
