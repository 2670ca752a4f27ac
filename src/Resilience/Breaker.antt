-- ===== src/Resilience/Breaker.antt =====
-- The circuit breaker of pkg/resilience/circuit_breaker.go. Each method takes the clock reading
-- `now` that its call of time.Now or time.Since makes, and returns the new breaker. The mutex makes
-- a method atomic, so concurrent callers are an order of method calls. A time is a number of
-- nanoseconds.
pub mod Invariant
pub mod Trips
use bakery_go.Common.{Bool, true, false, List, [], ◌∷◌, if◌then◌else◌}
use bakery_go.Common.Int.{ℤ, pos, negsuc, ◌+ℤ◌, ◌-ℤ◌, ltb_ℤ, leb_ℤ, int64}

pub data State : Type 0 where
  closed open_state half_open : State

pub record CircuitBreaker : Type 0 where
  pub state : State
  pub failure_count : ℤ
  pub success_count : ℤ
  pub failure_threshold : ℤ
  pub reset_timeout : ℤ
  pub last_failure : ℤ

pub record Options : Type 0 where
  pub failure_threshold : ℤ
  pub reset_timeout : ℤ

abbrev pub default_options : Options
default_options = record { failure_threshold = pos 5; reset_timeout = pos 30000000000 }

-- `lastFailure` starts as the zero time.
unfoldable pub new_circuit_breaker : Options → CircuitBreaker
new_circuit_breaker opts = record {
  state = closed;
  failure_count = pos 0;
  success_count = pos 0;
  failure_threshold =
      if leb_ℤ opts.failure_threshold (pos 0)
      then default_options.failure_threshold
      else opts.failure_threshold;
  reset_timeout =
      if leb_ℤ opts.reset_timeout (pos 0)
      then default_options.reset_timeout
      else opts.reset_timeout;
  last_failure = pos 0;
}

-- The difference of two times is a Duration, held at the ends of its range.
abbrev saturate : ℤ → ℤ
saturate d =
    if ltb_ℤ (pos 9223372036854775807) d
    then pos 9223372036854775807
    else if ltb_ℤ d (negsuc 9223372036854775807)
    then negsuc 9223372036854775807
    else d

unfoldable pub time_sub : ℤ → ℤ → ℤ
time_sub t u = saturate (t -ℤ u)

allow_in : State → CircuitBreaker → ℤ → CircuitBreaker × (Bool × ℤ)
allow_in closed cb now = (cb, (true, pos 0))
allow_in open_state cb now =
    let since = time_sub now cb.last_failure in
    if leb_ℤ cb.reset_timeout since
    then (record cb { state = half_open }, (true, pos 0))
    else (cb, (false, int64 (cb.reset_timeout -ℤ since)))
allow_in half_open cb now =
    if ltb_ℤ (pos 0) cb.success_count then (cb, (false, cb.reset_timeout)) else (cb, (true, pos 0))

-- `Allow`: whether the request may pass, and the time to wait if not.
unfoldable pub allow : CircuitBreaker → ℤ → CircuitBreaker × (Bool × ℤ)
unfolding allow_in
allow cb now = allow_in cb.state cb now

success_in : State → CircuitBreaker → CircuitBreaker
success_in half_open cb = record cb { state = closed; failure_count = pos 0; success_count = pos 0 }
success_in closed cb = cb
success_in open_state cb = cb

unfoldable pub record_success : CircuitBreaker → CircuitBreaker
unfolding success_in
record_success cb = success_in cb.state cb

failure_in : State → CircuitBreaker → CircuitBreaker
failure_in half_open cb = record cb {
  state = open_state;
  failure_count = int64 (cb.failure_count +ℤ pos 1);
  success_count = pos 0;
}
failure_in closed cb =
    let counted = int64 (cb.failure_count +ℤ pos 1) in
    if leb_ℤ cb.failure_threshold counted
    then record cb { state = open_state; failure_count = counted; success_count = pos 0 }
    else record cb { failure_count = counted }
failure_in open_state cb = record cb { failure_count = int64 (cb.failure_count +ℤ pos 1) }

unfoldable pub record_failure : CircuitBreaker → ℤ → CircuitBreaker
unfolding failure_in
record_failure cb now = failure_in cb.state (record cb { last_failure = now })

-- A call of a method by some goroutine, with its clock reading.
pub data Call : Type 0 where
  allows : ℤ → Call
  succeeds : Call
  fails : ℤ → Call

unfoldable pub step : CircuitBreaker → Call → CircuitBreaker
step cb (allows now) = (allow cb now).0
step cb succeeds = record_success cb
step cb (fails now) = record_failure cb now

unfoldable pub run : CircuitBreaker → List Call → CircuitBreaker
run cb [] = cb
run cb (c ∷ cs) = run (step cb c) cs
