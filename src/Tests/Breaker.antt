-- ===== src/Tests/Breaker.antt =====
-- A breaker that opens at the third failure, with a timeout of ten seconds.
use bakery_go.Common.{refl, ◌≡◌, List, [], ◌∷◌, ◌++◌, true, arith}
use bakery_go.Common.Int.{pos, ◌+ℤ◌, ◌-ℤ◌, int64}
use bakery_go.Resilience.Breaker.{
  open_state, half_open, CircuitBreaker, Options, Call, allows, succeeds, fails,
  new_circuit_breaker, time_sub, allow, record_success, record_failure, step, run,
}
use bakery_go.Resilience.Breaker.Invariant.{Inv, run_new-Inv, half_open-allow}

abbrev opts : Options
opts = record { failure_threshold = pos 3; reset_timeout = pos 10000000000 }

abbrev two_failures : List Call
two_failures = fails (pos 100) ∷ succeeds ∷ fails (pos 200) ∷ allows (pos 250) ∷ []

abbrev opened : CircuitBreaker
opened = run (new_circuit_breaker opts) (two_failures ++ fails (pos 300) ∷ [])

abbrev reopening : List Call
reopening = two_failures ++ fails (pos 300) ∷ allows (pos 10000000300) ∷ []

opened_lem : opened.state ≡ open_state
unfolding run step new_circuit_breaker record_failure record_success allow ◌+ℤ◌ int64
opened_lem = refl

half_opened : (run (new_circuit_breaker opts) reopening).state ≡ half_open
unfolding run step new_circuit_breaker record_failure record_success allow time_sub ◌+ℤ◌ ◌-ℤ◌ int64
half_opened = refl

run_new-Inv_example : Inv (run (new_circuit_breaker opts) reopening)
run_new-Inv_example = run_new-Inv opts reopening (omega arith)

half_open-allow_example :
    let cb = run (new_circuit_breaker opts) reopening in
    allow cb (pos 10000000301) ≡ (cb, (true, pos 0))
half_open-allow_example = half_open-allow opts reopening (pos 10000000301) (omega arith) half_opened

abbrev tripped : CircuitBreaker
tripped = record {
  state = open_state;
  failure_count = pos 3;
  success_count = pos 0;
  failure_threshold = pos 3;
  reset_timeout = pos 100;
  last_failure = pos 1000;
}

tripped-Inv : Inv tripped
tripped-Inv = record {
  unused = refl;
  threshold = omega arith;
  timeout = omega arith;
  below = λ e. cc;
}
