-- ===== src/Resilience/Breaker/Trips.antt =====
-- When a circuit breaker opens, and how long it stays open.
use native.Mathlib.Nat.{add-zero, zero-add, add_assoc}
use bakery_go.Common.{◌++◌, ap, ◌∙◌, ℕ, suc, ◌+◌, ◌≡◌, refl, ◌↔◌, true, false, List, [], ◌∷◌, arith}
use bakery_go.Common.Int.{
  ℤ, pos, ◌+ℤ◌, ◌-ℤ◌, ◌<ℤ◌, ◌≤ℤ◌, IsInt64, int64, int64-id, pos_part, neg_part, +ℤ_parts, -ℤ_parts,
  int_laws, eq_of_parts, parts_disjoint,
}
use bakery_go.Resilience.Breaker.{
  closed, open_state, CircuitBreaker, Options, Call, allows, succeeds, fails, new_circuit_breaker,
  time_sub, allow, record_success, record_failure, step, run,
}
use bakery_go.Resilience.Breaker.Invariant.{Inv, InRange, new-Inv, count_up}

-- The failures among some calls.
unfoldable pub failures : List Call → ℕ
failures [] = 0
failures (fails now ∷ cs) = suc (failures cs)
failures (succeeds ∷ cs) = failures cs
failures (allows now ∷ cs) = failures cs

-- A closed breaker with `n` failures counted, that opens at the threshold `t`.
abbrev pub Counts : ℤ → ℕ → CircuitBreaker → Type 0
Counts t n cb = (cb.state ≡ closed) × (cb.failure_count ≡ pos n) × (cb.failure_threshold ≡ t)

pub count_one : (t : ℤ) (n : ℕ) → IsInt64 t → pos n <ℤ t → int64 (pos n +ℤ pos 1) ≡ pos (suc n)
count_one t n r lt =
    count_up (pos n) t (omega arith) (omega arith) r ∙ eq_of_parts _ _ (omega int_laws)

pub step-Counts :
    (t : ℤ) (n : ℕ) (cb : CircuitBreaker) (c : Call)
    → IsInt64 t
    → Counts t n cb
    → pos (n + failures (c ∷ [])) <ℤ t
    → Counts t (n + failures (c ∷ [])) (step cb c)
unfolding step allow record_success record_failure failures
step-Counts t n cb (allows now) r h lt = ground (arith, add-zero n)
step-Counts t n cb succeeds r h lt = ground (arith, add-zero n)
step-Counts t n cb (fails now) r h lt = ground (arith, count_one t n r, h.1)

failures-cons : (c : Call) (cs : List Call) → failures (c ∷ cs) ≡ failures (c ∷ []) + failures cs
unfolding failures
failures-cons (allows now) cs = omega arith
failures-cons succeeds cs = omega arith
failures-cons (fails now) cs = omega arith

run-Counts :
    (t : ℤ) (n : ℕ) (cb : CircuitBreaker) (cs : List Call)
    → IsInt64 t
    → Counts t n cb
    → pos (n + failures cs) <ℤ t
    → Counts t (n + failures cs) (run cb cs)
unfolding run failures
run-Counts t n cb [] r h lt = rw add-zero h
run-Counts t n cb (c ∷ cs) r h lt =
    let split = failures-cons c cs in
    let first = step-Counts t n cb c r h (omega (arith, split)) in
    let rest = run-Counts t (n + failures (c ∷ [])) (step cb c) cs r first (omega (arith, split)) in
    rw (split, ← add_assoc) rest

run-append : (cb : CircuitBreaker) (cs ds : List Call) → run cb (cs ++ ds) ≡ run (run cb cs) ds
unfolding run
run-append cb [] ds = refl
run-append cb (c ∷ cs) ds = run-append (step cb c) cs ds

abbrev pub threshold : Options → ℤ
threshold o = (new_circuit_breaker o).failure_threshold

new-Counts : (o : Options) → Counts (threshold o) 0 (new_circuit_breaker o)
unfolding new_circuit_breaker
new-Counts o = (refl, refl, refl)

-- The failures add up across successes: as long as a new breaker has seen fewer failures than its
-- threshold, with any successes and requests between them, it is closed and has counted them all.
pub run_new-Counts :
    (o : Options) (cs : List Call)
    → InRange o
    → pos (failures cs) <ℤ threshold o
    → let cb = run (new_circuit_breaker o) cs in
      (cb.state ≡ closed) × (cb.failure_count ≡ pos (failures cs))
run_new-Counts o cs r lt =
    let h =
      run-Counts (threshold o) 0 (new_circuit_breaker o) cs (new-Inv o r).threshold.1 (new-Counts o)
        (omega arith) in
    (h.0, h.1 ∙ ap pos (omega arith))

pub fails_opens :
    (t now : ℤ) (n : ℕ) (cb : CircuitBreaker)
    → IsInt64 t
    → Counts t n cb
    → pos (suc n) ≡ t
    → ((step cb (fails now)).state ≡ open_state) × ((step cb (fails now)).last_failure ≡ now)
unfolding step record_failure
fails_opens t now n cb r h e =
    let high = ap pos_part e in
    let low = ap neg_part e in ground (arith, high, low, count_one t n r)

-- The failure that reaches the threshold opens the breaker, also when successes stand between it
-- and the failures before it.
pub run_new_opens :
    (o : Options) (cs : List Call) (now : ℤ)
    → InRange o
    → pos (suc (failures cs)) ≡ threshold o
    → let cb = run (new_circuit_breaker o) (cs ++ fails now ∷ []) in
      (cb.state ≡ open_state) × (cb.last_failure ≡ now)
unfolding run
run_new_opens o cs now r e =
    let t = threshold o in
    let fits = (new-Inv o r).threshold.1 in
    let cb = new_circuit_breaker o in
    let counts = run-Counts t 0 cb cs fits (new-Counts o) (rw (← e) (omega arith)) in
    rw run-append (fails_opens t now (0 + failures cs) (run cb cs) fits counts (rw zero-add e))

-- While the breaker is open, a request is allowed exactly when the reset timeout has passed since
-- the last failure. (The two clock readings are less than 2^63 nanoseconds apart.)
pub open-allow_iff :
    (cb : CircuitBreaker) (now : ℤ)
    → cb.state ≡ open_state
    → IsInt64 (now -ℤ cb.last_failure)
    → ((allow cb now).1.0 ≡ true) ↔ (cb.last_failure +ℤ cb.reset_timeout ≤ℤ now)
unfolding allow time_sub
open-allow_iff cb now s r =
    ground (arith, -ℤ_parts now cb.last_failure, +ℤ_parts cb.last_failure cb.reset_timeout)

-- A request that an open breaker refuses leaves it unchanged, and the wait that it reports is
-- positive and ends exactly when the reset timeout has passed.
pub open-retry_after :
    (cb : CircuitBreaker) (now d : ℤ)
    → Inv cb
    → cb.state ≡ open_state
    → cb.last_failure ≤ℤ now
    → IsInt64 (now -ℤ cb.last_failure)
    → (allow cb now).1 ≡ (false, d)
    → ((allow cb now).0 ≡ cb) × (pos 0 <ℤ d) × (now +ℤ d ≡ cb.last_failure +ℤ cb.reset_timeout)
unfolding allow time_sub
open-retry_after cb now d h s le r e =
    let since = now -ℤ cb.last_failure in
    let wait = cb.reset_timeout -ℤ since in
    ground (
      arith,
      -ℤ_parts now cb.last_failure,
      +ℤ_parts now d,
      +ℤ_parts cb.last_failure cb.reset_timeout,
      -ℤ_parts cb.reset_timeout since,
      int64-id wait,
      parts_disjoint wait,
      parts_disjoint since,
      eq_of_parts (now +ℤ d) (cb.last_failure +ℤ cb.reset_timeout),
    )
