-- ===== src/Broker/Client.antt =====
-- The broker's client of the server in broker/main.go (ReportOrder, ReserveInventory,
-- ReportMatchingResults of brokerClient): each call goes through Retry with the circuit breaker of
-- its method. What the network does in each attempt is a parameter: the request may be lost, and so
-- may the reply, after the server has handled the request.
pub mod Retried
pub mod Replies
pub mod Reporting
pub mod Reserving
use bakery_go.Common.{ℕ, zero, suc, List, Option, none, some, ◌⊎◌, inl, inr}
use bakery_go.Common.Int.{ℤ, pos}
use bakery_go.Common.Floats.{Floats}
use bakery_go.Resilience.Breaker.{CircuitBreaker, Options, new_circuit_breaker}
use bakery_go.Resilience.Retry.{
  RetryConfig, Attempt, Run, Result, success, breaker_open, cancelled_by, exhausted, retry,
}
use bakery_go.Data.Db
use bakery_go.Data.Db.{Db, ok, err}
use bakery_go.Proto
use bakery_go.Proto.{
  BrokerOrderResult, ReserveInventoryRequest, ReserveInventoryResult, MatchingBatchResult,
  BatchConfirmation,
}
use bakery_go.Server.BrokerService
use bakery_go.Server.BrokerService.{Json}

-- What the network and the clock do in the attempts of one call.
pub record Network (E : Type 0) : Type 0 where
  pub request_lost : ℕ → Option E
  pub reply_lost : ℕ → Option E
  pub allow_at : ℕ → ℤ
  pub failed_at : ℕ → ℤ

-- The breakers of the three methods.
pub record Breakers : Type 0 where
  pub report_order : CircuitBreaker
  pub reserve_inventory : CircuitBreaker
  pub report_matching : CircuitBreaker

-- Options{FailureThreshold, ResetTimeout}, the timeout in nanoseconds.
abbrev options : ℤ → ℤ → Options
options threshold timeout = record { failure_threshold = threshold; reset_timeout = timeout }

abbrev pub new_broker_client : Breakers
new_broker_client = record {
  report_order = new_circuit_breaker (options (pos 5) (pos 30_000_000_000));
  reserve_inventory = new_circuit_breaker (options (pos 5) (pos 30_000_000_000));
  report_matching = new_circuit_breaker (options (pos 3) (pos 60_000_000_000));
}

-- `double d` stands for `time.Duration(float64(d) * 2.0)`.
abbrev pub retry_config : (ℤ → ℤ) → RetryConfig
retry_config double = record {
  max_retries = pos 3;
  base_delay = pos 100_000_000;
  max_delay = pos 2_000_000_000;
  scale = double;
}

module _ {A E D : Type 0} (net : Network E) (handler : D → (A ⊎ E) × D) where
  abbrev pub receive : Option E → (A ⊎ E) × D → (A ⊎ E) × D
  receive none x = x
  receive (some e) (r, d) = (inr e, d)

  abbrev pub send : Option E → Option E → D → (A ⊎ E) × D
  send (some e) lost d = (inr e, d)
  send none lost d = receive lost (handler d)

  -- One attempt: its answer, and the server's state after it.
  abbrev pub attempt : ℕ → D → (A ⊎ E) × D
  attempt n d = send (net.request_lost n) (net.reply_lost n) d

  -- The server's state after the first `n` attempts.
  unfoldable pub state_after : ℕ → D → D
  state_after zero d = d
  state_after (suc n) d = (attempt n (state_after n d)).1

  abbrev pub error_of : A ⊎ E → Option E
  error_of (inl a) = none
  error_of (inr e) = some e

  abbrev pub reply_of : A ⊎ E → Option A
  reply_of (inl a) = some a
  reply_of (inr e) = none

  -- The context is context.Background, which nobody cancels.
  abbrev pub attempts : D → ℕ → Attempt E
  attempts d n = record {
    allow_at = net.allow_at n;
    outcome = error_of (attempt n (state_after n d)).0;
    failed_at = net.failed_at n;
    cancelled = none;
  }

  -- The reply of the attempt that ended the loop.
  abbrev pub reply_after : ℕ → D → Option A
  reply_after zero d = none
  reply_after (suc n) d = reply_of (attempt n (state_after n d)).0

  abbrev pub result_of : Result E → Option A → Option A
  result_of success reply = reply
  result_of (breaker_open w) reply = none
  result_of (cancelled_by e) reply = none
  result_of (exhausted n e) reply = none

  -- A call: its result, what Retry did, and the server's state.
  unfoldable pub call : (ℤ → ℤ) → CircuitBreaker → D → Option A × (Run E × D)
  unfolding retry state_after
  call double cb d =
      let run = retry (retry_config double) (attempts d) (some cb) in
      (result_of run.result (reply_after run.calls d), (run, state_after run.calls d))

-- A handler's answer as the client sees it.
module _ {A F P : Type 0} where
  abbrev pub answer : Db.Result A × Db F P → (A ⊎ Db.Error) × Db F P
  answer (ok a, d) = (inl a, d)
  answer (err e, d) = (inr e, d)

module _ {F P : Type 0} (net : Network Db.Error) (double : ℤ → ℤ) (cb : CircuitBreaker) where
  abbrev pub report_order :
      Floats F → Proto.BuyOrder F → Db F P → Option BrokerOrderResult × (Run Db.Error × Db F P)
  report_order fl order = call net (λ d. answer (BrokerService.report_order fl order d)) double cb

  abbrev pub reserve_inventory :
      ReserveInventoryRequest → Db F P → Option ReserveInventoryResult × (Run Db.Error × Db F P)
  reserve_inventory req = call net (λ d. answer (BrokerService.reserve_inventory req d)) double cb

  abbrev pub report_matching_results :
      Json F P
      → ℤ
      → List (MatchingBatchResult F)
      → Db F P
      → Option BatchConfirmation × (Run Db.Error × Db F P)
  report_matching_results json now results =
      call net (λ d. answer (BrokerService.report_matching_results json now results d)) double cb
