-- ===== src/Broker/Client/Replies.antt =====
-- What an answer of the client's ReportOrder tells, over a network that loses requests and answers.
use text.Mathlib.TextPositions.{eq_refl as str_eq_refl}
use bakery_go.Common.{
  ℕ, zero, suc, ◌≡◌, refl, Option, none, some, ◌⊎◌, inl, inr, ap, ◌∙◌, sym, subst,
}
use bakery_go.Common.Int.{ℤ}
use bakery_go.Common.Floats.{Floats}
use bakery_go.Resilience.Breaker.{CircuitBreaker}
use bakery_go.Resilience.Retry.{Result, success, breaker_open, cancelled_by, exhausted, retry}
use bakery_go.Data.Db
use bakery_go.Data.Db.{OrderRow, Tables, Db, ok, err}
use bakery_go.Data.Db.Hoare.{Holds}
use bakery_go.Data.Orders.{order_by_uuid}
use bakery_go.Data.Orders.Inserting.{Inserted}
use bakery_go.Data.Orders.Keys.{order_by_uuid-append}
use bakery_go.Proto
use bakery_go.Proto.{BrokerOrderResult}
use bakery_go.Server.BrokerService
use bakery_go.Server.BrokerService.{
  accepted_as, duplicate, proto_to_data_buy_order, proto_to_data_breads,
}
use bakery_go.Server.BrokerService.Ordering.{
  Same, Reported, report_order-Reported, report_order_again,
}
use bakery_go.Broker.Client.{
  Network, receive, send, attempt, state_after, reply_of, reply_after, result_of, attempts, call,
  answer, retry_config,
}
use bakery_go.Broker.Client.Retried.{Stored, reported}

module _ {F P : Type 0} (req : Proto.BuyOrder F) where
  -- The order is stored under the id, and was not before.
  abbrev pub StoredAs : Tables F P → ℤ → Tables F P → Type 0
  StoredAs = Inserted (proto_to_data_buy_order req) (proto_to_data_breads req.items)

  -- Nothing has changed, or the order is stored, and nothing else has changed.
  abbrev pub AtMostOnce : Tables F P → Tables F P → Type 0
  AtMostOnce t t' = (t' ≡ t) ⊎ ((id : ℤ) × StoredAs t id t')

  -- What an answer tells of the tables before the first attempt and after the last one.
  abbrev pub Tells : Tables F P → BrokerOrderResult → Tables F P → Type 0
  Tells t r t' =
      ((r ≡ duplicate) × (((t' ≡ t) × Stored req.buy_order_uuid t) ⊎ ((id : ℤ) × StoredAs t id t')))
      ⊎ ((id : ℤ) × (r ≡ accepted_as id) × StoredAs t id t')

  abbrev Answers : Tables F P → (BrokerOrderResult ⊎ Db.Error) × Db F P → Type 0
  Answers t (inl r, d) = Tells t r d.tables
  Answers t (inr e, d) = AtMostOnce t d.tables

  pub StoredAs-Stored :
      (t t' : Tables F P) (id : ℤ) → StoredAs t id t' → Stored req.buy_order_uuid t'
  unfolding proto_to_data_buy_order
  StoredAs-Stored t t' id new =
      let uuid = req.buy_order_uuid in
      let row : OrderRow = record {
        id = id;
        customer_id = req.customer_id;
        buy_order_uuid = uuid;
        status = "processing";
      } in
      (
        row,
        ap (λ (u : Tables F P). order_by_uuid uuid u.orders) new.3
            ∙ order_by_uuid-append uuid t.orders row new.0
            ∙ rw (str_eq_refl uuid) refl,
      )

  pub Tells-Stored :
      (t t' : Tables F P) (r : BrokerOrderResult) → Tells t r t' → Stored req.buy_order_uuid t'
  Tells-Stored t t' r (inl (e, inl (same, known))) =
      subst (Stored req.buy_order_uuid) (sym same) known
  Tells-Stored t t' r (inl (e, inr (id, new))) = StoredAs-Stored t t' id new
  Tells-Stored t t' r (inr (id, e, new)) = StoredAs-Stored t t' id new

  Tells-AtMostOnce : (t t' : Tables F P) (r : BrokerOrderResult) → Tells t r t' → AtMostOnce t t'
  Tells-AtMostOnce t t' r (inl (e, inl (same, known))) = inl same
  Tells-AtMostOnce t t' r (inl (e, inr new)) = inr new
  Tells-AtMostOnce t t' r (inr (id, e, new)) = inr (id, new)

  -- The first report, in effect: none has changed anything yet.
  first-Answers :
      (t : Tables F P) (x : Db.Result BrokerOrderResult × Db F P)
      → Holds (Reported req t) (Same t) x
      → Answers t (answer x)
  first-Answers t (ok r, d) (inl (e, same, known)) = inl (e, inl (same, known))
  first-Answers t (ok r, d) (inr new) = inr new
  first-Answers t (err e, d) same = inl same

  -- A report of an order that an earlier attempt has stored.
  again-Answers :
      (t u : Tables F P) (id : ℤ) (x : Db.Result BrokerOrderResult × Db F P)
      → StoredAs t id u
      → Holds (λ r t'. (r ≡ duplicate) × (t' ≡ u)) (Same u) x
      → Answers t (answer x)
  again-Answers t u id (ok r, d) new h = inl (h.0, inr (id, subst (StoredAs t id) (sym h.1) new))
  again-Answers t u id (err e, d) new same = inr (id, subst (StoredAs t id) (sym same) new)

  module _ (fl : Floats F) (net : Network Db.Error) where
    abbrev server : Db F P → (BrokerOrderResult ⊎ Db.Error) × Db F P
    server d = answer (BrokerService.report_order fl req d)

    server-Answers : (t : Tables F P) (s : Db F P) → AtMostOnce t s.tables → Answers t (server s)
    server-Answers t s (inl same) = first-Answers t (BrokerService.report_order fl req s) (
        subst
          (λ (u : Tables F P).
            Holds (Reported req u) (Same u) (BrokerService.report_order fl req s))
          same (report_order-Reported fl req s))
    server-Answers t s (inr (id, new)) =
        let found = StoredAs-Stored t s.tables id new in
        again-Answers t s.tables id (BrokerService.report_order fl req s) new
          (report_order_again fl req found.0 s found.1)

    receive-Answers :
        (t : Tables F P) (lost : Option Db.Error) (x : (BrokerOrderResult ⊎ Db.Error) × Db F P)
        → Answers t x
        → Answers t (receive net server lost x)
    receive-Answers t none x a = a
    receive-Answers t (some e) (inl r, d) a = Tells-AtMostOnce t d.tables r a
    receive-Answers t (some e) (inr x, d) a = a

    send-Answers :
        (lost back : Option Db.Error) (t : Tables F P) (s : Db F P)
        → AtMostOnce t s.tables
        → Answers t (send net server lost back s)
    send-Answers (some e) back t s before = before
    send-Answers none back t s before =
        receive-Answers t back (server s) (server-Answers t s before)

    Answers-AtMostOnce :
        (t : Tables F P) (x : (BrokerOrderResult ⊎ Db.Error) × Db F P)
        → Answers t x
        → AtMostOnce t x.1.tables
    Answers-AtMostOnce t (inl r, d) a = Tells-AtMostOnce t d.tables r a
    Answers-AtMostOnce t (inr e, d) a = a

    attempt-Answers :
        (n : ℕ) (d : Db F P) → Answers d.tables (attempt net server n (state_after net server n d))
    unfolding state_after
    attempt-Answers zero d =
        send-Answers (net.request_lost 0) (net.reply_lost 0) d.tables d (inl refl)
    attempt-Answers (suc n) d =
        let x = attempt net server n (state_after net server n d) in
        send-Answers (net.request_lost (suc n)) (net.reply_lost (suc n)) d.tables x.1
          (Answers-AtMostOnce d.tables x (attempt-Answers n d))

    -- What the caller is told.
    abbrev pub Replies : Tables F P → Option BrokerOrderResult × Db F P → Type 0
    Replies t (none, d) = AtMostOnce t d.tables
    Replies t (some r, d) = Tells t r d.tables

    reply-Replies :
        (t : Tables F P) (x : (BrokerOrderResult ⊎ Db.Error) × Db F P)
        → Answers t x
        → Replies t (reply_of net server x.0, x.1)
    reply-Replies t (inl r, d) a = a
    reply-Replies t (inr e, d) a = a

    after-Replies :
        (n : ℕ) (d : Db F P) (result : Result Db.Error)
        → Replies d.tables
            (result_of net server result (reply_after net server n d), state_after net server n d)
    unfolding state_after
    after-Replies zero d success = inl refl
    after-Replies zero d (breaker_open w) = inl refl
    after-Replies zero d (cancelled_by e) = inl refl
    after-Replies zero d (exhausted n e) = inl refl
    after-Replies (suc n) d success =
        reply-Replies d.tables (attempt net server n (state_after net server n d))
          (attempt-Answers n d)
    after-Replies (suc n) d (breaker_open w) =
        Answers-AtMostOnce d.tables (attempt net server n (state_after net server n d))
          (attempt-Answers n d)
    after-Replies (suc n) d (cancelled_by e) =
        Answers-AtMostOnce d.tables (attempt net server n (state_after net server n d))
          (attempt-Answers n d)
    after-Replies (suc n) d (exhausted m e) =
        Answers-AtMostOnce d.tables (attempt net server n (state_after net server n d))
          (attempt-Answers n d)

    pub reported-Replies :
        (double : ℤ → ℤ) (cb : CircuitBreaker) (d : Db F P)
        → Replies d.tables (reported net double cb fl req d)
    unfolding call
    reported-Replies double cb d =
        let run = retry (retry_config double) (attempts net server d) (some cb) in
        after-Replies run.calls d run.result
