-- ===== src/Broker/Client/Retried.antt =====
-- What a retried report does to an order whose first report was stored.
use text.Mathlib.TextPositions.{eq_refl as str_eq_refl}
use bakery_go.Common.{
  ℕ, zero, suc, ◌≡◌, refl, false, List, Option, none, some, ◌⊎◌, inl, inr, ap, ◌∙◌, sym, subst,
  arith, String,
}
use bakery_go.Common.Int.{ℤ}
use bakery_go.Common.Floats.{Floats}
use bakery_go.Resilience.Breaker.{CircuitBreaker}
use bakery_go.Resilience.Retry.{Result, success, breaker_open, cancelled_by, exhausted, retry}
use bakery_go.Data.Types.{BuyOrder}
use bakery_go.Data.Db
use bakery_go.Data.Db.{OrderRow, Tables, Db, ok, err}
use bakery_go.Data.Db.Hoare.{Holds}
use bakery_go.Data.Orders.{order_by_uuid}
use bakery_go.Data.Orders.Keys.{order_by_uuid-append}
use bakery_go.Proto
use bakery_go.Proto.{BrokerOrderResult}
use bakery_go.Server.BrokerService
use bakery_go.Server.BrokerService.{
  accepted_as, duplicate, proto_to_data_buy_order, proto_to_data_breads,
}
use bakery_go.Server.BrokerService.Ordering.{
  Same, Reported, report_order-Reported, report_order_again,
}
use bakery_go.Broker.Orders.{
  Verdict, nack, data_to_proto_buy_order, after_report, process_one_order,
}
use bakery_go.Broker.Client.{
  Network, receive, send, attempt, state_after, reply_of, reply_after, result_of, attempts, call,
  answer, retry_config, report_order,
}

module _ {F P : Type 0} where
  abbrev pub Stored : String → Tables F P → Type 0
  Stored uuid t = (row : OrderRow) × (order_by_uuid uuid t.orders ≡ some row)

  -- A report that was accepted has stored the order.
  accepted-Stored :
      (fl : Floats F) (req : Proto.BuyOrder F) (d d1 : Db F P) (id : ℤ)
      → BrokerService.report_order fl req d ≡ (ok (accepted_as id), d1)
      → Stored req.buy_order_uuid d1.tables
  unfolding proto_to_data_buy_order
  accepted-Stored fl req d d1 id done =
      elim (subst
        (λ (x : Db.Result BrokerOrderResult × Db F P).
          Holds (Reported req d.tables) (Same d.tables) x)
        done (report_order-Reported fl req d)) [
          | inl same ↦ absurd (ground (arith, ap (λ (r : BrokerOrderResult). r.accepted) same.0))
          | inr new ↦
              let uuid = req.buy_order_uuid in
              let row : OrderRow = record {
                id = new.0;
                customer_id = req.customer_id;
                buy_order_uuid = uuid;
                status = "processing";
              } in
              (
                row,
                ap (λ (u : Tables F P). order_by_uuid uuid u.orders) new.2.3
                    ∙ order_by_uuid-append uuid d.tables.orders row new.2.0
                    ∙ rw (str_eq_refl uuid) refl,
              )
        ]

  -- An attempt for a stored order changes no table, and is answered as a duplicate if at all.
  abbrev Again : Tables F P → (BrokerOrderResult ⊎ Db.Error) × Db F P → Type 0
  Again t (inl r, d) = (r ≡ duplicate) × (d.tables ≡ t)
  Again t (inr e, d) = d.tables ≡ t

  answer-Again :
      (t : Tables F P) (x : Db.Result BrokerOrderResult × Db F P)
      → Holds (λ r t'. (r ≡ duplicate) × (t' ≡ t)) (λ t'. t' ≡ t) x
      → Again t (answer x)
  answer-Again t (ok r, d) h = h
  answer-Again t (err e, d) h = h

  receive-Again :
      (net : Network Db.Error) (h : Db F P → (BrokerOrderResult ⊎ Db.Error) × Db F P)
      (t : Tables F P) (lost : Option Db.Error) (x : (BrokerOrderResult ⊎ Db.Error) × Db F P)
      → Again t x
      → Again t (receive net h lost x)
  receive-Again net h t none x a = a
  receive-Again net h t (some e) (inl r, d) a = a.1
  receive-Again net h t (some e) (inr x, d) a = a

  send-Again :
      (net : Network Db.Error) (h : Db F P → (BrokerOrderResult ⊎ Db.Error) × Db F P)
      (lost back : Option Db.Error) (t : Tables F P) (d : Db F P)
      → d.tables ≡ t
      → Again t (h d)
      → Again t (send net h lost back d)
  send-Again net h (some e) back t d same a = same
  send-Again net h none back t d same a = receive-Again net h t back (h d) a

  Again-tables :
      (t : Tables F P) (x : (BrokerOrderResult ⊎ Db.Error) × Db F P) → Again t x → x.1.tables ≡ t
  Again-tables t (inl r, d) a = a.1
  Again-tables t (inr e, d) a = a

  Again-reply :
      (net : Network Db.Error) (h : Db F P → (BrokerOrderResult ⊎ Db.Error) × Db F P)
      (t : Tables F P) (x : (BrokerOrderResult ⊎ Db.Error) × Db F P)
      → Again t x
      → (reply_of net h x.0 ≡ none) ⊎ (reply_of net h x.0 ≡ some duplicate)
  Again-reply net h t (inl r, d) a = inr (ap some a.0)
  Again-reply net h t (inr e, d) a = inl refl

  -- The call of an order whose first report is stored, and whose first reply is lost.
  module _ (fl : Floats F) (req : Proto.BuyOrder F) (net : Network Db.Error) (d d1 : Db F P)
      (id : ℤ) (e : Db.Error)
      (done : BrokerService.report_order fl req d ≡ (ok (accepted_as id), d1))
      (arrives : net.request_lost 0 ≡ none) (lost : net.reply_lost 0 ≡ some e) where
    abbrev server : Db F P → (BrokerOrderResult ⊎ Db.Error) × Db F P
    server d = answer (BrokerService.report_order fl req d)

    attempt-first : attempt net server 0 d ≡ (inr e, d1)
    attempt-first = rw (arrives, lost, done) refl

    attempt-Again : (n : ℕ) → Again d1.tables (attempt net server n (state_after net server n d))
    unfolding state_after
    attempt-Again zero = subst (Again d1.tables) (sym attempt-first) refl
    attempt-Again (suc n) =
        let s = state_after net server (suc n) d in
        let same =
          Again-tables d1.tables (attempt net server n (state_after net server n d))
            (attempt-Again n) in
        let found = accepted-Stored fl req d d1 id done in
        send-Again net server (net.request_lost (suc n)) (net.reply_lost (suc n)) d1.tables s same (
          answer-Again d1.tables (BrokerService.report_order fl req s) (
            subst
              (λ (t : Tables F P).
                Holds (λ r t'. (r ≡ duplicate) × (t' ≡ t)) (λ t'. t' ≡ t)
                  (BrokerService.report_order fl req s))
              same
              (report_order_again fl req found.0 s (
                ap (λ (t : Tables F P). order_by_uuid req.buy_order_uuid t.orders) same
                ∙ found.1))))

    -- What the caller gets, and the server after the attempts.
    abbrev pub Known : Option BrokerOrderResult × Db F P → Type 0
    Known (reply, s) =
        ((reply ≡ none) × (s ≡ d))
        ⊎ (((reply ≡ none) ⊎ (reply ≡ some duplicate)) × (s.tables ≡ d1.tables))

    after-Known :
        (n : ℕ) (result : Result Db.Error)
        → Known
            (result_of net server result (reply_after net server n d), state_after net server n d)
    unfolding state_after
    after-Known zero success = inl (refl, refl)
    after-Known zero (breaker_open w) = inl (refl, refl)
    after-Known zero (cancelled_by e) = inl (refl, refl)
    after-Known zero (exhausted n e) = inl (refl, refl)
    after-Known (suc n) result =
        let x = attempt net server n (state_after net server n d) in
        let again = attempt-Again n in
        inr (
          by_result result (reply_of net server x.0) (Again-reply net server d1.tables x again),
          Again-tables d1.tables x again,
        )
      where
        by_result :
            (result : Result Db.Error) (reply : Option BrokerOrderResult)
            → (reply ≡ none) ⊎ (reply ≡ some duplicate)
            → let r = result_of net server result reply in (r ≡ none) ⊎ (r ≡ some duplicate)
        by_result success reply e = e
        by_result (breaker_open w) reply e = inl refl
        by_result (cancelled_by e') reply e = inl refl
        by_result (exhausted m e') reply e = inl refl

  -- The broker's report, as processOneOrder uses it.
  abbrev pub reported :
      Network Db.Error
      → (ℤ → ℤ)
      → CircuitBreaker
      → Floats F
      → Proto.BuyOrder F
      → Db F P
      → Option BrokerOrderResult × Db F P
  reported net double cb fl req d =
      let (reply, (run, d')) = report_order net double cb fl req d in (reply, d')

  -- The buffer is as it was, and the order is stored, unless the breaker let no attempt pass.
  abbrev pub Forgotten :
      String → List (BuyOrder F) → Db F P → Verdict × (List (BuyOrder F) × Db F P) → Type 0
  Forgotten uuid buffer d (v, (buffer', d')) =
      (buffer' ≡ buffer) × (((v ≡ nack) × (d' ≡ d)) ⊎ Stored uuid d'.tables)

  after_report-Forgotten :
      (order : BuyOrder F) (buffer : List (BuyOrder F)) (uuid : String) (d d1 : Db F P)
      (x : Option BrokerOrderResult × Db F P)
      → Stored uuid d1.tables
      → ((x.0 ≡ none) × (x.1 ≡ d))
        ⊎ (((x.0 ≡ none) ⊎ (x.0 ≡ some duplicate)) × (x.1.tables ≡ d1.tables))
      → Forgotten uuid buffer d (after_report order buffer x)
  after_report-Forgotten order buffer uuid d d1 (none, s) kept h = (
    refl,
    elim h [
      | inl same ↦ inl (refl, same.1)
      | inr known ↦ inr (subst (Stored uuid) (sym known.1) kept)
    ],
  )
  after_report-Forgotten order buffer uuid d d1 (some r, s) kept h = elim h [
    | inl same ↦ absurd (ground (arith, same.0))
    | inr known ↦
        let again : r.accepted ≡ false = elim known.0 [
          | inl nothing ↦ absurd (ground (arith, nothing))
          | inr e ↦ ground (arith, e)
        ] in
        (rw again refl, inr (subst (Stored uuid) (sym known.1) kept))
  ]

  -- processOneOrder over the server's ReportOrder, when the first report of the order reaches the
  -- server, which accepts it, and the answer is lost on the way. Whatever becomes of the further
  -- attempts, the buffer stays as it was, so that the order is not matched, and the server has it
  -- stored; or the breaker let no attempt pass, the delivery is refused, and the server is as it
  -- was.
  pub process_one_order-Forgotten :
      {B : Type 0} (unmarshal : B → Option (BuyOrder F)) (fl : Floats F) (net : Network Db.Error)
      (double : ℤ → ℤ) (cb : CircuitBreaker) (body : B) (order : BuyOrder F)
      (buffer : List (BuyOrder F)) (d d1 : Db F P) (id : ℤ) (e : Db.Error)
      → unmarshal body ≡ some order
      → BrokerService.report_order fl (data_to_proto_buy_order order) d ≡ (ok (accepted_as id), d1)
      → net.request_lost 0 ≡ none
      → net.reply_lost 0 ≡ some e
      → Forgotten order.buy_order_uuid buffer d
          (process_one_order unmarshal (reported net double cb fl) body buffer d)
  unfolding process_one_order data_to_proto_buy_order call
  process_one_order-Forgotten unmarshal fl net double cb body order buffer d d1 id e parsed done
        arrives lost =
      let req = data_to_proto_buy_order order in
      let run =
        retry (retry_config double) (attempts net (server fl req net d d1 id e done arrives lost) d)
          (some cb) in
      rw parsed (
        after_report-Forgotten order buffer order.buy_order_uuid d d1
          (reported net double cb fl req d) (accepted-Stored fl req d d1 id done)
          (after-Known fl req net d d1 id e done arrives lost run.calls run.result))
