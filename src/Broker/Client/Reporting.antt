-- ===== src/Broker/Client/Reporting.antt =====
-- The broker's intake over the client's ReportOrder, whose requests and answers may be lost.
use bakery_go.Common.{◌≡◌, refl, List, [], ◌∷◌, ◌++◌, Option, none, some, ◌⊎◌, inl, inr, sym, subst}
use bakery_go.Common.Int.{ℤ}
use bakery_go.Common.Floats.{Floats}
use bakery_go.Resilience.Breaker.{CircuitBreaker}
use bakery_go.Data.Types.{BuyOrder}
use bakery_go.Data.Db
use bakery_go.Data.Db.{OrderRow, Tables, Db, ok, err}
use bakery_go.Proto.{BrokerOrderResult}
use bakery_go.Server.BrokerService.{accepted_as, duplicate}
use bakery_go.Broker.Orders.{
  Verdict, ack, nack, data_to_proto_buy_order, with_id, after_report, process_one_order,
}
use bakery_go.Broker.Client.{Network}
use bakery_go.Broker.Client.Retried.{Stored, reported}
use bakery_go.Broker.Client.Replies.{StoredAs, AtMostOnce, Tells-Stored, Replies, reported-Replies}

module _ {F P : Type 0} where
  -- What becomes of a delivered order, by the client's answer. `t` are the tables before.
  abbrev pub Settled :
      BuyOrder F
      → List (BuyOrder F)
      → Tables F P
      → Option BrokerOrderResult
      → Verdict × (List (BuyOrder F) × Db F P)
      → Type 0
  Settled order buffer t none (v, (b, d)) =
      (v ≡ nack) × (b ≡ buffer) × AtMostOnce (data_to_proto_buy_order order) t d.tables
  Settled order buffer t (some r) (v, (b, d)) =
      (v ≡ ack)
      × Stored order.buy_order_uuid d.tables
      × (((r ≡ duplicate)
            × (b ≡ buffer)
            × (((d.tables ≡ t) × Stored order.buy_order_uuid t)
                ⊎ ((id : ℤ) × StoredAs (data_to_proto_buy_order order) t id d.tables)))
          ⊎ ((id : ℤ) × (r ≡ accepted_as id)
              × (b ≡ buffer ++ with_id order r ∷ [])
              × StoredAs (data_to_proto_buy_order order) t id d.tables))

  after_report-Settled :
      (fl : Floats F) (net : Network Db.Error) (order : BuyOrder F) (buffer : List (BuyOrder F))
      (t : Tables F P) (x : Option BrokerOrderResult × Db F P)
      → Replies (data_to_proto_buy_order order) fl net t x
      → Settled order buffer t x.0 (after_report order buffer x)
  unfolding data_to_proto_buy_order
  after_report-Settled fl net order buffer t (none, d) a = (refl, refl, a)
  after_report-Settled fl net order buffer t (some r, d) (inl dup) =
      let req = data_to_proto_buy_order order in
      let settled = λ (q : BrokerOrderResult).
        Settled order buffer t (some q) (after_report order buffer (some q, d)) in
      subst settled (sym dup.0)
        (refl, Tells-Stored req t d.tables r (inl dup), inl (refl, refl, dup.1))
  after_report-Settled fl net order buffer t (some r, d) (inr new) =
      let req = data_to_proto_buy_order order in
      let settled = λ (q : BrokerOrderResult).
        Settled order buffer t (some q) (after_report order buffer (some q, d)) in
      subst settled (sym new.1)
        (refl, Tells-Stored req t d.tables r (inr new), inr (new.0, refl, refl, new.2))

  -- A delivery that holds an order, over any network and any state of the breaker, by the answer
  -- that the client gets in the end. If it is that the order was accepted, the delivery is
  -- acknowledged, the order is stored with its details, which it was not before, and it stands at
  -- the end of the buffer. If it is that the order is a duplicate, the delivery is acknowledged
  -- too, the buffer stays as it was, and the order was stored before, or an attempt of this call
  -- has stored it. If there is no answer, the delivery is given back to the queue and the buffer
  -- stays as it was; the order may be stored then. Nothing else is changed.
  pub process_one_order-Settled :
      {B : Type 0} (fl : Floats F) (net : Network Db.Error) (double : ℤ → ℤ) (cb : CircuitBreaker)
      (unmarshal : B → Option (BuyOrder F)) (body : B) (order : BuyOrder F)
      (buffer : List (BuyOrder F)) (d : Db F P)
      → unmarshal body ≡ some order
      → Settled order buffer d.tables
          (reported net double cb fl (data_to_proto_buy_order order) d).0
          (process_one_order unmarshal (reported net double cb fl) body buffer d)
  unfolding process_one_order
  process_one_order-Settled fl net double cb unmarshal body order buffer d parsed = rw parsed (
      after_report-Settled fl net order buffer d.tables
        (reported net double cb fl (data_to_proto_buy_order order) d)
        (reported-Replies (data_to_proto_buy_order order) fl net double cb d))
