-- ===== src/Broker/Orders.antt =====
-- broker/main.go: the intake of orders (processOneOrder), the buffer of broker/matching.go, and the
-- loop that hands the buffer to the matching engine (matchLoop). The buffer's lock makes its
-- methods atomic, so that goroutines are a sequence of events.
pub mod Intake
use bakery_go.Common.{
  ℕ, Bool, true, false, List, [], ◌∷◌, ◌++◌, Option, none, some, map, if◌then◌else◌, leb, length,
}
use bakery_go.Common.Int.{ℤ, pos, leb_ℤ, int32}
use bakery_go.Data.Types.{Bread, BuyOrder}
use bakery_go.Proto
use bakery_go.Proto.{BuyOrderItem, BrokerOrderResult}

-- What becomes of a delivery: Ack, or Nack with a requeue.
pub data Verdict : Type 0 where
  ack nack : Verdict

module _ {F : Type 0} where
  abbrev pub pending_item : Bread F → BuyOrderItem F
  pending_item b = record {
    bread_id = int32 b.id;
    quantity_requested = int32 b.quantity;
    bid_price = b.price;
    status = "pending";
  }

  unfoldable pub data_to_proto_buy_order : BuyOrder F → Proto.BuyOrder F
  data_to_proto_buy_order order = record {
    id = int32 order.id;
    customer_id = int32 order.customer_id;
    buy_order_uuid = order.buy_order_uuid;
    status = order.status;
    sequence_number = order.sequence_number;
    bid_price = order.bid_price;
    allow_partial = order.allow_partial;
    skip_unavailable_items = order.skip_unavailable_items;
    items = map pending_item order.breads;
  }

  -- An order without an id takes the server's.
  abbrev pub with_id : BuyOrder F → BrokerOrderResult → BuyOrder F
  with_id order r =
      if leb_ℤ (int32 order.id) (pos 0) then record order { id = r.order_id } else order

  abbrev pub buffer_add : BuyOrder F → List (BuyOrder F) → List (BuyOrder F)
  buffer_add o orders = orders ++ o ∷ []

  -- `drain`: what is taken, and what is left.
  abbrev pub buffer_drain : List (BuyOrder F) → List (BuyOrder F) × List (BuyOrder F)
  buffer_drain orders = (orders, [])

  module _ {W : Type 0} where
    abbrev pub after_report :
        BuyOrder F
        → List (BuyOrder F)
        → Option BrokerOrderResult × W
        → Verdict × (List (BuyOrder F) × W)
    after_report order buffer (none, w) = (nack, (buffer, w))
    after_report order buffer (some r, w) =
        (ack, (if r.accepted then buffer_add (with_id order r) buffer else buffer, w))

  module _ {B W : Type 0} (unmarshal : B → Option (BuyOrder F))
      (report : Proto.BuyOrder F → W → Option BrokerOrderResult × W) where
    abbrev pub process_parsed :
        Option (BuyOrder F) → List (BuyOrder F) → W → Verdict × (List (BuyOrder F) × W)
    process_parsed none buffer w = (ack, (buffer, w))
    process_parsed (some order) buffer w =
        after_report order buffer (report (data_to_proto_buy_order order) w)

    unfoldable pub process_one_order : B → List (BuyOrder F) → W → Verdict × (List (BuyOrder F) × W)
    unfolding data_to_proto_buy_order
    process_one_order body buffer w = process_parsed (unmarshal body) buffer w

abbrev pub match_batch_size : ℕ
match_batch_size = 100

-- What happens at the buffer: an order is added, the ticker of `matchLoop` fires, or its default
-- case runs.
pub data Event (F : Type 0) : Type 0 where
  added : BuyOrder F → Event F
  ticked : Event F
  polled : Event F

module _ {F : Type 0} where
  -- The batch that an event hands to the matching engine (none is empty there), and the buffer.
  unfoldable pub match_step : Event F → List (BuyOrder F) → List (BuyOrder F) × List (BuyOrder F)
  match_step (added o) buffer = ([], buffer_add o buffer)
  match_step ticked buffer = buffer_drain buffer
  match_step polled buffer =
      if leb match_batch_size (length buffer) then buffer_drain buffer else ([], buffer)

  unfoldable pub match_run :
      List (Event F) → List (BuyOrder F) → List (List (BuyOrder F)) × List (BuyOrder F)
  unfolding match_step
  match_run [] buffer = ([], buffer)
  match_run (e ∷ es) buffer =
      let (batch, rest) = match_step e buffer in
      let (batches, left) = match_run es rest in (batch ∷ batches, left)
