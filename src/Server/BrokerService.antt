-- ===== src/Server/BrokerService.antt =====
-- server/broker_service.go: the handlers that the broker calls. An error of a handler is the gRPC
-- status Internal, which carries the text of the error that it wraps; here it is that error.
pub mod Ordering
pub mod Reserving
pub mod Settling
use bakery_go.Common.{List, [], ◌∷◌, Option, none, some, true, false, map, length, String}
use bakery_go.Common.Int.{ℤ, pos, int32}
use bakery_go.Common.Floats.{Floats}
use bakery_go.Data.Types.{Bread, BuyOrder}
use bakery_go.Data.Db.{Tables, Db, Result, ok, err, M, pure, ◌>>=◌, ◌>>◌, exec, transaction}
use bakery_go.Data.Stock.{fulfill_order_item}
use bakery_go.Data.Orders.{insert_buy_order, get_buy_order_by_uuid, update_order_status}
use bakery_go.Data.Outbox.{insert_payload}
use bakery_go.Proto.{
  ReserveInventoryRequest, ReserveInventoryResult, MatchingItemResult, MatchingBatchResult,
  BuyOrderItem, BrokerOrderResult, BatchConfirmation,
}
use bakery_go.Proto

-- The payload of a settlement, before it is marshalled.
pub record OutboxItem : Type 0 where
  pub bread_id : ℤ
  pub quantity_requested : ℤ
  pub quantity_fulfilled : ℤ
  pub status : String

pub record OutboxResult (F : Type 0) : Type 0 where
  pub order_uuid : String
  pub order_status : String
  pub items : List OutboxItem
  pub total_cost : F

-- json.Marshal, which refuses NaN and infinities, and the bytes of a text.
pub record Json (F P : Type 0) : Type 0 where
  pub marshal : OutboxResult F → Option P
  pub bytes : String → P

abbrev outbox_item : MatchingItemResult → OutboxItem
outbox_item i = record {
  bread_id = i.bread_id;
  quantity_requested = i.quantity_requested;
  quantity_fulfilled = i.quantity_fulfilled;
  status = i.status;
}

abbrev pub duplicate : BrokerOrderResult
duplicate = record { accepted = false; order_id = pos 0; message = "duplicate" }

abbrev pub accepted_as : ℤ → BrokerOrderResult
accepted_as id = record { accepted = true; order_id = int32 id; message = "accepted" }

abbrev pub reserve_result : Result ℤ → ReserveInventoryResult
reserve_result (err e) = record {
  reserved = false;
  quantity_fulfilled = pos 0;
  message = "insufficient_stock";
}
reserve_result (ok fulfilled) = record {
  reserved = true;
  quantity_fulfilled = int32 fulfilled;
  message = "reserved";
}

module _ {F : Type 0} where
  unfoldable pub proto_to_data_buy_order : Proto.BuyOrder F → BuyOrder F
  proto_to_data_buy_order p = record {
    id = pos 0;
    customer_id = p.customer_id;
    buy_order_uuid = p.buy_order_uuid;
    breads = [];
    status = "processing";
    sequence_number = p.sequence_number;
    bid_price = p.bid_price;
    allow_partial = p.allow_partial;
    skip_unavailable_items = p.skip_unavailable_items;
    matched_items = [];
  }

  abbrev pub ordered_bread : BuyOrderItem F → Bread F
  ordered_bread item = record {
    id = item.bread_id;
    name = "";
    price = item.bid_price;
    quantity = item.quantity_requested;
    image = "";
    description = "";
    kind = "";
    status = "";
  }

  unfoldable pub proto_to_data_breads : List (BuyOrderItem F) → List (Bread F)
  proto_to_data_breads = map ordered_bread

module _ {F P : Type 0} where
  abbrev or_marker : Json F P → Option P → P
  or_marker json none = json.bytes "{\"error\":\"marshal_failed\"}"
  or_marker json (some p) = p

  unfoldable pub matching_result_to_payload : Json F P → MatchingBatchResult F → P
  matching_result_to_payload json r = or_marker json (
      json.marshal (record {
        order_uuid = r.buy_order_uuid;
        order_status = r.order_status;
        items = map outbox_item r.items;
        total_cost = r.total_cost;
      }))

  -- Any error of the look-up counts as a UUID that is not there.
  abbrev pub unless_known :
      Proto.BuyOrder F → Result (BuyOrder F) × Db F P → Result BrokerOrderResult × Db F P
  unless_known req (ok o, d) = (ok duplicate, d)
  unless_known req (err e, d) =
      (do
        id ← insert_buy_order (proto_to_data_buy_order req) (proto_to_data_breads req.items)
        pure (accepted_as id))
        d

  unfoldable pub report_order : Floats F → Proto.BuyOrder F → M (Db F P) BrokerOrderResult
  unfolding get_buy_order_by_uuid insert_buy_order proto_to_data_buy_order proto_to_data_breads
  report_order fl req d = unless_known req (get_buy_order_by_uuid fl req.buy_order_uuid d)

  abbrev pub as_reply : Result ℤ × Db F P → Result ReserveInventoryResult × Db F P
  as_reply (r, d) = (ok (reserve_result r), d)

  unfoldable pub reserve_inventory : ReserveInventoryRequest → M (Db F P) ReserveInventoryResult
  unfolding fulfill_order_item
  reserve_inventory req d = as_reply (fulfill_order_item req.bread_id req.quantity_requested d)

  -- `now` is the time at which the transaction began.
  unfoldable pub persist_results :
      Json F P → ℤ → List (MatchingBatchResult F) → M (Db F P) (Unit {0})
  unfolding update_order_status insert_payload matching_result_to_payload
  persist_results json now [] = pure tt
  persist_results json now (r ∷ rs) = do
    update_order_status r.buy_order_uuid r.order_status
    insert_payload now (matching_result_to_payload json r)
    persist_results json now rs

  abbrev pub persist_all :
      Json F P → ℤ → List (MatchingBatchResult F) → M (Db F P) BatchConfirmation
  persist_all json now results = do
    persist_results json now results
    pure (record {
      accepted = true;
      orders_processed = int32 (pos (length results));
      message = "accepted";
    })

  unfoldable pub report_matching_results :
      Json F P → ℤ → List (MatchingBatchResult F) → M (Db F P) BatchConfirmation
  unfolding transaction persist_results
  report_matching_results json now results = transaction (persist_all json now results)
