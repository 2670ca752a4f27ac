-- ===== src/Server/Lookup.antt =====
-- server/gRPCBakery.go: BuyOrder, BuyOrderStream, and BuyBreadStream with fallbackGetSettledOrder.
-- Parameters are what wakes a stream and whether it takes a reply. Texts and times are left out.
pub mod Settled
pub mod Replies
use bakery_go.Common.{
  Bool, true, false, List, [], ◌∷◌, ◌++◌, Option, none, some, map, String, if◌then◌else◌, str_eq,
  not, ◌||◌,
}
use bakery_go.Common.Int.{ℤ, int32}
use bakery_go.Common.Floats.{Floats}
use bakery_go.Data.Types.{Bread, BuyOrder}
use bakery_go.Data.Db.{Db, Result, ok, err}
use bakery_go.Data.Orders.{get_buy_order_by_uuid}
use bakery_go.Data.Orders.Reading.{get_all_buy_orders, get_order_total_cost}
use bakery_go.Proto
use bakery_go.Proto.{BreadResponse, BuyOrderDetails, BuyOrderList}
use bakery_go.Server.Shop.{Reply, replied, fails, unknown, internal, deadline_exceeded, proto_bread}

-- What ends the wait of BuyBreadStream: a value of the waiter's channel, which is nil once the
-- channel is closed, the end of the context, or the time-out.
pub data Wake (F : Type 0) : Type 0 where
  settled : Option (BuyOrder F) → Wake F
  cancelled timed_out : Wake F

module _ {F : Type 0} where
  abbrev pub details_for : BuyOrder F → Proto.Bread F → BuyOrderDetails F
  details_for order bread = record {
    buy_order_id = int32 order.id;
    buy_order_uuid = order.buy_order_uuid;
    bread_id = bread.id;
    quantity = bread.quantity;
    price = bread.price;
    status = bread.status;
  }

  -- The slice is made with its full length and then appended to.
  unfoldable pub details_of_order : BuyOrder F → List (Option (BuyOrderDetails F))
  details_of_order order =
      let breads = map proto_bread order.breads in
      map (λ _. none) breads ++ map (λ b. some (details_for order b)) breads

  abbrev pub order_list : BuyOrder F → F → BuyOrderList F
  order_list order total_cost = record {
    id = int32 order.id;
    customer_id = int32 order.customer_id;
    buy_order_uuid = order.buy_order_uuid;
    total_cost = total_cost;
    buy_order_details = details_of_order order;
  }

  abbrev pub settled_response : BuyOrder F → BreadResponse F
  settled_response order = record {
    breads = [];
    buy_order_id = int32 order.id;
    buy_order_uuid = order.buy_order_uuid;
  }

  abbrev pub if_settled : Result (BuyOrder F) → Option (BuyOrder F)
  if_settled (err e) = none
  if_settled (ok order) =
      if str_eq order.status "Processed" || str_eq order.status "Failed" then some order else none

module _ {F P : Type 0} (fl : Floats F) where
  abbrev pub with_cost : BuyOrder F → Result F × Db F P → Reply (BuyOrderList F) × Db F P
  with_cost order (err e, d) = (fails internal, d)
  with_cost order (ok total_cost, d) = (replied (order_list order total_cost), d)

  unfoldable pub reply_for : BuyOrder F → Db F P → Reply (BuyOrderList F) × Db F P
  unfolding get_order_total_cost details_of_order
  reply_for order d = with_cost order (get_order_total_cost fl order.id d)

  abbrev pub after_order : Result (BuyOrder F) × Db F P → Reply (BuyOrderList F) × Db F P
  after_order (err e, d) = (fails internal, d)
  after_order (ok order, d) = reply_for order d

  unfoldable pub buy_order : String → Db F P → Reply (BuyOrderList F) × Db F P
  unfolding get_buy_order_by_uuid reply_for
  buy_order uuid d = after_order (get_buy_order_by_uuid fl uuid d)

  unfoldable pub fallback_get_settled_order : String → Db F P → Option (BuyOrder F) × Db F P
  unfolding get_buy_order_by_uuid
  fallback_get_settled_order uuid d =
      let (r, d') = get_buy_order_by_uuid fl uuid d in (if_settled r, d')

-- The replies that a stream has taken, how the call ends, and the database.
abbrev pub Streamed : Type 0 → Type 0 → Type 0
Streamed F P = List (BuyOrderList F) × Reply (Unit {0}) × Db F P

module _ {F P : Type 0} where
  abbrev pub sent_first : BuyOrderList F → Streamed F P → Streamed F P
  sent_first r (sent, end, d) = (r ∷ sent, end, d)

  abbrev pub as_list : Result (BuyOrder F) × Db F P → Result (List (BuyOrder F)) × Db F P
  as_list (err e, d) = (err e, d)
  as_list (ok o, d) = (ok (o ∷ []), d)

module _ {F P : Type 0} (fl : Floats F) (send_works : BuyOrderList F → Bool) where
  abbrev pub after_reply : Reply (BuyOrderList F) × Db F P → (Db F P → Streamed F P) → Streamed F P
  after_reply (fails c, d) rest = ([], fails c, d)
  after_reply (replied r, d) rest =
      if send_works r then sent_first r (rest d) else ([], fails internal, d)

  unfoldable pub stream_each : List (BuyOrder F) → Db F P → Streamed F P
  unfolding reply_for
  stream_each [] d = ([], replied tt, d)
  stream_each (o ∷ os') d = after_reply (reply_for fl o d) (stream_each os')

  abbrev pub stream_orders : Result (List (BuyOrder F)) × Db F P → Streamed F P
  stream_orders (err e, d) = ([], fails internal, d)
  stream_orders (ok orders, d) = stream_each orders d

  unfoldable pub buy_order_stream : String → Db F P → Streamed F P
  unfolding get_buy_order_by_uuid get_all_buy_orders stream_each
  buy_order_stream uuid d =
      if not (str_eq uuid "")
      then stream_orders (as_list (get_buy_order_by_uuid fl uuid d))
      else stream_orders (get_all_buy_orders fl d)

module _ {F P : Type 0} (fl : Floats F) (send_works : BreadResponse F → Bool) where
  abbrev pub send_settled : BuyOrder F → Result F × Db F P → Reply (BreadResponse F) × Db F P
  send_settled order (err e, d) = (fails internal, d)
  send_settled order (ok total_cost, d) =
      if send_works (settled_response order)
      then (replied (settled_response order), d)
      else (fails unknown, d)

  unfoldable pub finish : BuyOrder F → Db F P → Reply (BreadResponse F) × Db F P
  unfolding get_order_total_cost
  finish order d = send_settled order (get_order_total_cost fl order.id d)

  abbrev pub after_fallback : Option (BuyOrder F) × Db F P → Reply (BreadResponse F) × Db F P
  after_fallback (none, d) = (fails deadline_exceeded, d)
  after_fallback (some order, d) = finish order d

  unfoldable pub buy_bread_stream : Wake F → String → Db F P → Reply (BreadResponse F) × Db F P
  unfolding finish fallback_get_settled_order
  buy_bread_stream (settled none) uuid d = (fails internal, d)
  buy_bread_stream (settled (some order)) uuid d = finish order d
  buy_bread_stream cancelled uuid d = (fails deadline_exceeded, d)
  buy_bread_stream timed_out uuid d = after_fallback (fallback_get_settled_order fl uuid d)
