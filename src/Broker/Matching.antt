-- ===== src/Broker/Matching.antt =====
-- The matching engine of broker/matching.go. `W` is the state of the world that its calls change:
-- `reserve` is the client's ReserveInventory, whose answer is `none` after an error, and `publish`
-- stands for the marshalling and publishing of a result, whose errors are logged only.
pub mod Outcomes
pub mod Status
pub mod Items
pub mod Priority
use bakery_go.Common.{
  ℕ, Bool, true, false, List, [], ◌∷◌, ◌++◌, map, Option, none, some, String, if◌then◌else◌, ◌||◌,
  ◌&&◌, not,
}
use bakery_go.Common.Int.{ℤ, pos, ◌+ℤ◌, ltb_ℤ, leb_ℤ, eqb_ℤ, int32, int64}
use bakery_go.Common.Floats.{Floats}
use bakery_go.Common.Sorting.{Sorter}
use bakery_go.Data.Types.{Bread, OrderItem, BuyOrder}
use bakery_go.Proto.{
  ReserveInventoryRequest, ReserveInventoryResult, MatchingItemResult, MatchingBatchResult,
}

pub record PublishResult (F : Type 0) : Type 0 where
  pub order : BuyOrder F
  pub items : List (OrderItem F)
  pub total_cost : F

-- What the loop of `fulfillOrder` has gathered.
pub record Progress (F : Type 0) : Type 0 where
  pub items : List MatchingItemResult
  pub total_quantity_fulfilled : ℤ
  pub total_cost : F
  pub has_rejected : Bool

module _ {F : Type 0} where
  abbrev pub item : Bread F → ℤ → String → MatchingItemResult
  item bread fulfilled status = record {
    bread_id = int32 bread.id;
    quantity_requested = int32 bread.quantity;
    quantity_fulfilled = fulfilled;
    status = status;
  }

  unfoldable pub total_quantity_requested : ℤ → List (Bread F) → ℤ
  total_quantity_requested acc [] = acc
  total_quantity_requested acc (b ∷ bs) = total_quantity_requested (int64 (acc +ℤ b.quantity)) bs

module _ {F : Type 0} where
  abbrev pub append_item : Progress F → MatchingItemResult → Progress F
  append_item acc i = record acc { items = acc.items ++ i ∷ [] }

  -- A bread that was not reserved: skipped if the order tolerates that, rejected otherwise.
  abbrev pub refuse : BuyOrder F → Bread F → Progress F → Progress F
  refuse order bread acc =
      if order.allow_partial || order.skip_unavailable_items
      then append_item acc (item bread (pos 0) "skipped")
      else append_item (record acc { has_rejected = true }) (item bread (pos 0) "rejected")

-- The order-level status.
unfoldable pub order_status : Bool → Bool → ℤ → ℤ → String
order_status has_rejected allow_partial fulfilled requested =
    if has_rejected && not allow_partial
    then "rejected"
    else if eqb_ℤ fulfilled requested && ltb_ℤ (pos 0) requested
    then "processed"
    else if ltb_ℤ (pos 0) fulfilled
    then "partially_processed"
    else "failed"

module _ {F W : Type 0} where
  -- `report` is the client's ReportMatchingResults, whose error is logged only.
  abbrev pub report_all :
      (List (MatchingBatchResult F) → W → W) → List (MatchingBatchResult F) × W → W
  report_all report ([], w) = w
  report_all report (r ∷ rs, w) = report (r ∷ rs) w

module _ {F : Type 0} (fl : Floats F) where
  unfoldable pub best_item_bid : F → List (OrderItem F) → F
  best_item_bid bid [] = bid
  best_item_bid bid (i ∷ is) = best_item_bid (if fl.lt bid i.bid_price then i.bid_price else bid) is

  unfoldable pub max_bid_price : BuyOrder F → F
  unfolding best_item_bid
  max_bid_price o =
      if fl.lt fl.zero o.bid_price then o.bid_price else best_item_bid o.bid_price o.matched_items

  -- The `less` of the sort: the higher bid first, then the earlier sequence number.
  unfoldable pub less : BuyOrder F → BuyOrder F → Bool
  unfolding max_bid_price
  less a b =
      let bid_a = max_bid_price a in
      let bid_b = max_bid_price b in
      if not (fl.eq bid_a bid_b)
      then fl.lt bid_b bid_a
      else ltb_ℤ a.sequence_number b.sequence_number

  unfoldable pub matching_items_to_data_order_items : List MatchingItemResult → List (OrderItem F)
  matching_items_to_data_order_items = map (λ i. record {
    bread_id = i.bread_id;
    quantity_requested = i.quantity_requested;
    quantity_fulfilled = i.quantity_fulfilled;
    bid_price = fl.zero;
    status = i.status;
  })

  abbrev pub accept : Bread F → ℤ → Progress F → Progress F
  accept bread fulfilled acc = record {
    items = acc.items ++ item bread fulfilled "fulfilled" ∷ [];
    total_quantity_fulfilled = int64 (acc.total_quantity_fulfilled +ℤ fulfilled);
    total_cost = fl.add acc.total_cost (fl.mul (fl.of_int fulfilled) bread.price);
    has_rejected = acc.has_rejected;
  }

  abbrev pub no_progress : Progress F
  no_progress = record {
    items = [];
    total_quantity_fulfilled = pos 0;
    total_cost = fl.zero;
    has_rejected = false;
  }

  abbrev pub result_of : BuyOrder F → Progress F → MatchingBatchResult F
  result_of order p = record {
    buy_order_uuid = order.buy_order_uuid;
    order_status =
        order_status p.has_rejected order.allow_partial p.total_quantity_fulfilled
          (total_quantity_requested (pos 0) order.breads);
    items = p.items;
    total_cost = p.total_cost;
  }

  module _ {W : Type 0} where
    abbrev pub after_reserve :
        BuyOrder F → Bread F → Progress F → Option ReserveInventoryResult × W → Progress F × W
    after_reserve order bread acc (none, w) = (refuse order bread acc, w)
    after_reserve order bread acc (some r, w) =
        (if r.reserved then accept bread r.quantity_fulfilled acc else refuse order bread acc, w)

  module _ {W : Type 0}
      (reserve : ReserveInventoryRequest → W → Option ReserveInventoryResult × W) where
    unfoldable pub fulfill_bread : BuyOrder F → Bread F → Progress F → W → Progress F × W
    fulfill_bread order bread acc w =
        if leb_ℤ bread.quantity (pos 0)
        then (append_item acc (item bread (pos 0) "skipped"), w)
        else after_reserve order bread acc (
            reserve
              (record {
                bread_id = int32 bread.id;
                quantity_requested = int32 bread.quantity;
                buy_order_uuid = order.buy_order_uuid;
              })
              w)

    unfoldable pub fulfill_breads : BuyOrder F → List (Bread F) → Progress F → W → Progress F × W
    unfolding fulfill_bread
    fulfill_breads order [] acc w = (acc, w)
    fulfill_breads order (b ∷ bs) acc w =
        let (acc', w') = fulfill_bread order b acc w in fulfill_breads order bs acc' w'

    module _ (publish : PublishResult F → W → W) where
      unfoldable pub fulfill_order : BuyOrder F → W → MatchingBatchResult F × W
      unfolding fulfill_breads order_status total_quantity_requested
          matching_items_to_data_order_items
      fulfill_order order w =
          let (p, w') = fulfill_breads order order.breads no_progress w in
          (
            result_of order p,
            publish
                (record {
                  order = order;
                  items = matching_items_to_data_order_items p.items;
                  total_cost = p.total_cost;
                })
                w',
          )

      unfoldable pub fulfill_orders : List (BuyOrder F) → W → List (MatchingBatchResult F) × W
      unfolding fulfill_order
      fulfill_orders [] w = ([], w)
      fulfill_orders (o ∷ os) w =
          let (r, w') = fulfill_order o w in let (rs, w'') = fulfill_orders os w' in (r ∷ rs, w'')

      unfoldable pub process_matching_batch :
          Sorter (BuyOrder F) → (List (MatchingBatchResult F) → W → W) → List (BuyOrder F) → W → W
      unfolding fulfill_orders less
      process_matching_batch sorter report [] w = w
      process_matching_batch sorter report (o ∷ os) w =
          report_all report (fulfill_orders (sorter.sort less (o ∷ os)) w)
