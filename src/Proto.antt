-- ===== src/Proto.antt =====
-- The messages of proto/bread.proto between broker and server. An int32 field is an integer in that
-- range, and a double is of the type `F`. `created_at` is left out.
use bakery_go.Common.{Bool, List, Option, String}
use bakery_go.Common.Int.{ℤ}

pub record ReserveInventoryRequest : Type 0 where
  pub bread_id : ℤ
  pub quantity_requested : ℤ
  pub buy_order_uuid : String

pub record ReserveInventoryResult : Type 0 where
  pub reserved : Bool
  pub quantity_fulfilled : ℤ
  pub message : String

pub record MatchingItemResult : Type 0 where
  pub bread_id : ℤ
  pub quantity_requested : ℤ
  pub quantity_fulfilled : ℤ
  pub status : String

pub record MatchingBatchResult (F : Type 0) : Type 0 where
  pub buy_order_uuid : String
  pub order_status : String
  pub items : List MatchingItemResult
  pub total_cost : F

pub record BuyOrderItem (F : Type 0) : Type 0 where
  pub bread_id : ℤ
  pub quantity_requested : ℤ
  pub bid_price : F
  pub status : String

pub record BuyOrder (F : Type 0) : Type 0 where
  pub id : ℤ
  pub customer_id : ℤ
  pub buy_order_uuid : String
  pub status : String
  pub sequence_number : ℤ
  pub bid_price : F
  pub allow_partial : Bool
  pub skip_unavailable_items : Bool
  pub items : List (BuyOrderItem F)

pub record BrokerOrderResult : Type 0 where
  pub accepted : Bool
  pub order_id : ℤ
  pub message : String

pub record BatchConfirmation : Type 0 where
  pub accepted : Bool
  pub orders_processed : ℤ
  pub message : String

pub record Bread (F : Type 0) : Type 0 where
  pub id : ℤ
  pub name : String
  pub price : F
  pub quantity : ℤ
  pub description : String
  pub kind : String  -- `type`
  pub status : String
  pub image : String

pub record BuyOrderPreferences (F : Type 0) : Type 0 where
  pub bid_price : F
  pub allow_partial : Bool
  pub skip_unavailable_items : Bool

pub record BreadRequest (F : Type 0) : Type 0 where
  pub breads : List (Bread F)
  pub buy_order_uuid : String
  pub preferences : Option (BuyOrderPreferences F)

-- Without its texts.
pub record BreadResponse (F : Type 0) : Type 0 where
  pub breads : List (Bread F)
  pub buy_order_id : ℤ
  pub buy_order_uuid : String

pub record BuyOrderDetails (F : Type 0) : Type 0 where
  pub buy_order_id : ℤ
  pub buy_order_uuid : String
  pub bread_id : ℤ
  pub quantity : ℤ
  pub price : F
  pub status : String

-- A reply about an order: the fields of its BuyOrder that are set, and the elements of
-- buyOrderDetails, which are pointers.
pub record BuyOrderList (F : Type 0) : Type 0 where
  pub id : ℤ
  pub customer_id : ℤ
  pub buy_order_uuid : String
  pub total_cost : F
  pub buy_order_details : List (Option (BuyOrderDetails F))

pub record InvoiceItem (F : Type 0) : Type 0 where
  pub id : ℤ
  pub invoice_id : ℤ
  pub bread_id : ℤ
  pub bread_name : String
  pub quantity : ℤ
  pub unit_price : F
  pub total : F

-- Without its dates.
pub record Invoice (F : Type 0) : Type 0 where
  pub id : ℤ
  pub buy_order_id : ℤ
  pub customer_id : ℤ
  pub invoice_number : String
  pub subtotal : F
  pub tax : F
  pub total : F
  pub status : String
  pub items : List (InvoiceItem F)

-- A BuyOrderDetailsResponse: the set fields of its order, and its details.
pub record BuyOrderDetailsResponse (F : Type 0) : Type 0 where
  pub id : ℤ
  pub customer_id : ℤ
  pub buy_order_uuid : String
  pub details : List (BuyOrderDetails F)
  pub total_cost : F

pub record CreateBreadRequest (F : Type 0) : Type 0 where
  pub name : String
  pub price : F
  pub quantity : ℤ
  pub description : String
  pub kind : String  -- `type`
  pub image : String

pub record UpdateBreadRequest (F : Type 0) : Type 0 where
  pub id : ℤ
  pub name : String
  pub price : F
  pub quantity : ℤ
  pub description : String
  pub kind : String  -- `type`
  pub image : String

-- The fields of a BuyOrder that a list or a change of status fills in. GetMyOrders leaves the status
-- empty.
pub record BuyOrderSummary (F : Type 0) : Type 0 where
  pub id : ℤ
  pub customer_id : ℤ
  pub buy_order_uuid : String
  pub total_cost : F
  pub status : String

pub record DashboardStats (F : Type 0) : Type 0 where
  pub total_orders : ℤ
  pub total_revenue : F
  pub total_products : ℤ
  pub total_customers : ℤ
  pub total_bread_makers : ℤ
  pub low_stock_count : ℤ

-- Without its times.
pub record Customer : Type 0 where
  pub id : ℤ
  pub name : String
  pub email : String

pub record CustomerOrdersResponse (F : Type 0) : Type 0 where
  pub customer : Customer
  pub orders : List (BuyOrderSummary F)

-- Without its times. GetAllMakeOrders and GetMakerOrders fill in a bread's id, name, price, quantity,
-- description, type and image.
pub record MakeOrderProto (F : Type 0) : Type 0 where
  pub id : ℤ
  pub bread_maker_id : ℤ
  pub make_order_uuid : String
  pub breads : List (Bread F)
