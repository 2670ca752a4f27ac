-- ===== src/Data/Types.antt =====
-- The structs of data/models.go that orders and stock are made of. Left out are the fields that no
-- modelled code reads or writes: the time stamps and the customer that an order embeds. `F` stands
-- for float64.
use bakery_go.Common.{Bool, List, String}
use bakery_go.Common.Int.{ℤ}

pub record Bread (F : Type 0) : Type 0 where
  pub id : ℤ
  pub name : String
  pub price : F
  pub quantity : ℤ
  pub image : String
  pub description : String
  pub kind : String  -- `Type`
  pub status : String

pub record OrderItem (F : Type 0) : Type 0 where
  pub bread_id : ℤ
  pub quantity_requested : ℤ
  pub quantity_fulfilled : ℤ
  pub bid_price : F
  pub status : String

pub record BuyOrder (F : Type 0) : Type 0 where
  pub id : ℤ
  pub customer_id : ℤ
  pub buy_order_uuid : String
  pub breads : List (Bread F)
  pub status : String
  pub sequence_number : ℤ
  pub bid_price : F
  pub allow_partial : Bool
  pub skip_unavailable_items : Bool
  pub matched_items : List (OrderItem F)

-- The rows of the tables for baking and for invoices.
pub record MakeOrderRow : Type 0 where
  pub id : ℤ
  pub bread_maker_id : ℤ
  pub make_order_uuid : String

pub record MakeDetailRow : Type 0 where
  pub make_order_id : ℤ
  pub bread_id : ℤ
  pub quantity : ℤ

pub record PendingMakeOrder : Type 0 where
  pub id : ℤ
  pub bread_id : ℤ
  pub requested_quantity : ℤ
  pub status : String
  pub source : String
  pub created_at : ℤ

pub record InvoiceItem (F : Type 0) : Type 0 where
  pub id : ℤ
  pub invoice_id : ℤ
  pub bread_id : ℤ
  pub bread_name : String
  pub quantity : ℤ
  pub unit_price : F
  pub total : F

-- An invoice without the dates on which it is due and paid. The rows of `invoices` hold it without its items.
pub record Invoice (F : Type 0) : Type 0 where
  pub id : ℤ
  pub buy_order_id : ℤ
  pub customer_id : ℤ
  pub invoice_number : String
  pub subtotal : F
  pub tax : F
  pub total : F
  pub status : String
  pub created_at : ℤ
  pub items : List (InvoiceItem F)
