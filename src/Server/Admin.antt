-- ===== src/Server/Admin.antt =====
-- server/gRPCAdmin.go: the catalogue (GetAllBread, GetLowStockAlerts, GetBreadById, CreateBread,
-- UpdateBread, DeleteBread), and UpdateOrderStatus with generateInvoiceForOrder. Parameters are the
-- rate of the tax, the new invoice number, the time, ORDER BY, and the rounding of the columns.
-- Dates are left out.
pub mod Catalogue
pub mod Status
pub mod Billing
use bakery_go.Common.{Bool, true, false, List, map, String, if◌then◌else◌, str_eq}
use bakery_go.Common.Int.{ℤ, pos, ltb_ℤ, int32}
use bakery_go.Common.Floats.{Floats}
use bakery_go.Common.Sorting.{Sorter}
use bakery_go.Data.Types.{Bread, BuyOrder, Invoice}
use bakery_go.Data.Db.{Db, Result, ok, err}
use bakery_go.Data.Breads
use bakery_go.Data.Orders
use bakery_go.Data.Orders.{get_buy_order_by_uuid}
use bakery_go.Data.Orders.Reading.{get_order_total_cost}
use bakery_go.Data.Invoices.{insert_invoice, get_invoice_by_order_id}
use bakery_go.Proto
use bakery_go.Proto.{CreateBreadRequest, UpdateBreadRequest, BuyOrderSummary}
use bakery_go.Server.Shop.{Code, Reply, replied, fails, not_found, internal, proto_bread}
use bakery_go.Server.Invoices.{item_for}

module _ {F : Type 0} where
  abbrev pub created_bread : CreateBreadRequest F → Bread F
  created_bread req = record {
    id = pos 0;
    name = req.name;
    price = req.price;
    quantity = req.quantity;
    image = req.image;
    description = req.description;
    kind = req.kind;
    status = "available";
  }

  abbrev pub updated_bread : UpdateBreadRequest F → Bread F
  updated_bread req = record {
    id = req.id;
    name = req.name;
    price = req.price;
    quantity = req.quantity;
    image = req.image;
    description = req.description;
    kind = req.kind;
    status = "";
  }

  abbrev pub summary : BuyOrder F → F → BuyOrderSummary F
  summary order total_cost = record {
    id = int32 order.id;
    customer_id = int32 order.customer_id;
    buy_order_uuid = order.buy_order_uuid;
    total_cost = total_cost;
    status = order.status;
  }

module _ {F P : Type 0} where
  abbrev pub bread_list : Result (List (Bread F)) × Db F P → Reply (List (Proto.Bread F)) × Db F P
  bread_list (err e, d) = (fails internal, d)
  bread_list (ok bs, d) = (replied (map proto_bread bs), d)

  unfoldable pub get_all_bread : Db F P → Reply (List (Proto.Bread F)) × Db F P
  unfolding Breads.get_available_bread
  get_all_bread d = bread_list (Breads.get_available_bread d)

  unfoldable pub get_low_stock_alerts :
      Sorter (Bread F) → Db F P → Reply (List (Proto.Bread F)) × Db F P
  unfolding Breads.get_low_stock_bread
  get_low_stock_alerts order_by d = bread_list (Breads.get_low_stock_bread order_by (pos 10) d)

  abbrev pub one_bread : Code → Result (Bread F) × Db F P → Reply (Proto.Bread F) × Db F P
  one_bread c (err e, d) = (fails c, d)
  one_bread c (ok b, d) = (replied (proto_bread b), d)

  unfoldable pub get_bread_by_id : ℤ → Db F P → Reply (Proto.Bread F) × Db F P
  unfolding Breads.get_bread_by_id
  get_bread_by_id id d = one_bread not_found (Breads.get_bread_by_id id d)

  abbrev pub with_new_id : Bread F → Result ℤ × Db F P → Reply (Proto.Bread F) × Db F P
  with_new_id bread (err e, d) = (fails internal, d)
  with_new_id bread (ok id, d) = (replied (proto_bread (record bread { id = id })), d)

  unfoldable pub create_bread : CreateBreadRequest F → Db F P → Reply (Proto.Bread F) × Db F P
  unfolding Breads.insert_bread
  create_bread req d = with_new_id (created_bread req) (Breads.insert_bread (created_bread req) d)

  abbrev pub then_read : ℤ → Result (Unit {0}) × Db F P → Reply (Proto.Bread F) × Db F P
  then_read id (err e, d) = (fails internal, d)
  then_read id (ok x, d) = one_bread internal (Breads.get_bread_by_id id d)

  unfoldable pub update_bread : UpdateBreadRequest F → Db F P → Reply (Proto.Bread F) × Db F P
  unfolding Breads.update_bread Breads.get_bread_by_id
  update_bread req d = then_read req.id (Breads.update_bread (updated_bread req) d)

  abbrev pub emptied : Result (Unit {0}) × Db F P → Reply (Unit {0}) × Db F P
  emptied (err e, d) = (fails internal, d)
  emptied (ok x, d) = (replied tt, d)

  unfoldable pub delete_bread : ℤ → Db F P → Reply (Unit {0}) × Db F P
  unfolding Breads.delete_bread
  delete_bread id d = emptied (Breads.delete_bread id d)

module _ {F : Type 0} (fl : Floats F) (tax_rate : F) (number : String) where
  unfoldable pub paid_invoice : BuyOrder F → F → Invoice F
  paid_invoice order subtotal =
      let tax = fl.mul subtotal tax_rate in
      record {
        id = pos 0;
        buy_order_id = order.id;
        customer_id = order.customer_id;
        invoice_number = number;
        subtotal = subtotal;
        tax = tax;
        total = fl.add subtotal tax;
        status = "paid";
        created_at = pos 0;
        items = map (item_for fl) order.breads;
      }

module _ {F P : Type 0} (fl : Floats F) (to_numeric : F → F) (tax_rate : F) (now : ℤ)
    (number : String) where
  abbrev pub done : Result ℤ × Db F P → Result (Unit {0}) × Db F P
  done (err e, d) = (err e, d)
  done (ok id, d) = (ok tt, d)

  unfoldable pub insert_paid : BuyOrder F → F → Db F P → Result (Unit {0}) × Db F P
  unfolding paid_invoice insert_invoice
  insert_paid order subtotal d =
      done (insert_invoice to_numeric now (paid_invoice fl tax_rate number order subtotal) d)

  abbrev pub unless_billed :
      BuyOrder F → F → Result (Invoice F) × Db F P → Result (Unit {0}) × Db F P
  unless_billed order subtotal (err e, d) = insert_paid order subtotal d
  unless_billed order subtotal (ok existing, d) =
      if ltb_ℤ (pos 0) existing.id then (ok tt, d) else insert_paid order subtotal d

  unfoldable pub generate_invoice_for_order : BuyOrder F → F → Db F P → Result (Unit {0}) × Db F P
  unfolding get_invoice_by_order_id insert_paid
  generate_invoice_for_order order subtotal d =
      unless_billed order subtotal (get_invoice_by_order_id order.id d)

  -- An order that is completed is billed; what comes of it is only logged.
  abbrev pub bill_if_completed : String → BuyOrder F → F → Db F P → Db F P
  bill_if_completed status order total_cost d =
      if str_eq status "completed" then (generate_invoice_for_order order total_cost d).1 else d

  -- An error of the total is logged, and the total is then 0.
  abbrev pub answer_order :
      String → BuyOrder F → Result F × Db F P → Reply (BuyOrderSummary F) × Db F P
  answer_order status order (ok total_cost, d) =
      (replied (summary order total_cost), bill_if_completed status order total_cost d)
  answer_order status order (err e, d) =
      (replied (summary order fl.zero), bill_if_completed status order fl.zero d)

  abbrev pub with_order : String → Result (BuyOrder F) × Db F P → Reply (BuyOrderSummary F) × Db F P
  with_order status (err e, d) = (fails internal, d)
  with_order status (ok order, d) = answer_order status order (get_order_total_cost fl order.id d)

  abbrev pub after_update :
      String → String → Result (Unit {0}) × Db F P → Reply (BuyOrderSummary F) × Db F P
  after_update uuid status (err e, d) = (fails internal, d)
  after_update uuid status (ok x, d) = with_order status (get_buy_order_by_uuid fl uuid d)

  unfoldable pub update_order_status : String → String → Db F P → Reply (BuyOrderSummary F) × Db F P
  unfolding Orders.update_order_status get_buy_order_by_uuid get_order_total_cost
      generate_invoice_for_order
  update_order_status uuid status d =
      after_update uuid status (Orders.update_order_status uuid status d)
