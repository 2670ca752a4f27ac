-- ===== src/Server/Invoices.antt =====
-- server/gRPCInvoice.go: CreateInvoice, GetInvoice, GetCustomerInvoices, GetAllInvoices,
-- GetMyInvoices, GetOrderDetails. Parameters are the rate of the tax, the new invoice number, the
-- time, ORDER BY, and the rounding of the columns. Dates are left out of the replies.
pub mod Creating
use bakery_go.Common.{Bool, true, false, List, [], ◌∷◌, String, map, if◌then◌else◌}
use bakery_go.Common.Int.{ℤ, pos, ltb_ℤ, int32}
use bakery_go.Common.Floats.{Floats}
use bakery_go.Common.Sorting.{Sorter}
use bakery_go.Data.Types.{Bread, BuyOrder, Invoice, InvoiceItem}
use bakery_go.Data.Db.{Db, Result, ok, err}
use bakery_go.Data.Orders.{get_buy_order_by_id}
use bakery_go.Data.Orders.Reading.{get_order_total_cost}
use bakery_go.Data.Invoices.{
  insert_invoice, get_invoice_by_order_id, get_invoice_by_id, get_invoices_by_customer_id,
  get_all_invoices,
}
use bakery_go.Proto
use bakery_go.Proto.{BuyOrderDetails, BuyOrderDetailsResponse}
use bakery_go.Server.Shop.{Reply, replied, fails, not_found, internal}

module _ {F : Type 0} where
  abbrev pub item_to_proto : InvoiceItem F → Proto.InvoiceItem F
  item_to_proto i = record {
    id = int32 i.id;
    invoice_id = int32 i.invoice_id;
    bread_id = int32 i.bread_id;
    bread_name = i.bread_name;
    quantity = int32 i.quantity;
    unit_price = i.unit_price;
    total = i.total;
  }

  abbrev pub invoice_to_proto : Invoice F → Proto.Invoice F
  invoice_to_proto i = record {
    id = int32 i.id;
    buy_order_id = int32 i.buy_order_id;
    customer_id = int32 i.customer_id;
    invoice_number = i.invoice_number;
    subtotal = i.subtotal;
    tax = i.tax;
    total = i.total;
    status = i.status;
    items = map item_to_proto i.items;
  }

module _ {F : Type 0} (fl : Floats F) where
  abbrev pub item_total : Bread F → F
  item_total bread = fl.mul bread.price (fl.of_int bread.quantity)

  abbrev pub item_for : Bread F → InvoiceItem F
  item_for bread = record {
    id = pos 0;
    invoice_id = pos 0;
    bread_id = bread.id;
    bread_name = bread.name;
    quantity = bread.quantity;
    unit_price = bread.price;
    total = item_total bread;
  }

  unfoldable pub subtotal_from : F → List (Bread F) → F
  subtotal_from subtotal [] = subtotal
  subtotal_from subtotal (b ∷ bs) = subtotal_from (fl.add subtotal (item_total b)) bs

  unfoldable pub new_invoice : F → String → BuyOrder F → Invoice F
  unfolding subtotal_from
  new_invoice tax_rate number order =
      let subtotal = subtotal_from fl.zero order.breads in
      let tax = fl.mul subtotal tax_rate in
      record {
        id = pos 0;
        buy_order_id = order.id;
        customer_id = order.customer_id;
        invoice_number = number;
        subtotal = subtotal;
        tax = tax;
        total = fl.add subtotal tax;
        status = "pending";
        created_at = pos 0;
        items = map item_for order.breads;
      }

module _ {F P : Type 0} (fl : Floats F) (to_numeric : F → F) (tax_rate : F) (now : ℤ)
    (number : String) where
  abbrev pub after_insert : Invoice F → Result ℤ × Db F P → Reply (Proto.Invoice F) × Db F P
  after_insert invoice (err e, d) = (fails internal, d)
  after_insert invoice (ok id, d) = (replied (invoice_to_proto (record invoice { id = id })), d)

  unfoldable pub create : BuyOrder F → Db F P → Reply (Proto.Invoice F) × Db F P
  unfolding new_invoice insert_invoice
  create order d =
      let invoice = new_invoice fl tax_rate number order in
      after_insert invoice (insert_invoice to_numeric now invoice d)

  abbrev pub unless_invoiced :
      BuyOrder F → Result (Invoice F) × Db F P → Reply (Proto.Invoice F) × Db F P
  unless_invoiced order (err e, d) = create order d
  unless_invoiced order (ok existing, d) =
      if ltb_ℤ (pos 0) existing.id then (replied (invoice_to_proto existing), d) else create order d

  abbrev pub invoice_for : ℤ → Result (BuyOrder F) × Db F P → Reply (Proto.Invoice F) × Db F P
  invoice_for order_id (err e, d) = (fails not_found, d)
  invoice_for order_id (ok order, d) = unless_invoiced order (get_invoice_by_order_id order_id d)

  unfoldable pub create_invoice : ℤ → Db F P → Reply (Proto.Invoice F) × Db F P
  unfolding get_buy_order_by_id get_invoice_by_order_id create
  create_invoice order_id d = invoice_for order_id (get_buy_order_by_id fl order_id d)

module _ {F P : Type 0} where
  abbrev pub one_invoice : Result (Invoice F) × Db F P → Reply (Proto.Invoice F) × Db F P
  one_invoice (err e, d) = (fails not_found, d)
  one_invoice (ok i, d) = (replied (invoice_to_proto i), d)

  unfoldable pub get_invoice : ℤ → Db F P → Reply (Proto.Invoice F) × Db F P
  unfolding get_invoice_by_id
  get_invoice id d = one_invoice (get_invoice_by_id id d)

  abbrev pub invoice_list :
      Result (List (Invoice F)) × Db F P → Reply (List (Proto.Invoice F)) × Db F P
  invoice_list (err e, d) = (fails internal, d)
  invoice_list (ok is, d) = (replied (map invoice_to_proto is), d)

  -- Also GetMyInvoices.
  unfoldable pub get_customer_invoices :
      Sorter (Invoice F) → ℤ → Db F P → Reply (List (Proto.Invoice F)) × Db F P
  unfolding get_invoices_by_customer_id
  get_customer_invoices order_by customer_id d =
      invoice_list (get_invoices_by_customer_id order_by customer_id d)

  unfoldable pub list_all_invoices :
      Sorter (Invoice F) → Db F P → Reply (List (Proto.Invoice F)) × Db F P
  unfolding get_all_invoices
  list_all_invoices order_by d = invoice_list (get_all_invoices order_by d)

module _ {F : Type 0} where
  abbrev pub details_response : BuyOrder F → F → BuyOrderDetailsResponse F
  details_response order total_cost = record {
    id = int32 order.id;
    customer_id = int32 order.customer_id;
    buy_order_uuid = order.buy_order_uuid;
    details = map detail order.breads;
    total_cost = total_cost;
  }
    where
      detail : Bread F → BuyOrderDetails F
      detail bread = record {
        buy_order_id = int32 order.id;
        buy_order_uuid = order.buy_order_uuid;
        bread_id = int32 bread.id;
        quantity = int32 bread.quantity;
        price = bread.price;
        status = order.status;
      }

module _ {F P : Type 0} (fl : Floats F) where
  -- An error of the total is dropped, and the total is then 0.
  abbrev pub cost_or_zero :
      BuyOrder F → Result F × Db F P → Reply (BuyOrderDetailsResponse F) × Db F P
  cost_or_zero order (ok total_cost, d) = (replied (details_response order total_cost), d)
  cost_or_zero order (err e, d) = (replied (details_response order fl.zero), d)

  abbrev pub with_details_of :
      Result (BuyOrder F) × Db F P → Reply (BuyOrderDetailsResponse F) × Db F P
  with_details_of (err e, d) = (fails not_found, d)
  with_details_of (ok order, d) = cost_or_zero order (get_order_total_cost fl order.id d)

  unfoldable pub get_order_details : ℤ → Db F P → Reply (BuyOrderDetailsResponse F) × Db F P
  unfolding get_buy_order_by_id get_order_total_cost
  get_order_details id d = with_details_of (get_buy_order_by_id fl id d)
