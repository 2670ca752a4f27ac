-- ===== src/Tests/Invoices.antt =====
-- Invoices for an order, also when the look-up of an invoice fails.
use bakery_go.Common.{◌≡◌, refl, true, false, [], ◌∷◌, length}
use bakery_go.Common.Int.{ℤ, pos, ◌+ℤ◌, ◌*ℤ◌}
use bakery_go.Data.Types.{Invoice}
use bakery_go.Data.Db.{Db}
use bakery_go.Server.Invoices.{create_invoice}
use bakery_go.Tests.Matching.{cents}
use bakery_go.Tests.Orders.{stored_breakfast}

abbrev billed_once : Invoice ℤ
billed_once = record {
  id = pos 1;
  buy_order_id = pos 1;
  customer_id = pos 8;
  invoice_number = "INV-1";
  subtotal = pos 395;
  tax = pos 395;
  total = pos 790;
  status = "pending";
  created_at = pos 7;
  items = [];
}

abbrev billed_db : Db ℤ ℤ
billed_db = record stored_breakfast {
  tables = record stored_breakfast.tables { invoices = billed_once ∷ [] };
  next_invoice = pos 2;
}

-- The look-up of the invoice fails, and the order gets a second one.
billed_twice :
    length
      (create_invoice cents
        (λ a. a)
        (pos 1)
        (pos 9)
        "INV-2"
        (pos 1)
        (record billed_db { faults = false ∷ false ∷ true ∷ [] })).1.tables.invoices
    ≡ 2
unfolding create_invoice ◌+ℤ◌ ◌*ℤ◌
billed_twice = refl
