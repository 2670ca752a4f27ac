-- ===== src/Tests/Stock.antt =====
-- A bakery with two breads, and statements that may fail.
use bakery_go.Common.{◌≡◌, refl, true, false, [], ◌∷◌, some, arith, ◌≢◌}
use bakery_go.Common.Int.{ℤ, pos, negsuc, ◌+ℤ◌, ◌-ℤ◌, int64}
use bakery_go.Data.Types.{Bread}
use bakery_go.Data.Db.{Tables, Db, ok, err, insufficient_stock}
use bakery_go.Data.Db.Hoare.{Holds}
use bakery_go.Data.Stock.{quantity_of, fulfill_order_item, adjust_from, adjust_bread_quantity}
use bakery_go.Data.Stock.Statements.{Same}
use bakery_go.Data.Stock.Items.{AsTaken, fulfill_order_item-AsTaken}
use bakery_go.Data.Stock.Adjust.{adjust_from_lost_update}

-- Prices in cents.
abbrev pub baguette : Bread ℤ
baguette = record {
  id = pos 1;
  name = "Baguette";
  price = pos 149;
  quantity = pos 4;
  image = "";
  description = "";
  kind = "French Bread";
  status = "available";
}

abbrev brioche : Bread ℤ
brioche = record {
  id = pos 2;
  name = "Brioche";
  price = pos 159;
  quantity = pos 0;
  image = "";
  description = "";
  kind = "Sweet Bread";
  status = "available";
}

abbrev pub tables : Tables ℤ ℤ
tables = record {
  customers = pos 8 ∷ [];
  breads = baguette ∷ brioche ∷ [];
  orders = [];
  details = [];
  outbox = [];
  makers = pos 1 ∷ [];
  make_orders = [];
  make_details = [];
  pending = [];
  invoices = [];
  invoice_items = [];
  numeric = λ price. price;
  scanned = λ rows. rows;
}

abbrev pub healthy : Db ℤ ℤ
healthy = record {
  tables = tables;
  next_order = pos 1;
  next_outbox = pos 1;
  next_bread = pos 3;
  next_maker = pos 2;
  next_make = pos 1;
  next_pending = pos 1;
  next_invoice = pos 1;
  next_item = pos 1;
  faults = [];
}

-- The commit of the first transaction fails.
abbrev pub flaky : Db ℤ ℤ
flaky = record healthy { faults = false ∷ false ∷ false ∷ true ∷ [] }

fulfill_order_item-AsTaken_example :
    Holds (AsTaken (pos 1) (pos 6) tables) (Same tables) (fulfill_order_item (pos 1) (pos 6) flaky)
fulfill_order_item-AsTaken_example = fulfill_order_item-AsTaken (pos 1) (pos 6) flaky

commit_fails : (fulfill_order_item (pos 1) (pos 6) flaky).1.tables ≡ tables
unfolding fulfill_order_item ◌-ℤ◌
commit_fails = refl

-- The row is cut off at 100, and the answer is false.
cut_off : (adjust_bread_quantity (pos 1) (pos 99) healthy).0 ≡ ok false
unfolding adjust_bread_quantity ◌+ℤ◌ int64
cut_off = refl

too_little : (adjust_bread_quantity (pos 1) (negsuc 4) healthy).0 ≡ err insufficient_stock
unfolding adjust_bread_quantity ◌+ℤ◌ int64
too_little = refl

-- Read at 7, written when the row holds 4.
adjust_from_lost_update_example :
    Holds
      (λ _ t.
        (quantity_of (pos 1) t.breads ≡ some (pos 7 +ℤ pos 50))
        × (pos 7 +ℤ pos 50 ≢ pos 4 +ℤ pos 50))
      (Same tables)
      (adjust_from (pos 1) (pos 50) (pos 7) healthy)
unfolding ◌+ℤ◌ quantity_of
adjust_from_lost_update_example =
    adjust_from_lost_update (pos 1) (pos 50) (pos 4) (pos 7) healthy refl (λ e. cc) (omega arith)
      (omega arith) (omega arith)
