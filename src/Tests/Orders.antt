-- ===== src/Tests/Orders.antt =====
-- Orders that are stored, read and served.
use mathlib.Core.List.Perm
use bakery_go.Common.{◌≡◌, refl, false, [], ◌∷◌, map}
use bakery_go.Common.Int.{ℤ, pos}
use bakery_go.Common.Sorting.{insertion_sorter}
use bakery_go.Data.Types.{Bread}
use bakery_go.Data.Db.{Db}
use bakery_go.Data.Db.Hoare.{Holds}
use bakery_go.Data.Stock.{quantity_of}
use bakery_go.Data.Stock.Rows.{map_option}
use bakery_go.Data.Stock.Statements.{Same}
use bakery_go.Data.Orders.{detail_row}
use bakery_go.Data.Orders.Fulfilling.{by_id, fulfill_order_tx}
use bakery_go.Data.Orders.Fulfilling.Leaving.{left_after}
use bakery_go.Data.Orders.Fulfilling.Rows.{fulfill_order_tx-Row}
use bakery_go.Data.Orders.Reading.{poll_settled}
use bakery_go.Data.Orders.Reading.Polling.{poll_settled-never}
use bakery_go.Data.Orders.{valid_status}
use bakery_go.Tests.Stock.{tables, healthy}
use bakery_go.Tests.Matching.{cents}
use bakery_go.Tests.Service.{breakfast, row, with_breakfast}

abbrev pub stored_breakfast : Db ℤ ℤ
stored_breakfast = record healthy {
  tables = record tables {
    orders = row ∷ [];
    details = map (detail_row (λ price. price) (pos 1)) breakfast.breads;
  };
  next_order = pos 2;
}

poll_settled-never_example : (poll_settled cents "b-1" with_breakfast).0 ≡ false
unfolding valid_status
poll_settled-never_example = poll_settled-never cents "b-1" with_breakfast (refl, tt)

fulfill_order_tx-Row_example :
    Holds
      (λ _ t.
        quantity_of (pos 1) t.breads
        ≡ map_option
            (left_after (pos 1) ((insertion_sorter (Bread ℤ)).sort by_id breakfast.breads))
            (quantity_of (pos 1) stored_breakfast.tables.breads))
      (Same stored_breakfast.tables)
      (fulfill_order_tx (insertion_sorter (Bread ℤ)) breakfast stored_breakfast)
fulfill_order_tx-Row_example =
    fulfill_order_tx-Row (pos 1) (insertion_sorter (Bread ℤ)) breakfast stored_breakfast
