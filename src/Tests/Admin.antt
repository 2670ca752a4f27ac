-- ===== src/Tests/Admin.antt =====
-- An administrator's calls.
use bakery_go.Common.{[], ◌∷◌, ◌++◌}
use bakery_go.Common.Int.{ℤ, pos}
use bakery_go.Data.Types.{Bread}
use bakery_go.Data.Db.{Db}
use bakery_go.Data.Orders.{order_by_uuid, set_status}
use bakery_go.Proto.{CreateBreadRequest}
use bakery_go.Server.Admin.{created_bread, update_order_status}
use bakery_go.Server.Admin.Status.{Answers, update_order_status-Answers}
use bakery_go.Tests.Stock.{tables, healthy}
use bakery_go.Tests.Matching.{cents}
use bakery_go.Tests.Orders.{stored_breakfast}

update_order_status-Answers_example :
    Answers cents
      (λ a. a)
      (pos 1)
      (pos 7)
      "INV-1"
      "b-1"
      "failed"
      stored_breakfast.tables
      (update_order_status cents (λ a. a) (pos 1) (pos 7) "INV-1" "b-1" "failed" stored_breakfast)
unfolding order_by_uuid set_status
update_order_status-Answers_example =
    update_order_status-Answers cents (λ a. a) (pos 1) (pos 7) "INV-1" "b-1" "failed"
      stored_breakfast

abbrev focaccia : CreateBreadRequest ℤ
focaccia = record {
  name = "Focaccia";
  price = pos 320;
  quantity = pos 12;
  description = "";
  kind = "Italian Bread";
  image = "";
}

abbrev in_the_shop : Bread ℤ
in_the_shop = record (created_bread focaccia) { id = pos 3 }

abbrev with_focaccia : Db ℤ ℤ
with_focaccia = record healthy {
  tables = record tables { breads = tables.breads ++ in_the_shop ∷ [] };
  next_bread = pos 4;
}
