-- ===== src/Tests/Service.antt =====
-- Orders at the server and in the broker, over a shop with two breads and one customer.
use bakery_go.Common.{
  ℕ, zero, suc, Option, none, ◌≡◌, refl, true, false, List, [], ◌∷◌, ◌++◌, some, String,
}
use bakery_go.Common.Int.{ℤ, pos, ◌-ℤ◌, ◌≤ℤ◌}
use bakery_go.Data.Types.{Bread, BuyOrder}
use bakery_go.Data.Db.{OrderRow, Db, ok, db_error}
use bakery_go.Data.Db.Hoare.{Holds}
use bakery_go.Data.Stock.{quantity_of, non_negative}
use bakery_go.Data.Orders.{insert_buy_order}
use bakery_go.Proto
use bakery_go.Proto.{ReserveInventoryRequest, MatchingItemResult, MatchingBatchResult}
use bakery_go.Server.BrokerService.{Json, report_order, report_matching_results}
use bakery_go.Server.BrokerService.Ordering.{Same, Reported, report_order-Reported}
use bakery_go.Server.BrokerService.Settling.{Stored, report_matching_results-Stored}
use bakery_go.Broker.Matching.{fulfill_orders}
use bakery_go.Broker.Client.{Network, new_broker_client}
use bakery_go.Data.Db
use bakery_go.Broker.Stock.{Line, granted_all, reserve_via, publish_at, fulfill_orders_covered}
use bakery_go.Broker.Client.Retried.{reported}
use bakery_go.Broker.Client.Reporting.{Settled, process_one_order-Settled}
use bakery_go.Broker.Orders.{
  data_to_proto_buy_order, process_one_order, added, ticked, polled, match_run,
}
use bakery_go.Broker.Orders.Intake.{arrivals, concat, match_run_keeps}
use bakery_go.Tests.Matching.{cents, loaf}
use bakery_go.Tests.Stock.{tables, healthy, flaky}

abbrev pub order_for : String → List (Bread ℤ) → BuyOrder ℤ
order_for uuid breads = record {
  id = pos 0;
  customer_id = pos 8;
  buy_order_uuid = uuid;
  breads = breads;
  status = "pending";
  sequence_number = pos 1;
  bid_price = pos 80;
  allow_partial = false;
  skip_unavailable_items = false;
  matched_items = [];
}

abbrev pub breakfast : BuyOrder ℤ
breakfast = order_for "b-1" (loaf (pos 1) (pos 3) ∷ loaf (pos 2) (pos 2) ∷ [])

abbrev pub row : OrderRow
row = record { id = pos 1; customer_id = pos 8; buy_order_uuid = "b-1"; status = "processing" }

-- The shop in which the order `breakfast` is stored.
abbrev pub with_breakfast : Db ℤ ℤ
with_breakfast = record healthy { tables = record tables { orders = row ∷ [] } }

insert_gives_an_id : (insert_buy_order breakfast breakfast.breads healthy).0 ≡ ok (pos 1)
unfolding insert_buy_order
insert_gives_an_id = refl

abbrev request : Proto.BuyOrder ℤ
request = record {
  id = pos 0;
  customer_id = pos 8;
  buy_order_uuid = "b-1";
  status = "pending";
  sequence_number = pos 1;
  bid_price = pos 80;
  allow_partial = false;
  skip_unavailable_items = false;
  items = [];
}

report_order-Reported_example :
    Holds (Reported request tables) (Same tables) (report_order cents request flaky)
report_order-Reported_example = report_order-Reported cents request flaky

abbrev three : ReserveInventoryRequest
three = record { bread_id = pos 1; quantity_requested = pos 3; buy_order_uuid = "b-1" }

-- A payload that is the total.
abbrev totals : Json ℤ ℤ
totals = record { marshal = λ r. some r.total_cost; bytes = λ _. pos 0 }

abbrev processed : MatchingBatchResult ℤ
processed = record {
  buy_order_uuid = "b-1";
  order_status = "processed";
  items = [];
  total_cost = pos 395;
}

report_matching_results-Stored_example :
    Holds
      (λ c t. (c.accepted ≡ true) × Stored totals (processed ∷ []) with_breakfast.tables t)
      (λ t. t ≡ with_breakfast.tables)
      (report_matching_results totals (pos 12) (processed ∷ []) with_breakfast)
report_matching_results-Stored_example =
    report_matching_results-Stored totals (pos 12) (processed ∷ []) with_breakfast

-- A status that the constraint refuses takes back what was stored before it.
bad_status :
    (report_matching_results totals
      (pos 12)
      (processed ∷ record processed { order_status = "Processed" } ∷ [])
      with_breakfast).1.tables
    ≡ with_breakfast.tables
unfolding report_matching_results
bad_status = refl

-- The first answer of every call is lost.
abbrev first_only : ℕ → Option Db.Error
first_only zero = some db_error
first_only (suc n) = none

abbrev pub lossy : Network Db.Error
lossy = record {
  request_lost = λ n. none;
  reply_lost = first_only;
  allow_at = λ n. pos n;
  failed_at = λ n. pos n;
}

abbrev nets : ℕ → Network Db.Error
nets n = lossy

abbrev line : Line
line = record { breaker = new_broker_client.reserve_inventory; calls = 0 }

fulfill_orders_covered_example :
    let r =
      fulfill_orders cents
        (reserve_via nets (λ d. d))
        (publish_at nets (λ d. d) (λ _ q. q))
        (breakfast ∷ breakfast ∷ [])
        (healthy, (line, tt)) in
    (gone : ℤ) × (quantity_of (pos 1) r.1.0.tables.breads ≡ some (pos 4 -ℤ gone))
    × (granted_all (pos 1) r.0 ≤ℤ gone)
    × (gone ≤ℤ pos 4)
    × (non_negative r.1.0.tables.breads ≡ true)
unfolding non_negative quantity_of
fulfill_orders_covered_example =
    fulfill_orders_covered nets (λ d. d) cents (λ _ (q : Unit {0}). q) (breakfast ∷ breakfast ∷ [])
      (pos 1) (pos 4) (healthy, (line, tt)) refl refl

match_run_keeps_example :
    let r = match_run (added breakfast ∷ polled ∷ ticked ∷ []) (order_for "b-0" [] ∷ []) in
    concat r.0 ++ r.1 ≡ order_for "b-0" [] ∷ [] ++ arrivals (added breakfast ∷ polled ∷ ticked ∷ [])
match_run_keeps_example =
    match_run_keeps (added breakfast ∷ polled ∷ ticked ∷ []) (order_for "b-0" [] ∷ [])

process_one_order-Settled_example :
    Settled breakfast [] tables
      (reported lossy
        (λ d. d)
        new_broker_client.report_order
        cents
        (data_to_proto_buy_order breakfast)
        healthy).0
      (process_one_order some
        (reported lossy (λ d. d) new_broker_client.report_order cents)
        breakfast
        []
        healthy)
process_one_order-Settled_example =
    process_one_order-Settled cents lossy (λ d. d) new_broker_client.report_order some breakfast
      breakfast [] healthy refl
