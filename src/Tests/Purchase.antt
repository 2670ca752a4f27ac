-- ===== src/Tests/Purchase.antt =====
-- A purchase from the request to the stored order.
use bakery_go.Common.{◌≡◌, refl, true, false, [], ◌∷◌, ◌++◌, some, sym}
use bakery_go.Common.Int.{ℤ, pos, ◌+ℤ◌, int64, int32}
use bakery_go.Data.Types.{BuyOrder}
use bakery_go.Server.Shop.{Call, Counter, bought, buy_bread, ordered_by, replied}
use bakery_go.Data.Orders.{order_by_uuid}
use bakery_go.Server.Shop.Pricing.{Addressed, AllPriced}
use bakery_go.Broker.Orders.{data_to_proto_buy_order, process_one_order}
use bakery_go.Broker.Client.{new_broker_client}
use bakery_go.Broker.Client.Retried.{reported}
use bakery_go.Broker.Client.Reporting.{Settled}
use mathlib.Core.List.Perm
use bakery_go.Tests.Service.{lossy}
use bakery_go.Broker.Purchase.{Readable, purchase-Delivered}
use bakery_go.Tests.Stock.{healthy, baguette}
use bakery_go.Tests.Matching.{cents}
use bakery_go.Tests.Shop.{request}

-- The bytes of an order are the order.
abbrev call : Call (BuyOrder ℤ)
call = record {
  new_uuid = "new";
  context_customer = pos 8;
  connected = true;
  is_cancelled = false;
  publish_works = λ _. true;
}

abbrev before : Counter ℤ ℤ (BuyOrder ℤ)
before = record { db = healthy; order_sequence = pos 41; queue = [] }

abbrev ordered : BuyOrder ℤ
ordered = ordered_by cents call (pos 42) request (record baguette { status = "Bought" } ∷ [])

abbrev after : Counter ℤ ℤ (BuyOrder ℤ)
after = record { db = healthy; order_sequence = pos 42; queue = ordered ∷ [] }

answered :
    buy_bread cents (λ o. some o) call request before ≡ (replied (bought ordered.breads), after)
unfolding buy_bread int64 int32 ◌+ℤ◌
answered = refl

purchase-Delivered_example :
    (bytes : BuyOrder ℤ) × (order : BuyOrder ℤ) × (after.queue ≡ before.queue ++ bytes ∷ [])
    × Addressed cents call after.order_sequence request order.breads order
    × AllPriced before.db.tables.breads before.db.faults request.breads order.breads
    × (let reply =
          (reported lossy
            (λ d. d)
            new_broker_client.report_order
            cents
            (data_to_proto_buy_order order)
            healthy).0 in
        let o =
          process_one_order
            (λ b. some b)
            (reported lossy (λ d. d) new_broker_client.report_order cents)
            bytes
            []
            healthy in
        Settled order [] healthy.tables reply o
        × Readable cents reply healthy.tables.numeric order o.1.1)
unfolding order_by_uuid
purchase-Delivered_example =
    purchase-Delivered cents lossy (λ d. d) new_broker_client.report_order (λ o. some o)
      (λ b. some b) (λ o b e. sym e) call request before after (bought ordered.breads) [] healthy
      answered (λ rows. Perm.rfl) tt refl
