-- ===== src/Tests/Shop.antt =====
-- The shop: its catalogue, what it bakes, sells and replies.
use bakery_go.Common.{◌≡◌, refl, true, false, [], ◌∷◌, Option, none, some}
use bakery_go.Common.Int.{ℤ, pos, ◌+ℤ◌, int64}
use bakery_go.Data.Db.{Db, Result, err, db_error}
use bakery_go.Data.Stock.{quantity_of}
use bakery_go.Data.Baking.{insert_make_order}
use bakery_go.Makers.{MakeBreadMessage, BreadMadeMessage}
use bakery_go.Proto.{BreadRequest}
use bakery_go.Server.Restock.{Kitchen, handle_bread_made}
use bakery_go.Server.Restock.Arriving.{Handled, handle_bread_made-Handled}
use bakery_go.Server.Shop.{Call, Counter, proto_bread, buy_bread}
use bakery_go.Server.Shop.Pricing.{Bought, buy_bread-Bought}
use bakery_go.Server.Lookup.{buy_order}
use bakery_go.Server.Lookup.Replies.{Answers, buy_order-Answers}
use bakery_go.Tests.Stock.{healthy, baguette}
use bakery_go.Tests.Matching.{cents}
use bakery_go.Tests.Orders.{stored_breakfast}

-- The commit of the order fails, and the units that it has added stay.
abbrev failed_make : Result ℤ × Db ℤ ℤ
unfolding insert_make_order
failed_make =
    insert_make_order (pos 1) "m-1" (baguette ∷ [])
      (record healthy { faults = false ∷ false ∷ false ∷ false ∷ false ∷ true ∷ [] })

make_rolled_back : failed_make.0 ≡ err db_error
unfolding insert_make_order int64 ◌+ℤ◌
make_rolled_back = refl

units_stay : quantity_of (pos 1) failed_make.1.tables.breads ≡ some (pos 8)
unfolding insert_make_order int64 ◌+ℤ◌ quantity_of
units_stay = refl

-- A message is its quantity.
abbrev as_order : MakeBreadMessage ℤ → Option ℤ
as_order m = some m.quantity

abbrev kitchen : Kitchen ℤ ℤ ℤ
kitchen = record { db = healthy; orders = []; links = true ∷ false ∷ [] }

abbrev made_of : BreadMadeMessage → Option BreadMadeMessage
made_of c = some c

abbrev fifty : BreadMadeMessage
fifty = record { bread_id = pos 1; quantity = pos 50 }

handle_bread_made-Handled_example :
    Handled (pos 2) (some fifty) healthy.tables (handle_bread_made made_of fifty healthy)
handle_bread_made-Handled_example = handle_bread_made-Handled made_of (pos 2) fifty healthy refl

abbrev pub request : BreadRequest ℤ
request = record { breads = proto_bread baguette ∷ []; buy_order_uuid = "b-2"; preferences = none }

abbrev call : Call ℤ
call = record {
  new_uuid = "new";
  context_customer = pos 0;
  connected = true;
  is_cancelled = false;
  publish_works = λ _. true;
}

abbrev counter : Counter ℤ ℤ ℤ
counter = record { db = healthy; order_sequence = pos 41; queue = [] }

buy_bread-Bought_example :
    Bought cents
      (λ o. some o.sequence_number)
      call
      request
      counter
      (buy_bread cents (λ o. some o.sequence_number) call request counter)
buy_bread-Bought_example = buy_bread-Bought cents (λ o. some o.sequence_number) call request counter

buy_order-Answers_example :
    Answers cents "b-1" stored_breakfast.tables (buy_order cents "b-1" stored_breakfast)
buy_order-Answers_example = buy_order-Answers cents "b-1" stored_breakfast
