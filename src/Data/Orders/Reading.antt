-- ===== src/Data/Orders/Reading.antt =====
-- The queries on buy orders in data/models.go: GetAllBuyOrders, GetCustomerOrders,
-- GetOrderTotalCost, and the poll of WaitForOrderNotification. ORDER BY is a parameter, and `F`
-- also stands for the numbers that SUM adds.
pub mod Found
pub mod RoundTrip
pub mod Polling
use bakery_go.Common.{
  Bool, true, false, List, [], ◌∷◌, Option, none, some, String, if◌then◌else◌, ◌||◌, str_eq,
}
use bakery_go.Common.Int.{ℤ, eqb_ℤ, ltb_ℤ}
use bakery_go.Common.Floats.{Floats}
use bakery_go.Common.Sorting.{Sorter}
use bakery_go.Data.Types.{BuyOrder}
use bakery_go.Data.Db.{OrderRow, DetailRow, Tables, Db, Result, ok, err, M, pure, ◌>>=◌, exec}
use bakery_go.Data.Orders.{details_in, order_by_id, is_some, read_order, get_buy_order_by_uuid}

-- WHERE customer_id = $1
unfoldable pub orders_of : ℤ → List OrderRow → List OrderRow
orders_of c [] = []
orders_of c (o ∷ os') =
    let rest = orders_of c os' in if eqb_ℤ o.customer_id c then o ∷ rest else rest

abbrev pub id_desc : OrderRow → OrderRow → Bool
id_desc a b = ltb_ℤ b.id a.id

module _ {F : Type 0} (fl : Floats F) where
  -- sum(od.price * od.quantity)
  unfoldable pub sum_details : List (DetailRow F) → F
  sum_details [] = fl.zero
  sum_details (r ∷ rs) = fl.add (fl.mul r.price (fl.of_int r.quantity)) (sum_details rs)

module _ {F : Type 0} where
  abbrev pub consed : Option (BuyOrder F) → List (BuyOrder F) → List (BuyOrder F)
  consed none l = l
  consed (some o) l = o ∷ l

  abbrev pub reported_settled : Result (BuyOrder F) → Bool
  reported_settled (err e) = false
  reported_settled (ok o) = str_eq o.status "Processed" || str_eq o.status "Failed"

module _ {F P : Type 0} (fl : Floats F) where
  unfoldable pub query_details : ℤ → M (Db F P) (List (DetailRow F))
  unfolding exec
  query_details id = exec (λ t. ok (details_in id t, t))

  unfoldable pub read_all : List OrderRow → M (Db F P) (List (BuyOrder F))
  unfolding query_details
  read_all [] = pure []
  read_all (o ∷ os') = do
    rows ← query_details o.id
    rest ← read_all os'
    pure (read_order fl o rows ∷ rest)

  unfoldable pub get_all_buy_orders : M (Db F P) (List (BuyOrder F))
  unfolding exec read_all
  get_all_buy_orders = do rows ← exec (λ t. ok (t.orders, t)); read_all rows

  -- An order whose details cannot be read is left out.
  abbrev pub or_skip :
      OrderRow → Result (List (DetailRow F)) × Db F P → Result (Option (BuyOrder F)) × Db F P
  or_skip o (ok rows, d) = (ok (some (read_order fl o rows)), d)
  or_skip o (err e, d) = (ok none, d)

  unfoldable pub read_each : List OrderRow → M (Db F P) (List (BuyOrder F))
  unfolding query_details
  read_each [] = pure []
  read_each (o ∷ os') = do
    first ← λ d. or_skip o (query_details o.id d)
    rest ← read_each os'
    pure (consed first rest)

  unfoldable pub get_customer_orders : Sorter OrderRow → ℤ → M (Db F P) (List (BuyOrder F))
  unfolding exec orders_of read_each
  get_customer_orders order_by customer_id = do
    rows ← exec (λ t. ok (order_by.sort id_desc (orders_of customer_id t.orders), t))
    read_each rows

  -- The sum over the join with buy_order.
  abbrev pub total_cost : ℤ → Tables F P → F
  total_cost id t =
      if is_some (order_by_id id t.orders) then sum_details fl (details_in id t) else fl.zero

  unfoldable pub get_order_total_cost : ℤ → M (Db F P) F
  unfolding exec sum_details order_by_id
  get_order_total_cost order_id = exec (λ t. ok (total_cost order_id t, t))

  -- One tick of `WaitForOrderNotification`: whether the poll ends the wait.
  unfoldable pub poll_settled : String → Db F P → Bool × Db F P
  unfolding get_buy_order_by_uuid
  poll_settled uuid d = let (r, d') = get_buy_order_by_uuid fl uuid d in (reported_settled r, d')
