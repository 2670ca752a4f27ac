-- ===== src/Data/Orders/Fulfilling.antt =====
-- `FulfillOrderTx` of data/models.go: a whole order against the stock, in one transaction. sort.Slice
-- is a parameter, and the locks of the rows make the transaction atomic.
pub mod Leaving
pub mod Rows
use bakery_go.Common.{Bool, true, false, List, [], ◌∷◌, String, if◌then◌else◌, ◌||◌, ◌&&◌, not}
use bakery_go.Common.Int.{ℤ, pos, ◌+ℤ◌, ◌-ℤ◌, ltb_ℤ, eqb_ℤ, int64}
use bakery_go.Common.Sorting.{Sorter}
use bakery_go.Data.Types.{Bread, BuyOrder}
use bakery_go.Data.Db.{
  OrderRow, DetailRow, Tables, Db, check_violation, Result, ok, err, M, pure, ◌>>=◌, ◌>>◌, exec,
  transaction,
}
use bakery_go.Data.Stock.{fulfillable, select_quantity, exec_update_quantity}
use bakery_go.Data.Orders.{is_some, order_by_id, valid_status}

-- What the loop has added up.
pub record Totals : Type 0 where
  pub total_requested : ℤ
  pub total_fulfilled : ℤ
  pub has_rejected : Bool

abbrev pub nothing_yet : Totals
nothing_yet = record { total_requested = pos 0; total_fulfilled = pos 0; has_rejected = false }

-- UPDATE buy_order SET status = $1 WHERE id = $2
unfoldable pub set_status_by_id : ℤ → String → List OrderRow → List OrderRow
set_status_by_id id s [] = []
set_status_by_id id s (o ∷ os') =
    let rest = set_status_by_id id s os' in
    if eqb_ℤ o.id id then record o { status = s } ∷ rest else o ∷ rest

unfoldable pub tx_order_status : Bool → Totals → String
tx_order_status allow_partial t =
    if t.has_rejected && not allow_partial
    then "rejected"
    else if eqb_ℤ t.total_fulfilled t.total_requested && ltb_ℤ (pos 0) t.total_requested
    then "processed"
    else if ltb_ℤ (pos 0) t.total_fulfilled
    then "partially_processed"
    else "failed"

module _ {F : Type 0} where
  -- UPDATE order_details SET … WHERE buy_order_id = $1 AND bread_id = $2
  unfoldable pub set_detail :
      ℤ → ℤ → (DetailRow F → DetailRow F) → List (DetailRow F) → List (DetailRow F)
  set_detail id bread f [] = []
  set_detail id bread f (r ∷ rs) =
      let rest = set_detail id bread f rs in
      if eqb_ℤ r.buy_order_id id && eqb_ℤ r.bread_id bread then f r ∷ rest else r ∷ rest

  abbrev pub with_status : String → DetailRow F → DetailRow F
  with_status s r = record r { status = s }

  abbrev pub with_quantity : ℤ → String → DetailRow F → DetailRow F
  with_quantity q s r = record r { quantity = q; status = s }

  abbrev pub by_id : Bread F → Bread F → Bool
  by_id a b = ltb_ℤ a.id b.id

  abbrev pub counted : Bread F → Totals → Totals
  counted bread acc = record acc { total_requested = int64 (acc.total_requested +ℤ bread.quantity) }

module _ {F P : Type 0} where
  unfoldable pub exec_set_detail : ℤ → ℤ → (DetailRow F → DetailRow F) → M (Db F P) (Unit {0})
  unfolding exec set_detail
  exec_set_detail id bread f =
      exec (λ t. ok (tt, record t { details = set_detail id bread f t.details }))

  abbrev pub no_stock : BuyOrder F → Bread F → Totals → M (Db F P) Totals
  no_stock order bread acc =
      if order.skip_unavailable_items || order.allow_partial
      then (do exec_set_detail order.id bread.id (with_status "skipped"); pure acc)
      else (do
        exec_set_detail order.id bread.id (with_status "rejected")
        pure (record acc { has_rejected = true }))

  abbrev pub some_stock : BuyOrder F → Bread F → ℤ → Totals → M (Db F P) Totals
  some_stock order bread fulfill_qty acc = do
    exec_update_quantity bread.id (λ q. q -ℤ fulfill_qty)
    exec_set_detail order.id bread.id (
        with_quantity fulfill_qty
          (if ltb_ℤ fulfill_qty bread.quantity then "partially_fulfilled" else "fulfilled"))
    pure (record acc { total_fulfilled = int64 (acc.total_fulfilled +ℤ fulfill_qty) })

  abbrev pub after_lock : BuyOrder F → Bread F → Totals → ℤ → M (Db F P) Totals
  after_lock order bread acc current_qty =
      if eqb_ℤ current_qty (pos 0)
      then no_stock order bread acc
      else some_stock order bread (fulfillable bread.quantity current_qty) acc

  unfoldable pub fulfill_each : BuyOrder F → List (Bread F) → Totals → M (Db F P) Totals
  unfolding select_quantity exec_update_quantity exec_set_detail
  fulfill_each order [] acc = pure acc
  fulfill_each order (b ∷ bs) acc = do
    current_qty ← select_quantity b.id
    acc' ← after_lock order b (counted b acc) current_qty
    fulfill_each order bs acc'

  unfoldable pub status_by_id_rows : ℤ → String → Tables F P → Result (Unit {0} × Tables F P)
  unfolding valid_status order_by_id set_status_by_id
  status_by_id_rows id s t =
      if is_some (order_by_id id t.orders) && not (valid_status s)
      then err check_violation
      else ok (tt, record t { orders = set_status_by_id id s t.orders })

  abbrev pub fulfill_sorted : BuyOrder F → List (Bread F) → M (Db F P) (Unit {0})
  fulfill_sorted order sorted = do
    totals ← fulfill_each order sorted nothing_yet
    exec (status_by_id_rows order.id (tx_order_status order.allow_partial totals))

  unfoldable pub fulfill_order_tx : Sorter (Bread F) → BuyOrder F → M (Db F P) (Unit {0})
  unfolding transaction fulfill_each exec status_by_id_rows tx_order_status
  fulfill_order_tx sorter order =
      transaction (fulfill_sorted order (sorter.sort by_id order.breads))
