-- ===== src/Data/Baking.antt =====
-- What is to be baked, in data/models.go: InsertMakeOrder, InsertPendingMakeOrder,
-- ClaimPendingMakeOrders, UpdatePendingMakeOrderStatus. ORDER BY and NOW() are parameters.
pub mod Reading
pub mod Requests
pub mod Storing
use bakery_go.Common.{
  ℕ, zero, suc, Bool, true, false, List, [], ◌∷◌, ◌++◌, String, if◌then◌else◌, ◌||◌, ◌&&◌, not,
  str_eq,
}
use bakery_go.Common.Int.{ℤ, pos, ◌+ℤ◌, eqb_ℤ, ltb_ℤ, leb_ℤ, pos_part}
use bakery_go.Common.Sorting.{Sorter}
use bakery_go.Data.Types.{Bread, MakeOrderRow, MakeDetailRow, PendingMakeOrder}
use bakery_go.Data.Db.{
  Tables, Db, db_error, check_violation, unique_violation, foreign_key_violation, Result, ok, err,
  M, pure, ◌>>=◌, ◌>>◌, exec, statement,
}
use bakery_go.Data.Stock.{adjust_bread_quantity}
use bakery_go.Data.Orders.{has_bread, member}

-- CHECK (status IN …) of pending_make_orders
unfoldable pub valid_pending_status : String → Bool
valid_pending_status s = str_eq s "pending" || (str_eq s "fulfilled" || str_eq s "rejected")

-- CHECK (source IN …)
unfoldable pub valid_source : String → Bool
valid_source s = str_eq s "auto" || str_eq s "admin"

unfoldable pub has_make_order : ℤ → List MakeOrderRow → Bool
has_make_order id [] = false
has_make_order id (o ∷ os') = eqb_ℤ o.id id || has_make_order id os'

unfoldable pub has_make_detail : ℤ → ℤ → List MakeDetailRow → Bool
has_make_detail id bread [] = false
has_make_detail id bread (r ∷ rs) =
    (eqb_ℤ r.make_order_id id && eqb_ℤ r.bread_id bread) || has_make_detail id bread rs

unfoldable pub has_pending : ℤ → List PendingMakeOrder → Bool
has_pending id [] = false
has_pending id (o ∷ os') = eqb_ℤ o.id id || has_pending id os'

-- WHERE status = 'pending'
unfoldable pub still_pending : List PendingMakeOrder → List PendingMakeOrder
still_pending [] = []
still_pending (o ∷ os') =
    let rest = still_pending os' in if str_eq o.status "pending" then o ∷ rest else rest

-- LIMIT $1
unfoldable pub first : ℕ → List PendingMakeOrder → List PendingMakeOrder
first zero os' = []
first (suc n) [] = []
first (suc n) (o ∷ os') = o ∷ first n os'

unfoldable pub set_pending_status : ℤ → String → List PendingMakeOrder → List PendingMakeOrder
set_pending_status id s [] = []
set_pending_status id s (o ∷ os') =
    let rest = set_pending_status id s os' in
    if eqb_ℤ o.id id then record o { status = s } ∷ rest else o ∷ rest

abbrev pub by_age : PendingMakeOrder → PendingMakeOrder → Bool
by_age a b = ltb_ℤ a.created_at b.created_at

module _ {F : Type 0} where
  abbrev pub make_detail : ℤ → Bread F → MakeDetailRow
  make_detail id b = record { make_order_id = id; bread_id = b.id; quantity = b.quantity }

module _ {F P : Type 0} where
  unfoldable pub insert_make_row : MakeOrderRow → Tables F P → Result (ℤ × Tables F P)
  unfolding has_make_order member
  insert_make_row row t =
      if has_make_order row.id t.make_orders
      then err unique_violation
      else if not (member row.bread_maker_id t.makers)
      then err foreign_key_violation
      else ok (row.id, record t { make_orders = t.make_orders ++ row ∷ [] })

  -- INSERT INTO make_order … RETURNING id
  unfoldable pub insert_make : ℤ → String → M (Db F P) ℤ
  unfolding exec insert_make_row ◌+ℤ◌
  insert_make maker_id uuid d =
      exec
        (insert_make_row
          (record { id = d.next_make; bread_maker_id = maker_id; make_order_uuid = uuid }))
        (record d { next_make = d.next_make +ℤ pos 1 })

  unfoldable pub insert_make_detail_row :
      MakeDetailRow → Tables F P → Result (Unit {0} × Tables F P)
  unfolding has_make_detail has_make_order has_bread
  insert_make_detail_row row t =
      if has_make_detail row.make_order_id row.bread_id t.make_details
      then err unique_violation
      else if not (has_make_order row.make_order_id t.make_orders)
          || not (has_bread row.bread_id t.breads)
      then err foreign_key_violation
      else ok (tt, record t { make_details = t.make_details ++ row ∷ [] })

  unfoldable pub make_each : ℤ → List (Bread F) → M (Db F P) (Unit {0})
  unfolding exec insert_make_detail_row adjust_bread_quantity
  make_each id [] = pure tt
  make_each id (b ∷ bs) = do
    exec (insert_make_detail_row (make_detail id b))
    whole ← adjust_bread_quantity b.id b.quantity
    make_each id bs

  -- The adjustments of the stock go to the database and not to the transaction: a rollback takes
  -- back the rows of the order alone.
  abbrev pub roll_make_back : {A : Type 0} → Tables F P → Result A × Db F P → Result A × Db F P
  roll_make_back t (ok a, d) = (ok a, d)
  roll_make_back t (err e, d) = (
    err e,
    record d {
      tables = record d.tables { make_orders = t.make_orders; make_details = t.make_details };
    },
  )

  abbrev pub make_all : ℤ → String → List (Bread F) → M (Db F P) ℤ
  make_all maker_id uuid breads = do
    new_id ← insert_make maker_id uuid
    make_each new_id breads
    pure new_id

  unfoldable pub insert_make_order : ℤ → String → List (Bread F) → M (Db F P) ℤ
  unfolding statement insert_make make_each
  insert_make_order maker_id uuid breads d =
      roll_make_back d.tables
        ((do statement; new_id ← make_all maker_id uuid breads; statement; pure new_id) d)

  unfoldable pub insert_pending_row : PendingMakeOrder → Tables F P → Result (ℤ × Tables F P)
  unfolding valid_pending_status valid_source has_pending has_bread
  insert_pending_row row t =
      if not (valid_pending_status row.status) || not (valid_source row.source)
      then err check_violation
      else if has_pending row.id t.pending
      then err unique_violation
      else if not (has_bread row.bread_id t.breads)
      then err foreign_key_violation
      else ok (row.id, record t { pending = t.pending ++ row ∷ [] })

  -- INSERT INTO pending_make_orders … RETURNING id, at the time `now`.
  unfoldable pub insert_pending_make_order : ℤ → PendingMakeOrder → M (Db F P) ℤ
  unfolding exec insert_pending_row ◌+ℤ◌
  insert_pending_make_order now order d =
      exec (insert_pending_row (record order { id = d.next_pending; created_at = now }))
        (record d { next_pending = d.next_pending +ℤ pos 1 })

  abbrev pub claimable : Sorter PendingMakeOrder → ℤ → Tables F P → List PendingMakeOrder
  claimable order_by count t =
      first (pos_part count) (order_by.sort by_age (still_pending t.pending))

  -- A plain SELECT: no row is marked. A negative LIMIT is an error of the statement.
  abbrev pub claim_rows :
      Sorter PendingMakeOrder → ℤ → Tables F P → Result (List PendingMakeOrder × Tables F P)
  claim_rows order_by count t =
      if leb_ℤ (pos 0) count then ok (claimable order_by count t, t) else err db_error

  unfoldable pub claim_pending_make_orders :
      Sorter PendingMakeOrder → ℤ → M (Db F P) (List PendingMakeOrder)
  unfolding exec
  claim_pending_make_orders order_by count = exec (claim_rows order_by count)

  unfoldable pub pending_status_rows : ℤ → String → Tables F P → Result (Unit {0} × Tables F P)
  unfolding valid_pending_status has_pending set_pending_status
  pending_status_rows id s t =
      if has_pending id t.pending && not (valid_pending_status s)
      then err check_violation
      else ok (tt, record t { pending = set_pending_status id s t.pending })

  unfoldable pub update_pending_make_order_status : ℤ → String → M (Db F P) (Unit {0})
  unfolding exec pending_status_rows
  update_pending_make_order_status id status = exec (pending_status_rows id status)
