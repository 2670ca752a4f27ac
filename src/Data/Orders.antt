-- ===== src/Data/Orders.antt =====
-- The buy orders in data/models.go: InsertBuyOrder, GetBuyOrderByUUID, GetBuyOrderByID,
-- UpdateOrderStatus. The constraints are those of bakery.sql, tested in PostgreSQL's order: CHECK,
-- unique keys, foreign keys.
pub mod Inserting
pub mod Keys
pub mod Fulfilling
pub mod Reading
use bakery_go.Common.{
  Bool, true, false, List, [], ◌∷◌, ◌++◌, Option, none, some, if◌then◌else◌, ◌||◌, ◌&&◌, not, map,
  str_eq, String,
}
use bakery_go.Common.Int.{ℤ, pos, ◌+ℤ◌, eqb_ℤ}
use bakery_go.Common.Floats.{Floats}
use bakery_go.Data.Types.{Bread, BuyOrder}
use bakery_go.Data.Db.{
  OrderRow, DetailRow, Tables, Db, Error, no_rows, check_violation, unique_violation,
  foreign_key_violation, Result, ok, err, M, pure, fail, ◌>>=◌, ◌>>◌, exec, transaction,
}

-- CONSTRAINT buy_order_status_valid
unfoldable pub valid_status : String → Bool
valid_status s =
    str_eq s "pending"
    || (str_eq s "processing"
        || (str_eq s "processed"
            || (str_eq s "partially_processed" || (str_eq s "failed" || str_eq s "rejected"))))

-- SELECT … FROM buy_order WHERE buy_order_uuid = $1
unfoldable pub order_by_uuid : String → List OrderRow → Option OrderRow
order_by_uuid u [] = none
order_by_uuid u (o ∷ os') = if str_eq o.buy_order_uuid u then some o else order_by_uuid u os'

-- SELECT … FROM buy_order WHERE id = $1
unfoldable pub order_by_id : ℤ → List OrderRow → Option OrderRow
order_by_id id [] = none
order_by_id id (o ∷ os') = if eqb_ℤ o.id id then some o else order_by_id id os'

-- UPDATE buy_order SET status = $1 WHERE buy_order_uuid = $2
unfoldable pub set_status : String → String → List OrderRow → List OrderRow
set_status u s [] = []
set_status u s (o ∷ os') =
    let rest = set_status u s os' in
    if str_eq o.buy_order_uuid u then record o { status = s } ∷ rest else o ∷ rest

-- COALESCE(NULLIF(status, ''), 'processing')
abbrev pub shown_status : String → String
shown_status s = if str_eq s "" then "processing" else s

abbrev pub is_some : {A : Type 0} → Option A → Bool
is_some none = false
is_some (some a) = true

unfoldable pub member : ℤ → List ℤ → Bool
member id [] = false
member id (i ∷ is) = eqb_ℤ i id || member id is

module _ {F : Type 0} where
  -- The rows of order_details with buy_order_id = $1
  unfoldable pub details_of : ℤ → List (DetailRow F) → List (DetailRow F)
  details_of id [] = []
  details_of id (r ∷ rs) =
      let rest = details_of id rs in if eqb_ℤ r.buy_order_id id then r ∷ rest else rest

  -- PRIMARY KEY (buy_order_id, bread_id)
  unfoldable pub has_detail : ℤ → ℤ → List (DetailRow F) → Bool
  has_detail id bread [] = false
  has_detail id bread (r ∷ rs) =
      (eqb_ℤ r.buy_order_id id && eqb_ℤ r.bread_id bread) || has_detail id bread rs

  unfoldable pub has_bread : ℤ → List (Bread F) → Bool
  has_bread id [] = false
  has_bread id (b ∷ bs) = eqb_ℤ b.id id || has_bread id bs

  -- What the columns keep of a detail; `numeric` is that of the column price.
  abbrev pub detail_row : (F → F) → ℤ → Bread F → DetailRow F
  detail_row numeric order_id b = record {
    buy_order_id = order_id;
    bread_id = b.id;
    quantity = b.quantity;
    price = numeric b.price;
    status = "pending";
  }

module _ {F : Type 0} (fl : Floats F) where
  abbrev pub bread_of : DetailRow F → Bread F
  bread_of r = record {
    id = r.bread_id;
    name = "";
    price = r.price;
    quantity = r.quantity;
    image = "";
    description = "";
    kind = "";
    status = "";
  }

  abbrev pub read_order : OrderRow → List (DetailRow F) → BuyOrder F
  read_order o rows = record {
    id = o.id;
    customer_id = o.customer_id;
    buy_order_uuid = o.buy_order_uuid;
    breads = map bread_of rows;
    status = shown_status o.status;
    sequence_number = pos 0;
    bid_price = fl.zero;
    allow_partial = false;
    skip_unavailable_items = false;
    matched_items = [];
  }

module _ {F P : Type 0} where
  -- SELECT … FROM order_details WHERE buy_order_id = $1, without ORDER BY
  abbrev pub details_in : ℤ → Tables F P → List (DetailRow F)
  details_in id t = t.scanned (details_of id t.details)

  unfoldable pub insert_order_row : OrderRow → Tables F P → Result (ℤ × Tables F P)
  unfolding valid_status order_by_uuid order_by_id member
  insert_order_row row t =
      if not (valid_status row.status)
      then err check_violation
      else if is_some (order_by_id row.id t.orders)
          || is_some (order_by_uuid row.buy_order_uuid t.orders)
      then err unique_violation
      else if not (member row.customer_id t.customers)
      then err foreign_key_violation
      else ok (row.id, record t { orders = t.orders ++ row ∷ [] })

  -- INSERT INTO buy_order … RETURNING id. The sequence goes on even if the statement fails.
  unfoldable pub insert_order : ℤ → String → String → M (Db F P) ℤ
  unfolding exec insert_order_row ◌+ℤ◌
  insert_order customer_id uuid status d =
      exec
        (insert_order_row (record {
          id = d.next_order;
          customer_id = customer_id;
          buy_order_uuid = uuid;
          status = status;
        }))
        (record d { next_order = d.next_order +ℤ pos 1 })

  unfoldable pub insert_detail_row : DetailRow F → Tables F P → Result (Unit {0} × Tables F P)
  unfolding has_detail order_by_id has_bread
  insert_detail_row row t =
      if has_detail row.buy_order_id row.bread_id t.details
      then err unique_violation
      else if not (is_some (order_by_id row.buy_order_id t.orders))
          || not (has_bread row.bread_id t.breads)
      then err foreign_key_violation
      else ok (tt, record t { details = t.details ++ row ∷ [] })

  unfoldable pub insert_details : ℤ → List (Bread F) → M (Db F P) (Unit {0})
  unfolding exec insert_detail_row
  insert_details order_id [] = pure tt
  insert_details order_id (b ∷ bs) = do
    exec (λ t. insert_detail_row (detail_row t.numeric order_id b) t)
    insert_details order_id bs

  abbrev pub insert_all : BuyOrder F → List (Bread F) → M (Db F P) ℤ
  insert_all order breads = do
    new_id ← insert_order order.customer_id order.buy_order_uuid "processing"
    insert_details new_id breads
    pure new_id

  unfoldable pub insert_buy_order : BuyOrder F → List (Bread F) → M (Db F P) ℤ
  unfolding transaction insert_order insert_details
  insert_buy_order order breads = transaction (insert_all order breads)

  abbrev pub row_of : Option OrderRow → Tables F P → Result (OrderRow × Tables F P)
  row_of none t = err no_rows
  row_of (some o) t = ok (o, t)

  -- UPDATE of a status: the constraint is tested if a row is hit.
  unfoldable pub update_status_rows : String → String → Tables F P → Result (Unit {0} × Tables F P)
  unfolding valid_status set_status order_by_uuid
  update_status_rows uuid status t =
      if is_some (order_by_uuid uuid t.orders) && not (valid_status status)
      then err check_violation
      else ok (tt, record t { orders = set_status uuid status t.orders })

  unfoldable pub update_order_status : String → String → M (Db F P) (Unit {0})
  unfolding exec update_status_rows
  update_order_status uuid status = exec (update_status_rows uuid status)

  module _ (fl : Floats F) where
    unfoldable pub get_buy_order_by_uuid : String → M (Db F P) (BuyOrder F)
    unfolding exec order_by_uuid details_of
    get_buy_order_by_uuid uuid = do
      o ← exec (λ t. row_of (order_by_uuid uuid t.orders) t)
      rows ← exec (λ t. ok (details_in o.id t, t))
      pure (read_order fl o rows)

    unfoldable pub get_buy_order_by_id : ℤ → M (Db F P) (BuyOrder F)
    unfolding exec order_by_id details_of
    get_buy_order_by_id id = do
      o ← exec (λ t. row_of (order_by_id id t.orders) t)
      rows ← exec (λ t. ok (details_in o.id t, t))
      pure (read_order fl o rows)
