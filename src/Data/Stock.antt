-- ===== src/Data/Stock.antt =====
-- The operations on the stock in data/models.go: AdjustBreadQuantity, FulfillOrderItem.
pub mod Rows
pub mod Statements
pub mod Items
pub mod Adjust
pub mod Draws
use bakery_go.Common.{
  ℕ, Bool, true, false, List, [], ◌∷◌, Option, none, some, if◌then◌else◌, ◌||◌, ◌&&◌, ◌==◌,
}
use bakery_go.Common.Int.{ℤ, pos, negsuc, ◌+ℤ◌, ◌-ℤ◌, ltb_ℤ, leb_ℤ, eqb_ℤ, int64}
use bakery_go.Data.Types.{Bread}
use bakery_go.Data.Db.{
  Tables, Db, Error, db_error, no_rows, insufficient_stock, check_violation, Result, ok, err, M,
  pure, fail, ◌>>=◌, ◌>>◌, statement, get, put, transaction,
}

-- What can be taken of a request: no more than there is.
abbrev pub fulfillable : ℤ → ℤ → ℤ
fulfillable requested current = if ltb_ℤ current requested then current else requested

module _ {F : Type 0} where
  -- SELECT quantity FROM bread WHERE id = $1
  unfoldable pub quantity_of : ℤ → List (Bread F) → Option ℤ
  quantity_of id [] = none
  quantity_of id (b ∷ bs) = if eqb_ℤ b.id id then some b.quantity else quantity_of id bs

  -- UPDATE bread SET quantity = … WHERE id = $1
  unfoldable pub update_quantity : ℤ → (ℤ → ℤ) → List (Bread F) → List (Bread F)
  update_quantity id f [] = []
  update_quantity id f (b ∷ bs) =
      let rest = update_quantity id f bs in
      if eqb_ℤ b.id id then record b { quantity = f b.quantity } ∷ rest else b ∷ rest

  -- CONSTRAINT bread_quantity_non_negative
  unfoldable pub non_negative : List (Bread F) → Bool
  non_negative [] = true
  non_negative (b ∷ bs) = leb_ℤ (pos 0) b.quantity && non_negative bs

module _ {F P : Type 0} where
  abbrev pub found : Option ℤ → M (Db F P) ℤ
  found none = fail no_rows
  found (some q) = pure q

  unfoldable pub select_quantity : ℤ → M (Db F P) ℤ
  unfolding statement quantity_of
  select_quantity id = do statement; t ← get; found (quantity_of id t.breads)

  abbrev pub checked : Tables F P → M (Db F P) (Unit {0})
  checked t = if non_negative t.breads then put t else fail check_violation

  unfoldable pub exec_update_quantity : ℤ → (ℤ → ℤ) → M (Db F P) (Unit {0})
  unfolding statement update_quantity non_negative
  exec_update_quantity id f = do
    statement
    t ← get
    checked (record t { breads = update_quantity id f t.breads })

  -- The code of a failed CHECK is taken for a lack of stock.
  abbrev pub as_insufficient : Result (Unit {0}) × Db F P → Result (Unit {0}) × Db F P
  as_insufficient (err check_violation, d) = (err insufficient_stock, d)
  as_insufficient r = r

  unfoldable pub write_quantity : ℤ → ℤ → Bool → M (Db F P) Bool
  unfolding exec_update_quantity
  write_quantity id q count_bread = do
    λ d. as_insufficient (exec_update_quantity id (λ _. q) d)
    pure count_bread

  -- The second half of `AdjustBreadQuantity`, from the quantity that its SELECT has read. The two
  -- statements are not in one transaction, so other operations may come between them.
  unfoldable pub adjust_from : ℤ → ℤ → ℤ → M (Db F P) Bool
  unfolding write_quantity
  adjust_from bread_id quantity_change current_quantity =
      let new_quantity = int64 (current_quantity +ℤ quantity_change) in
      if ltb_ℤ new_quantity (pos 0)
      then fail insufficient_stock
      else if ltb_ℤ (pos 100) new_quantity
      then write_quantity bread_id (pos 100) false
      else write_quantity bread_id new_quantity true

  unfoldable pub adjust_bread_quantity : ℤ → ℤ → M (Db F P) Bool
  unfolding select_quantity adjust_from
  adjust_bread_quantity bread_id quantity_change = do
    current_quantity ← select_quantity bread_id
    adjust_from bread_id quantity_change current_quantity

  abbrev pub deduct : ℤ → ℤ → M (Db F P) ℤ
  deduct id fulfilled =
      if leb_ℤ fulfilled (pos 0)
      then fail insufficient_stock
      else do exec_update_quantity id (λ q. q -ℤ fulfilled); pure fulfilled

  unfoldable pub fulfill_order_item : ℤ → ℤ → M (Db F P) ℤ
  unfolding select_quantity exec_update_quantity transaction
  fulfill_order_item bread_id requested_qty = transaction (do
    current_qty ← select_quantity bread_id
    deduct bread_id (fulfillable requested_qty current_qty))
