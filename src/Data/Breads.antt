-- ===== src/Data/Breads.antt =====
-- The catalogue in data/models.go: InsertBread, GetAvailableBread, GetBreadByID, UpdateBread,
-- DeleteBread, GetLowStockBread, AdjustBreadPrice, InsertBreadMaker. ORDER BY is a parameter. The
-- columns `updated_at` are left out.
pub mod Catalogue
pub mod Rewriting
use bakery_go.Common.{
  Bool, true, false, List, [], ◌∷◌, ◌++◌, Option, none, some, String, if◌then◌else◌, ◌||◌, ◌&&◌,
  not, str_eq,
}
use bakery_go.Common.Int.{ℤ, pos, ◌+ℤ◌, eqb_ℤ, ltb_ℤ, leb_ℤ}
use bakery_go.Common.Sorting.{Sorter}
use bakery_go.Data.Types.{Bread, MakeDetailRow, PendingMakeOrder, InvoiceItem}
use bakery_go.Data.Db.{
  DetailRow, Tables, Db, no_rows, check_violation, unique_violation, foreign_key_violation, Result,
  ok, err, M, exec,
}
use bakery_go.Data.Stock.{non_negative}
use bakery_go.Data.Orders.{has_bread}

-- CONSTRAINT bread_status_valid
unfoldable pub valid_bread_status : String → Bool
valid_bread_status s =
    str_eq s "available"
    || (str_eq s "unavailable"
        || (str_eq s "discontinued" || (str_eq s "out_of_stock" || str_eq s "processing")))

-- Whether a row for orders to bake refers to the bread.
unfoldable pub made_from : ℤ → List MakeDetailRow → Bool
made_from id [] = false
made_from id (r ∷ rs) = eqb_ℤ r.bread_id id || made_from id rs

unfoldable pub asked_for : ℤ → List PendingMakeOrder → Bool
asked_for id [] = false
asked_for id (r ∷ rs) = eqb_ℤ r.bread_id id || asked_for id rs

module _ {F : Type 0} where
  -- SELECT … FROM bread WHERE id = $1
  unfoldable pub bread_by_id : ℤ → List (Bread F) → Option (Bread F)
  bread_by_id id [] = none
  bread_by_id id (b ∷ bs) = if eqb_ℤ b.id id then some b else bread_by_id id bs

  -- WHERE quantity >= 0
  unfoldable pub available : List (Bread F) → List (Bread F)
  available [] = []
  available (b ∷ bs) =
      let rest = available bs in if leb_ℤ (pos 0) b.quantity then b ∷ rest else rest

  -- WHERE quantity < $1
  unfoldable pub low_stock : ℤ → List (Bread F) → List (Bread F)
  low_stock threshold [] = []
  low_stock threshold (b ∷ bs) =
      let rest = low_stock threshold bs in if ltb_ℤ b.quantity threshold then b ∷ rest else rest

  -- UPDATE bread SET … WHERE id = $1
  unfoldable pub change_bread : ℤ → (Bread F → Bread F) → List (Bread F) → List (Bread F)
  change_bread id f [] = []
  change_bread id f (b ∷ bs) =
      let rest = change_bread id f bs in if eqb_ℤ b.id id then f b ∷ rest else b ∷ rest

  -- DELETE FROM bread WHERE id = $1
  unfoldable pub without_bread : ℤ → List (Bread F) → List (Bread F)
  without_bread id [] = []
  without_bread id (b ∷ bs) =
      let rest = without_bread id bs in if eqb_ℤ b.id id then rest else b ∷ rest

  unfoldable pub ordered : ℤ → List (DetailRow F) → Bool
  ordered id [] = false
  ordered id (r ∷ rs) = eqb_ℤ r.bread_id id || ordered id rs

  unfoldable pub invoiced : ℤ → List (InvoiceItem F) → Bool
  invoiced id [] = false
  invoiced id (r ∷ rs) = eqb_ℤ r.bread_id id || invoiced id rs

  abbrev pub by_quantity : Bread F → Bread F → Bool
  by_quantity a b = ltb_ℤ a.quantity b.quantity

  abbrev pub rewritten : Bread F → Bread F → Bread F
  rewritten bread b = record b {
    name = bread.name;
    price = bread.price;
    quantity = bread.quantity;
    description = bread.description;
    kind = bread.kind;
    image = bread.image;
  }

module _ {F P : Type 0} where
  unfoldable pub insert_bread_row : Bread F → Tables F P → Result (ℤ × Tables F P)
  unfolding valid_bread_status has_bread
  insert_bread_row row t =
      if not (leb_ℤ (pos 0) row.quantity) || not (valid_bread_status row.status)
      then err check_violation
      else if has_bread row.id t.breads
      then err unique_violation
      else ok (
        row.id,
        record t { breads = t.breads ++ record row { price = t.numeric row.price } ∷ [] },
      )

  -- INSERT INTO bread … RETURNING id. The sequence goes on even if the statement fails.
  unfoldable pub insert_bread : Bread F → M (Db F P) ℤ
  unfolding exec insert_bread_row ◌+ℤ◌
  insert_bread bread d =
      exec (insert_bread_row (record bread { id = d.next_bread }))
        (record d { next_bread = d.next_bread +ℤ pos 1 })

  unfoldable pub get_available_bread : M (Db F P) (List (Bread F))
  unfolding exec available
  get_available_bread = exec (λ t. ok (available t.breads, t))

  abbrev pub bread_or_no_rows : Option (Bread F) → Tables F P → Result (Bread F × Tables F P)
  bread_or_no_rows none t = err no_rows
  bread_or_no_rows (some b) t = ok (b, t)

  unfoldable pub get_bread_by_id : ℤ → M (Db F P) (Bread F)
  unfolding exec bread_by_id
  get_bread_by_id bread_id = exec (λ t. bread_or_no_rows (bread_by_id bread_id t.breads) t)

  unfoldable pub get_low_stock_bread : Sorter (Bread F) → ℤ → M (Db F P) (List (Bread F))
  unfolding exec low_stock
  get_low_stock_bread order_by threshold =
      exec (λ t. ok (order_by.sort by_quantity (low_stock threshold t.breads), t))

  abbrev pub checked_breads : List (Bread F) → Tables F P → Result (Unit {0} × Tables F P)
  checked_breads bs t =
      if non_negative bs then ok (tt, record t { breads = bs }) else err check_violation

  unfoldable pub update_bread : Bread F → M (Db F P) (Unit {0})
  unfolding exec change_bread non_negative
  update_bread bread =
      exec (λ t. checked_breads (change_bread bread.id (rewritten bread) t.breads) t)

  unfoldable pub adjust_bread_price : ℤ → F → M (Db F P) (Unit {0})
  unfolding exec change_bread non_negative
  adjust_bread_price bread_id new_price =
      exec (λ t.
        checked_breads (change_bread bread_id (λ b. record b { price = new_price }) t.breads) t)

  -- The foreign keys on bread.
  unfoldable pub referred : ℤ → Tables F P → Bool
  unfolding ordered made_from asked_for invoiced
  referred id t =
      ordered id t.details
      || (made_from id t.make_details || (asked_for id t.pending || invoiced id t.invoice_items))

  unfoldable pub delete_bread_row : ℤ → Tables F P → Result (Unit {0} × Tables F P)
  unfolding has_bread referred without_bread
  delete_bread_row id t =
      if has_bread id t.breads && referred id t
      then err foreign_key_violation
      else ok (tt, record t { breads = without_bread id t.breads })

  unfoldable pub delete_bread : ℤ → M (Db F P) (Unit {0})
  unfolding exec delete_bread_row
  delete_bread bread_id = exec (delete_bread_row bread_id)

  -- INSERT INTO bread_maker … RETURNING id, of which only the id is kept.
  unfoldable pub insert_bread_maker : M (Db F P) ℤ
  unfolding exec ◌+ℤ◌
  insert_bread_maker d =
      exec (λ t. ok (d.next_maker, record t { makers = t.makers ++ d.next_maker ∷ [] }))
        (record d { next_maker = d.next_maker +ℤ pos 1 })
