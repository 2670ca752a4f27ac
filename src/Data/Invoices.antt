-- ===== src/Data/Invoices.antt =====
-- The invoices in data/models.go: InsertInvoice, GetInvoiceByID, GetInvoiceByOrderID,
-- GetInvoicesByCustomerID, GetAllInvoices. Parameters are ORDER BY, the time, and `to_numeric`, the
-- rounding of a number that is stored in a column with two decimals.
pub mod Stored
use bakery_go.Common.{
  Bool, true, false, List, [], ◌∷◌, ◌++◌, Option, none, some, String, if◌then◌else◌, ◌||◌, not,
  str_eq,
}
use bakery_go.Common.Int.{ℤ, pos, ◌+ℤ◌, eqb_ℤ, ltb_ℤ}
use bakery_go.Common.Sorting.{Sorter}
use bakery_go.Data.Types.{Invoice, InvoiceItem}
use bakery_go.Data.Db.{
  Tables, Db, no_rows, check_violation, unique_violation, foreign_key_violation, Result, ok, err, M,
  pure, ◌>>=◌, ◌>>◌, exec, transaction,
}
use bakery_go.Data.Orders.{has_bread, is_some, member, order_by_id}

-- CONSTRAINT invoices_status_valid
unfoldable pub valid_invoice_status : String → Bool
valid_invoice_status s =
    str_eq s "pending"
    || (str_eq s "issued" || (str_eq s "paid" || (str_eq s "overdue" || str_eq s "cancelled")))

module _ {F : Type 0} where
  -- SELECT … FROM invoices WHERE id = $1
  unfoldable pub invoice_by_id : ℤ → List (Invoice F) → Option (Invoice F)
  invoice_by_id id [] = none
  invoice_by_id id (i ∷ is) = if eqb_ℤ i.id id then some i else invoice_by_id id is

  -- SELECT … FROM invoices WHERE buy_order_id = $1, of which the first row is read.
  unfoldable pub invoice_by_order : ℤ → List (Invoice F) → Option (Invoice F)
  invoice_by_order id [] = none
  invoice_by_order id (i ∷ is) = if eqb_ℤ i.buy_order_id id then some i else invoice_by_order id is

  -- UNIQUE (invoice_number)
  unfoldable pub has_number : String → List (Invoice F) → Bool
  has_number n [] = false
  has_number n (i ∷ is) = str_eq i.invoice_number n || has_number n is

  -- WHERE customer_id = $1
  unfoldable pub invoices_of : ℤ → List (Invoice F) → List (Invoice F)
  invoices_of c [] = []
  invoices_of c (i ∷ is) =
      let rest = invoices_of c is in if eqb_ℤ i.customer_id c then i ∷ rest else rest

  -- SELECT … FROM invoice_items WHERE invoice_id = $1
  unfoldable pub items_of : ℤ → List (InvoiceItem F) → List (InvoiceItem F)
  items_of id [] = []
  items_of id (i ∷ is) =
      let rest = items_of id is in if eqb_ℤ i.invoice_id id then i ∷ rest else rest

  unfoldable pub has_item : ℤ → List (InvoiceItem F) → Bool
  has_item id [] = false
  has_item id (i ∷ is) = eqb_ℤ i.id id || has_item id is

  abbrev pub newest : Invoice F → Invoice F → Bool
  newest a b = ltb_ℤ b.created_at a.created_at

module _ {F P : Type 0} where
  unfoldable pub insert_invoice_row : Invoice F → Tables F P → Result (ℤ × Tables F P)
  unfolding valid_invoice_status invoice_by_id has_number order_by_id member
  insert_invoice_row row t =
      if not (valid_invoice_status row.status)
      then err check_violation
      else if is_some (invoice_by_id row.id t.invoices) || has_number row.invoice_number t.invoices
      then err unique_violation
      else if not (is_some (order_by_id row.buy_order_id t.orders))
          || not (member row.customer_id t.customers)
      then err foreign_key_violation
      else ok (row.id, record t { invoices = t.invoices ++ row ∷ [] })

  unfoldable pub insert_item_row : InvoiceItem F → Tables F P → Result (Unit {0} × Tables F P)
  unfolding has_item invoice_by_id has_bread
  insert_item_row row t =
      if has_item row.id t.invoice_items
      then err unique_violation
      else if not (is_some (invoice_by_id row.invoice_id t.invoices))
          || not (has_bread row.bread_id t.breads)
      then err foreign_key_violation
      else ok (tt, record t { invoice_items = t.invoice_items ++ row ∷ [] })

  abbrev pub invoice_or_no_rows : Option (Invoice F) → Tables F P → Result (Invoice F × Tables F P)
  invoice_or_no_rows none t = err no_rows
  invoice_or_no_rows (some i) t = ok (i, t)

  unfoldable pub get_invoice_by_order_id : ℤ → M (Db F P) (Invoice F)
  unfolding exec invoice_by_order
  get_invoice_by_order_id order_id =
      exec (λ t. invoice_or_no_rows (invoice_by_order order_id t.invoices) t)

  -- If the items cannot be read, the invoice is given out without them.
  abbrev pub or_without_items :
      Invoice F → Result (List (InvoiceItem F)) × Db F P → Result (Invoice F) × Db F P
  or_without_items i (ok items, d) = (ok (record i { items = items }), d)
  or_without_items i (err e, d) = (ok i, d)

  unfoldable pub get_invoice_by_id : ℤ → M (Db F P) (Invoice F)
  unfolding exec invoice_by_id items_of
  get_invoice_by_id id = do
    i ← exec (λ t. invoice_or_no_rows (invoice_by_id id t.invoices) t)
    λ d. or_without_items i (exec (λ t. ok (items_of id t.invoice_items, t)) d)

  unfoldable pub get_invoices_by_customer_id :
      Sorter (Invoice F) → ℤ → M (Db F P) (List (Invoice F))
  unfolding exec invoices_of
  get_invoices_by_customer_id order_by customer_id =
      exec (λ t. ok (order_by.sort newest (invoices_of customer_id t.invoices), t))

  unfoldable pub get_all_invoices : Sorter (Invoice F) → M (Db F P) (List (Invoice F))
  unfolding exec
  get_all_invoices order_by = exec (λ t. ok (order_by.sort newest t.invoices, t))

module _ {F : Type 0} (to_numeric : F → F) where
  abbrev pub invoice_row : ℤ → ℤ → Invoice F → Invoice F
  invoice_row id now i = record i {
    id = id;
    subtotal = to_numeric i.subtotal;
    tax = to_numeric i.tax;
    total = to_numeric i.total;
    created_at = now;
    items = [];
  }

  abbrev pub item_row : ℤ → ℤ → InvoiceItem F → InvoiceItem F
  item_row id invoice_id i = record i {
    id = id;
    invoice_id = invoice_id;
    unit_price = to_numeric i.unit_price;
    total = to_numeric i.total;
  }

module _ {F P : Type 0} (to_numeric : F → F) where
  -- INSERT INTO invoices … RETURNING id. The sequence goes on even if the statement fails.
  unfoldable pub insert_invoice_header : ℤ → Invoice F → M (Db F P) ℤ
  unfolding exec insert_invoice_row ◌+ℤ◌
  insert_invoice_header now i d =
      exec (insert_invoice_row (invoice_row to_numeric d.next_invoice now i))
        (record d { next_invoice = d.next_invoice +ℤ pos 1 })

  unfoldable pub insert_item : ℤ → InvoiceItem F → M (Db F P) (Unit {0})
  unfolding exec insert_item_row ◌+ℤ◌
  insert_item invoice_id i d =
      exec (insert_item_row (item_row to_numeric d.next_item invoice_id i))
        (record d { next_item = d.next_item +ℤ pos 1 })

  unfoldable pub insert_items : ℤ → List (InvoiceItem F) → M (Db F P) (Unit {0})
  unfolding insert_item
  insert_items invoice_id [] = pure tt
  insert_items invoice_id (i ∷ is) = do insert_item invoice_id i; insert_items invoice_id is

  abbrev pub insert_whole : ℤ → Invoice F → M (Db F P) ℤ
  insert_whole now i = do
    new_id ← insert_invoice_header now i
    insert_items new_id i.items
    pure new_id

  unfoldable pub insert_invoice : ℤ → Invoice F → M (Db F P) ℤ
  unfolding transaction insert_invoice_header insert_items
  insert_invoice now i = transaction (insert_whole now i)
