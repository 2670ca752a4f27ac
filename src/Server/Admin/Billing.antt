-- ===== src/Server/Admin/Billing.antt =====
-- What `generateInvoiceForOrder` bills.
use bakery_go.Common.{◌≡◌, ◌⊎◌, inl, inr, refl, true, some, subst, map, String, Bool-cases}
use bakery_go.Common.Int.{ℤ, pos, ltb_ℤ}
use bakery_go.Common.Floats.{Floats}
use bakery_go.Data.Types.{BuyOrder, Invoice}
use bakery_go.Data.Db.{Tables, Db, Result, ok, err}
use bakery_go.Data.Db.Hoare.{Holds}
use bakery_go.Data.Invoices.{invoice_by_order, insert_invoice, get_invoice_by_order_id}
use bakery_go.Data.Invoices.Stored.{Invoiced, insert_invoice-Invoiced}
use bakery_go.Server.Invoices.{item_for}
use bakery_go.Server.Invoices.Creating.{get_invoice_by_order_id-Holds}
use bakery_go.Server.Admin.{
  paid_invoice, done, insert_paid, unless_billed, generate_invoice_for_order,
}

module _ {F : Type 0} (fl : Floats F) (tax_rate : F) (number : String) where
  -- A paid invoice for the order: its subtotal with the tax, and an item for each of its breads.
  abbrev pub Bills : BuyOrder F → F → Invoice F → Type 0
  Bills order subtotal i =
      (i.buy_order_id ≡ order.id)
      × (i.customer_id ≡ order.customer_id)
      × (i.invoice_number ≡ number)
      × (i.subtotal ≡ subtotal)
      × (i.tax ≡ fl.mul subtotal tax_rate)
      × (i.total ≡ fl.add subtotal i.tax)
      × (i.status ≡ "paid")
      × (i.items ≡ map (item_for fl) order.breads)

module _ {F P : Type 0} (fl : Floats F) (to_numeric : F → F) (tax_rate : F) (now : ℤ)
    (number : String) where
  -- Either the order has an invoice with a positive id, or one is stored.
  abbrev pub Billed : BuyOrder F → F → Tables F P → Result (Unit {0}) × Db F P → Type 0
  Billed order subtotal t (err e, d) = d.tables ≡ t
  Billed order subtotal t (ok x, d) =
      ((i : Invoice F) × (invoice_by_order order.id t.invoices ≡ some i)
        × (ltb_ℤ (pos 0) i.id ≡ true)
        × (d.tables ≡ t))
      ⊎ ((i : Invoice F) × (id : ℤ) × Bills fl tax_rate number order subtotal i
          × Invoiced to_numeric now i t id d.tables)

  done-Billed :
      (order : BuyOrder F) (subtotal : F) (t : Tables F P) (x : Result ℤ × Db F P)
      → Holds
          (Invoiced to_numeric now (paid_invoice fl tax_rate number order subtotal) t)
          (λ t'. t' ≡ t)
          x
      → Billed order subtotal t (done fl to_numeric tax_rate now number x)
  unfolding paid_invoice
  done-Billed order subtotal t (err e, d) h = h
  done-Billed order subtotal t (ok id, d) h = inr (
    paid_invoice fl tax_rate number order subtotal,
    id,
    (refl, refl, refl, refl, refl, refl, refl, refl),
    h,
  )

  insert_paid-Billed :
      (order : BuyOrder F) (subtotal : F) (t : Tables F P) (d : Db F P)
      → d.tables ≡ t
      → Billed order subtotal t (insert_paid fl to_numeric tax_rate now number order subtotal d)
  unfolding insert_paid
  insert_paid-Billed order subtotal t d e =
      let i = paid_invoice fl tax_rate number order subtotal in
      done-Billed order subtotal t (insert_invoice to_numeric now i d) (
        subst
          (λ (u : Tables F P).
            Holds (Invoiced to_numeric now i u) (λ t'. t' ≡ u) (insert_invoice to_numeric now i d))
          e (insert_invoice-Invoiced to_numeric now i d))

  unless_billed-Billed :
      (order : BuyOrder F) (subtotal : F) (t : Tables F P) (x : Result (Invoice F) × Db F P)
      → Holds (λ i t'. (invoice_by_order order.id t.invoices ≡ some i) × (t' ≡ t)) (λ t'. t' ≡ t) x
      → Billed order subtotal t (unless_billed fl to_numeric tax_rate now number order subtotal x)
  unless_billed-Billed order subtotal t (err e, d) h = insert_paid-Billed order subtotal t d h
  unless_billed-Billed order subtotal t (ok i, d) h = elim (Bool-cases (ltb_ℤ (pos 0) i.id)) [
    | inl there ↦ rw there (inl (i, h.0, there, h.1))
    | inr blank ↦ rw blank (insert_paid-Billed order subtotal t d h.1)
  ]

  -- A call that succeeds for an order leaves it billed: it had an invoice with a positive id and
  -- nothing has changed, or one was stored now, marked as paid, with the subtotal that was given,
  -- its tax, and an item for each bread of the order. A call that fails has stored nothing.
  pub generate_invoice_for_order-Billed :
      (order : BuyOrder F) (subtotal : F) (d : Db F P)
      → Billed order subtotal d.tables
          (generate_invoice_for_order fl to_numeric tax_rate now number order subtotal d)
  unfolding generate_invoice_for_order
  generate_invoice_for_order-Billed order subtotal d =
      unless_billed-Billed order subtotal d.tables (get_invoice_by_order_id order.id d)
        (get_invoice_by_order_id-Holds order.id d)
