-- ===== src/Server/Invoices/Creating.antt =====
-- What `CreateInvoice` bills, and when it bills nothing.
use bakery_go.Common.{
  ◌≡◌, refl, true, List, [], ◌∷◌, Option, none, some, ap, sym, arith, ◌⊎◌, String,
}
use bakery_go.Common.Int.{ℤ, pos, ltb_ℤ, int32}
use bakery_go.Common.Floats.{Floats}
use bakery_go.Data.Types.{Invoice}
use bakery_go.Data.Db.{OrderRow, DetailRow, Tables, Db, ok, exec, statement}
use bakery_go.Data.Db.Hoare.{Holds, Holds-mono, exec-Holds, ok_value}
use bakery_go.Data.Orders.{order_by_id, details_in, read_order, get_buy_order_by_id}
use bakery_go.Data.Invoices.{invoice_by_order, invoice_or_no_rows, get_invoice_by_order_id}
use bakery_go.Data.Invoices.Stored.{Invoiced}
use bakery_go.Proto
use bakery_go.Server.Shop.{Reply, replied, fails}
use bakery_go.Server.Invoices.{invoice_to_proto, new_invoice, create_invoice}

module _ {F : Type 0} (fl : Floats F) where
  -- The amounts of the rows, added to `s` one after another.
  abbrev pub billed : F → List (DetailRow F) → F
  billed s [] = s
  billed s (r ∷ rs) = billed (fl.add s (fl.mul r.price (fl.of_int r.quantity))) rs

module _ {F P : Type 0} where
  found_invoice :
      (o : Option (Invoice F)) (t t' : Tables F P) (i : Invoice F)
      → invoice_or_no_rows o t ≡ ok (i, t')
      → (o ≡ some i) × (t' ≡ t)
  found_invoice none t t' i h = absurd (ground (arith, h))
  found_invoice (some j) t t' i h =
      let p = ok_value (j, t) (i, t') h in
      (
        ap (λ (q : Invoice F × Tables F P). some q.0) p,
        sym (ap (λ (q : Invoice F × Tables F P). q.1) p),
      )

  pub get_invoice_by_order_id-Holds :
      (id : ℤ) (d : Db F P)
      → Holds
          (λ i t. (invoice_by_order id d.tables.invoices ≡ some i) × (t ≡ d.tables))
          (λ t. t ≡ d.tables)
          (get_invoice_by_order_id id d)
  unfolding get_invoice_by_order_id
  get_invoice_by_order_id-Holds id d =
      let read = λ (t : Tables F P). invoice_or_no_rows (invoice_by_order id t.invoices) t in
      Holds-mono (λ i t. read d.tables ≡ ok (i, t)) (λ t. t ≡ d.tables)
        (λ i t. (invoice_by_order id d.tables.invoices ≡ some i) × (t ≡ d.tables))
        (λ t. t ≡ d.tables)
        (λ i t h. found_invoice (invoice_by_order id d.tables.invoices) d.tables t i h) (λ _ e. e)
        (exec read d) (exec-Holds read d)

module _ {F P : Type 0} (fl : Floats F) (to_numeric : F → F) (tax_rate : F) (now : ℤ)
    (number : String) where
  -- The reply bills the rows, and is stored as it says.
  abbrev pub Bills :
      OrderRow → List (DetailRow F) → Tables F P → Proto.Invoice F → Tables F P → Type 0
  Bills r rows t l t' =
      (id : ℤ) × (l.id ≡ int32 id)
      × (l.buy_order_id ≡ int32 r.id)
      × (l.customer_id ≡ int32 r.customer_id)
      × (l.subtotal ≡ billed fl fl.zero rows)
      × (l.tax ≡ fl.mul l.subtotal tax_rate)
      × (l.total ≡ fl.add l.subtotal l.tax)
      × Invoiced to_numeric now (new_invoice fl tax_rate number (read_order fl r rows)) t id t'

  abbrev pub Creates : ℤ → Tables F P → Reply (Proto.Invoice F) × Db F P → Type 0
  Creates order_id t (fails c, d) = d.tables ≡ t
  Creates order_id t (replied l, d) =
      ((i : Invoice F) × (invoice_by_order order_id t.invoices ≡ some i)
        × (l ≡ invoice_to_proto i)
        × (d.tables ≡ t))
      ⊎ ((r : OrderRow) × (order_by_id order_id t.orders ≡ some r)
          × Bills r (details_in r.id t) t l d.tables)

  -- A second call for an order bills nothing: if no statement fails, the order is there and has an
  -- invoice with a positive id, the reply is that invoice and the tables are as they were.
  pub create_invoice_again :
      (order_id : ℤ) (d : Db F P) (r : OrderRow) (i : Invoice F)
      → d.faults ≡ []
      → order_by_id order_id d.tables.orders ≡ some r
      → invoice_by_order order_id d.tables.invoices ≡ some i
      → ltb_ℤ (pos 0) i.id ≡ true
      → let answer = create_invoice fl to_numeric tax_rate now number order_id d in
        (answer.0 ≡ replied (invoice_to_proto i)) × (answer.1.tables ≡ d.tables)
  unfolding create_invoice get_buy_order_by_id get_invoice_by_order_id exec statement
  create_invoice_again order_id d r i healthy row known positive =
      rw (healthy, row, known, positive) ((refl, refl))
