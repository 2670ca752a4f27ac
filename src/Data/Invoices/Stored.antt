-- ===== src/Data/Invoices/Stored.antt =====
-- What `InsertInvoice` adds.
use mathlib.Core.List.{append-nil, append_assoc}
use bakery_go.Common.{
  ◌≡◌, refl, false, List, [], ◌∷◌, ◌++◌, Option, none, some, ap, ◌∙◌, sym, subst, arith, not, ◌||◌,
  Bool-cases, inl, inr,
}
use bakery_go.Common.Int.{ℤ, pos, ◌+ℤ◌}
use bakery_go.Data.Types.{Invoice, InvoiceItem}
use bakery_go.Data.Db.{Tables, Db, ok, pure, ◌>>◌, exec}
use bakery_go.Data.Db.Hoare.{
  Holds, Holds-mono, and_then-Holds, exec-Holds, ok_value, transaction-Holds,
}
use bakery_go.Data.Orders.{has_bread, is_some, member, order_by_id}
use bakery_go.Data.Invoices.{
  valid_invoice_status, invoice_by_id, has_number, has_item, insert_invoice_row, insert_item_row,
  invoice_row, item_row, insert_invoice_header, insert_item, insert_items, insert_whole,
  insert_invoice,
}

is_some-none : {A : Type 0} (o : Option A) → is_some o ≡ false → o ≡ none
is_some-none none h = refl
is_some-none (some a) h = absurd (ground (arith, h))

module _ {F P : Type 0} where
  abbrev pub with_invoice : Invoice F → Tables F P → Tables F P
  with_invoice row t = record t { invoices = t.invoices ++ row ∷ [] }

  abbrev pub with_items : List (InvoiceItem F) → Tables F P → Tables F P
  with_items rows t = record t { invoice_items = t.invoice_items ++ rows }

  -- The row was added, under an id and a number that no invoice had.
  abbrev pub Fresh : Invoice F → Tables F P → ℤ → Tables F P → Type 0
  Fresh row t id t' =
      (id ≡ row.id)
      × (invoice_by_id row.id t.invoices ≡ none)
      × (has_number row.invoice_number t.invoices ≡ false)
      × (t' ≡ with_invoice row t)

  insert_invoice_row-Fresh :
      (row : Invoice F) (t : Tables F P) (id : ℤ) (t' : Tables F P)
      → insert_invoice_row row t ≡ ok (id, t')
      → Fresh row t id t'
  unfolding insert_invoice_row
  insert_invoice_row-Fresh row t id t' h =
      let bad = not (valid_invoice_status row.status) in
      let taken =
        is_some (invoice_by_id row.id t.invoices) || has_number row.invoice_number t.invoices in
      let orphan =
        not (is_some (order_by_id row.buy_order_id t.orders))
        || not (member row.customer_id t.customers) in
      elim (Bool-cases bad) [
        | inl a ↦ absurd (ground (arith, h, a))
        | inr a ↦ elim (Bool-cases taken) [
          | inl c ↦ absurd (ground (arith, h, a, c))
          | inr c ↦ elim (Bool-cases orphan) [
            | inl o ↦ absurd (ground (arith, h, a, c, o))
            | inr o ↦
                let t1 = with_invoice row t in
                let e : insert_invoice_row row t ≡ ok (row.id, t1) = rw (a, c, o) refl in
                let p = ok_value (row.id, t1) (id, t') (sym e ∙ h) in
                (
                  sym (ap (λ (q : ℤ × Tables F P). q.0) p),
                  is_some-none (invoice_by_id row.id t.invoices) (ground (arith, c)),
                  ground (arith, c),
                  sym (ap (λ (q : ℤ × Tables F P). q.1) p),
                )
          ]
        ]
      ]

  insert_item_row-Adds :
      (row : InvoiceItem F) (t : Tables F P) (x : Unit {0}) (t' : Tables F P)
      → insert_item_row row t ≡ ok (x, t')
      → t' ≡ with_items (row ∷ []) t
  unfolding insert_item_row
  insert_item_row-Adds row t x t' h =
      let orphan =
        not (is_some (invoice_by_id row.invoice_id t.invoices))
        || not (has_bread row.bread_id t.breads) in
      elim (Bool-cases (has_item row.id t.invoice_items)) [
        | inl a ↦ absurd (ground (arith, h, a))
        | inr a ↦ elim (Bool-cases orphan) [
          | inl c ↦ absurd (ground (arith, h, a, c))
          | inr c ↦
              let t1 = with_items (row ∷ []) t in
              let e : insert_item_row row t ≡ ok (tt, t1) = rw (a, c) refl in
              sym (ap (λ (p : Unit {0} × Tables F P). p.1) (ok_value (tt, t1) (x, t') (sym e ∙ h)))
        ]
      ]

module _ {F : Type 0} (to_numeric : F → F) where
  -- A row for each item, under some id.
  abbrev pub RowsFor : ℤ → List (InvoiceItem F) → List (InvoiceItem F) → Type 0
  RowsFor id [] [] = Unit
  RowsFor id [] (r ∷ rs) = ⊥
  RowsFor id (i ∷ is) [] = ⊥
  RowsFor id (i ∷ is) (r ∷ rs) = (r ≡ item_row to_numeric r.id id i) × RowsFor id is rs

module _ {F P : Type 0} (to_numeric : F → F) where
  abbrev Itemised : ℤ → List (InvoiceItem F) → Tables F P → Tables F P → Type 0
  Itemised id items t t' =
      (rows : List (InvoiceItem F)) × RowsFor to_numeric id items rows × (t' ≡ with_items rows t)

  insert_items-Itemised :
      (id : ℤ) (items : List (InvoiceItem F)) (d : Db F P)
      → Holds
          (λ _ t. Itemised id items d.tables t)
          (λ _. Unit {0})
          (insert_items to_numeric id items d)
  unfolding insert_items insert_item
  insert_items-Itemised id [] d = (
    [],
    tt,
    ap (λ (l : List (InvoiceItem F)). record d.tables { invoice_items = l })
        (sym (append-nil d.tables.invoice_items)),
  )
  insert_items-Itemised id (i ∷ is) d =
      let row = item_row to_numeric d.next_item id i in
      let d1 = record d { next_item = d.next_item +ℤ pos 1 } in
      let f = insert_item_row row in
      and_then-Holds (λ x t. f d.tables ≡ ok (x, t)) (λ t. t ≡ d.tables)
        (λ _ t. Itemised id (i ∷ is) d.tables t) (λ _. Unit {0})
        (λ _. insert_items to_numeric id is) (exec f d1) (exec-Holds f d1)
        (λ x d' h.
          Holds-mono (λ _ t. Itemised id is d'.tables t) (λ _. Unit {0})
            (λ _ t. Itemised id (i ∷ is) d.tables t) (λ _. Unit {0})
            (λ _ t e. (
              row ∷ e.0,
              (refl, e.1),
              e.2
                  ∙ ap (with_items e.0) (insert_item_row-Adds row d.tables x d'.tables h)
                  ∙ ap (λ (l : List (InvoiceItem F)). record d.tables { invoice_items = l })
                      (append_assoc d.tables.invoice_items (row ∷ []) e.0),
            ))
            (λ _ _. tt) (insert_items to_numeric id is d') (insert_items-Itemised id is d'))
        (λ _ _. tt)

  -- The invoice and its items were added, and nothing else.
  abbrev pub Invoiced : ℤ → Invoice F → Tables F P → ℤ → Tables F P → Type 0
  Invoiced now i t id t' =
      (invoice_by_id id t.invoices ≡ none)
      × (has_number i.invoice_number t.invoices ≡ false)
      × ((rows : List (InvoiceItem F)) × RowsFor to_numeric id i.items rows
          × (t' ≡ with_items rows (with_invoice (invoice_row to_numeric id now i) t)))

  header-Invoiced :
      (now : ℤ) (i : Invoice F) (d d' : Db F P) (id n : ℤ)
      → Fresh (invoice_row to_numeric n now i) d.tables id d'.tables
      → Holds
          (Invoiced now i d.tables)
          (λ _. Unit {0})
          ((insert_items to_numeric id i.items >> pure id) d')
  header-Invoiced now i d d' id n p =
      let row = λ (m : ℤ). invoice_row to_numeric m now i in
      and_then-Holds (λ _ t. Itemised id i.items d'.tables t) (λ _. Unit {0})
        (Invoiced now i d.tables) (λ _. Unit {0}) (λ _. pure id)
        (insert_items to_numeric id i.items d') (insert_items-Itemised id i.items d')
        (λ _ d2 h. (
          subst (λ (m : ℤ). invoice_by_id m d.tables.invoices ≡ none) (sym p.0) p.1,
          p.2,
          (
            h.0,
            h.1,
            h.2
                ∙ ap (with_items h.0)
                    (p.3 ∙ ap (λ (m : ℤ). with_invoice (row m) d.tables) (sym p.0)),
          ),
        ))
        (λ _ _. tt)

  -- A call that succeeds returns an id that no invoice had, for a number that no invoice had, and has
  -- added the invoice under that id, with its amounts rounded to the columns, and a row for each of
  -- its items in their order, and nothing else. A call that fails leaves the tables as they were.
  pub insert_invoice-Invoiced :
      (now : ℤ) (i : Invoice F) (d : Db F P)
      → Holds (Invoiced now i d.tables) (λ t. t ≡ d.tables) (insert_invoice to_numeric now i d)
  unfolding insert_invoice insert_invoice_header
  insert_invoice-Invoiced now i d =
      transaction-Holds (Invoiced now i d.tables) (insert_whole to_numeric now i) d (λ d' e.
        subst
          (λ (t0 : Tables F P).
            Holds (Invoiced now i t0) (λ _. Unit {0}) (insert_whole to_numeric now i d'))
          e
          (let row = invoice_row to_numeric d'.next_invoice now i in
            let d1 = record d' { next_invoice = d'.next_invoice +ℤ pos 1 } in
            let f = insert_invoice_row row in
            and_then-Holds (λ id t. f d'.tables ≡ ok (id, t)) (λ t. t ≡ d'.tables)
              (Invoiced now i d'.tables) (λ _. Unit {0}) _ (exec f d1) (exec-Holds f d1)
              (λ id d2 h.
                header-Invoiced now i d' d2 id d'.next_invoice
                  (insert_invoice_row-Fresh row d'.tables id d2.tables h))
              (λ _ _. tt)))
