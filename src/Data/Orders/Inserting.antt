-- ===== src/Data/Orders/Inserting.antt =====
-- `InsertBuyOrder`: what it adds.
use mathlib.Core.List.{append-nil, append_assoc}
use bakery_go.Common.{
  ◌≡◌, refl, true, false, List, [], ◌∷◌, ◌++◌, Option, none, some, arith, map, Bool-cases, inl, inr,
  sym, ◌∙◌, ap, subst, ◌||◌, not,
}
use bakery_go.Common.Int.{ℤ, pos, ◌+ℤ◌}
use bakery_go.Data.Types.{Bread, BuyOrder}
use bakery_go.Data.Db.{OrderRow, DetailRow, Tables, Db, ok, pure, exec}
use bakery_go.Data.Db.Hoare.{
  ok_value, Holds, Holds-mono, and_then-Holds, exec-Holds, transaction-Holds,
}
use bakery_go.Data.Orders.{
  order_by_uuid, order_by_id, member, is_some, insert_order_row, insert_order, detail_row,
  insert_detail_row, insert_details, insert_all, insert_buy_order, has_detail, has_bread,
}

is_some-false : {A : Type 0} (o : Option A) → is_some o ≡ false → o ≡ none
is_some-false none e = refl
is_some-false (some a) e = cc

module _ {F : Type 0} where
  abbrev pub processing : ℤ → BuyOrder F → OrderRow
  processing id order = record {
    id = id;
    customer_id = order.customer_id;
    buy_order_uuid = order.buy_order_uuid;
    status = "processing";
  }

module _ {F P : Type 0} where
  abbrev pub with_order : OrderRow → Tables F P → Tables F P
  with_order row t = record t { orders = t.orders ++ row ∷ [] }

  abbrev pub with_details : ℤ → List (Bread F) → Tables F P → Tables F P
  with_details id bs t = record t { details = t.details ++ map (detail_row t.numeric id) bs }

  -- What a successful call has done: the new id and the UUID were no row's, the customer is known,
  -- and the tables have one more order with one detail for each bread. The stock is as it was.
  abbrev pub Inserted : BuyOrder F → List (Bread F) → Tables F P → ℤ → Tables F P → Type 0
  Inserted order breads t id t' =
      (order_by_uuid order.buy_order_uuid t.orders ≡ none)
      × (order_by_id id t.orders ≡ none)
      × (member order.customer_id t.customers ≡ true)
      × (t' ≡ with_details id breads (with_order (processing id order) t))

  -- The row of an order that is inserted.
  abbrev Placed : BuyOrder F → Tables F P → ℤ → Tables F P → Type 0
  Placed order t id t' =
      (order_by_uuid order.buy_order_uuid t.orders ≡ none)
      × (order_by_id id t.orders ≡ none)
      × (member order.customer_id t.customers ≡ true)
      × (t' ≡ with_order (processing id order) t)

  insert_order_row-Placed :
      (order : BuyOrder F) (i : ℤ) (t : Tables F P) (id : ℤ) (t' : Tables F P)
      → insert_order_row (processing i order) t ≡ ok (id, t')
      → Placed order t id t'
  unfolding insert_order_row
  insert_order_row-Placed order i t id t' h = elim (Bool-cases (is_some (order_by_id i t.orders))) [
    | inl a ↦ absurd (ground (arith, h, a))
    | inr a ↦ elim (Bool-cases (is_some (order_by_uuid order.buy_order_uuid t.orders))) [
      | inl b ↦ absurd (ground (arith, h, a, b))
      | inr b ↦ elim (Bool-cases (member order.customer_id t.customers)) [
        | inl c ↦
            let row = processing i order in
            let e : insert_order_row row t ≡ ok (i, with_order row t) = rw (a, b, c) refl in
            subst (λ (p : ℤ × Tables F P). Placed order t p.0 p.1)
              (ok_value (i, with_order row t) (id, t') (sym e ∙ h))
              (is_some-false _ b, is_some-false _ a, c, refl)
        | inr c ↦ absurd (ground (arith, h, a, b, c))
      ]
    ]
  ]

  insert_order-Placed :
      (order : BuyOrder F) (d : Db F P)
      → Holds
          (Placed order d.tables)
          (λ t. t ≡ d.tables)
          (insert_order order.customer_id order.buy_order_uuid "processing" d)
  unfolding insert_order
  insert_order-Placed order d =
      Holds-mono _ (λ t. t ≡ d.tables) (Placed order d.tables) (λ t. t ≡ d.tables)
        (λ id t h. insert_order_row-Placed order d.next_order d.tables id t h) (λ _ e. e) _
        (exec-Holds (insert_order_row (processing d.next_order order))
          (record d { next_order = d.next_order +ℤ pos 1 }))

  insert_detail_row-Adds :
      (order_id : ℤ) (b : Bread F) (t : Tables F P) (x : Unit {0}) (t' : Tables F P)
      → insert_detail_row (detail_row t.numeric order_id b) t ≡ ok (x, t')
      → t' ≡ with_details order_id (b ∷ []) t
  unfolding insert_detail_row
  insert_detail_row-Adds order_id b t x t' h =
      let taken = has_detail order_id b.id t.details in
      let orphan = not (is_some (order_by_id order_id t.orders)) || not (has_bread b.id t.breads) in
      elim (Bool-cases taken) [
        | inl a ↦ absurd (ground (arith, h, a))
        | inr a ↦ elim (Bool-cases orphan) [
          | inl c ↦ absurd (ground (arith, h, a, c))
          | inr c ↦
              let t1 = with_details order_id (b ∷ []) t in
              let e : insert_detail_row (detail_row t.numeric order_id b) t ≡ ok (tt, t1) =
                rw (a, c) refl in
              sym (ap (λ (p : Unit {0} × Tables F P). p.1) (ok_value (tt, t1) (x, t') (sym e ∙ h)))
        ]
      ]

  insert_details-Adds :
      (order_id : ℤ) (bs : List (Bread F)) (d : Db F P)
      → Holds
          (λ _ t. t ≡ with_details order_id bs d.tables)
          (λ _. Unit {0})
          (insert_details order_id bs d)
  unfolding insert_details
  insert_details-Adds order_id [] d =
      ap (λ (l : List (DetailRow F)). record d.tables { details = l })
        (sym (append-nil d.tables.details))
  insert_details-Adds order_id (b ∷ bs) d =
      let f = λ (t : Tables F P). insert_detail_row (detail_row t.numeric order_id b) t in
      let one = with_details order_id (b ∷ []) d.tables in
      and_then-Holds (λ x t. f d.tables ≡ ok (x, t)) (λ t. t ≡ d.tables)
        (λ _ t. t ≡ with_details order_id (b ∷ bs) d.tables) (λ _. Unit {0})
        (λ _. insert_details order_id bs) (exec f d) (exec-Holds f d)
        (λ x d' h.
          Holds-mono (λ _ t. t ≡ with_details order_id bs d'.tables) (λ _. Unit {0})
            (λ _ t. t ≡ with_details order_id (b ∷ bs) d.tables) (λ _. Unit {0})
            (λ _ t e.
              e
              ∙ ap (with_details order_id bs)
                  (insert_detail_row-Adds order_id b d.tables x d'.tables h)
              ∙ ap (λ (l : List (DetailRow F)). record d.tables { details = l })
                  (append_assoc d.tables.details (detail_row d.tables.numeric order_id b ∷ [])
                    (map (detail_row d.tables.numeric order_id) bs)))
            (λ _ _. tt) (insert_details order_id bs d') (insert_details-Adds order_id bs d'))
        (λ _ _. tt)

  -- A call that succeeds returns an id that no order had, for a UUID that no order had and a known
  -- customer, and has added that order, in the status `processing`, and a pending detail for each
  -- bread, and nothing else: the stock is as it was. A call that fails, at whatever statement,
  -- leaves the tables as they were.
  pub insert_buy_order-Inserted :
      (order : BuyOrder F) (breads : List (Bread F)) (d : Db F P)
      → Holds (Inserted order breads d.tables) (λ t. t ≡ d.tables) (insert_buy_order order breads d)
  unfolding insert_buy_order
  insert_buy_order-Inserted order breads d =
      transaction-Holds (Inserted order breads d.tables) (insert_all order breads) d (λ d' e.
        subst
          (λ (t0 : Tables F P).
            Holds (Inserted order breads t0) (λ _. Unit {0}) (insert_all order breads d'))
          e
          (and_then-Holds (Placed order d'.tables) (λ t. t ≡ d'.tables)
            (Inserted order breads d'.tables) (λ _. Unit {0}) _
            (insert_order order.customer_id order.buy_order_uuid "processing" d')
            (insert_order-Placed order d')
            (λ id d'' p.
              and_then-Holds (λ _ t. t ≡ with_details id breads d''.tables) (λ _. Unit {0})
                (Inserted order breads d'.tables) (λ _. Unit {0}) (λ _. pure id)
                (insert_details id breads d'') (insert_details-Adds id breads d'')
                (λ _ d3 h. (p.0, p.1, p.2, h ∙ ap (with_details id breads) p.3)) (λ _ _. tt))
            (λ _ _. tt)))
