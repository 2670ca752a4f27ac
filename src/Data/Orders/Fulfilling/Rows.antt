-- ===== src/Data/Orders/Fulfilling/Rows.antt =====
-- What `FulfillOrderTx` leaves of each row of the stock.
use bakery_go.Common.{
  String, ◌≡◌, refl, true, false, List, [], ◌∷◌, Option, none, some, ap, ◌∙◌, sym, Bool-cases, inl,
  inr, if◌then◌else◌, ◌||◌, ◌&&◌, not, arith,
}
use bakery_go.Common.Int.{int64, ◌+ℤ◌, ℤ, pos, ◌-ℤ◌, eqb_ℤ, ltb_ℤ}
use bakery_go.Common.Sorting.{Sorter}
use bakery_go.Data.Types.{Bread, BuyOrder}
use bakery_go.Data.Db.{Tables, Db, Result, ok, pure, exec, ◌>>=◌, ◌>>◌}
use bakery_go.Data.Db.Hoare.{
  Holds, Holds-mono, and_then-Holds, exec-Holds, ok_value, transaction-Holds,
}
use bakery_go.Data.Stock.{fulfillable, quantity_of, select_quantity, exec_update_quantity}
use bakery_go.Data.Stock.Rows.{map_option}
use bakery_go.Data.Stock.Statements.{
  Same, ReadAs, Written, select_quantity-Holds, exec_update_quantity-Holds,
}
use bakery_go.Data.Orders.{is_some, order_by_id, valid_status}
use bakery_go.Data.Orders.Fulfilling.{
  set_status_by_id, Totals, nothing_yet, tx_order_status, with_status, with_quantity, by_id,
  exec_set_detail, no_stock, some_stock, after_lock, counted, fulfill_each, status_by_id_rows,
  fulfill_sorted, fulfill_order_tx,
}
use bakery_go.Data.Orders.Fulfilling.Leaving.{
  left_by, left_after, Row, exec_set_detail-keeps, Row-trans, kept-Row, written-Row,
}

module _ {F P : Type 0} (j : ℤ) where
  no_stock-Row :
      (order : BuyOrder F) (b : Bread F) (acc : Totals) (q : ℤ) (d : Db F P)
      → eqb_ℤ q (pos 0) ≡ true
      → quantity_of b.id d.tables.breads ≡ some q
      → Holds (λ _. Row j (left_by j b) d.tables) (λ _. Unit {0}) (no_stock order b acc d)
  no_stock-Row order b acc q d zero_q row =
      elim (Bool-cases (order.skip_unavailable_items || order.allow_partial)) [
        | inl soft ↦ rw soft (marked "skipped" acc)
        | inr hard ↦ rw hard (marked "rejected" (record acc { has_rejected = true }))
      ]
    where
      marked :
          (s : String) (acc' : Totals)
          → Holds
              (λ _. Row j (left_by j b) d.tables)
              (λ _. Unit {0})
              ((exec_set_detail order.id b.id (with_status s) >> pure acc') d)
      marked s acc' =
          and_then-Holds (λ _ t. t.breads ≡ d.tables.breads) (λ _. Unit {0})
            (λ _. Row j (left_by j b) d.tables) (λ _. Unit {0}) (λ _. pure acc')
            (exec_set_detail order.id b.id (with_status s) d)
            (exec_set_detail-keeps order.id b.id (with_status s) d)
            (λ _ d' same. kept-Row j b q d.tables d'.tables zero_q row same) (λ _ _. tt)

  some_stock-Row :
      (order : BuyOrder F) (b : Bread F) (acc : Totals) (q : ℤ) (d : Db F P)
      → eqb_ℤ q (pos 0) ≡ false
      → quantity_of b.id d.tables.breads ≡ some q
      → Holds
          (λ _. Row j (left_by j b) d.tables)
          (λ _. Unit {0})
          (some_stock order b (fulfillable b.quantity q) acc d)
  some_stock-Row order b acc q d some_q row =
      let n = fulfillable b.quantity q in
      let take = λ (p : ℤ). p -ℤ n in
      let mark =
        with_quantity n (if ltb_ℤ n b.quantity then "partially_fulfilled" else "fulfilled") in
      let done = record acc { total_fulfilled = int64 (acc.total_fulfilled +ℤ n) } in
      and_then-Holds (Written b.id take d.tables) (λ _. Unit {0})
        (λ _. Row j (left_by j b) d.tables) (λ _. Unit {0})
        (λ _. exec_set_detail order.id b.id mark >> pure done) (exec_update_quantity b.id take d)
        (Holds-mono (Written b.id take d.tables) (Same d.tables) (Written b.id take d.tables)
          (λ _. Unit {0}) (λ _ _ w. w) (λ _ _. tt) (exec_update_quantity b.id take d)
          (exec_update_quantity-Holds b.id take d))
        (λ _ d' w.
          and_then-Holds (λ _ t. t.breads ≡ d'.tables.breads) (λ _. Unit {0})
            (λ _. Row j (left_by j b) d.tables) (λ _. Unit {0}) (λ _. pure done)
            (exec_set_detail order.id b.id mark d') (exec_set_detail-keeps order.id b.id mark d')
            (λ _ d'' same.
              ap (quantity_of j) same ∙ written-Row j b q d.tables d'.tables some_q row w.0)
            (λ _ _. tt))
        (λ _ _. tt)

  after_lock-Row :
      (order : BuyOrder F) (b : Bread F) (acc : Totals) (q : ℤ) (d : Db F P)
      → quantity_of b.id d.tables.breads ≡ some q
      → Holds (λ _. Row j (left_by j b) d.tables) (λ _. Unit {0}) (after_lock order b acc q d)
  after_lock-Row order b acc q d row = elim (Bool-cases (eqb_ℤ q (pos 0))) [
    | inl empty ↦ rw empty (no_stock-Row order b acc q d empty row)
    | inr stocked ↦ rw stocked (some_stock-Row order b acc q d stocked row)
  ]

  fulfill_each-Row :
      (order : BuyOrder F) (bs : List (Bread F)) (acc : Totals) (d : Db F P)
      → Holds (λ _. Row j (left_after j bs) d.tables) (λ _. Unit {0}) (fulfill_each order bs acc d)
  unfolding fulfill_each left_after
  fulfill_each-Row order [] acc d = same (quantity_of j d.tables.breads)
    where
      same : (o : Option ℤ) → o ≡ map_option (λ q. q) o
      same none = refl
      same (some q) = refl
  fulfill_each-Row order (b ∷ bs) acc d =
      let step = left_by j b in
      let acc' = counted b acc in
      and_then-Holds (ReadAs b.id d.tables) (λ _. Unit {0})
        (λ _. Row j (left_after j (b ∷ bs)) d.tables) (λ _. Unit {0})
        (λ q. after_lock order b acc' q >>= fulfill_each order bs) (select_quantity b.id d)
        (Holds-mono (ReadAs b.id d.tables) (Same d.tables) (ReadAs b.id d.tables) (λ _. Unit {0})
          (λ _ _ r. r) (λ _ _. tt) (select_quantity b.id d) (select_quantity-Holds b.id d))
        (λ q d1 r.
          let row = ap (λ (u : Tables F P). quantity_of b.id u.breads) r.0 ∙ r.1 in
          and_then-Holds (λ _. Row j step d1.tables) (λ _. Unit {0})
            (λ _. Row j (left_after j (b ∷ bs)) d.tables) (λ _. Unit {0}) (fulfill_each order bs)
            (after_lock order b acc' q d1) (after_lock-Row order b acc' q d1 row)
            (λ acc2 d2 h.
              Holds-mono (λ _. Row j (left_after j bs) d2.tables) (λ _. Unit {0})
                (λ _. Row j (left_after j (b ∷ bs)) d.tables) (λ _. Unit {0})
                (λ _ t k.
                  Row-trans j step (left_after j bs) d.tables d2.tables t
                    (h ∙ ap (λ (u : Tables F P). map_option step (quantity_of j u.breads)) r.0) k)
                (λ _ _. tt) (fulfill_each order bs acc2 d2) (fulfill_each-Row order bs acc2 d2))
            (λ _ _. tt))
        (λ _ _. tt)

  status_by_id_rows-keeps :
      (id : ℤ) (s : String) (t : Tables F P) (x : Unit {0}) (t' : Tables F P)
      → status_by_id_rows id s t ≡ ok (x, t')
      → t'.breads ≡ t.breads
  unfolding status_by_id_rows
  status_by_id_rows-keeps id s t x t' h =
      elim (Bool-cases (is_some (order_by_id id t.orders) && not (valid_status s))) [
        | inl bad ↦ absurd (ground (arith, h, bad))
        | inr good ↦
            let u = record t { orders = set_status_by_id id s t.orders } in
            let e : status_by_id_rows id s t ≡ ok (tt, u) = rw good refl in
            sym (
              ap (λ (p : Unit {0} × Tables F P). p.1.breads) (ok_value (tt, u) (x, t') (sym e ∙ h)))
      ]

  -- A whole order against the stock. If the transaction goes through, every row of the stock is as
  -- serving the order's breads one after another, by ascending id, leaves it: untouched if it is of
  -- another bread or empty, emptied if more is asked for than there is, and reduced by the number
  -- asked for otherwise. If anything fails, the tables are as they were.
  pub fulfill_order_tx-Row :
      (sorter : Sorter (Bread F)) (order : BuyOrder F) (d : Db F P)
      → Holds
          (λ _ t.
            quantity_of j t.breads
            ≡ map_option
                (left_after j (sorter.sort by_id order.breads))
                (quantity_of j d.tables.breads))
          (Same d.tables)
          (fulfill_order_tx sorter order d)
  unfolding fulfill_order_tx
  fulfill_order_tx-Row sorter order d =
      let bs = sorter.sort by_id order.breads in
      transaction-Holds (λ _. Row j (left_after j bs) d.tables) (fulfill_sorted order bs) d
        (λ d' e.
          and_then-Holds (λ _. Row j (left_after j bs) d'.tables) (λ _. Unit {0})
            (λ _. Row j (left_after j bs) d.tables) (λ _. Unit {0}) (set_order order)
            (fulfill_each order bs nothing_yet d') (fulfill_each-Row order bs nothing_yet d')
            (λ totals d2 h.
              let f = status_by_id_rows order.id (tx_order_status order.allow_partial totals) in
              Holds-mono (λ x t. f d2.tables ≡ ok (x, t)) (λ t. t ≡ d2.tables)
                (λ _. Row j (left_after j bs) d.tables) (λ _. Unit {0})
                (λ x t k.
                  ap (quantity_of j) (
                    status_by_id_rows-keeps order.id (tx_order_status order.allow_partial totals)
                      d2.tables x t k)
                  ∙ h
                  ∙ ap (λ (u : Tables F P). map_option (left_after j bs) (quantity_of j u.breads))
                      e)
                (λ _ _. tt) (exec f d2) (exec-Holds f d2))
            (λ _ _. tt))
    where
      set_order : BuyOrder F → Totals → Db F P → Result (Unit {0}) × Db F P
      set_order order totals =
          exec (status_by_id_rows order.id (tx_order_status order.allow_partial totals))
