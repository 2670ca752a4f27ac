-- ===== src/Server/BrokerService/Ordering.antt =====
-- `ReportOrder`: what it stores and answers.
use bakery_go.Common.{
  ◌≡◌, ◌⊎◌, inl, inr, refl, Option, none, some, sym, ap, ◌∙◌, subst, String, arith,
}
use bakery_go.Common.Int.{ℤ}
use bakery_go.Common.Floats.{Floats}
use bakery_go.Data.Types.{BuyOrder}
use bakery_go.Data.Db.{OrderRow, Tables, Db, Result, ok, err, pure, exec}
use bakery_go.Data.Db.Hoare.{Holds, Holds-mono, and_then-Holds, exec-Holds, ok_value}
use bakery_go.Data.Orders.{
  order_by_uuid, details_in, row_of, read_order, get_buy_order_by_uuid, insert_buy_order,
}
use bakery_go.Data.Orders.Inserting.{Inserted, insert_buy_order-Inserted}
use bakery_go.Data.Orders.Keys.{UniqueUuids, UniqueUuids-append}
use bakery_go.Proto
use bakery_go.Proto.{BrokerOrderResult}
use bakery_go.Server.BrokerService.{
  proto_to_data_buy_order, proto_to_data_breads, duplicate, accepted_as, unless_known, report_order,
}

module _ {F P : Type 0} where
  abbrev pub Same : Tables F P → Tables F P → Type 0
  Same t t' = t' ≡ t

  -- A look-up that finds an order has found the row of its UUID.
  abbrev Known : String → Tables F P → BuyOrder F → Tables F P → Type 0
  Known uuid t o t' = (t' ≡ t) × ((r : OrderRow) × (order_by_uuid uuid t.orders ≡ some r))

  row_of-Known :
      (uuid : String) (t : Tables F P) (o : Option OrderRow) (r : OrderRow) (t' : Tables F P)
      → order_by_uuid uuid t.orders ≡ o
      → row_of o t ≡ ok (r, t')
      → (t' ≡ t) × (order_by_uuid uuid t.orders ≡ some r)
  row_of-Known uuid t none r t' e h = absurd (ground (arith, h))
  row_of-Known uuid t (some o) r t' e h =
      let p = ok_value (o, t) (r, t') h in
      (
        sym (ap (λ (q : OrderRow × Tables F P). q.1) p),
        e ∙ ap (λ (q : OrderRow × Tables F P). some q.0) p,
      )

  get_buy_order_by_uuid-Known :
      (fl : Floats F) (uuid : String) (d : Db F P)
      → Holds (Known uuid d.tables) (Same d.tables) (get_buy_order_by_uuid fl uuid d)
  unfolding get_buy_order_by_uuid
  get_buy_order_by_uuid-Known fl uuid d =
      let find = λ (t : Tables F P). row_of (order_by_uuid uuid t.orders) t in
      and_then-Holds (λ r t. find d.tables ≡ ok (r, t)) (Same d.tables) (Known uuid d.tables)
        (Same d.tables) _ (exec find d) (exec-Holds find d)
        (λ r d' h.
          let k = row_of-Known uuid d.tables _ r d'.tables refl h in
          let rows = λ (t : Tables F P). ok (details_in r.id t, t) in
          and_then-Holds (λ l t. rows d'.tables ≡ ok (l, t)) (Same d'.tables) (Known uuid d.tables)
            (Same d.tables) (λ l. pure (read_order fl r l)) (exec rows d') (exec-Holds rows d')
            (λ l d'' h'. (
              sym (
                    ap (λ q. q.1)
                      (ok_value (details_in r.id d'.tables, d'.tables) (l, d''.tables) h'))
                  ∙ k.0,
              (r, k.1),
            ))
            (λ t e. e ∙ k.0))
        (λ _ e. e)

  -- What a reply tells: a duplicate, whose UUID is stored and which changed nothing, or a new order.
  abbrev pub Reported : Proto.BuyOrder F → Tables F P → BrokerOrderResult → Tables F P → Type 0
  Reported req t r t' =
      ((r ≡ duplicate)
        × (t' ≡ t)
        × ((row : OrderRow) × (order_by_uuid req.buy_order_uuid t.orders ≡ some row)))
      ⊎ ((id : ℤ) × (r ≡ accepted_as id)
          × Inserted (proto_to_data_buy_order req) (proto_to_data_breads req.items) t id t')

  unless_known-Reported :
      (req : Proto.BuyOrder F) (t : Tables F P) (r : Result (BuyOrder F) × Db F P)
      → Holds (Known req.buy_order_uuid t) (Same t) r
      → Holds (Reported req t) (Same t) (unless_known req r)
  unless_known-Reported req t (ok o, d) k = inl (refl, k.0, k.1)
  unless_known-Reported req t (err x, d) e =
      let order = proto_to_data_buy_order req in
      let breads = proto_to_data_breads req.items in
      and_then-Holds (Inserted order breads d.tables) (Same d.tables) (Reported req t) (Same t)
        (λ id. pure (accepted_as id)) (insert_buy_order order breads d)
        (insert_buy_order-Inserted order breads d)
        (λ id d' i.
          inr (id, refl, subst (λ (t0 : Tables F P). Inserted order breads t0 id d'.tables) e i))
        (λ t' s. s ∙ e)

  -- A reported order is answered as a duplicate and changes nothing, or it is accepted, its UUID was
  -- no order's, and it is stored with a detail for each item. If the handler fails, nothing is
  -- stored. This holds also when the look-up of the UUID fails for another reason.
  pub report_order-Reported :
      (fl : Floats F) (req : Proto.BuyOrder F) (d : Db F P)
      → Holds (Reported req d.tables) (Same d.tables) (report_order fl req d)
  unfolding report_order
  report_order-Reported fl req d =
      unless_known-Reported req d.tables _ (get_buy_order_by_uuid-Known fl req.buy_order_uuid d)

  -- An order whose UUID is stored is never stored again: the reply is the one for a duplicate, or
  -- the handler fails, and the tables stay as they were.
  pub report_order_again :
      (fl : Floats F) (req : Proto.BuyOrder F) (o : OrderRow) (d : Db F P)
      → order_by_uuid req.buy_order_uuid d.tables.orders ≡ some o
      → Holds (λ r t. (r ≡ duplicate) × (t ≡ d.tables)) (Same d.tables) (report_order fl req d)
  unfolding proto_to_data_buy_order
  report_order_again fl req o d known =
      Holds-mono (Reported req d.tables) (Same d.tables) (λ r t. (r ≡ duplicate) × (t ≡ d.tables))
        (Same d.tables)
        (λ r t c. elim c [
          | inl same ↦ (same.0, same.1)
          | inr new ↦ absurd (ground (arith, known, new.2.0))
        ])
        (λ _ e. e) (report_order fl req d) (report_order-Reported fl req d)

  -- Reports keep the UUIDs of the stored orders apart.
  pub report_order-UniqueUuids :
      (fl : Floats F) (req : Proto.BuyOrder F) (d : Db F P)
      → UniqueUuids d.tables.orders
      → Holds (λ _ t. UniqueUuids t.orders) (λ t. UniqueUuids t.orders) (report_order fl req d)
  unfolding proto_to_data_buy_order
  report_order-UniqueUuids fl req d u =
      Holds-mono (Reported req d.tables) (Same d.tables) (λ _ t. UniqueUuids t.orders)
        (λ t. UniqueUuids t.orders)
        (λ r t c. elim c [
          | inl same ↦ subst (λ (t0 : Tables F P). UniqueUuids t0.orders) (sym same.1) u
          | inr new ↦
              subst (λ (t0 : Tables F P). UniqueUuids t0.orders) (sym new.2.3)
                (UniqueUuids-append d.tables.orders _ u new.2.0)
        ])
        (λ t e. subst (λ (t0 : Tables F P). UniqueUuids t0.orders) (sym e) u)
        (report_order fl req d) (report_order-Reported fl req d)
