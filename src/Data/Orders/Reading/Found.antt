-- ===== src/Data/Orders/Reading/Found.antt =====
-- What the look-ups of an order by its UUID and by its id give out.
use bakery_go.Common.{none, ◌≡◌, refl, List, Option, none, some, ap, ◌∙◌, sym, arith, String}
use bakery_go.Common.Int.{ℤ}
use bakery_go.Common.Floats.{Floats}
use bakery_go.Data.Types.{BuyOrder}
use bakery_go.Data.Db.{OrderRow, Tables, Db, ok, M, ◌>>=◌, pure, exec}
use bakery_go.Data.Db.Hoare.{Holds, and_then-Holds, exec-Holds, ok_value}
use bakery_go.Data.Orders.{
  order_by_uuid, order_by_id, details_in, row_of, read_order, get_buy_order_by_uuid,
  get_buy_order_by_id,
}

module _ {F P : Type 0} (fl : Floats F) where
  -- What a look-up gives out is the row that `find` finds with its details, and nothing changes.
  abbrev pub FoundBy :
      (List OrderRow → Option OrderRow) → Tables F P → BuyOrder F → Tables F P → Type 0
  FoundBy find t o t' =
      (t' ≡ t)
      × ((r : OrderRow) × (find t.orders ≡ some r) × (o ≡ read_order fl r (details_in r.id t)))

  abbrev read_by : (List OrderRow → Option OrderRow) → M (Db F P) (BuyOrder F)
  read_by find = do
    o ← exec (λ t. row_of (find t.orders) t)
    rows ← exec (λ t. ok (details_in o.id t, t))
    pure (read_order fl o rows)

  found-FoundBy :
      (find : List OrderRow → Option OrderRow) (d d' : Db F P) (r : OrderRow)
      → row_of (find d.tables.orders) d.tables ≡ ok (r, d'.tables)
      → (d'.tables ≡ d.tables) × (find d.tables.orders ≡ some r)
  found-FoundBy find d d' r h = go (find d.tables.orders) refl h
    where
      go :
          (o : Option OrderRow)
          → find d.tables.orders ≡ o
          → row_of o d.tables ≡ ok (r, d'.tables)
          → (d'.tables ≡ d.tables) × (find d.tables.orders ≡ some r)
      go none e h = absurd (ground (arith, h))
      go (some o) e h =
          let p = ok_value (o, d.tables) (r, d'.tables) h in
          (
            sym (ap (λ (q : OrderRow × Tables F P). q.1) p),
            e ∙ ap (λ (q : OrderRow × Tables F P). some q.0) p,
          )

  read_by-FoundBy :
      (find : List OrderRow → Option OrderRow) (d : Db F P)
      → Holds (FoundBy find d.tables) (λ t. t ≡ d.tables) (read_by find d)
  read_by-FoundBy find d =
      let row = λ (t : Tables F P). row_of (find t.orders) t in
      and_then-Holds (λ r t. row d.tables ≡ ok (r, t)) (λ t. t ≡ d.tables) (FoundBy find d.tables)
        (λ t. t ≡ d.tables) _ (exec row d) (exec-Holds row d)
        (λ r d' h.
          let k = found-FoundBy find d d' r h in
          let rows = λ (t : Tables F P). ok (details_in r.id t, t) in
          and_then-Holds (λ l t. rows d'.tables ≡ ok (l, t)) (λ t. t ≡ d'.tables)
            (FoundBy find d.tables) (λ t. t ≡ d.tables) (λ l. pure (read_order fl r l))
            (exec rows d') (exec-Holds rows d')
            (λ l d'' h'.
              let p = ok_value (details_in r.id d'.tables, d'.tables) (l, d''.tables) h' in
              (
                sym (ap (λ q. q.1) p) ∙ k.0,
                (
                  r,
                  k.1,
                  ap (read_order fl r)
                      (sym (ap (λ q. q.0) p) ∙ ap (λ (t : Tables F P). details_in r.id t) k.0),
                ),
              ))
            (λ t e. e ∙ k.0))
        (λ _ e. e)

  pub get_buy_order_by_uuid-FoundBy :
      (uuid : String) (d : Db F P)
      → Holds
          (FoundBy (order_by_uuid uuid) d.tables)
          (λ t. t ≡ d.tables)
          (get_buy_order_by_uuid fl uuid d)
  unfolding get_buy_order_by_uuid
  get_buy_order_by_uuid-FoundBy uuid d = read_by-FoundBy (order_by_uuid uuid) d

  pub get_buy_order_by_id-FoundBy :
      (id : ℤ) (d : Db F P)
      → Holds (FoundBy (order_by_id id) d.tables) (λ t. t ≡ d.tables) (get_buy_order_by_id fl id d)
  unfolding get_buy_order_by_id
  get_buy_order_by_id-FoundBy id d = read_by-FoundBy (order_by_id id) d
