-- ===== src/Server/Lookup/Replies.antt =====
-- What `BuyOrder` replies.
use bakery_go.Common.{
  ◌≡◌, refl, List, [], ◌∷◌, ◌++◌, Option, none, some, map, ap, ◌∙◌, sym, subst, ◌*◌, arith, String,
  length, length-append,
}
use bakery_go.Common.Int.{ℤ, int32}
use bakery_go.Common.Floats.{Floats}
use bakery_go.Data.Types.{BuyOrder}
use bakery_go.Data.Db.{OrderRow, DetailRow, Tables, Db, Result, ok, err, exec}
use bakery_go.Data.Db.Hoare.{Holds, Holds-mono, exec-Holds, ok_value}
use bakery_go.Data.Orders.{order_by_uuid, details_in, bread_of, read_order, get_buy_order_by_uuid}
use bakery_go.Data.Orders.Reading.{total_cost, get_order_total_cost}
use bakery_go.Data.Orders.Reading.Found.{FoundBy, get_buy_order_by_uuid-FoundBy}
use bakery_go.Proto
use bakery_go.Proto.{BuyOrderDetails, BuyOrderList}
use bakery_go.Server.Shop.{Reply, replied, fails, internal, proto_bread}
use bakery_go.Server.Lookup.{
  details_for, details_of_order, order_list, with_cost, reply_for, after_order, buy_order,
}

length-map : {A B : Type 0} (f : A → B) (l : List A) → length (map f l) ≡ length l
length-map f [] = refl
length-map f (x ∷ l) = omega (arith, length-map f l)

module _ {F : Type 0} (fl : Floats F) where
  -- The element for a row of the order.
  abbrev pub details_row : BuyOrder F → DetailRow F → Option (BuyOrderDetails F)
  details_row order row = some (record {
    buy_order_id = int32 order.id;
    buy_order_uuid = order.buy_order_uuid;
    bread_id = int32 row.bread_id;
    quantity = int32 row.quantity;
    price = row.price;
    status = "";
  })

  -- An element that was never set.
  abbrev pub unset : DetailRow F → Option (BuyOrderDetails F)
  unset row = none

  set_rows :
      (order : BuyOrder F) (rows : List (DetailRow F))
      → map (λ b. some (details_for order b)) (map proto_bread (map (bread_of fl) rows))
        ≡ map (details_row order) rows
  set_rows order [] = refl
  set_rows order (r ∷ rs) = ap (λ l. details_row order r ∷ l) (set_rows order rs)

  unset_rows :
      (rows : List (DetailRow F))
      → map (λ (b : Proto.Bread F). none) (map proto_bread (map (bread_of fl) rows))
        ≡ map unset rows
  unset_rows [] = refl
  unset_rows (r ∷ rs) = ap (λ (l : List (Option (BuyOrderDetails F))). none ∷ l) (unset_rows rs)

  details_of_order-rows :
      (r : OrderRow) (rows : List (DetailRow F))
      → details_of_order (read_order fl r rows)
        ≡ map unset rows ++ map (details_row (read_order fl r rows)) rows
  unfolding details_of_order
  details_of_order-rows r rows =
      ap
        (λ l.
          l
          ++ map (λ b. some (details_for (read_order fl r rows) b))
              (map proto_bread (map (bread_of fl) rows)))
        (unset_rows rows)
      ∙ ap (λ l. map unset rows ++ l) (set_rows (read_order fl r rows) rows)

module _ {F P : Type 0} (fl : Floats F) where
  -- The reply is that of the row with the UUID.
  abbrev pub RepliesFor : String → Tables F P → BuyOrderList F → Type 0
  RepliesFor uuid t l =
      (r : OrderRow) × (order_by_uuid uuid t.orders ≡ some r)
      × (l.id ≡ int32 r.id)
      × (l.customer_id ≡ int32 r.customer_id)
      × (l.buy_order_uuid ≡ r.buy_order_uuid)
      × (l.total_cost ≡ total_cost fl r.id t)
      × (l.buy_order_details
          ≡ map (unset fl) (details_in r.id t)
            ++ map (details_row fl (read_order fl r (details_in r.id t))) (details_in r.id t))
      × (length l.buy_order_details ≡ 2 * length (details_in r.id t))

  abbrev pub Answers : String → Tables F P → Reply (BuyOrderList F) × Db F P → Type 0
  Answers uuid t (replied l, d) = (d.tables ≡ t) × RepliesFor uuid t l
  Answers uuid t (fails c, d) = (d.tables ≡ t) × (c ≡ internal)

  read-RepliesFor :
      (uuid : String) (t : Tables F P) (r : OrderRow)
      → order_by_uuid uuid t.orders ≡ some r
      → RepliesFor uuid t (order_list (read_order fl r (details_in r.id t)) (total_cost fl r.id t))
  read-RepliesFor uuid t r row =
      let rows = details_in r.id t in
      let unset_part = map (unset fl) rows in
      let set_part = map (details_row fl (read_order fl r rows)) rows in
      let e = details_of_order-rows fl r rows in
      (
        r,
        row,
        refl,
        refl,
        refl,
        refl,
        e,
        ap length e
            ∙ omega (
              arith,
              length-append unset_part set_part,
              length-map (unset fl) rows,
              length-map (details_row fl (read_order fl r rows)) rows,
            ),
      )

  cost-Answers :
      (uuid : String) (t : Tables F P) (order : BuyOrder F) (r : Result F × Db F P)
      → RepliesFor uuid t (order_list order (total_cost fl order.id t))
      → Holds (λ c t'. (c ≡ total_cost fl order.id t) × (t' ≡ t)) (λ t'. t' ≡ t) r
      → Answers uuid t (with_cost fl order r)
  cost-Answers uuid t order (err e, d) a h = (h, refl)
  cost-Answers uuid t order (ok c, d) a h =
      (h.1, subst (λ (x : F). RepliesFor uuid t (order_list order x)) (sym h.0) a)

  pub get_order_total_cost-Holds :
      (id : ℤ) (d : Db F P)
      → Holds
          (λ c t. (c ≡ total_cost fl id d.tables) × (t ≡ d.tables))
          (λ t. t ≡ d.tables)
          (get_order_total_cost fl id d)
  unfolding get_order_total_cost
  get_order_total_cost-Holds id d =
      let read = λ (t : Tables F P). ok (total_cost fl id t, t) in
      Holds-mono (λ c t. read d.tables ≡ ok (c, t)) (λ t. t ≡ d.tables)
        (λ c t. (c ≡ total_cost fl id d.tables) × (t ≡ d.tables)) (λ t. t ≡ d.tables)
        (λ c t h.
          let p = ok_value (total_cost fl id d.tables, d.tables) (c, t) h in
          (sym (ap (λ (q : F × Tables F P). q.0) p), sym (ap (λ (q : F × Tables F P). q.1) p)))
        (λ _ e. e) (exec read d) (exec-Holds read d)

  reply_for-Answers :
      (uuid : String) (t : Tables F P) (order : BuyOrder F) (d : Db F P)
      → d.tables ≡ t
      → RepliesFor uuid t (order_list order (total_cost fl order.id t))
      → Answers uuid t (reply_for fl order d)
  unfolding reply_for
  reply_for-Answers uuid t order d e a =
      cost-Answers uuid t order (get_order_total_cost fl order.id d) a (
        subst
          (λ (u : Tables F P).
            Holds (λ c t'. (c ≡ total_cost fl order.id u) × (t' ≡ u)) (λ t'. t' ≡ u)
              (get_order_total_cost fl order.id d))
          e (get_order_total_cost-Holds order.id d))

  order-Answers :
      (uuid : String) (t : Tables F P) (r : Result (BuyOrder F) × Db F P)
      → Holds (FoundBy fl (order_by_uuid uuid) t) (λ t'. t' ≡ t) r
      → Answers uuid t (after_order fl r)
  order-Answers uuid t (err e, d) h = (h, refl)
  order-Answers uuid t (ok order, d) h =
      let r = h.1.0 in
      reply_for-Answers uuid t order d h.0 (
        subst (λ (o : BuyOrder F). RepliesFor uuid t (order_list o (total_cost fl o.id t)))
          (sym h.1.2) (read-RepliesFor uuid t r h.1.1))

  -- BuyOrder. A reply is about the order with the UUID: its ids as 32-bit numbers, its UUID, and the
  -- total of its rows. The list of details has twice as many elements as the order has rows: the
  -- first half was never set, and the second half has the rows in their order. Every error has the
  -- code for an internal one, and no call changes the tables.
  pub buy_order-Answers : (uuid : String) (d : Db F P) → Answers uuid d.tables (buy_order fl uuid d)
  unfolding buy_order
  buy_order-Answers uuid d =
      order-Answers uuid d.tables (get_buy_order_by_uuid fl uuid d)
        (get_buy_order_by_uuid-FoundBy fl uuid d)
