-- ===== src/Broker/Stock.antt =====
-- The matching engine of broker/matching.go over the client of broker/main.go and the server's
-- ReserveInventory: what a batch takes from the stock. `Q` is whatever the publishing of results
-- changes.
use bakery_go.Common.{
  ℕ, suc, ◌≡◌, refl, inl, inr, true, Bool-cases, List, [], ◌∷◌, ◌++◌, Option, none, some, ap, ◌∙◌,
  sym, subst, arith, ◌||◌,
}
use bakery_go.Common.Int.{
  ℤ, pos, ◌+ℤ◌, ◌-ℤ◌, ◌≤ℤ◌, eqb_ℤ, leb_ℤ, int32, int32-IsInt32, eq_of_parts, int_laws,
}
use bakery_go.Common.Floats.{Floats}
use bakery_go.Data.Types.{Bread, BuyOrder}
use bakery_go.Data.Db.{Tables, Db, Result, ok, err}
use bakery_go.Data.Stock.{quantity_of, non_negative}
use bakery_go.Data.Stock.Rows.{map_option, quantity_of_non_negative}
use bakery_go.Data.Stock.Draws.{share, Draws, Draws-none, Draws-trans}
use bakery_go.Proto.{
  ReserveInventoryRequest, ReserveInventoryResult, MatchingItemResult, MatchingBatchResult,
}
use bakery_go.Resilience.Breaker.{CircuitBreaker}
use bakery_go.Data.Db
use bakery_go.Broker.Client.{Network, reserve_inventory}
use bakery_go.Broker.Client.Reserving.{Tells, reserve_inventory-Called}
use bakery_go.Broker.Matching.{
  Progress, PublishResult, item, refuse, after_reserve, fulfill_bread, fulfill_breads, no_progress,
  fulfill_order, fulfill_orders,
}

-- The units of the bread `j` that some items grant.
unfoldable pub granted : ℤ → List MatchingItemResult → ℤ
granted j [] = pos 0
granted j (i ∷ is) = share i.bread_id j i.quantity_fulfilled +ℤ granted j is

-- The units of the bread `j` that some results grant.
unfoldable pub granted_all : {F : Type 0} → ℤ → List (MatchingBatchResult F) → ℤ
unfolding granted ◌+ℤ◌
granted_all j [] = pos 0
granted_all j (r ∷ rs) = granted j r.items +ℤ granted_all j rs

plus_zero : (a : ℤ) → a +ℤ pos 0 ≡ a
plus_zero a = eq_of_parts (a +ℤ pos 0) a (omega int_laws)

zero_plus : (a : ℤ) → pos 0 +ℤ a ≡ a
zero_plus a = eq_of_parts (pos 0 +ℤ a) a (omega int_laws)

plus_assoc : (a b c : ℤ) → (a +ℤ b) +ℤ c ≡ a +ℤ (b +ℤ c)
plus_assoc a b c = eq_of_parts ((a +ℤ b) +ℤ c) (a +ℤ (b +ℤ c)) (omega int_laws)

granted-append :
    (j : ℤ) (is : List MatchingItemResult) (i : MatchingItemResult)
    → granted j (is ++ i ∷ []) ≡ granted j is +ℤ share i.bread_id j i.quantity_fulfilled
unfolding granted
granted-append j [] i =
    let s = share i.bread_id j i.quantity_fulfilled in plus_zero s ∙ sym (zero_plus s)
granted-append j (k ∷ is) i =
    let s = share k.bread_id j k.quantity_fulfilled in
    ap (λ n. s +ℤ n) (granted-append j is i)
    ∙ sym (plus_assoc s (granted j is) (share i.bread_id j i.quantity_fulfilled))

share_zero : (id j : ℤ) → share id j (pos 0) ≡ pos 0
share_zero id j = elim (Bool-cases (eqb_ℤ id j)) [ inl h ↦ rw h refl | inr h ↦ rw h refl ]

leb_trans_plus : (a b c d : ℤ) → a ≤ℤ b → c ≤ℤ d → a +ℤ c ≤ℤ b +ℤ d
leb_trans_plus a b c d p q = omega (int_laws, p, q)

-- The broker's line to the server: the breaker of ReserveInventory, and the calls made.
pub record Line : Type 0 where
  pub breaker : CircuitBreaker
  pub calls : ℕ

abbrev pub kept_breaker : CircuitBreaker → Option CircuitBreaker → CircuitBreaker
kept_breaker cb none = cb
kept_breaker cb (some cb') = cb'

-- `nets` says what the network does in each call.
module _ {F P Q : Type 0} (nets : ℕ → Network Db.Error) (double : ℤ → ℤ) where
  -- The client's call.
  abbrev pub reserve_via :
      ReserveInventoryRequest
      → Db F P × (Line × Q)
      → Option ReserveInventoryResult × (Db F P × (Line × Q))
  reserve_via req (d, (line, q)) =
      let (reply, (run, d')) = reserve_inventory (nets line.calls) double line.breaker req d in
      (
        reply,
        (
          d',
          (record { breaker = kept_breaker line.breaker run.breaker; calls = suc line.calls }, q),
        ),
      )

  -- The items of `p` are those of `acc` and some more, and of the bread `j` there are gone as many
  -- units as these grant, or more.
  abbrev Accounts : ℤ → Progress F → Tables F P → Progress F × (Db F P × (Line × Q)) → Type 0
  Accounts j acc t r =
      (n : ℤ) × (m : ℤ) × (granted j r.0.items ≡ granted j acc.items +ℤ n)
      × (n ≤ℤ m)
      × Draws j m t r.1.0.tables

  refuse-Accounts :
      (fl : Floats F) (order : BuyOrder F) (b : Bread F) (j m : ℤ) (acc : Progress F)
      (t : Tables F P) (w : Db F P × (Line × Q))
      → pos 0 ≤ℤ m
      → Draws j m t w.0.tables
      → Accounts j acc t (refuse order b acc, w)
  refuse-Accounts fl order b j m acc t w p e =
      elim (Bool-cases (order.allow_partial || order.skip_unavailable_items)) [
        | inl soft ↦ (
          pos 0,
          m,
          rw soft (
              granted-append j acc.items (item b (pos 0) "skipped")
              ∙ ap (λ n. granted j acc.items +ℤ n) (share_zero (int32 b.id) j)),
          p,
          e,
        )
        | inr hard ↦ (
          pos 0,
          m,
          rw hard (
              granted-append j acc.items (item b (pos 0) "rejected")
              ∙ ap (λ n. granted j acc.items +ℤ n) (share_zero (int32 b.id) j)),
          p,
          e,
        )
      ]

  module _ (fl : Floats F) (order : BuyOrder F) (j : ℤ) where
    after_reserve-Accounts :
        (b : Bread F) (acc : Progress F) (l : Line × Q) (t : Tables F P)
        (req : ReserveInventoryRequest) (r : Option ReserveInventoryResult) (d : Db F P)
        → req.bread_id ≡ int32 b.id
        → (m : ℤ) × Tells j req r m × Draws j m t d.tables
        → Accounts j acc t (after_reserve fl order b acc (r, (d, l)))
    after_reserve-Accounts b acc l t req none d same (m, p, w) =
        refuse-Accounts fl order b j m acc t (d, l) p w
    after_reserve-Accounts b acc l t req (some r) d same (m, (p, inl missed), w) =
        rw missed (refuse-Accounts fl order b j m acc t (d, l) p w)
    after_reserve-Accounts b acc l t req (some r) d same (m, (p, inr got), w) = rw got.0 (
      share (int32 b.id) j r.quantity_fulfilled,
      m,
      granted-append j acc.items (item b r.quantity_fulfilled "fulfilled"),
      subst (λ (id : ℤ). share id j r.quantity_fulfilled ≤ℤ m) same got.1,
      w,
    )

    fulfill_bread-Accounts :
        (b : Bread F) (acc : Progress F) (w : Db F P × (Line × Q))
        → Accounts j acc w.0.tables (fulfill_bread fl reserve_via order b acc w)
    unfolding fulfill_bread
    fulfill_bread-Accounts b acc (d, (line, q)) =
        let req : ReserveInventoryRequest = record {
          bread_id = int32 b.id;
          quantity_requested = int32 b.quantity;
          buy_order_uuid = order.buy_order_uuid;
        } in
        let x = reserve_via req (d, (line, q)) in
        elim (Bool-cases (leb_ℤ b.quantity (pos 0))) [
          | inl zero_asked ↦ rw zero_asked (
            pos 0,
            pos 0,
            granted-append j acc.items (item b (pos 0) "skipped")
                ∙ ap (λ n. granted j acc.items +ℤ n) (share_zero (int32 b.id) j),
            omega arith,
            Draws-none j d.tables d.tables refl,
          )
          | inr asked ↦ rw asked (
              after_reserve-Accounts b acc x.1.1 d.tables req x.0 x.1.0 refl (
                reserve_inventory-Called j req (nets line.calls) (int32-IsInt32 b.quantity) double
                  line.breaker d))
        ]

    fulfill_breads-Accounts :
        (bs : List (Bread F)) (acc : Progress F) (w : Db F P × (Line × Q))
        → Accounts j acc w.0.tables (fulfill_breads fl reserve_via order bs acc w)
    unfolding fulfill_breads
    fulfill_breads-Accounts [] acc w = (
      pos 0,
      pos 0,
      sym (plus_zero (granted j acc.items)),
      omega arith,
      Draws-none j w.0.tables w.0.tables refl,
    )
    fulfill_breads-Accounts (b ∷ bs) acc w =
        let r = fulfill_bread fl reserve_via order b acc w in
        let one = fulfill_bread-Accounts b acc w in
        let more = fulfill_breads-Accounts bs r.0 r.1 in
        (
          one.0 +ℤ more.0,
          one.1 +ℤ more.1,
          more.2 ∙ ap (λ n. n +ℤ more.0) one.2 ∙ plus_assoc (granted j acc.items) one.0 more.0,
          leb_trans_plus one.0 one.1 more.0 more.1 one.3 more.3,
          Draws-trans j one.1 more.1 w.0.tables r.1.0.tables
              (fulfill_breads fl reserve_via order bs r.0 r.1).1.0.tables one.4 more.4,
        )

  -- Publishing touches neither the database nor the line.
  abbrev pub publish_at :
      (PublishResult F → Q → Q) → PublishResult F → Db F P × (Line × Q) → Db F P × (Line × Q)
  publish_at publish p (d, (line, q)) = (d, (line, publish p q))

  module _ (fl : Floats F) (publish : PublishResult F → Q → Q) where
    -- At least `n` units of the bread `j` are gone.
    abbrev Gone : ℤ → ℤ → Tables F P → Tables F P → Type 0
    Gone j n t t' = (m : ℤ) × (n ≤ℤ m) × Draws j m t t'

    fulfill_order-Gone :
        (order : BuyOrder F) (j : ℤ) (w : Db F P × (Line × Q))
        → let r = fulfill_order fl reserve_via (publish_at publish) order w in
          Gone j (granted j r.0.items) w.0.tables r.1.0.tables
    unfolding fulfill_order granted
    fulfill_order-Gone order j w =
        let a = fulfill_breads-Accounts fl order j order.breads (no_progress fl) w in
        (a.1, subst (λ (n : ℤ). n ≤ℤ a.1) (sym (a.2 ∙ zero_plus a.0)) a.3, a.4)

    fulfill_orders-Gone :
        (orders : List (BuyOrder F)) (j : ℤ) (w : Db F P × (Line × Q))
        → let r = fulfill_orders fl reserve_via (publish_at publish) orders w in
          Gone j (granted_all j r.0) w.0.tables r.1.0.tables
    unfolding fulfill_orders granted_all
    fulfill_orders-Gone [] j w = (pos 0, omega arith, Draws-none j w.0.tables w.0.tables refl)
    fulfill_orders-Gone (o ∷ orders) j w =
        let r = fulfill_order fl reserve_via (publish_at publish) o w in
        let rs = fulfill_orders fl reserve_via (publish_at publish) orders r.1 in
        let one = fulfill_order-Gone o j w in
        let more = fulfill_orders-Gone orders j r.1 in
        (
          one.0 +ℤ more.0,
          leb_trans_plus (granted j r.0.items) one.0 (granted_all j rs.0) more.0 one.1 more.1,
          Draws-trans j one.0 more.0 w.0.tables r.1.0.tables rs.1.0.tables one.2 more.2,
        )

    -- A batch of orders is matched against a stock without negative quantities, and every unit of it
    -- is reserved through the client, over a network that loses requests and answers as it likes. The
    -- units of a bread that the items of the results grant are covered by units that are gone from
    -- its row, and these are no more than there were: no unit is granted twice, and none that was
    -- not there. No quantity has become negative. (More may be gone than is granted: a reservation
    -- whose answer is lost is made again.) This holds whatever statements of the database fail.
    pub fulfill_orders_covered :
        (orders : List (BuyOrder F)) (j q : ℤ) (w : Db F P × (Line × Q))
        → non_negative w.0.tables.breads ≡ true
        → quantity_of j w.0.tables.breads ≡ some q
        → let r = fulfill_orders fl reserve_via (publish_at publish) orders w in
          (gone : ℤ) × (quantity_of j r.1.0.tables.breads ≡ some (q -ℤ gone))
          × (granted_all j r.0 ≤ℤ gone)
          × (gone ≤ℤ q)
          × (non_negative r.1.0.tables.breads ≡ true)
    fulfill_orders_covered orders j q w fits row =
        let r = fulfill_orders fl reserve_via (publish_at publish) orders w in
        let h = fulfill_orders-Gone orders j w in
        let left = h.2.0 ∙ ap (map_option (λ p. p -ℤ h.0)) row in
        let some_left = quantity_of_non_negative j r.1.0.tables.breads (h.2.1 fits) left in
        (h.0, left, h.1, omega int_laws, h.2.1 fits)
