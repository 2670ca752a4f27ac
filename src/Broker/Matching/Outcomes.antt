-- ===== src/Broker/Matching/Outcomes.antt =====
-- How each bread of an order ends in a matching result: told by the order, the bread and the
-- answers to the reservations.
use bakery_go.Common.{◌≡◌, Bool, true, false, List, [], ◌∷◌, ◌||◌, str_eq, Option, none, some, ◌⊎◌}
use bakery_go.Common.Int.{ℤ, pos, ◌+ℤ◌, ◌<ℤ◌, ◌≤ℤ◌, int64, int32}
use bakery_go.Data.Types.{Bread, BuyOrder}
use bakery_go.Proto.{MatchingItemResult, ReserveInventoryRequest, ReserveInventoryResult}
use bakery_go.Broker.Matching.{item}

-- The answer to a reservation: the server did not reserve, or the call failed.
abbrev pub Refuses : Option ReserveInventoryResult → Type 0
Refuses o = (o ≡ none) ⊎ ((r : ReserveInventoryResult) × (o ≡ some r) × (r.reserved ≡ false))

module _ {F : Type 0} where
  -- The reservation of a bread of an order.
  abbrev pub request_of : BuyOrder F → Bread F → ReserveInventoryRequest
  request_of order bread = record {
    bread_id = int32 bread.id;
    quantity_requested = int32 bread.quantity;
    buy_order_uuid = order.buy_order_uuid;
  }

module _ {F W : Type 0}
    (reserve : ReserveInventoryRequest → W → Option ReserveInventoryResult × W) where
  -- How one bread of an order may end, and what the world is then: asked for no unit, and nothing is
  -- called; not reserved by the one call, and skipped or rejected by the order's preferences;
  -- or reserved by the one call, and fulfilled with the number in its answer.
  pub data Outcome (order : BuyOrder F) (bread : Bread F) (w : W)
      : MatchingItemResult → W → Type 0 where
    nothing_asked : bread.quantity ≤ℤ pos 0 → Outcome order bread w (item bread (pos 0) "skipped") w
    tolerated :
        {w' : W} (o : Option ReserveInventoryResult)
        → pos 0 <ℤ bread.quantity
        → reserve (request_of order bread) w ≡ (o, w')
        → Refuses o
        → (order.allow_partial || order.skip_unavailable_items) ≡ true
        → Outcome order bread w (item bread (pos 0) "skipped") w'
    refused :
        {w' : W} (o : Option ReserveInventoryResult)
        → pos 0 <ℤ bread.quantity
        → reserve (request_of order bread) w ≡ (o, w')
        → Refuses o
        → (order.allow_partial || order.skip_unavailable_items) ≡ false
        → Outcome order bread w (item bread (pos 0) "rejected") w'
    fulfilled :
        {w' : W} (r : ReserveInventoryResult)
        → pos 0 <ℤ bread.quantity
        → reserve (request_of order bread) w ≡ (some r, w')
        → r.reserved ≡ true
        → Outcome order bread w (item bread r.quantity_fulfilled "fulfilled") w'

  -- One outcome for each bread, in the order of the breads, each from where the one before ended.
  pub data Outcomes (order : BuyOrder F)
      : W → List (Bread F) → List MatchingItemResult → W → Type 0 where
    none_left : {w : W} → Outcomes order w [] [] w
    one_more :
        {b : Bread F} {bs : List (Bread F)} {i : MatchingItemResult} {is : List MatchingItemResult}
        {w w1 w2 : W}
        → Outcome order b w i w1
        → Outcomes order w1 bs is w2
        → Outcomes order w (b ∷ bs) (i ∷ is) w2

-- The reported items that are rejected, and the units that they got (with Go's 64-bit addition).
unfoldable pub any_rejected : List MatchingItemResult → Bool
any_rejected [] = false
any_rejected (i ∷ is) = str_eq i.status "rejected" || any_rejected is

unfoldable pub units_from : ℤ → List MatchingItemResult → ℤ
units_from acc [] = acc
units_from acc (i ∷ is) = units_from (int64 (acc +ℤ i.quantity_fulfilled)) is

module _ {F W : Type 0}
    (reserve : ReserveInventoryRequest → W → Option ReserveInventoryResult × W) where
  -- Only an order that tolerates nothing has a rejected item.
  pub Outcomes-rejected :
      (order : BuyOrder F) {bs : List (Bread F)} {is : List MatchingItemResult} {w w' : W}
      → Outcomes reserve order w bs is w'
      → any_rejected is ≡ true
      → (order.allow_partial || order.skip_unavailable_items) ≡ false
  unfolding any_rejected
  Outcomes-rejected order none_left r = cc
  Outcomes-rejected order (one_more (nothing_asked q) os) r = Outcomes-rejected order os r
  Outcomes-rejected order (one_more (tolerated o q e n soft) os) r = Outcomes-rejected order os r
  Outcomes-rejected order (one_more (refused o q e n hard) os) r = hard
  Outcomes-rejected order (one_more (fulfilled a q e g) os) r = Outcomes-rejected order os r
