-- ===== src/Broker/Matching/Items.antt =====
-- The loop of `fulfillOrder`: each bread adds one outcome.
use bakery_go.Common.{◌≡◌, List, [], ◌∷◌, ◌++◌, Option, ◌||◌, str_eq}
use bakery_go.Common.Int.{◌+ℤ◌, int64}
use bakery_go.Common.Floats.{Floats}
use bakery_go.Data.Types.{Bread, BuyOrder}
use bakery_go.Proto.{ReserveInventoryRequest, ReserveInventoryResult, MatchingItemResult}
use bakery_go.Broker.Matching.{Progress}
use bakery_go.Broker.Matching.Outcomes.{Outcome, Outcomes, any_rejected, units_from}

module _ {F W : Type 0} (fl : Floats F)
    (reserve : ReserveInventoryRequest → W → Option ReserveInventoryResult × W) where
  -- The progress and the world come from `acc` and `w` by one more item.
  abbrev Adds : BuyOrder F → Bread F → Progress F → W → Progress F × W → Type 0
  Adds order b acc w (p, w') =
      (i : MatchingItemResult) × Outcome reserve order b w i w'
      × (p.items ≡ acc.items ++ i ∷ [])
      × (p.has_rejected ≡ (acc.has_rejected || str_eq i.status "rejected"))
      × (p.total_quantity_fulfilled ≡ int64 (acc.total_quantity_fulfilled +ℤ i.quantity_fulfilled))

  -- What the loop adds to `acc`.
  abbrev AddsAll : BuyOrder F → List (Bread F) → Progress F → W → Progress F × W → Type 0
  AddsAll order bs acc w (p, w') =
      (is : List MatchingItemResult) × Outcomes reserve order w bs is w'
      × (p.items ≡ acc.items ++ is)
      × (p.has_rejected ≡ (acc.has_rejected || any_rejected is))
      × (p.total_quantity_fulfilled ≡ units_from acc.total_quantity_fulfilled is)
