-- ===== src/Tests/Matching.antt =====
-- Orders over whole-number prices, and a server that has four units of each bread.
use mathlib.Core.List.{Perm}
use bakery_go.Common.{◌≡◌, refl, Bool, true, false, List, [], ◌∷◌, map, Option, some, arith}
use bakery_go.Common.Int.{ℤ, pos, ◌+ℤ◌, ◌-ℤ◌, ◌*ℤ◌, ltb_ℤ, leb_ℤ, eqb_ℤ, eq_of_parts, int32, int64}
use bakery_go.Common.Floats.{Floats, Ordered}
use bakery_go.Common.Sorting.{insertion_sorter, insertion}
use bakery_go.Data.Types.{Bread, BuyOrder}
use bakery_go.Proto.{ReserveInventoryRequest, ReserveInventoryResult}
use bakery_go.Broker.Matching.{
  less, fulfill_order, fulfill_orders, report_all, process_matching_batch,
}
use bakery_go.Broker.Matching.Outcomes.{Outcomes}
use bakery_go.Broker.Matching.Priority.{AllRanked, process_matching_batch-AllRanked}

abbrev pub cents : Floats ℤ
cents = record {
  zero = pos 0;
  one = pos 1;
  add = ◌+ℤ◌;
  sub = ◌-ℤ◌;
  mul = ◌*ℤ◌;
  of_int = λ a. a;
  lt = ltb_ℤ;
  eq = eqb_ℤ;
}

cents-Ordered : Ordered cents
cents-Ordered = record {
  irrefl = λ a. ground arith;
  trans = λ a b c h k. ground (arith, h, k);
  eq_true = λ a b h. ground (arith, h, eq_of_parts a b);
  eq_false = λ a b h k. ground (arith, h, k);
}

-- The world is the number of units that the shop has left of each bread.
abbrev reply : Bool → ℤ → ℤ → Option ReserveInventoryResult × ℤ
reply true n left =
    (some (record { reserved = true; quantity_fulfilled = n; message = "reserved" }), left -ℤ n)
reply false n left = (
  some (record { reserved = false; quantity_fulfilled = pos 0; message = "insufficient_stock" }),
  left,
)

abbrev shop : ReserveInventoryRequest → ℤ → Option ReserveInventoryResult × ℤ
shop req left = reply (leb_ℤ req.quantity_requested left) req.quantity_requested left

abbrev pub loaf : ℤ → ℤ → Bread ℤ
loaf id n = record {
  id = id;
  name = "Bolillo";
  price = pos 79;
  quantity = n;
  image = "";
  description = "";
  kind = "Soft Bread";
  status = "available";
}

abbrev order : ℤ → ℤ → List (Bread ℤ) → BuyOrder ℤ
order seq bid breads = record {
  id = seq;
  customer_id = pos 1;
  buy_order_uuid = "a1";
  breads = breads;
  status = "processing";
  sequence_number = seq;
  bid_price = bid;
  allow_partial = false;
  skip_unavailable_items = false;
  matched_items = [];
}

abbrev mixed : BuyOrder ℤ
mixed =
    order (pos 1) (pos 80) (loaf (pos 1) (pos 3) ∷ loaf (pos 2) (pos 6) ∷ loaf (pos 3) (pos 0) ∷ [])

-- The order is rejected, and the three units of its first bread stay taken.
rejected_run :
    ((fulfill_order cents shop (λ p w. w) mixed (pos 4)).0.order_status ≡ "rejected")
    × ((fulfill_order cents shop (λ p w. w) mixed (pos 4)).1 ≡ pos 1)
unfolding fulfill_order ◌+ℤ◌ ◌-ℤ◌ ◌*ℤ◌ int32 int64
rejected_run = (refl, refl)

abbrev batch : List (BuyOrder ℤ)
batch = order (pos 2) (pos 90) [] ∷ order (pos 1) (pos 90) [] ∷ []

process_matching_batch-AllRanked_example :
    (served : List (BuyOrder ℤ)) × Perm served (mixed ∷ batch)
    × AllRanked cents cents-Ordered served
    × (process_matching_batch cents shop
          (λ p w. w)
          (insertion_sorter (BuyOrder ℤ))
          (λ rs w. w)
          (mixed ∷ batch)
          (pos 4)
        ≡ report_all (λ rs w. w) (fulfill_orders cents shop (λ p w. w) served (pos 4)))
    × (map (λ r. r.buy_order_uuid) (fulfill_orders cents shop (λ p w. w) served (pos 4)).0
        ≡ map (λ b. b.buy_order_uuid) served)
process_matching_batch-AllRanked_example =
    process_matching_batch-AllRanked cents cents-Ordered shop (λ p w. w) (λ rs w. w)
      (insertion_sorter (BuyOrder ℤ)) mixed batch (pos 4)

served_order :
    map (λ o. o.sequence_number) (insertion (less cents) (mixed ∷ batch))
    ≡ pos 1 ∷ pos 2 ∷ pos 1 ∷ []
unfolding insertion less
served_order = refl
