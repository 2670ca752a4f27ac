-- ===== src/Broker/Matching/Priority.antt =====
-- The order in which a batch is served.
use mathlib.Core.List.{Perm}
use bakery_go.Common.{
  ◌≡◌, refl, ◌⊎◌, inl, inr, true, false, List, [], ◌∷◌, Option, map, arith, All, Bool-cases, ap,
  sym, ◌∙◌,
}
use bakery_go.Common.Int.{◌≤ℤ◌}
use bakery_go.Common.Floats.{Floats, Ordered}
use bakery_go.Common.Sorting.{IsWeakOrder, IsSorted, Sorter}
use bakery_go.Data.Types.{BuyOrder}
use bakery_go.Proto.{ReserveInventoryRequest, ReserveInventoryResult, MatchingBatchResult}
use bakery_go.Broker.Matching.{
  PublishResult, max_bid_price, less, fulfill_order, fulfill_orders, report_all,
  process_matching_batch,
}

module _ {F : Type 0} (fl : Floats F) (o : Ordered fl) where
  less-asymm : (a b : BuyOrder F) → less fl a b ≡ true → less fl b a ≡ false
  unfolding less
  less-asymm a b h =
      let p = max_bid_price fl a in
      let q = max_bid_price fl b in
      ground (
        arith,
        h,
        o.irrefl p,
        o.irrefl q,
        o.trans p q p,
        o.trans q p q,
        o.eq_true p q,
        o.eq_true q p,
        o.eq_false p q,
        o.eq_false q p,
      )

  -- `a` is rightly served before `b`: it bids more, or as much and came no later.
  abbrev pub Ranked : BuyOrder F → BuyOrder F → Type 0
  Ranked a b =
      (fl.lt (max_bid_price fl b) (max_bid_price fl a) ≡ true)
      ⊎ ((max_bid_price fl a ≡ max_bid_price fl b) × (a.sequence_number ≤ℤ b.sequence_number))

  Ranked-of_less : (a b : BuyOrder F) → less fl b a ≡ false → Ranked a b
  unfolding less
  Ranked-of_less a b h = elim (Bool-cases (fl.lt (max_bid_price fl b) (max_bid_price fl a))) [
    | inl more ↦ inl more
    | inr not_more ↦ elim (Bool-cases (fl.lt (max_bid_price fl a) (max_bid_price fl b))) [
      | inl fewer ↦ absurd (
          ground (
            arith,
            h,
            fewer,
            o.irrefl (max_bid_price fl a),
            o.eq_true (max_bid_price fl b) (max_bid_price fl a),
          ))
      | inr not_fewer ↦
          let e = o.eq_false (max_bid_price fl b) (max_bid_price fl a) not_more not_fewer in
          inr (sym (o.eq_true _ _ e), ground (arith, h, e))
    ]
  ]

  less-of_Ranked : (a b : BuyOrder F) → Ranked a b → less fl b a ≡ false
  unfolding less
  less-of_Ranked a b (inl more) =
      let p = max_bid_price fl a in
      let q = max_bid_price fl b in ground (arith, more, o.irrefl p, o.trans p q p, o.eq_true q p)
  less-of_Ranked a b (inr (e, s)) =
      let p = max_bid_price fl a in
      let q = max_bid_price fl b in ground (arith, e, s, o.irrefl p, o.eq_false p p)

  Ranked-trans : (a b c : BuyOrder F) → Ranked a b → Ranked b c → Ranked a c
  Ranked-trans a b c (inl x) (inl y) = inl (o.trans _ _ _ y x)
  Ranked-trans a b c (inl x) (inr (e, s)) = inl (rw e at x)
  Ranked-trans a b c (inr (e, s)) (inl y) = inl (rw (← e) at y)
  Ranked-trans a b c (inr (e, s)) (inr (f, t)) = inr (e ∙ f, omega arith)

  less_trans :
      (a b c : BuyOrder F) → less fl b a ≡ false → less fl c b ≡ false → less fl c a ≡ false
  less_trans a b c h k =
      less-of_Ranked a c (Ranked-trans a b c (Ranked-of_less a b h) (Ranked-of_less b c k))

  pub less-IsWeakOrder : IsWeakOrder (less fl)
  less-IsWeakOrder = record { asymm = less-asymm; trans = less_trans }

  -- Every order is rightly served before those behind it.
  abbrev pub AllRanked : List (BuyOrder F) → Type 0
  AllRanked [] = Unit {0}
  AllRanked (a ∷ os) = All (Ranked a) os × AllRanked os

  All-Ranked :
      (a : BuyOrder F) (bs : List (BuyOrder F))
      → All (λ b. less fl b a ≡ false) bs
      → All (Ranked a) bs
  All-Ranked a [] h = tt
  All-Ranked a (b ∷ bs) h = (Ranked-of_less a b h.0, All-Ranked a bs h.1)

  AllRanked-of_IsSorted : (os : List (BuyOrder F)) → IsSorted (less fl) os → AllRanked os
  AllRanked-of_IsSorted [] s = tt
  AllRanked-of_IsSorted (a ∷ os) s = (All-Ranked a os s.0, AllRanked-of_IsSorted os s.1)

  module _ {W : Type 0} (reserve : ReserveInventoryRequest → W → Option ReserveInventoryResult × W)
      (publish : PublishResult F → W → W) (report : List (MatchingBatchResult F) → W → W) where
    fulfill_orders-uuids :
        (os : List (BuyOrder F)) (w : W)
        → map (λ r. r.buy_order_uuid) (fulfill_orders fl reserve publish os w).0
          ≡ map (λ a. a.buy_order_uuid) os
    unfolding fulfill_orders fulfill_order
    fulfill_orders-uuids [] w = refl
    fulfill_orders-uuids (a ∷ os) w =
        ap (◌∷◌ a.buy_order_uuid) (fulfill_orders-uuids os (fulfill_order fl reserve publish a w).1)

    -- A batch is served in the order of some rearrangement of it in which every order bids more than
    -- each one behind it, or as much and came no later; one result for each order, in that order, is
    -- reported. (The bids are no NaN, and the sort is any that keeps `sort.Slice`'s promise.)
    pub process_matching_batch-AllRanked :
        (sorter : Sorter (BuyOrder F)) (a : BuyOrder F) (os : List (BuyOrder F)) (w : W)
        → (served : List (BuyOrder F)) × Perm served (a ∷ os)
          × AllRanked served
          × (process_matching_batch fl reserve publish sorter report (a ∷ os) w
              ≡ report_all report (fulfill_orders fl reserve publish served w))
          × (map (λ r. r.buy_order_uuid) (fulfill_orders fl reserve publish served w).0
              ≡ map (λ b. b.buy_order_uuid) served)
    unfolding process_matching_batch
    process_matching_batch-AllRanked sorter a os w =
        let served = sorter.sort (less fl) (a ∷ os) in
        (
          served,
          sorter.perm (less fl) (a ∷ os),
          AllRanked-of_IsSorted served (sorter.sorted (less fl) less-IsWeakOrder (a ∷ os)),
          refl,
          fulfill_orders-uuids served w,
        )
