-- ===== src/Data/Orders/Reading/Polling.antt =====
-- The poll of `WaitForOrderNotification`.
use mathlib.Core.Option.{some-injective}
use bakery_go.Common.{
  ◌≡◌, refl, true, false, Bool, List, [], ◌∷◌, some, ap, ◌∙◌, sym, arith, String, All, str_eq,
  eq_iff, ◌||◌, Bool-cases, inl, inr,
}
use bakery_go.Common.Floats.{Floats}
use bakery_go.Data.Types.{BuyOrder}
use bakery_go.Data.Db.{OrderRow, Db, Result, ok, err}
use bakery_go.Data.Db.Hoare.{Holds}
use bakery_go.Data.Orders.{order_by_uuid, valid_status, shown_status, get_buy_order_by_uuid}
use bakery_go.Data.Orders.Reading.{reported_settled, poll_settled}
use bakery_go.Data.Orders.Reading.Found.{FoundBy, get_buy_order_by_uuid-FoundBy}

or_cases : {a b : Bool} {Q : Type 0} → (a ≡ true → Q) → (b ≡ true → Q) → (a || b) ≡ true → Q
or_cases {a = true} f g e = f refl
or_cases {a = false} f g e = g e

abbrev settles : String → Bool
settles s = str_eq (shown_status s) "Processed" || str_eq (shown_status s) "Failed"

as_literal :
    (s literal : String) → settles literal ≡ false → str_eq s literal ≡ true → settles s ≡ false
as_literal s literal known e = ap settles ((eq_iff s literal).0 e) ∙ known

-- A status as the constraint has them, in lower case, is neither of the two that the poll looks for.
valid_status_lower : (s : String) → valid_status s ≡ true → settles s ≡ false
unfolding valid_status
valid_status_lower s v =
    or_cases (as_literal s "pending" refl)
      (or_cases (as_literal s "processing" refl) (
        or_cases (as_literal s "processed" refl) (
          or_cases (as_literal s "partially_processed" refl)
            (or_cases (as_literal s "failed" refl) (as_literal s "rejected" refl)))))
      v

order_by_uuid-valid :
    (u : String) (l : List OrderRow) (r : OrderRow)
    → All (λ o. valid_status o.status ≡ true) l
    → order_by_uuid u l ≡ some r
    → valid_status r.status ≡ true
unfolding order_by_uuid
order_by_uuid-valid u [] r v e = absurd (ground (arith, e))
order_by_uuid-valid u (o ∷ l) r v e = elim (Bool-cases (str_eq o.buy_order_uuid u)) [
  | inl hit ↦
      ap (λ (q : OrderRow). valid_status q.status)
        (sym (some-injective o r (sym (rw hit refl) ∙ e)))
      ∙ v.0
  | inr miss ↦ order_by_uuid-valid u l r v.1 (sym (rw miss refl) ∙ e)
]

module _ {F P : Type 0} (fl : Floats F) where
  -- The poll for the end of an order never ends: the constraint on the status of an order admits
  -- neither of the two words that `WaitForOrderNotification` compares it with.
  pub poll_settled-never :
      (uuid : String) (d : Db F P)
      → All (λ o. valid_status o.status ≡ true) d.tables.orders
      → (poll_settled fl uuid d).0 ≡ false
  unfolding poll_settled
  poll_settled-never uuid d v =
      go (get_buy_order_by_uuid fl uuid d) (get_buy_order_by_uuid-FoundBy fl uuid d)
    where
      go :
          (r : Result (BuyOrder F) × Db F P)
          → Holds (FoundBy fl (order_by_uuid uuid) d.tables) (λ t. t ≡ d.tables) r
          → reported_settled r.0 ≡ false
      go (err e, d') h = refl
      go (ok o, d') h =
          ap (λ (o : BuyOrder F). str_eq o.status "Processed" || str_eq o.status "Failed") h.1.2
          ∙ valid_status_lower h.1.0.status (order_by_uuid-valid uuid d.tables.orders h.1.0 v h.1.1)
