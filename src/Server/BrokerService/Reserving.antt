-- ===== src/Server/BrokerService/Reserving.antt =====
-- `ReserveInventory`: what its reply tells of the stock.
use bakery_go.Common.{◌≡◌, ◌⊎◌, inl, inr, refl, true, false, sym, subst}
use bakery_go.Common.Int.{int_laws, ℤ, pos, ◌<ℤ◌, IsInt32, int32, int32-id}
use bakery_go.Data.Db.{Tables, Db, Result, ok, err}
use bakery_go.Data.Db.Hoare.{Holds}
use bakery_go.Data.Stock.Items.{AsTaken, Smaller, fulfill_order_item-AsTaken}
use bakery_go.Proto.{ReserveInventoryRequest, ReserveInventoryResult}
use bakery_go.Server.BrokerService.{as_reply, reserve_inventory}

fits_32 : (requested q f : ℤ) → IsInt32 requested → Smaller f requested q → pos 0 <ℤ f → f ≡ int32 f
fits_32 requested q f r e p = sym (int32-id f (omega (int_laws, e.0, r.0, p), omega (int_laws, p)))

module _ {F P : Type 0} where
  -- A reply either tells of units that were taken, or of none, and then nothing changed.
  abbrev pub Reserves :
      ReserveInventoryRequest → Tables F P → ReserveInventoryResult → Tables F P → Type 0
  Reserves req t r t' =
      ((r.reserved ≡ true) × AsTaken req.bread_id req.quantity_requested t r.quantity_fulfilled t')
      ⊎ ((r.reserved ≡ false) × (r.quantity_fulfilled ≡ pos 0) × (t' ≡ t))

  as_reply-Reserves :
      (req : ReserveInventoryRequest) (t : Tables F P) (r : Result ℤ × Db F P)
      → IsInt32 req.quantity_requested
      → Holds (AsTaken req.bread_id req.quantity_requested t) (λ t'. t' ≡ t) r
      → Holds (Reserves req t) (λ _. false ≡ true) (as_reply r)
  as_reply-Reserves req t (ok f, d) r h = inl (
    refl,
    subst (λ (n : ℤ). AsTaken req.bread_id req.quantity_requested t n d.tables)
        (fits_32 req.quantity_requested h.0 f r h.2 h.3) h,
  )
  as_reply-Reserves req t (err x, d) r e = inr (refl, refl, e)

  -- The handler always replies. It tells of a reservation just if it has taken, in one step, the
  -- units that it tells of: a positive number, the number requested or all that there is, whichever
  -- is less. Otherwise it tells of none and has left the tables as they were.
  pub reserve_inventory-Reserves :
      (req : ReserveInventoryRequest) (d : Db F P)
      → IsInt32 req.quantity_requested
      → Holds (Reserves req d.tables) (λ _. false ≡ true) (reserve_inventory req d)
  unfolding reserve_inventory
  reserve_inventory-Reserves req d r =
      as_reply-Reserves req d.tables _ r
        (fulfill_order_item-AsTaken req.bread_id req.quantity_requested d)
