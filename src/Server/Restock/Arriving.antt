-- ===== src/Server/Restock/Arriving.antt =====
-- What the server does with the confirmations of the makers.
use bakery_go.Common.{◌≡◌, refl, false, Bool, Option, none, some}
use bakery_go.Common.Int.{ℤ, eqb_ℤ}
use bakery_go.Data.Db.{Tables, Db, Result, ok, err}
use bakery_go.Data.Db.Hoare.{Holds}
use bakery_go.Data.Stock.{adjust_bread_quantity}
use bakery_go.Data.Stock.Adjust.{Adjusts, adjust_bread_quantity-Adjusts}
use bakery_go.Makers.{BreadMadeMessage}
use bakery_go.Server.Restock.{
  Delivery, acked, discarded, requeued, after_adjust, adjust_for, handle_bread_made,
}

-- What became of a delivery, by its body: one that is no confirmation is discarded, another one is
-- acknowledged once the stock is adjusted by it, or given back to the queue with the tables as they
-- were. `j` is any other bread.
abbrev pub Handled :
    {F P : Type 0} → ℤ → Option BreadMadeMessage → Tables F P → Delivery × Db F P → Type 0
Handled j none t (v, d) = (v ≡ discarded) × (d.tables ≡ t)
Handled j (some m) t (acked, d) = (whole : Bool) × Adjusts m.bread_id j m.quantity t whole d.tables
Handled j (some m) t (discarded, d) = ⊥
Handled j (some m) t (requeued, d) = d.tables ≡ t

abbrev pub Elsewhere : ℤ → Option BreadMadeMessage → Type 0
Elsewhere j none = Unit
Elsewhere j (some m) = eqb_ℤ m.bread_id j ≡ false

module _ {F P : Type 0} where
  after_adjust-Handled :
      (j : ℤ) (m : BreadMadeMessage) (t : Tables F P) (r : Result Bool × Db F P)
      → Holds (Adjusts m.bread_id j m.quantity t) (λ t'. t' ≡ t) r
      → Handled j (some m) t (after_adjust r)
  after_adjust-Handled j m t (ok whole, d) h = (whole, h)
  after_adjust-Handled j m t (err e, d) h = h

  adjust_for-Handled :
      (j : ℤ) (o : Option BreadMadeMessage) (d : Db F P)
      → Elsewhere j o
      → Handled j o d.tables (adjust_for o d)
  adjust_for-Handled j none d ne = (refl, refl)
  adjust_for-Handled j (some m) d ne =
      after_adjust-Handled j m d.tables (adjust_bread_quantity m.bread_id m.quantity d)
        (adjust_bread_quantity-Adjusts m.bread_id j m.quantity d ne)

  -- A delivery of a confirmation on every branch: one that is no JSON of a confirmation is discarded
  -- and changes nothing. Another one is acknowledged only when its number was added to the row of
  -- its bread, up to the cap of 100 (what is above it is dropped), other rows being left alone, and
  -- goes back to the queue with nothing changed otherwise.
  pub handle_bread_made-Handled :
      {B : Type 0} (unmarshal : B → Option BreadMadeMessage) (j : ℤ) (body : B) (d : Db F P)
      → Elsewhere j (unmarshal body)
      → Handled j (unmarshal body) d.tables (handle_bread_made unmarshal body d)
  unfolding handle_bread_made
  handle_bread_made-Handled unmarshal j body d ne = adjust_for-Handled j (unmarshal body) d ne
