-- ===== src/Data/Stock/Statements.antt =====
-- What the two statements on the stock do.
use bakery_go.Common.{◌≡◌, refl, true, Option, none, some, Bool-cases, inl, inr, ap, sym, subst}
use bakery_go.Common.Int.{ℤ}
use bakery_go.Data.Db.{Tables, Db, statement}
use bakery_go.Data.Db.Hoare.{Holds, and_then-Holds, statement-Holds}
use bakery_go.Data.Stock.{
  quantity_of, update_quantity, non_negative, found, checked, select_quantity, exec_update_quantity,
}

module _ {F P : Type 0} where
  abbrev pub Same : Tables F P → Tables F P → Type 0
  Same t t' = t' ≡ t

  -- The read value is that of the row, and nothing changes.
  abbrev pub ReadAs : ℤ → Tables F P → ℤ → Tables F P → Type 0
  ReadAs id t q t' = (t' ≡ t) × (quantity_of id t.breads ≡ some q)

  abbrev pub updated : ℤ → (ℤ → ℤ) → Tables F P → Tables F P
  updated id f t = record t { breads = update_quantity id f t.breads }

  -- The row is written, and the constraint holds of the new table.
  abbrev pub Written : ℤ → (ℤ → ℤ) → Tables F P → Unit {0} → Tables F P → Type 0
  Written id f t _ t' = (t' ≡ updated id f t) × (non_negative t'.breads ≡ true)

  found-Holds :
      (id : ℤ) (t : Tables F P) (o : Option ℤ) (d : Db F P)
      → d.tables ≡ t
      → quantity_of id t.breads ≡ o
      → Holds (ReadAs id t) (Same t) (found o d)
  found-Holds id t none d e row = e
  found-Holds id t (some q) d e row = (e, row)

  pub select_quantity-Holds :
      (id : ℤ) (d : Db F P) → Holds (ReadAs id d.tables) (Same d.tables) (select_quantity id d)
  unfolding select_quantity
  select_quantity-Holds id d =
      and_then-Holds (λ _. Same d.tables) (Same d.tables) (ReadAs id d.tables) (Same d.tables) _
        (statement d) (statement-Holds d)
        (λ _ d' e.
          found-Holds id d.tables _ d' e (ap (λ (t : Tables F P). quantity_of id t.breads) (sym e)))
        (λ _ e. e)

  checked-Holds :
      (t new : Tables F P) (d : Db F P)
      → d.tables ≡ t
      → Holds (λ _ t'. (t' ≡ new) × (non_negative t'.breads ≡ true)) (Same t) (checked new d)
  checked-Holds t new d e = elim (Bool-cases (non_negative new.breads)) [
    | inl fits ↦ rw fits (refl, fits)
    | inr low ↦ rw low e
  ]

  pub exec_update_quantity-Holds :
      (id : ℤ) (f : ℤ → ℤ) (d : Db F P)
      → Holds (Written id f d.tables) (Same d.tables) (exec_update_quantity id f d)
  unfolding exec_update_quantity
  exec_update_quantity-Holds id f d =
      and_then-Holds (λ _. Same d.tables) (Same d.tables) (Written id f d.tables) (Same d.tables) _
        (statement d) (statement-Holds d)
        (λ _ d' e.
          subst
            (λ (t : Tables F P).
              Holds (Written id f d.tables) (Same d.tables) (checked (updated id f t) d'))
            (sym e) (checked-Holds d.tables (updated id f d.tables) d' e))
        (λ _ e. e)
