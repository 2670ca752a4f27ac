-- ===== src/Data/Stock/Adjust.antt =====
-- `AdjustBreadQuantity`: the range that it keeps, and what comes of another operation between its
-- two statements.
use bakery_go.Common.{
  ◌≡◌, refl, ◌≢◌, Bool, true, false, some, arith, if◌then◌else◌, Bool-cases, inl, inr, ap, sym, ◌∙◌,
  subst,
}
use bakery_go.Common.Int.{
  ℤ, pos, ◌+ℤ◌, ◌≤ℤ◌, eqb_ℤ, ltb_ℤ, leb_ℤ, int64, int64-id, IsInt64, pos_part, neg_part, +ℤ_parts,
  eq_of_parts,
}
use bakery_go.Data.Db.{Tables, Db, Error, Result, ok, err, pure}
use bakery_go.Data.Db.Hoare.{Holds, Holds-mono, and_then-Holds}
use bakery_go.Data.Stock.Rows.{quantity_of-update, eqb_ℤ_refl}
use bakery_go.Data.Stock.Statements.{
  Same, Written, ReadAs, updated, select_quantity-Holds, exec_update_quantity-Holds,
}
use bakery_go.Data.Stock.{
  quantity_of, exec_update_quantity, as_insufficient, write_quantity, adjust_from,
  adjust_bread_quantity,
}

-- The number that is written for a sum `n`.
abbrev pub capped : ℤ → ℤ
capped n = if ltb_ℤ (pos 100) n then pos 100 else n

capped_above : (n : ℤ) → ltb_ℤ (pos 100) n ≡ true → capped n ≡ pos 100
capped_above n h = ground arith

pub capped_within : (n : ℤ) → ltb_ℤ (pos 100) n ≡ false → capped n ≡ n
capped_within n h = ground arith

capped_bounds : (n : ℤ) → pos 0 ≤ℤ n → (pos 0 ≤ℤ capped n) × (capped n ≤ℤ pos 100)
capped_bounds n h = ground arith

module _ {F P : Type 0} where
  -- The row of `id` was set from the quantity `q`: to the wrapped sum, at most 100, and the answer
  -- tells whether all of it fitted. Nothing else changed.
  abbrev pub SetFrom : ℤ → ℤ → ℤ → Tables F P → Bool → Tables F P → Type 0
  SetFrom id change q t whole t' =
      (pos 0 ≤ℤ int64 (q +ℤ change))
      × (whole ≡ leb_ℤ (int64 (q +ℤ change)) (pos 100))
      × (t' ≡ updated id (λ _. capped (int64 (q +ℤ change))) t)

  as_insufficient-Holds :
      (Q : Unit {0} → Tables F P → Type 0) (E : Tables F P → Type 0)
      (r : Result (Unit {0}) × Db F P)
      → Holds Q E r
      → Holds Q E (as_insufficient r)
  as_insufficient-Holds Q E (ok a, d) h = h
  as_insufficient-Holds Q E (err Error.check_violation, d) h = h
  as_insufficient-Holds Q E (err Error.db_error, d) h = h
  as_insufficient-Holds Q E (err Error.no_rows, d) h = h
  as_insufficient-Holds Q E (err Error.insufficient_stock, d) h = h
  as_insufficient-Holds Q E (err Error.unique_violation, d) h = h
  as_insufficient-Holds Q E (err Error.foreign_key_violation, d) h = h

  write_quantity-Holds :
      (id q : ℤ) (whole : Bool) (d : Db F P)
      → Holds
          (λ w t. (w ≡ whole) × (t ≡ updated id (λ _. q) d.tables))
          (Same d.tables)
          (write_quantity id q whole d)
  unfolding write_quantity
  write_quantity-Holds id q whole d =
      and_then-Holds (Written id (λ _. q) d.tables) (Same d.tables)
        (λ w t. (w ≡ whole) × (t ≡ updated id (λ _. q) d.tables)) (Same d.tables) (λ _. pure whole)
        (as_insufficient (exec_update_quantity id (λ _. q) d))
        (as_insufficient-Holds (Written id (λ _. q) d.tables) (Same d.tables) _
          (exec_update_quantity-Holds id (λ _. q) d))
        (λ _ d' w. (refl, w.0)) (λ _ e. e)

  pub adjust_from-SetFrom :
      (id change q : ℤ) (d : Db F P)
      → Holds (SetFrom id change q d.tables) (Same d.tables) (adjust_from id change q d)
  unfolding adjust_from
  adjust_from-SetFrom id change q d = elim (Bool-cases (ltb_ℤ (int64 (q +ℤ change)) (pos 0))) [
    | inl below ↦ rw below refl
    | inr fine ↦ elim (Bool-cases (ltb_ℤ (pos 100) (int64 (q +ℤ change)))) [
      | inl above ↦
          rw (fine, above)
            (Holds-mono (λ w t. (w ≡ false) × (t ≡ updated id (λ _. pos 100) d.tables))
              (Same d.tables) _ (Same d.tables)
              (λ w t h. (
                ground arith,
                ground (arith, h.0),
                h.1 ∙ put (sym (capped_above (int64 (q +ℤ change)) above)),
              ))
              (λ _ e. e) (write_quantity id (pos 100) false d)
              (write_quantity-Holds id (pos 100) false d))
      | inr within ↦
          rw (fine, within)
            (Holds-mono (λ w t. (w ≡ true) × (t ≡ updated id (λ _. int64 (q +ℤ change)) d.tables))
              (Same d.tables) _ (Same d.tables)
              (λ w t h. (
                ground arith,
                ground (arith, h.0),
                h.1 ∙ put (sym (capped_within (int64 (q +ℤ change)) within)),
              ))
              (λ _ e. e) (write_quantity id (int64 (q +ℤ change)) true d)
              (write_quantity-Holds id (int64 (q +ℤ change)) true d))
    ]
  ]
    where
      put : {a b : ℤ} → a ≡ b → updated id (λ _. a) d.tables ≡ updated id (λ _. b) d.tables
      put = ap (λ (n : ℤ). updated id (λ _. n) d.tables)

  -- What a successful call on a row of `q` units has done.
  abbrev pub Adjusts : ℤ → ℤ → ℤ → Tables F P → Bool → Tables F P → Type 0
  Adjusts id j change t whole t' =
      (q new : ℤ) × (quantity_of id t.breads ≡ some q)
      × (quantity_of id t'.breads ≡ some new)
      × (new ≡ capped (int64 (q +ℤ change)))
      × ((pos 0 ≤ℤ new) × (new ≤ℤ pos 100))
      × (whole ≡ leb_ℤ (int64 (q +ℤ change)) (pos 100))
      × (quantity_of j t'.breads ≡ quantity_of j t.breads)

  SetFrom-Adjusts :
      (id j change q : ℤ) (t : Tables F P) (whole : Bool) (t' : Tables F P)
      → eqb_ℤ id j ≡ false
      → quantity_of id t.breads ≡ some q
      → SetFrom id change q t whole t'
      → Adjusts id j change t whole t'
  SetFrom-Adjusts id j change q t whole t' ne row h =
      let n = capped (int64 (q +ℤ change)) in
      let new = ap (λ (u : Tables F P). quantity_of id u.breads) h.2 in
      let other = ap (λ (u : Tables F P). quantity_of j u.breads) h.2 in
      (
        q,
        n,
        row,
        new ∙ quantity_of-update id id (λ _. n) t.breads ∙ rw (eqb_ℤ_refl id, row) refl,
        refl,
        capped_bounds (int64 (q +ℤ change)) h.0,
        h.1,
        other ∙ quantity_of-update id j (λ _. n) t.breads ∙ rw ne refl,
      )

  pub adjust_bread_quantity-Adjusts :
      (id j change : ℤ) (d : Db F P)
      → eqb_ℤ id j ≡ false
      → Holds (Adjusts id j change d.tables) (Same d.tables) (adjust_bread_quantity id change d)
  unfolding adjust_bread_quantity
  adjust_bread_quantity-Adjusts id j change d ne =
      and_then-Holds (ReadAs id d.tables) (Same d.tables) (Adjusts id j change d.tables)
        (Same d.tables) (adjust_from id change) _ (select_quantity-Holds id d)
        (λ q d' r.
          Holds-mono (SetFrom id change q d'.tables) (Same d'.tables) _ _
            (λ w t h.
              SetFrom-Adjusts id j change q d.tables w t ne r.1
                (subst (λ u. SetFrom id change q u w t) r.0 h))
            (λ t e. e ∙ r.0) _ (adjust_from-SetFrom id change q d'))
        (λ _ e. e)

  -- The SELECT and the UPDATE are two steps. If the row held `q` when it was read, and holds another
  -- number `p` when it is written, the sum of `q` and the change lying from 0 to 100, then a call
  -- that succeeds leaves a number other than `p` plus the change: the units that were taken or
  -- added in between are undone.
  pub adjust_from_lost_update :
      (id change p q : ℤ) (d : Db F P)
      → quantity_of id d.tables.breads ≡ some p
      → p ≢ q
      → IsInt64 (q +ℤ change)
      → pos 0 ≤ℤ q +ℤ change
      → q +ℤ change ≤ℤ pos 100
      → Holds
          (λ _ t. (quantity_of id t.breads ≡ some (q +ℤ change)) × (q +ℤ change ≢ p +ℤ change))
          (Same d.tables)
          (adjust_from id change q d)
  adjust_from_lost_update id change p q d row ne fits low high =
      Holds-mono (SetFrom id change q d.tables) (Same d.tables) _ _
        (λ w t h. (
          ap (λ (u : Tables F P). quantity_of id u.breads) h.2
              ∙ quantity_of-update id id (λ _. capped (int64 (q +ℤ change))) d.tables.breads
              ∙ rw (eqb_ℤ_refl id, row) (ap some written),
          λ e. ne (shift e),
        ))
        (λ _ e. e) _ (adjust_from-SetFrom id change q d)
    where
      written : capped (int64 (q +ℤ change)) ≡ q +ℤ change
      written = rw (int64-id (q +ℤ change) fits) (capped_within (q +ℤ change) (ground arith))

      shift : q +ℤ change ≡ p +ℤ change → p ≡ q
      shift e =
          let high = ap pos_part e in
          let low = ap neg_part e in
          eq_of_parts p q (omega (arith, high, low, +ℤ_parts q change, +ℤ_parts p change))
