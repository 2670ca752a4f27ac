-- ===== src/Data/Breads/Catalogue.antt =====
-- Reading a bread that was inserted, and the orders' references when one is deleted.
use bakery_go.Common.{
  ◌≡◌, refl, true, false, List, [], ◌∷◌, ◌++◌, Option, some, ap, ◌∙◌, sym, arith, not, All,
  Bool-cases, inl, inr, ◌||◌, ◌&&◌, subst,
}
use bakery_go.Common.Int.{ℤ, pos, ◌+ℤ◌, eqb_ℤ, leb_ℤ}
use bakery_go.Data.Types.{Bread}
use bakery_go.Data.Db.{DetailRow, Tables, Db, Result, ok, exec}
use bakery_go.Data.Db.Hoare.{Holds, Holds-mono, exec-Holds, ok_value}
use bakery_go.Data.Stock.Rows.{eqb_ℤ_eq, eqb_ℤ_refl}
use bakery_go.Data.Orders.{has_bread}
use bakery_go.Data.Breads.{
  valid_bread_status, bread_by_id, without_bread, ordered, insert_bread_row, insert_bread,
  bread_or_no_rows, get_bread_by_id, referred, delete_bread_row, delete_bread,
}

module _ {F : Type 0} where
  bread_by_id-append :
      (id : ℤ) (bs : List (Bread F)) (b : Bread F)
      → has_bread id bs ≡ false
      → eqb_ℤ b.id id ≡ true
      → bread_by_id id (bs ++ b ∷ []) ≡ some b
  unfolding bread_by_id has_bread
  bread_by_id-append id [] b fresh own = rw own refl
  bread_by_id-append id (c ∷ bs) b fresh own = elim (Bool-cases (eqb_ℤ c.id id)) [
    | inl hit ↦ absurd (ground (arith, hit, fresh))
    | inr miss ↦ rw miss (bread_by_id-append id bs b (ground (arith, miss, fresh)) own)
  ]

  has_bread-without :
      (id j : ℤ) (bs : List (Bread F))
      → eqb_ℤ j id ≡ false
      → has_bread j bs ≡ true
      → has_bread j (without_bread id bs) ≡ true
  unfolding has_bread without_bread
  has_bread-without id j [] ne h = h
  has_bread-without id j (b ∷ bs) ne h = elim (Bool-cases (eqb_ℤ b.id id)) [
    | inl hit ↦
        let here = ap (λ (i : ℤ). eqb_ℤ i j) (eqb_ℤ_eq b.id id hit) in
        rw hit (has_bread-without id j bs ne (ground (arith, h, here, ne)))
    | inr miss ↦ rw miss (elim (Bool-cases (eqb_ℤ b.id j)) [
      | inl own ↦ rw own refl
      | inr other ↦ rw other (has_bread-without id j bs ne (ground (arith, h, other)))
    ])
  ]

  Stocked-without :
      (id : ℤ) (bs : List (Bread F)) (rows : List (DetailRow F))
      → (has_bread id bs && ordered id rows) ≡ false
      → All (λ r. has_bread r.bread_id bs ≡ true) rows
      → All (λ r. has_bread r.bread_id (without_bread id bs) ≡ true) rows
  unfolding ordered
  Stocked-without id bs [] free s = tt
  Stocked-without id bs (r ∷ rs) free s = (
    has_bread-without id r.bread_id bs
        (elim (Bool-cases (eqb_ℤ r.bread_id id)) [
          | inl hit ↦
              let here = ap (λ (i : ℤ). has_bread i bs) (eqb_ℤ_eq r.bread_id id hit) in
              absurd (ground (arith, free, s.0, here, hit))
          | inr miss ↦ miss
        ])
        s.0,
    Stocked-without id bs rs (ground (arith, free)) s.1,
  )

module _ {F : Type 0} where
  -- A bread as the table keeps it, with its price in the column's precision.
  abbrev pub at_precision : (F → F) → Bread F → Bread F
  at_precision numeric bread = record bread { price = numeric bread.price }

module _ {F P : Type 0} where
  insert_bread_row-Row :
      (row : Bread F) (t t' : Tables F P) (id : ℤ)
      → insert_bread_row row t ≡ ok (id, t')
      → (id ≡ row.id) × (bread_by_id row.id t'.breads ≡ some (at_precision t.numeric row))
  unfolding insert_bread_row
  insert_bread_row-Row row t t' id h =
      elim (Bool-cases (not (leb_ℤ (pos 0) row.quantity) || not (valid_bread_status row.status))) [
        | inl bad ↦ absurd (ground (arith, h, bad))
        | inr good ↦ elim (Bool-cases (has_bread row.id t.breads)) [
          | inl taken ↦ absurd (ground (arith, h, good, taken))
          | inr fresh ↦
              let u = record t { breads = t.breads ++ at_precision t.numeric row ∷ [] } in
              let e : insert_bread_row row t ≡ ok (row.id, u) = rw (good, fresh) refl in
              let p = ok_value (row.id, u) (id, t') (sym e ∙ h) in
              (
                sym (ap (λ (q : ℤ × Tables F P). q.0) p),
                ap (λ (q : ℤ × Tables F P). bread_by_id row.id q.1.breads) (sym p)
                    ∙ bread_by_id-append row.id t.breads (at_precision t.numeric row) fresh
                        (eqb_ℤ_refl row.id),
              )
        ]
      ]

  -- The sequence's next value is the id of the new row.
  pub insert_bread-id :
      (bread : Bread F) (d d' : Db F P) (id : ℤ)
      → insert_bread bread d ≡ (ok id, d')
      → id ≡ d.next_bread
  unfolding insert_bread
  insert_bread-id bread d d' id done =
      let row = record bread { id = d.next_bread } in
      let new =
        subst
          (λ (r : Result ℤ × Db F P).
            Holds (λ i t. insert_bread_row row d.tables ≡ ok (i, t)) (λ t. t ≡ d.tables) r)
          done
          (exec-Holds (insert_bread_row row) (record d { next_bread = d.next_bread +ℤ pos 1 })) in
      (insert_bread_row-Row row d.tables d'.tables id new).0

  -- A bread that was inserted is read back under the id that the insertion returned, with all its
  -- fields, the price in the precision of the column, unless the query fails.
  pub insert-get_bread :
      (bread : Bread F) (d d' : Db F P) (id : ℤ)
      → insert_bread bread d ≡ (ok id, d')
      → Holds
          (λ b t. (b ≡ at_precision d.tables.numeric (record bread { id = id })) × (t ≡ d'.tables))
          (λ t. t ≡ d'.tables)
          (get_bread_by_id id d')
  unfolding insert_bread get_bread_by_id
  insert-get_bread bread d d' id done =
      let row = record bread { id = d.next_bread } in
      let new =
        subst
          (λ (r : Result ℤ × Db F P).
            Holds (λ i t. insert_bread_row row d.tables ≡ ok (i, t)) (λ t. t ≡ d.tables) r)
          done
          (exec-Holds (insert_bread_row row) (record d { next_bread = d.next_bread +ℤ pos 1 })) in
      let k = insert_bread_row-Row row d.tables d'.tables id new in
      let found : bread_by_id id d'.tables.breads
          ≡ some (at_precision d.tables.numeric (record bread { id = id })) =
        subst
          (λ (i : ℤ).
            bread_by_id i d'.tables.breads
            ≡ some (at_precision d.tables.numeric (record bread { id = i })))
          (sym k.0) k.1 in
      let read = λ (t : Tables F P). bread_or_no_rows (bread_by_id id t.breads) t in
      Holds-mono (λ b t. read d'.tables ≡ ok (b, t)) (λ t. t ≡ d'.tables)
        (λ b t. (b ≡ at_precision d.tables.numeric (record bread { id = id })) × (t ≡ d'.tables))
        (λ t. t ≡ d'.tables)
        (λ b t h.
          let e = ap (λ (o : Option (Bread F)). bread_or_no_rows o d'.tables) found in
          let p =
            ok_value (at_precision d.tables.numeric (record bread { id = id }), d'.tables) (b, t)
              (sym e ∙ h) in
          (sym (ap (λ q. q.0) p), sym (ap (λ q. q.1) p)))
        (λ _ e. e) (exec read d') (exec-Holds read d')

  -- The foreign key of order_details on bread.
  abbrev pub Stocked : Tables F P → Type 0
  Stocked t = All (λ r. has_bread r.bread_id t.breads ≡ true) t.details

  delete_bread_row-Stocked :
      (id : ℤ) (t t' : Tables F P)
      → Stocked t
      → delete_bread_row id t ≡ ok (tt, t')
      → (t' ≡ record t { breads = without_bread id t.breads }) × Stocked t'
  unfolding delete_bread_row referred
  delete_bread_row-Stocked id t t' s h =
      elim (Bool-cases (has_bread id t.breads && referred id t)) [
        | inl bad ↦ absurd (ground (arith, h, bad))
        | inr free ↦
            let u = record t { breads = without_bread id t.breads } in
            let e : delete_bread_row id t ≡ ok (tt, u) = rw free refl in
            let p =
              ap (λ (q : Unit {0} × Tables F P). q.1) (ok_value (tt, u) (tt, t') (sym e ∙ h)) in
            (
              sym p,
              subst Stocked p (Stocked-without id t.breads t.details (ground (arith, free)) s),
            )
      ]

  -- DeleteBread keeps the references of the orders: if it succeeds, the bread is gone and every row
  -- of an order still refers to a bread in the stock, and if not, nothing has changed.
  pub delete_bread-Stocked :
      (id : ℤ) (d : Db F P)
      → Stocked d.tables
      → Holds
          (λ _ t. (t ≡ record d.tables { breads = without_bread id d.tables.breads }) × Stocked t)
          (λ t. t ≡ d.tables)
          (delete_bread id d)
  unfolding delete_bread
  delete_bread-Stocked id d s =
      Holds-mono (λ x t. delete_bread_row id d.tables ≡ ok (x, t)) (λ t. t ≡ d.tables)
        (λ _ t. (t ≡ record d.tables { breads = without_bread id d.tables.breads }) × Stocked t)
        (λ t. t ≡ d.tables) (λ x t h. delete_bread_row-Stocked id d.tables t s h) (λ _ e. e)
        (exec (delete_bread_row id) d) (exec-Holds (delete_bread_row id) d)
