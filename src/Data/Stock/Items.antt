-- ===== src/Data/Stock/Items.antt =====
-- `FulfillOrderItem`: what it takes, and what it leaves alone.
use bakery_go.Common.{
  ◌≡◌, ◌⊎◌, refl, true, false, [], some, arith, Bool-cases, ◌∙◌, subst, ap, inl, inr,
}
use bakery_go.Common.Int.{ℤ, pos, ◌-ℤ◌, ◌≤ℤ◌, ◌<ℤ◌, leb_ℤ, ltb_ℤ, eqb_ℤ, -ℤ_parts}
use bakery_go.Data.Db.{Tables, Db, ok, pure, statement, transaction}
use bakery_go.Data.Db.Hoare.{Holds, Holds-mono, and_then-Holds, transaction-Holds}
use bakery_go.Data.Stock.Rows.{quantity_of-update, eqb_ℤ_refl, UniqueIds, non_negative-update}
use bakery_go.Data.Stock.Statements.{
  Same, Written, ReadAs, select_quantity-Holds, exec_update_quantity-Holds,
}
use bakery_go.Data.Stock.{
  quantity_of, update_quantity, non_negative, select_quantity, exec_update_quantity, fulfillable,
  deduct, fulfill_order_item,
}

-- `f` is the smaller of two numbers.
abbrev pub Smaller : ℤ → ℤ → ℤ → Type 0
Smaller f a b = (f ≤ℤ a) × (f ≤ℤ b) × ((f ≡ a) ⊎ (f ≡ b))

ltb_ℤ_lt : (a b : ℤ) → ltb_ℤ a b ≡ true → a <ℤ b
ltb_ℤ_lt a b h = ground (arith, h)

fulfillable-Smaller : (requested q : ℤ) → Smaller (fulfillable requested q) requested q
fulfillable-Smaller requested q = elim (Bool-cases (ltb_ℤ q requested)) [
  | inl less ↦ rw less (omega (arith, ltb_ℤ_lt q requested less), omega arith, inr refl)
  | inr enough ↦ rw enough (omega arith, ground (arith, enough), inl refl)
]

module _ {F P : Type 0} where
  -- The tables after `f` units of a bread were taken.
  abbrev pub taken : ℤ → ℤ → Tables F P → Tables F P
  taken id f t = record t { breads = update_quantity id (λ q. q -ℤ f) t.breads }

  -- What a successful call for `requested` units has done: the row had `q` units, the smaller of the
  -- two numbers is taken, and the constraint holds of the new table.
  abbrev pub AsTaken : ℤ → ℤ → Tables F P → ℤ → Tables F P → Type 0
  AsTaken id requested t f t' =
      (q : ℤ) × (quantity_of id t.breads ≡ some q)
      × Smaller f requested q
      × (pos 0 <ℤ f)
      × (t' ≡ taken id f t)
      × (non_negative t'.breads ≡ true)

  deduct-Holds :
      (id requested q : ℤ) (t : Tables F P) (d : Db F P)
      → d.tables ≡ t
      → quantity_of id t.breads ≡ some q
      → Holds (AsTaken id requested t) (λ _. Unit {0}) (deduct id (fulfillable requested q) d)
  deduct-Holds id requested q t d e row =
      elim (Bool-cases (leb_ℤ (fulfillable requested q) (pos 0))) [
        | inl none_left ↦ rw none_left tt
        | inr some_left ↦
            let f = fulfillable requested q in
            rw some_left (
              and_then-Holds (Written id (λ p. p -ℤ f) d.tables) (Same d.tables)
                (AsTaken id requested t) (λ _. Unit {0}) (λ _. pure f)
                (exec_update_quantity id (λ p. p -ℤ f) d)
                (exec_update_quantity-Holds id (λ p. p -ℤ f) d)
                (λ _ d' w. (
                  q,
                  row,
                  fulfillable-Smaller requested q,
                  ground arith,
                  w.0 ∙ ap (taken id f) e,
                  w.1,
                ))
                (λ _ _. tt))
      ]

  -- A call that succeeds takes a positive number of units from the bread's row, the number requested
  -- or all that there is, whichever is less, and leaves a table without a negative quantity. A call
  -- that fails, for whatever reason, leaves the tables as they were.
  pub fulfill_order_item-AsTaken :
      (id requested : ℤ) (d : Db F P)
      → Holds (AsTaken id requested d.tables) (Same d.tables) (fulfill_order_item id requested d)
  unfolding fulfill_order_item
  fulfill_order_item-AsTaken id requested d =
      transaction-Holds (AsTaken id requested d.tables) _ d (λ d' e.
        and_then-Holds (ReadAs id d'.tables) (Same d'.tables) (AsTaken id requested d.tables)
          (λ _. Unit {0}) (λ q. deduct id (fulfillable requested q)) (select_quantity id d')
          (select_quantity-Holds id d')
          (λ q d'' r.
            deduct-Holds id requested q d.tables d'' (r.0 ∙ e)
              (subst (λ (t : Tables F P). quantity_of id t.breads ≡ some q) e r.1))
          (λ _ _. tt))

  -- The successful branch in full: without a failing statement, from a row with `q` units, `q`
  -- positive, a call for a positive number succeeds, with the smaller of the two numbers.
  pub fulfill_order_item_ok :
      (id requested q : ℤ) (d : Db F P)
      → d.faults ≡ []
      → non_negative d.tables.breads ≡ true
      → UniqueIds d.tables.breads
      → quantity_of id d.tables.breads ≡ some q
      → pos 0 <ℤ q
      → pos 0 <ℤ requested
      → (fulfill_order_item id requested d).0 ≡ ok (fulfillable requested q)
  unfolding fulfill_order_item transaction statement select_quantity exec_update_quantity
  fulfill_order_item_ok id requested q d calm fits key row some_q some_r =
      let f = fulfillable requested q in
      let left : pos 0 ≤ℤ q -ℤ f = ground (arith, -ℤ_parts q f) in
      let fits' = non_negative-update id q (λ p. p -ℤ f) d.tables.breads key row left fits in
      ground (arith, calm, fits', row)

  -- No unit is lost or made up: after a successful call the row of the bread holds what it held
  -- less the units returned, which are neither more than requested nor more than it held, and the
  -- row of any other bread is as it was.
  pub fulfill_order_item_conserves :
      (id requested j : ℤ) (d : Db F P)
      → eqb_ℤ id j ≡ false
      → Holds
          (λ f t.
            (q : ℤ) × (quantity_of id d.tables.breads ≡ some q)
            × (quantity_of id t.breads ≡ some (q -ℤ f))
            × (pos 0 <ℤ f)
            × (f ≤ℤ q)
            × (f ≤ℤ requested)
            × (quantity_of j t.breads ≡ quantity_of j d.tables.breads))
          (Same d.tables)
          (fulfill_order_item id requested d)
  fulfill_order_item_conserves id requested j d ne =
      Holds-mono (AsTaken id requested d.tables) (Same d.tables) _ (Same d.tables)
        (λ f t h.
          let new = ap (λ (u : Tables F P). quantity_of id u.breads) h.4 in
          let other = ap (λ (u : Tables F P). quantity_of j u.breads) h.4 in
          (
            h.0,
            h.1,
            new
                ∙ quantity_of-update id id (λ p. p -ℤ f) d.tables.breads
                ∙ rw (eqb_ℤ_refl id, h.1) refl,
            h.3,
            h.2.1,
            h.2.0,
            other ∙ quantity_of-update id j (λ p. p -ℤ f) d.tables.breads ∙ rw ne refl,
          ))
        (λ _ e. e) (fulfill_order_item id requested d) (fulfill_order_item-AsTaken id requested d)
