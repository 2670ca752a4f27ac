-- ===== src/Data/Orders/Fulfilling/Leaving.antt =====
-- What serving an order leaves of one row of the stock: the rows of `FulfillOrderTx`.
use bakery_go.Common.{
  ◌≡◌, refl, true, false, List, [], ◌∷◌, Option, none, some, ap, ◌∙◌, sym, Bool-cases, inl, inr,
  if◌then◌else◌, ◌||◌, not, arith,
}
use bakery_go.Common.Int.{eq_of_parts, int_laws, ℤ, pos, ◌-ℤ◌, eqb_ℤ, ltb_ℤ}
use bakery_go.Data.Types.{Bread}
use bakery_go.Data.Db.{Tables, Db, DetailRow, ok}
use bakery_go.Data.Db.Hoare.{Holds, Holds-mono, exec-Holds, ok_value}
use bakery_go.Data.Stock.{fulfillable, quantity_of}
use bakery_go.Data.Stock.Rows.{map_option, quantity_of-update, eqb_ℤ_eq}
use bakery_go.Data.Stock.Statements.{updated}
use bakery_go.Data.Orders.Fulfilling.{set_detail, exec_set_detail}

-- What is left of `q` units of the bread `j` once an order for `b` was served: all if `b` is another
-- bread, none if more is asked for than there is, and the difference otherwise.
unfoldable pub left_by : {F : Type 0} → ℤ → Bread F → ℤ → ℤ
unfolding ◌-ℤ◌
left_by j b q =
    if not (eqb_ℤ b.id j) || eqb_ℤ q (pos 0)
    then q
    else if ltb_ℤ q b.quantity
    then pos 0
    else q -ℤ b.quantity

unfoldable pub left_after : {F : Type 0} → ℤ → List (Bread F) → ℤ → ℤ
unfolding left_by
left_after j [] q = q
left_after j (b ∷ bs) q = left_after j bs (left_by j b q)

module _ {F : Type 0} (j : ℤ) (b : Bread F) where
  pub left_by_other : (o : Option ℤ) → eqb_ℤ b.id j ≡ false → o ≡ map_option (left_by j b) o
  unfolding left_by
  left_by_other none ne = refl
  left_by_other (some q) ne = rw ne refl

  pub left_by_empty : (q : ℤ) → eqb_ℤ q (pos 0) ≡ true → left_by j b q ≡ q
  unfolding left_by
  left_by_empty q e = ground (arith, e)

  left_by_own :
      (q : ℤ)
      → eqb_ℤ b.id j ≡ true
      → eqb_ℤ q (pos 0) ≡ false
      → q -ℤ fulfillable b.quantity q ≡ left_by j b q
  unfolding left_by
  left_by_own q e ne = elim (Bool-cases (ltb_ℤ q b.quantity)) [
    | inl short ↦ rw (e, ne, short) (eq_of_parts (q -ℤ q) (pos 0) (omega int_laws))
    | inr enough ↦ rw (e, ne, enough) refl
  ]

module _ {F P : Type 0} where
  pub exec_set_detail-keeps :
      (id bread : ℤ) (f : DetailRow F → DetailRow F) (d : Db F P)
      → Holds (λ _ t. t.breads ≡ d.tables.breads) (λ _. Unit {0}) (exec_set_detail id bread f d)
  unfolding exec_set_detail
  exec_set_detail-keeps id bread f d =
      let g = λ (t : Tables F P). record t { details = set_detail id bread f t.details } in
      Holds-mono (λ x t. ok (tt, g d.tables) ≡ ok (x, t)) (λ t. t ≡ d.tables)
        (λ _ t. t.breads ≡ d.tables.breads) (λ _. Unit {0})
        (λ x t h.
          ap (λ (p : Unit {0} × Tables F P). p.1.breads) (sym (ok_value (tt, g d.tables) (x, t) h)))
        (λ _ _. tt) (exec_set_detail id bread f d) (exec-Holds (λ t. ok (tt, g t)) d)

module _ {F P : Type 0} (j : ℤ) where
  -- The row of the bread `j` has changed by `f`, if it is there.
  abbrev pub Row : (ℤ → ℤ) → Tables F P → Tables F P → Type 0
  Row f t t' = quantity_of j t'.breads ≡ map_option f (quantity_of j t.breads)

  pub Row-trans :
      (f g : ℤ → ℤ) (t u v : Tables F P) → Row f t u → Row g u v → Row (λ q. g (f q)) t v
  Row-trans f g t u v x y = y ∙ ap (map_option g) x ∙ twice (quantity_of j t.breads)
    where
      twice : (o : Option ℤ) → map_option g (map_option f o) ≡ map_option (λ q. g (f q)) o
      twice none = refl
      twice (some q) = refl

  -- A row that was locked, if it is the row of `j`.
  pub own_row :
      (b : Bread F) (q : ℤ) (t : Tables F P)
      → eqb_ℤ b.id j ≡ true
      → quantity_of b.id t.breads ≡ some q
      → quantity_of j t.breads ≡ some q
  own_row b q t e row = ap (λ (i : ℤ). quantity_of i t.breads) (sym (eqb_ℤ_eq b.id j e)) ∙ row

  pub kept-Row :
      (b : Bread F) (q : ℤ) (t t' : Tables F P)
      → eqb_ℤ q (pos 0) ≡ true
      → quantity_of b.id t.breads ≡ some q
      → t'.breads ≡ t.breads
      → Row (left_by j b) t t'
  kept-Row b q t t' zero_q row same = ap (quantity_of j) same ∙ elim (Bool-cases (eqb_ℤ b.id j)) [
    | inl own ↦
        let e = own_row b q t own row in
        e ∙ ap some (sym (left_by_empty j b q zero_q)) ∙ ap (map_option (left_by j b)) (sym e)
    | inr other ↦ left_by_other j b (quantity_of j t.breads) other
  ]

  pub written-Row :
      (b : Bread F) (q : ℤ) (t t' : Tables F P)
      → eqb_ℤ q (pos 0) ≡ false
      → quantity_of b.id t.breads ≡ some q
      → t' ≡ updated b.id (λ p. p -ℤ fulfillable b.quantity q) t
      → Row (left_by j b) t t'
  written-Row b q t t' some_q row w =
      let f = λ (p : ℤ). p -ℤ fulfillable b.quantity q in
      ap (λ (u : Tables F P). quantity_of j u.breads) w
      ∙ quantity_of-update b.id j f t.breads
      ∙ elim (Bool-cases (eqb_ℤ b.id j)) [
        | inl own ↦
            let e = own_row b q t own row in
            rw own (
              ap (map_option f) e
              ∙ ap some (left_by_own j b q own some_q)
              ∙ ap (map_option (left_by j b)) (sym e))
        | inr other ↦ rw other (left_by_other j b (quantity_of j t.breads) other)
      ]
