-- ===== src/Data/Stock/Draws.antt =====
-- How much of a bread an operation has taken from its row.
use bakery_go.Common.{
  ◌≡◌, refl, Option, none, some, ap, ◌∙◌, true, Bool-cases, inl, inr, if◌then◌else◌,
}
use bakery_go.Common.Int.{ℤ, pos, ◌+ℤ◌, ◌-ℤ◌, eqb_ℤ, eq_of_parts, int_laws}
use bakery_go.Data.Db.{Tables}
use bakery_go.Data.Stock.{quantity_of, non_negative}
use bakery_go.Data.Stock.Rows.{map_option, quantity_of-update}
use bakery_go.Data.Stock.Items.{AsTaken}

-- What a call for the bread `id` takes from the bread `j`.
abbrev pub share : ℤ → ℤ → ℤ → ℤ
share id j f = if eqb_ℤ id j then f else pos 0

minus_zero : (o : Option ℤ) → o ≡ map_option (λ q. q -ℤ pos 0) o
minus_zero none = refl
minus_zero (some q) = ap some (eq_of_parts q (q -ℤ pos 0) (omega int_laws))

minus_twice :
    (a b : ℤ) (o : Option ℤ)
    → map_option (λ q. q -ℤ b) (map_option (λ q. q -ℤ a) o) ≡ map_option (λ q. q -ℤ (a +ℤ b)) o
minus_twice a b none = refl
minus_twice a b (some q) = ap some (eq_of_parts (q -ℤ a -ℤ b) (q -ℤ (a +ℤ b)) (omega int_laws))

module _ {F P : Type 0} where
  -- `f` units of the bread `j` are gone, and the constraint on the quantities is kept.
  abbrev pub Draws : ℤ → ℤ → Tables F P → Tables F P → Type 0
  Draws j f t t' =
      (quantity_of j t'.breads ≡ map_option (λ q. q -ℤ f) (quantity_of j t.breads))
      × (non_negative t.breads ≡ true → non_negative t'.breads ≡ true)

  pub Draws-none : (j : ℤ) (t t' : Tables F P) → t' ≡ t → Draws j (pos 0) t t'
  Draws-none j t t' e = (
    ap (λ (u : Tables F P). quantity_of j u.breads) e ∙ minus_zero (quantity_of j t.breads),
    λ n. ap (λ (u : Tables F P). non_negative u.breads) e ∙ n,
  )

  pub Draws-trans :
      (j a b : ℤ) (t u v : Tables F P) → Draws j a t u → Draws j b u v → Draws j (a +ℤ b) t v
  Draws-trans j a b t u v x y = (
    y.0 ∙ ap (map_option (λ q. q -ℤ b)) x.0 ∙ minus_twice a b (quantity_of j t.breads),
    λ n. y.1 (x.1 n),
  )

  pub AsTaken-Draws :
      (id requested j f : ℤ) (t t' : Tables F P)
      → AsTaken id requested t f t'
      → Draws j (share id j f) t t'
  AsTaken-Draws id requested j f t t' h =
      let e =
        ap (λ (u : Tables F P). quantity_of j u.breads) h.4
        ∙ quantity_of-update id j (λ q. q -ℤ f) t.breads in
      elim (Bool-cases (eqb_ℤ id j)) [
        | inl hit ↦ (e ∙ rw hit refl, λ _. h.5)
        | inr miss ↦ (e ∙ rw miss (minus_zero (quantity_of j t.breads)), λ _. h.5)
      ]
