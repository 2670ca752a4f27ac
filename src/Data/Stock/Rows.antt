-- ===== src/Data/Stock/Rows.antt =====
-- The rows of the table bread under the statements on its quantity column.
use bakery_go.Common.{
  ◌≡◌, refl, true, List, [], ◌∷◌, Option, none, some, arith, Bool-cases, inl, inr, ap, sym, ◌∙◌,
  if◌then◌else◌,
}
use bakery_go.Common.Int.{ℤ, pos, ◌≤ℤ◌, eqb_ℤ}
use bakery_go.Data.Types.{Bread}
use bakery_go.Data.Stock.{quantity_of, update_quantity, non_negative}

abbrev pub map_option : {A B : Type 0} → (A → B) → Option A → Option B
map_option f none = none
map_option f (some a) = some (f a)

pub eqb_ℤ_eq : (a b : ℤ) → eqb_ℤ a b ≡ true → a ≡ b
eqb_ℤ_eq a b h = ground arith

pub eqb_ℤ_refl : (a : ℤ) → eqb_ℤ a a ≡ true
eqb_ℤ_refl a = ground arith

module _ {F : Type 0} where
  pub quantity_of-update :
      (id j : ℤ) (f : ℤ → ℤ) (bs : List (Bread F))
      → quantity_of j (update_quantity id f bs)
        ≡ (if eqb_ℤ id j then map_option f (quantity_of j bs) else quantity_of j bs)
  unfolding quantity_of update_quantity
  quantity_of-update id j f [] = ground arith
  quantity_of-update id j f (b ∷ bs) = ground (arith, quantity_of-update id j f bs)

  pub quantity_of_non_negative :
      (id : ℤ) (bs : List (Bread F)) {q : ℤ}
      → non_negative bs ≡ true
      → quantity_of id bs ≡ some q
      → pos 0 ≤ℤ q
  unfolding quantity_of non_negative
  quantity_of_non_negative id [] h e = cc
  quantity_of_non_negative id (b ∷ bs) {q} h e =
      ground (arith, quantity_of_non_negative id bs {q = q})

  -- PRIMARY KEY (id)
  abbrev pub UniqueIds : List (Bread F) → Type 0
  UniqueIds [] = Unit {0}
  UniqueIds (b ∷ bs) = (quantity_of b.id bs ≡ none) × UniqueIds bs

  update_missing :
      (id : ℤ) (f : ℤ → ℤ) (bs : List (Bread F))
      → quantity_of id bs ≡ none
      → update_quantity id f bs ≡ bs
  unfolding quantity_of update_quantity
  update_missing id f [] e = refl
  update_missing id f (b ∷ bs) e = ground (arith, update_missing id f bs)

  -- A write that leaves the one row non-negative keeps the constraint.
  pub non_negative-update :
      (id q : ℤ) (f : ℤ → ℤ) (bs : List (Bread F))
      → UniqueIds bs
      → quantity_of id bs ≡ some q
      → pos 0 ≤ℤ f q
      → non_negative bs ≡ true
      → non_negative (update_quantity id f bs) ≡ true
  unfolding non_negative update_quantity quantity_of
  non_negative-update id q f [] u row h n = refl
  non_negative-update id q f (b ∷ bs) u row h n = elim (Bool-cases (eqb_ℤ b.id id)) [
    | inl hit ↦
        let gone : quantity_of id bs ≡ none =
          ap (λ (i : ℤ). quantity_of i bs) (sym (eqb_ℤ_eq b.id id hit)) ∙ u.0 in
        ground (arith, hit, update_missing id f bs gone)
    | inr miss ↦ ground (arith, miss, non_negative-update id q f bs u.1)
  ]

  pub UniqueIds-update :
      (id : ℤ) (f : ℤ → ℤ) (bs : List (Bread F))
      → UniqueIds bs
      → UniqueIds (update_quantity id f bs)
  unfolding update_quantity
  UniqueIds-update id f [] u = tt
  UniqueIds-update id f (b ∷ bs) u =
      ground (arith, UniqueIds-update id f bs u.1, quantity_of-update id b.id f bs)
