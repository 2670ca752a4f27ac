-- ===== src/Data/Orders/Reading/RoundTrip.antt =====
-- Reading an order that was inserted.
use text.Mathlib.TextPositions.{eq_refl as str_eq_refl}
use mathlib.Core.Option.{some-injective}
use mathlib.Core.List.{Perm}
use mathlib.Core.List.Perm
use bakery_go.Common.{
  ◌≡◌, refl, true, List, [], ◌∷◌, ◌++◌, none, some, map, ap, ◌∙◌, sym, subst, arith, All,
  Bool-cases, inl, inr,
}
use bakery_go.Common.Int.{ℤ, eqb_ℤ}
use bakery_go.Common.Floats.{Floats}
use bakery_go.Data.Types.{Bread, BuyOrder}
use bakery_go.Data.Db.{OrderRow, DetailRow, Tables, Db}
use bakery_go.Data.Stock.Rows.{eqb_ℤ_eq, eqb_ℤ_refl}
use bakery_go.Data.Orders.{
  order_by_uuid, order_by_id, details_of, details_in, detail_row, is_some, read_order, bread_of,
}
use bakery_go.Data.Orders.Inserting.{processing, Inserted}
use bakery_go.Data.Orders.Keys.{order_by_uuid-append}

module _ {F : Type 0} where
  -- The foreign key of order_details.
  abbrev pub Referring : List OrderRow → List (DetailRow F) → Type 0
  Referring orders = All (λ r. is_some (order_by_id r.buy_order_id orders) ≡ true)

  details_of-fresh :
      (id : ℤ) (orders : List OrderRow) (rows : List (DetailRow F))
      → order_by_id id orders ≡ none
      → Referring orders rows
      → details_of id rows ≡ []
  unfolding details_of
  details_of-fresh id orders [] fresh refs = refl
  details_of-fresh id orders (r ∷ rs) fresh refs = elim (Bool-cases (eqb_ℤ r.buy_order_id id)) [
    | inl hit ↦
        let gone : order_by_id r.buy_order_id orders ≡ none =
          ap (λ (i : ℤ). order_by_id i orders) (eqb_ℤ_eq r.buy_order_id id hit) ∙ fresh in
        absurd (ground (arith, refs.0, gone))
    | inr miss ↦ rw miss (details_of-fresh id orders rs fresh refs.1)
  ]

  details_of-append :
      (id : ℤ) (rows more : List (DetailRow F))
      → details_of id (rows ++ more) ≡ details_of id rows ++ details_of id more
  unfolding details_of
  details_of-append id [] more = refl
  details_of-append id (r ∷ rs) more = elim (Bool-cases (eqb_ℤ r.buy_order_id id)) [
    | inl hit ↦ rw (hit, details_of-append id rs more) refl
    | inr miss ↦ rw (miss, details_of-append id rs more) refl
  ]

  details_of-own :
      (numeric : F → F) (id : ℤ) (bs : List (Bread F))
      → details_of id (map (detail_row numeric id) bs) ≡ map (detail_row numeric id) bs
  unfolding details_of
  details_of-own numeric id [] = refl
  details_of-own numeric id (b ∷ bs) = rw (eqb_ℤ_refl id, details_of-own numeric id bs) refl

module _ {F : Type 0} where
  -- A bread as an order stores it, with its price in the column's precision.
  abbrev pub bare : (F → F) → Bread F → Bread F
  bare numeric b = record {
    id = b.id;
    name = "";
    price = numeric b.price;
    quantity = b.quantity;
    image = "";
    description = "";
    kind = "";
    status = "";
  }

  -- What is read of an order that was inserted under `id`. The breads come in any order.
  abbrev pub Reads : (F → F) → BuyOrder F → List (Bread F) → ℤ → BuyOrder F → Type 0
  Reads numeric order breads id o =
      (o.id ≡ id)
      × (o.customer_id ≡ order.customer_id)
      × (o.buy_order_uuid ≡ order.buy_order_uuid)
      × (o.status ≡ "processing")
      × Perm o.breads (map (bare numeric) breads)

  bread_of-map :
      (fl : Floats F) (numeric : F → F) (id : ℤ) (bs : List (Bread F))
      → map (bread_of fl) (map (detail_row numeric id) bs) ≡ map (bare numeric) bs
  bread_of-map fl numeric id [] = refl
  bread_of-map fl numeric id (b ∷ bs) =
      ap (λ (l : List (Bread F)). bare numeric b ∷ l) (bread_of-map fl numeric id bs)

module _ {F P : Type 0} (fl : Floats F) where
  pub Inserted-Reads :
      (order : BuyOrder F) (breads : List (Bread F)) (t t' : Tables F P) (id : ℤ) (o : BuyOrder F)
      (r : OrderRow)
      → ((rows : List (DetailRow F)) → Perm (t.scanned rows) rows)
      → Referring t.orders t.details
      → Inserted order breads t id t'
      → order_by_uuid order.buy_order_uuid t'.orders ≡ some r
      → o ≡ read_order fl r (details_in r.id t')
      → Reads t.numeric order breads id o
  Inserted-Reads order breads t t' id o r scans refs new row same =
      let uuid = order.buy_order_uuid in
      let p = processing id order in
      let found : order_by_uuid uuid t'.orders ≡ some p =
        ap (λ (u : Tables F P). order_by_uuid uuid u.orders) new.3
        ∙ order_by_uuid-append uuid t.orders p new.0
        ∙ rw (str_eq_refl uuid) refl in
      let r_is : r ≡ p = some-injective r p (sym row ∙ found) in
      let own = map (detail_row t.numeric id) breads in
      let rows : details_in id t' ≡ t.scanned own =
        ap (λ (u : Tables F P). details_in id u) new.3
        ∙ ap t.scanned (
            details_of-append id t.details own
            ∙ rw (details_of-fresh id t.orders t.details new.1 refs)
                (details_of-own t.numeric id breads)) in
      let o_is : o ≡ read_order fl p (t.scanned own) =
        same
        ∙ ap (λ (q : OrderRow). read_order fl q (details_in q.id t')) r_is
        ∙ ap (read_order fl p) rows in
      (
        ap (λ (x : BuyOrder F). x.id) o_is,
        ap (λ (x : BuyOrder F). x.customer_id) o_is,
        ap (λ (x : BuyOrder F). x.buy_order_uuid) o_is,
        ap (λ (x : BuyOrder F). x.status) o_is,
        subst (λ (l : List (Bread F)). Perm l (map (bare t.numeric) breads))
            (sym (ap (λ (x : BuyOrder F). x.breads) o_is))
            (subst (λ (l : List (Bread F)). Perm (map (bread_of fl) (t.scanned own)) l)
              (bread_of-map fl t.numeric id breads) (Perm.map (bread_of fl) (scans own))),
      )
