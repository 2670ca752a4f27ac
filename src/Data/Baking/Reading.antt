-- ===== src/Data/Baking/Reading.antt =====
-- The orders to bake in data/models.go: GetAllMakeOrders and GetMakerOrders. An order whose details
-- cannot be read, and a bread that cannot, is left out. ORDER BY is a parameter.
use bakery_go.Common.{Bool, List, [], ◌∷◌, Option, none, some, String, if◌then◌else◌}
use bakery_go.Common.Int.{ℤ, eqb_ℤ, ltb_ℤ}
use bakery_go.Common.Sorting.{Sorter}
use bakery_go.Data.Types.{Bread, MakeOrderRow, MakeDetailRow}
use bakery_go.Data.Db.{Db, Result, ok, err, M, pure, ◌>>=◌, exec}
use bakery_go.Data.Breads.{get_bread_by_id}

-- An order with its breads. The maker and the times are not read.
pub record MakeOrder (F : Type 0) : Type 0 where
  pub id : ℤ
  pub bread_maker_id : ℤ
  pub make_order_uuid : String
  pub breads : List (Bread F)

abbrev pub make_id_desc : MakeOrderRow → MakeOrderRow → Bool
make_id_desc a b = ltb_ℤ b.id a.id

-- SELECT … FROM make_order_details WHERE make_order_id = $1
unfoldable pub make_details_of : ℤ → List MakeDetailRow → List MakeDetailRow
make_details_of id [] = []
make_details_of id (r ∷ rs) =
    let rest = make_details_of id rs in if eqb_ℤ r.make_order_id id then r ∷ rest else rest

-- WHERE bread_maker_id = $1
unfoldable pub made_by : ℤ → List MakeOrderRow → List MakeOrderRow
made_by id [] = []
made_by id (o ∷ os') =
    let rest = made_by id os' in if eqb_ℤ o.bread_maker_id id then o ∷ rest else rest

abbrev pub kept : {A : Type 0} → Option A → List A → List A
kept none l = l
kept (some a) l = a ∷ l

module _ {F : Type 0} where
  abbrev pub make_order : MakeOrderRow → List (Bread F) → Option (MakeOrder F)
  make_order o breads = some (record {
    id = o.id;
    bread_maker_id = o.bread_maker_id;
    make_order_uuid = o.make_order_uuid;
    breads = breads;
  })

module _ {F P : Type 0} where
  abbrev pub bread_or_skip :
      MakeDetailRow → Result (Bread F) × Db F P → Result (Option (Bread F)) × Db F P
  bread_or_skip r (ok b, d) = (ok (some (record b { quantity = r.quantity })), d)
  bread_or_skip r (err e, d) = (ok none, d)

  unfoldable pub read_make_breads : List MakeDetailRow → M (Db F P) (List (Bread F))
  unfolding get_bread_by_id
  read_make_breads [] = pure []
  read_make_breads (r ∷ rs) = do
    first ← λ d. bread_or_skip r (get_bread_by_id r.bread_id d)
    rest ← read_make_breads rs
    pure (kept first rest)

  abbrev pub make_or_skip :
      MakeOrderRow → Result (List MakeDetailRow) × Db F P → Result (Option (MakeOrder F)) × Db F P
  make_or_skip o (err e, d) = (ok none, d)
  make_or_skip o (ok rows, d) = (do breads ← read_make_breads rows; pure (make_order o breads)) d

  unfoldable pub read_make_orders : List MakeOrderRow → M (Db F P) (List (MakeOrder F))
  unfolding exec make_details_of read_make_breads
  read_make_orders [] = pure []
  read_make_orders (o ∷ os') = do
    first ← λ d. make_or_skip o (exec (λ t. ok (make_details_of o.id t.make_details, t)) d)
    rest ← read_make_orders os'
    pure (kept first rest)

  unfoldable pub get_all_make_orders : Sorter MakeOrderRow → M (Db F P) (List (MakeOrder F))
  unfolding exec read_make_orders
  get_all_make_orders order_by = do
    rows ← exec (λ t. ok (order_by.sort make_id_desc t.make_orders, t))
    read_make_orders rows

  unfoldable pub get_maker_orders : Sorter MakeOrderRow → ℤ → M (Db F P) (List (MakeOrder F))
  unfolding exec made_by read_make_orders
  get_maker_orders order_by maker_id = do
    rows ← exec (λ t. ok (order_by.sort make_id_desc (made_by maker_id t.make_orders), t))
    read_make_orders rows
