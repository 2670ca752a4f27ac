-- ===== src/Data/Dashboard.antt =====
-- GetDashboardStats of data/models.go: six aggregates, each of which stays 0 if its query fails. `F`
-- also stands for the numbers that SUM adds.
use bakery_go.Common.{List, length}
use bakery_go.Common.Int.{ℤ, pos}
use bakery_go.Common.Floats.{Floats}
use bakery_go.Data.Db.{Tables, Db, Result, ok, err, M, pure, ◌>>=◌, exec}
use bakery_go.Data.Breads.{low_stock}
use bakery_go.Data.Orders.Reading.{sum_details}

pub record DashboardStats (F : Type 0) : Type 0 where
  pub total_orders : ℤ
  pub total_revenue : F
  pub total_products : ℤ
  pub total_customers : ℤ
  pub total_bread_makers : ℤ
  pub low_stock_count : ℤ

module _ {F P : Type 0} where
  abbrev pub or_default : {A : Type 0} → A → Result A × Db F P → Result A × Db F P
  or_default a (ok b, d) = (ok b, d)
  or_default a (err e, d) = (ok a, d)

  -- SELECT COUNT(*)
  abbrev pub count : {A : Type 0} → (Tables F P → List A) → M (Db F P) ℤ
  count rows d = or_default (pos 0) (exec (λ t. ok (pos (length (rows t)), t)) d)

  abbrev pub revenue : Floats F → M (Db F P) F
  revenue fl d = or_default fl.zero (exec (λ t. ok (sum_details fl t.details, t)) d)

  unfoldable pub get_dashboard_stats : Floats F → M (Db F P) (DashboardStats F)
  unfolding exec sum_details low_stock
  get_dashboard_stats fl = do
    total_orders ← count (λ t. t.orders)
    total_revenue ← revenue fl
    total_products ← count (λ t. t.breads)
    total_customers ← count (λ t. t.customers)
    total_bread_makers ← count (λ t. t.makers)
    low_stock_count ← count (λ t. low_stock (pos 10) t.breads)
    pure (record {
      total_orders = total_orders;
      total_revenue = total_revenue;
      total_products = total_products;
      total_customers = total_customers;
      total_bread_makers = total_bread_makers;
      low_stock_count = low_stock_count;
    })
