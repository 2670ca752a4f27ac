-- ===== src/Frontend/Administration/Served.antt =====
-- The administrators' pages over the server's handlers. The interceptors in between may refuse any
-- call.
use bakery_go.Common.{Bool, String}
use bakery_go.Common.Int.{ℤ}
use bakery_go.Common.Floats.{Floats}
use bakery_go.Common.Sorting.{Sorter}
use bakery_go.Data.Types.{Bread}
use bakery_go.Data.Db.{OrderRow, Db}
use bakery_go.Data.Accounts.{Customer, Accounts}
use bakery_go.Server.Shop.{Reply}
use bakery_go.Server.Admin.{
  get_all_bread, get_low_stock_alerts, get_bread_by_id, create_bread, update_bread, delete_bread,
  update_order_status,
}
use bakery_go.Server.Listing.{
  get_dashboard_stats, get_all_orders, get_all_customers, get_customer_orders,
}
use bakery_go.Frontend.Sessions.{Metadata}
use bakery_go.Frontend.Portal.Served.{served, beside}
use bakery_go.Frontend.Administration.{AdminClient}

module _ {A S T : Type 0} where
  -- A handler that only sees the accounts.
  abbrev pub ahead : (S → Reply A × S) → S × T → Reply A × (S × T)
  ahead handler (s, t) = let (r, s') = handler s in (r, (s', t))

module _ {F P : Type 0} (fl : Floats F) (to_numeric : F → F) (tax_rate : F) (now : ℤ)
    (number : String) (by_quantity : Sorter (Bread F)) (by_name : Sorter Customer)
    (by_id : Sorter OrderRow) (refuses : String → Metadata → Bool) where
  abbrev pub admin_server : AdminClient F (Accounts × Db F P)
  admin_server = record {
    get_dashboard_stats = λ md.
        served (refuses "/bread.AdminService/GetDashboardStats" md)
          (beside (get_dashboard_stats fl));
    get_low_stock_alerts = λ md.
        served (refuses "/bread.AdminService/GetLowStockAlerts" md)
          (beside (get_low_stock_alerts by_quantity));
    get_all_bread =
        λ md. served (refuses "/bread.AdminService/GetAllBread" md) (beside get_all_bread);
    get_bread_by_id = λ md id.
        served (refuses "/bread.AdminService/GetBreadById" md) (beside (get_bread_by_id id));
    create_bread =
        λ md req. served (refuses "/bread.AdminService/CreateBread" md) (beside (create_bread req));
    update_bread =
        λ md req. served (refuses "/bread.AdminService/UpdateBread" md) (beside (update_bread req));
    delete_bread =
        λ md id. served (refuses "/bread.AdminService/DeleteBread" md) (beside (delete_bread id));
    get_all_orders =
        λ md. served (refuses "/bread.AdminService/GetAllOrders" md) (beside (get_all_orders fl));
    update_order_status = λ md uuid status.
        served (refuses "/bread.AdminService/UpdateOrderStatus" md)
          (beside (update_order_status fl to_numeric tax_rate now number uuid status));
    get_all_customers = λ md.
        served (refuses "/bread.AdminService/GetAllCustomers" md)
          (ahead (get_all_customers by_name));
    get_customer_orders = λ md id.
        served (refuses "/bread.AdminService/GetCustomerOrders" md)
          (get_customer_orders fl by_id id);
  }
