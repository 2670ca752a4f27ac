-- ===== src/Server/Listing.antt =====
-- The lists of server/gRPCAdmin.go (GetDashboardStats, GetAllCustomers, GetCustomerOrders,
-- GetAllOrders, GetAllMakeOrders), and GetMyOrders of server/gRPCInvoice.go. The accounts and the
-- other tables are two states. ORDER BY is a parameter. Dates are left out, and so are the names of
-- the bread makers.
pub mod Owned
use bakery_go.Common.{List, [], ◌∷◌, ◌++◌, map, String}
use bakery_go.Common.Int.{ℤ, int32}
use bakery_go.Common.Floats.{Floats}
use bakery_go.Common.Sorting.{Sorter}
use bakery_go.Data.Types.{Bread, BuyOrder, MakeOrderRow}
use bakery_go.Data.Db.{OrderRow, Db, Result, ok, err}
use bakery_go.Data.Accounts
use bakery_go.Data.Accounts.{Customer, Accounts, get_customer_by_id}
use bakery_go.Data.Baking.Reading
use bakery_go.Data.Baking.Reading.{MakeOrder}
use bakery_go.Data.Dashboard
use bakery_go.Data.Orders.Reading.{get_all_buy_orders, get_order_total_cost}
use bakery_go.Data.Orders.Reading as OrderReading
use bakery_go.Proto
use bakery_go.Proto.{
  BuyOrderSummary, BuyOrderDetails, DashboardStats, CustomerOrdersResponse, MakeOrderProto,
}
use bakery_go.Server.Shop.{Reply, replied, fails, not_found, internal}
use bakery_go.Server.Admin.{summary}

module _ {F : Type 0} where
  abbrev pub stats_to_proto : Dashboard.DashboardStats F → DashboardStats F
  stats_to_proto s = record {
    total_orders = int32 s.total_orders;
    total_revenue = s.total_revenue;
    total_products = int32 s.total_products;
    total_customers = int32 s.total_customers;
    total_bread_makers = int32 s.total_bread_makers;
    low_stock_count = int32 s.low_stock_count;
  }

  -- GetMyOrders does not fill in the status.
  abbrev pub my_summary : BuyOrder F → F → BuyOrderSummary F
  my_summary order total_cost = record (summary order total_cost) { status = "" }

  abbrev pub listed_bread : Bread F → Proto.Bread F
  listed_bread b = record {
    id = int32 b.id;
    name = b.name;
    price = b.price;
    quantity = int32 b.quantity;
    description = b.description;
    kind = b.kind;
    status = "";
    image = b.image;
  }

  abbrev pub make_order_to_proto : MakeOrder F → MakeOrderProto F
  make_order_to_proto o = record {
    id = int32 o.id;
    bread_maker_id = int32 o.bread_maker_id;
    make_order_uuid = o.make_order_uuid;
    breads = map listed_bread o.breads;
  }

  abbrev pub listed_detail : BuyOrder F → Bread F → BuyOrderDetails F
  listed_detail o b = record {
    buy_order_id = int32 o.id;
    buy_order_uuid = o.buy_order_uuid;
    bread_id = int32 b.id;
    quantity = int32 b.quantity;
    price = b.price;
    status = b.status;
  }

  unfoldable pub listed_details : List (BuyOrder F) → List (BuyOrderDetails F)
  listed_details [] = []
  listed_details (o ∷ os') = map (listed_detail o) o.breads ++ listed_details os'

abbrev pub customer_to_proto : Customer → Proto.Customer
customer_to_proto c = record { id = int32 c.id; name = c.name; email = c.email }

abbrev pub customer_list :
    Result (List Customer) × Accounts → Reply (List Proto.Customer) × Accounts
customer_list (err e, a) = (fails internal, a)
customer_list (ok cs, a) = (replied (map customer_to_proto cs), a)

unfoldable pub get_all_customers :
    Sorter Customer → Accounts → Reply (List Proto.Customer) × Accounts
unfolding Accounts.get_all_customers
get_all_customers order_by a = customer_list (Accounts.get_all_customers order_by a)

module _ {F P : Type 0} (fl : Floats F) where
  abbrev pub stats_reply :
      Result (Dashboard.DashboardStats F) × Db F P → Reply (DashboardStats F) × Db F P
  stats_reply (err e, d) = (fails internal, d)
  stats_reply (ok s, d) = (replied (stats_to_proto s), d)

  unfoldable pub get_dashboard_stats : Db F P → Reply (DashboardStats F) × Db F P
  unfolding Dashboard.get_dashboard_stats
  get_dashboard_stats d = stats_reply (Dashboard.get_dashboard_stats fl d)

  -- An error of the total is dropped, and the total is then 0.
  abbrev pub total_or_zero : Result F × Db F P → F × Db F P
  total_or_zero (ok c, d) = (c, d)
  total_or_zero (err e, d) = (fl.zero, d)

  unfoldable pub summarise :
      (BuyOrder F → F → BuyOrderSummary F)
      → List (BuyOrder F)
      → Db F P
      → List (BuyOrderSummary F) × Db F P
  unfolding get_order_total_cost
  summarise show [] d = ([], d)
  summarise show (o ∷ os') d =
      let (cost, d') = total_or_zero (get_order_total_cost fl o.id d) in
      let (rest, d'') = summarise show os' d' in (show o cost ∷ rest, d'')

  abbrev pub all_orders :
      Result (List (BuyOrder F)) × Db F P
      → Reply (List (BuyOrderSummary F) × List (BuyOrderDetails F)) × Db F P
  all_orders (err e, d) = (fails internal, d)
  all_orders (ok os', d) =
      let (orders, d') = summarise summary os' d in (replied (orders, listed_details os'), d')

  unfoldable pub get_all_orders :
      Db F P → Reply (List (BuyOrderSummary F) × List (BuyOrderDetails F)) × Db F P
  unfolding get_all_buy_orders summarise listed_details
  get_all_orders d = all_orders (get_all_buy_orders fl d)

  abbrev pub orders_response :
      (BuyOrder F → F → BuyOrderSummary F)
      → Customer
      → Result (List (BuyOrder F)) × Db F P
      → Reply (CustomerOrdersResponse F) × Db F P
  orders_response show c (err e, d) = (fails internal, d)
  orders_response show c (ok os', d) =
      let (orders, d') = summarise show os' d in
      (replied (record { customer = customer_to_proto c; orders = orders }), d')

  -- The two calls that list a customer's orders, up to how they show an order.
  abbrev pub orders_for :
      (BuyOrder F → F → BuyOrderSummary F)
      → Sorter OrderRow
      → ℤ
      → Result Customer × Accounts
      → Db F P
      → Reply (CustomerOrdersResponse F) × (Accounts × Db F P)
  orders_for show order_by id (err e, a) d = (fails not_found, (a, d))
  orders_for show order_by id (ok c, a) d =
      let (r, d') = orders_response show c (OrderReading.get_customer_orders fl order_by id d) in
      (r, (a, d'))

  unfoldable pub get_customer_orders :
      Sorter OrderRow
      → ℤ
      → Accounts × Db F P
      → Reply (CustomerOrdersResponse F) × (Accounts × Db F P)
  unfolding get_customer_by_id OrderReading.get_customer_orders summarise
  get_customer_orders order_by id (a, d) =
      orders_for summary order_by id (get_customer_by_id id a) d

  unfoldable pub get_my_orders :
      Sorter OrderRow
      → ℤ
      → Accounts × Db F P
      → Reply (CustomerOrdersResponse F) × (Accounts × Db F P)
  unfolding get_customer_by_id OrderReading.get_customer_orders summarise
  get_my_orders order_by id (a, d) = orders_for my_summary order_by id (get_customer_by_id id a) d

module _ {F P : Type 0} where
  abbrev pub make_order_list :
      Result (List (MakeOrder F)) × Db F P → Reply (List (MakeOrderProto F)) × Db F P
  make_order_list (err e, d) = (fails internal, d)
  make_order_list (ok os', d) = (replied (map make_order_to_proto os'), d)

  unfoldable pub get_all_make_orders :
      Sorter MakeOrderRow → Db F P → Reply (List (MakeOrderProto F)) × Db F P
  unfolding Reading.get_all_make_orders
  get_all_make_orders order_by d = make_order_list (Reading.get_all_make_orders order_by d)
