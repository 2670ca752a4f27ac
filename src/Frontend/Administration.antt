-- ===== src/Frontend/Administration.antt =====
-- The administrators' pages in frontend/cmd/web/admin_handlers.go, up to the pages on bread makers
-- and the two streams. The client of the server is a parameter (`W` is the state behind it); it
-- answers `none` for an error. `atoi` and `parse_float` give what strconv.Atoi and
-- strconv.ParseFloat return beside their errors, which the handlers ignore. csrf is left out.
pub mod Forms
pub mod Served
use bakery_go.Common.{
  ℕ, Bool, true, false, List, [], ◌∷◌, Option, none, some, String, if◌then◌else◌,
}
use bakery_go.Common.Int.{ℤ, pos, int32}
use bakery_go.Common.Floats.{Floats}
use bakery_go.Proto
use bakery_go.Proto.{
  BuyOrderSummary, BuyOrderDetails, DashboardStats, CreateBreadRequest, UpdateBreadRequest,
  CustomerOrdersResponse,
}
use bakery_go.Server.Rbac.{Claims}
use bakery_go.Frontend.Sessions.{
  Request, Response, redirects, http_error, Metadata, Templates, show_page, form_value,
  admin_grpc_context, get_admin_user_from_token,
}
use bakery_go.Frontend.Portal.{at_most}

pub record AdminClient (F W : Type 0) : Type 0 where
  pub get_dashboard_stats : Metadata → W → Option (DashboardStats F) × W
  pub get_low_stock_alerts : Metadata → W → Option (List (Proto.Bread F)) × W
  pub get_all_bread : Metadata → W → Option (List (Proto.Bread F)) × W
  pub get_bread_by_id : Metadata → ℤ → W → Option (Proto.Bread F) × W
  pub create_bread : Metadata → CreateBreadRequest F → W → Option (Proto.Bread F) × W
  pub update_bread : Metadata → UpdateBreadRequest F → W → Option (Proto.Bread F) × W
  pub delete_bread : Metadata → ℤ → W → Option (Unit {0}) × W
  pub get_all_orders :
      Metadata → W → Option (List (BuyOrderSummary F) × List (BuyOrderDetails F)) × W
  pub update_order_status : Metadata → String → String → W → Option (BuyOrderSummary F) × W
  pub get_all_customers : Metadata → W → Option (List Proto.Customer) × W
  pub get_customer_orders : Metadata → ℤ → W → Option (CustomerOrdersResponse F) × W

-- Without the bread makers, and without the error, which no handler sets.
pub record AdminTemplateData (F : Type 0) : Type 0 where
  pub title : String
  pub current_page : String
  pub admin_username : String
  pub admin_role : String
  pub stats : Option (DashboardStats F)
  pub breads : List (Proto.Bread F)
  pub bread : Option (Proto.Bread F)
  pub customers : List Proto.Customer
  pub customer : Option Proto.Customer
  pub orders : List (BuyOrderSummary F)
  pub alerts : List (Proto.Bread F)
  pub message : String

abbrev pub or_none {ℓ} : {A : Type ℓ} → Option (List A) → List A
or_none none = []
or_none (some l) = l

module _ {F : Type 0} where
  abbrev pub no_stats : Floats F → DashboardStats F
  no_stats fl = record {
    total_orders = pos 0;
    total_revenue = fl.zero;
    total_products = pos 0;
    total_customers = pos 0;
    total_bread_makers = pos 0;
    low_stock_count = pos 0;
  }

  abbrev pub or_no_stats : Floats F → Option (DashboardStats F) → DashboardStats F
  or_no_stats fl none = no_stats fl
  or_no_stats fl (some s) = s

  abbrev pub five_orders :
      Option (List (BuyOrderSummary F) × List (BuyOrderDetails F)) → List (BuyOrderSummary F)
  five_orders none = []
  five_orders (some (orders, details)) = at_most 5 orders

module _ {F : Type 0} (parse : String → Option Claims) where
  abbrev pub new_admin_template_data : Request → String → String → AdminTemplateData F
  new_admin_template_data r title current_page =
      let (id, username, role) = get_admin_user_from_token parse r in
      record {
        title = title;
        current_page = current_page;
        admin_username = username;
        admin_role = role;
        stats = none;
        breads = [];
        bread = none;
        customers = [];
        customer = none;
        orders = [];
        alerts = [];
        message = "";
      }

module _ {D W : Type 0} where
  abbrev pub with_context : (Metadata → W → Response D × W) → Option Metadata → W → Response D × W
  with_context go none w = (redirects "/admin/login?error=Session+expired", w)
  with_context go (some md) w = go md w

  -- A handler that needs the token of an administrator.
  abbrev pub as_admin : (Metadata → W → Response D × W) → Request → W → Response D × W
  as_admin go r = with_context go (admin_grpc_context r)

  -- A page for what was read, or an error.
  abbrev pub page_or : {A : Type 0} → ℕ → (A → Response D) → Option A × W → Response D × W
  page_or code show (none, w) = (http_error code, w)
  page_or code show (some a, w) = (show a, w)

module _ {F W : Type 0} (parse : String → Option Claims)
    (templates : Templates (AdminTemplateData F)) (client : AdminClient F W) where
  abbrev pub shown : String → AdminTemplateData F → Response (AdminTemplateData F)
  shown name data' = show_page templates name data'

  abbrev pub admin_dashboard :
      Floats F → Request → Metadata → W → Response (AdminTemplateData F) × W
  admin_dashboard fl r md w =
      let (stats, w1) = client.get_dashboard_stats md w in
      let (alerts, w2) = client.get_low_stock_alerts md w1 in
      let (orders, w3) = client.get_all_orders md w2 in
      (
        shown "admin/base.html"
            (record (new_admin_template_data parse r "Admin Dashboard" "dashboard") {
              stats = some (or_no_stats fl stats);
              alerts = or_none alerts;
              orders = five_orders orders;
            }),
        w3,
      )

  unfoldable pub admin_dashboard_handler :
      Floats F → Request → W → Response (AdminTemplateData F) × W
  unfolding admin_grpc_context get_admin_user_from_token at_most
  admin_dashboard_handler fl r = as_admin (admin_dashboard fl r) r

  unfoldable pub admin_bread_list_handler : Request → W → Response (AdminTemplateData F) × W
  unfolding admin_grpc_context get_admin_user_from_token
  admin_bread_list_handler r =
      as_admin
        (λ md w.
          page_or 500
            (λ breads.
              shown "admin/bread/list.html"
                (record (new_admin_template_data parse r "Bread Management" "bread") {
                  breads = breads;
                  message = r.message;
                }))
            (client.get_all_bread md w))
        r

  unfoldable pub admin_bread_new_handler : Request → W → Response (AdminTemplateData F) × W
  unfolding get_admin_user_from_token
  admin_bread_new_handler r w =
      (shown "admin/bread/form.html" (new_admin_template_data parse r "New Bread" "bread"), w)

  unfoldable pub admin_orders_handler : Request → W → Response (AdminTemplateData F) × W
  unfolding admin_grpc_context get_admin_user_from_token
  admin_orders_handler r =
      as_admin
        (λ md w.
          page_or 500
            (λ orders.
              shown "admin/orders/list.html"
                (record (new_admin_template_data parse r "Order Management" "orders") {
                  orders = orders.0;
                  message = r.message;
                }))
            (client.get_all_orders md w))
        r

  unfoldable pub admin_customers_handler : Request → W → Response (AdminTemplateData F) × W
  unfolding admin_grpc_context get_admin_user_from_token
  admin_customers_handler r =
      as_admin
        (λ md w.
          page_or 500
            (λ customers.
              shown "admin/customers/list.html"
                (record (new_admin_template_data parse r "Customer Management" "customers") {
                  customers = customers;
                }))
            (client.get_all_customers md w))
        r

  unfoldable pub admin_alerts_handler : Request → W → Response (AdminTemplateData F) × W
  unfolding admin_grpc_context get_admin_user_from_token
  admin_alerts_handler r =
      as_admin
        (λ md w.
          page_or 500
            (λ alerts.
              shown "admin/alerts.html"
                (record (new_admin_template_data parse r "Inventory Alerts" "alerts") {
                  alerts = alerts;
                  message = r.message;
                }))
            (client.get_low_stock_alerts md w))
        r

  module _ (atoi : String → ℤ) where
    unfoldable pub admin_bread_edit_handler : Request → W → Response (AdminTemplateData F) × W
    unfolding admin_grpc_context get_admin_user_from_token
    admin_bread_edit_handler r =
        as_admin
          (λ md w.
            page_or 404
              (λ bread.
                shown "admin/bread/form.html"
                  (record (new_admin_template_data parse r "Edit Bread" "bread") {
                    bread = some bread;
                  }))
              (client.get_bread_by_id md (int32 (atoi r.id)) w))
          r

    unfoldable pub admin_customer_detail_handler : Request → W → Response (AdminTemplateData F) × W
    unfolding admin_grpc_context get_admin_user_from_token
    admin_customer_detail_handler r =
        as_admin
          (λ md w.
            page_or 404
              (λ response.
                shown "admin/customers/detail.html"
                  (record (new_admin_template_data parse r "Customer Details" "customers") {
                    customer = some response.customer;
                    orders = response.orders;
                  }))
              (client.get_customer_orders md (int32 (atoi r.id)) w))
          r
