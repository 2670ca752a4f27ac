-- ===== src/Frontend/Portal.antt =====
-- The pages of the customer portal in frontend/cmd/web/auth_handlers.go. The client of the server is
-- a parameter (`W` is the state behind it); it answers `none` for an error. The customer of a reply
-- is set, as the server sets it. `atoi` reads the variable of a path.
pub mod Own
pub mod Served
use bakery_go.Common.{
  ℕ, zero, suc, Bool, true, false, List, [], ◌∷◌, Option, none, some, String, if◌then◌else◌, not,
  length,
}
use bakery_go.Common.Int.{ℤ, pos, int32, eqb_ℤ}
use bakery_go.Common.Floats.{Floats}
use bakery_go.Proto
use bakery_go.Proto.{
  BuyOrderSummary, BuyOrderDetails, BuyOrderDetailsResponse, CustomerOrdersResponse,
}
use bakery_go.Server.Rbac.{Claims}
use bakery_go.Frontend.Sessions.{
  Request, Response, redirects, http_error, Metadata, Templates, show_page, customer_grpc_context,
  get_customer_id_from_token,
}

pub record PortalClient (F W : Type 0) : Type 0 where
  pub get_my_orders : Metadata → ℤ → W → Option (CustomerOrdersResponse F) × W
  pub get_my_invoices : Metadata → ℤ → W → Option (List (Proto.Invoice F)) × W
  pub get_order_details : Metadata → ℤ → W → Option (BuyOrderDetailsResponse F) × W
  pub get_invoice : Metadata → ℤ → W → Option (Proto.Invoice F) × W

pub record PortalTemplateData (F : Type 0) : Type 0 where
  pub title : String
  pub active_page : String
  pub customer_name : String
  pub customer_id : ℤ
  pub customer : Option Proto.Customer
  pub orders : List (BuyOrderSummary F)
  pub order : Option (BuyOrderSummary F)
  pub details : List (BuyOrderDetails F)
  pub invoices : List (Proto.Invoice F)
  pub invoice : Option (Proto.Invoice F)
  pub total_cost : F
  pub total_orders : ℤ
  pub total_invoices : ℤ
  pub total_spent : F
  pub recent_orders : List (BuyOrderSummary F)
  pub recent_invoices : List (Proto.Invoice F)

-- The first `n` elements of a longer list.
unfoldable pub at_most {ℓ} : {A : Type ℓ} → ℕ → List A → List A
at_most zero l = []
at_most (suc n) [] = []
at_most (suc n) (x ∷ xs) = x ∷ at_most n xs

module _ {F : Type 0} (fl : Floats F) where
  -- Go's zero values.
  abbrev pub titled : String → String → PortalTemplateData F
  titled title active_page = record {
    title = title;
    active_page = active_page;
    customer_name = "";
    customer_id = pos 0;
    customer = none;
    orders = [];
    order = none;
    details = [];
    invoices = [];
    invoice = none;
    total_cost = fl.zero;
    total_orders = pos 0;
    total_invoices = pos 0;
    total_spent = fl.zero;
    recent_orders = [];
    recent_invoices = [];
  }

  unfoldable pub spent : F → List (BuyOrderSummary F) → F
  spent total [] = total
  spent total (o ∷ os') = spent (fl.add total o.total_cost) os'

  abbrev pub with_orders :
      Option (CustomerOrdersResponse F) → PortalTemplateData F → PortalTemplateData F
  with_orders none data' = data'
  with_orders (some r) data' = record data' {
    customer = some r.customer;
    orders = r.orders;
    total_orders = pos (length r.orders);
    customer_name = r.customer.name;
    customer_id = r.customer.id;
    total_spent = spent fl.zero r.orders;
    recent_orders = at_most 5 r.orders;
  }

  abbrev pub with_invoices :
      Option (List (Proto.Invoice F)) → PortalTemplateData F → PortalTemplateData F
  with_invoices none data' = data'
  with_invoices (some is) data' = record data' {
    invoices = is;
    total_invoices = pos (length is);
    recent_invoices = at_most 5 is;
  }

  abbrev pub name_of : Option (CustomerOrdersResponse F) → String
  name_of none = ""
  name_of (some r) = r.customer.name

  abbrev pub order_of : BuyOrderDetailsResponse F → BuyOrderSummary F
  order_of r = record {
    id = r.id;
    customer_id = r.customer_id;
    buy_order_uuid = r.buy_order_uuid;
    total_cost = r.total_cost;
    status = "";
  }

module _ {F W : Type 0} (fl : Floats F) (parse : String → Option Claims) (itoa : ℤ → String)
    (templates : Templates (PortalTemplateData F)) (client : PortalClient F W) where
  -- Every page sends a visitor whose cookie names no customer to the log-in.
  abbrev pub for_customer :
      (ℤ → Metadata → W → Response (PortalTemplateData F) × W)
      → Request
      → W
      → Response (PortalTemplateData F) × W
  for_customer show r w =
      let id = get_customer_id_from_token parse r in
      if eqb_ℤ id (pos 0)
      then (redirects "/portal/login", w)
      else show id (customer_grpc_context parse itoa r) w

  abbrev pub dashboard : ℤ → Metadata → W → Response (PortalTemplateData F) × W
  dashboard id md w =
      let (orders, w') = client.get_my_orders md (int32 id) w in
      let (invoices, w'') = client.get_my_invoices md (int32 id) w' in
      (
        show_page templates "portal/base.html" (
            with_invoices fl invoices
              (with_orders fl orders (titled fl "My Dashboard" "dashboard"))),
        w'',
      )

  unfoldable pub customer_portal_dashboard_handler :
      Request → W → Response (PortalTemplateData F) × W
  unfolding get_customer_id_from_token customer_grpc_context spent at_most
  customer_portal_dashboard_handler = for_customer dashboard

  abbrev pub orders_page :
      Option (CustomerOrdersResponse F) × W → Response (PortalTemplateData F) × W
  orders_page (none, w) = (http_error 500, w)
  orders_page (some r, w) = (
    show_page templates "portal/orders.html" (record (titled fl "My Orders" "orders") {
      customer = some r.customer;
      orders = r.orders;
      customer_name = r.customer.name;
    }),
    w,
  )

  unfoldable pub customer_orders_handler : Request → W → Response (PortalTemplateData F) × W
  unfolding get_customer_id_from_token customer_grpc_context
  customer_orders_handler =
      for_customer (λ id md w. orders_page (client.get_my_orders md (int32 id) w))

  abbrev pub order_page :
      ℤ → Metadata → Option (BuyOrderDetailsResponse F) × W → Response (PortalTemplateData F) × W
  order_page id md (none, w) = (http_error 404, w)
  order_page id md (some r, w) =
      let (mine, w') = client.get_my_orders md (int32 id) w in
      let shown =
        show_page templates "portal/order_detail.html"
          (record (titled fl "Order Details" "orders") {
            customer_name = name_of fl mine;
            order = some (order_of fl r);
            details = r.details;
            total_cost = r.total_cost;
          }) in
      if not (eqb_ℤ r.customer_id (int32 id)) then (http_error 403, w) else (shown, w')

  abbrev pub order_for : Option ℤ → ℤ → Metadata → W → Response (PortalTemplateData F) × W
  order_for none id md w = (http_error 400, w)
  order_for (some order_id) id md w =
      order_page id md (client.get_order_details md (int32 order_id) w)

  module _ (atoi : String → Option ℤ) where
    unfoldable pub customer_order_detail_handler : Request → W → Response (PortalTemplateData F) × W
    unfolding get_customer_id_from_token customer_grpc_context
    customer_order_detail_handler r = for_customer (order_for (atoi r.id)) r

  abbrev pub invoices_page :
      ℤ → Metadata → Option (List (Proto.Invoice F)) × W → Response (PortalTemplateData F) × W
  invoices_page id md (none, w) = (http_error 500, w)
  invoices_page id md (some is, w) =
      let (mine, w') = client.get_my_orders md (int32 id) w in
      (
        show_page templates "portal/invoices.html" (record (titled fl "My Invoices" "invoices") {
          customer_name = name_of fl mine;
          invoices = is;
        }),
        w',
      )

  unfoldable pub customer_invoices_handler : Request → W → Response (PortalTemplateData F) × W
  unfolding get_customer_id_from_token customer_grpc_context
  customer_invoices_handler =
      for_customer (λ id md w. invoices_page id md (client.get_my_invoices md (int32 id) w))

  abbrev pub invoice_page :
      ℤ → Metadata → Option (Proto.Invoice F) × W → Response (PortalTemplateData F) × W
  invoice_page id md (none, w) = (http_error 404, w)
  invoice_page id md (some i, w) =
      let (mine, w') = client.get_my_orders md (int32 id) w in
      let shown =
        show_page templates "portal/invoice_detail.html"
          (record (titled fl "Invoice Details" "invoices") {
            customer_name = name_of fl mine;
            invoice = some i;
          }) in
      if not (eqb_ℤ i.customer_id (int32 id)) then (http_error 403, w) else (shown, w')

  abbrev pub invoice_for : Option ℤ → ℤ → Metadata → W → Response (PortalTemplateData F) × W
  invoice_for none id md w = (http_error 400, w)
  invoice_for (some invoice_id) id md w =
      invoice_page id md (client.get_invoice md (int32 invoice_id) w)

  module _ (atoi : String → Option ℤ) where
    unfoldable pub customer_invoice_detail_handler :
        Request → W → Response (PortalTemplateData F) × W
    unfolding get_customer_id_from_token customer_grpc_context
    customer_invoice_detail_handler r = for_customer (invoice_for (atoi r.id)) r
