-- ===== src/Frontend/Portal/Served.antt =====
-- The portal over the server's handlers: from the browser to the tables. The interceptors in
-- between may refuse any call (`refuses`, by the method and the metadata).
use bakery_go.Common.{
  ◌≡◌, Bool, true, false, ℕ, zero, suc, List, [], ◌∷◌, Option, none, some, String, subst, All,
}
use bakery_go.Common.Int.{ℤ, int32, int32-id, int32-IsInt32}
use bakery_go.Common.Floats.{Floats}
use bakery_go.Common.Sorting.{Sorter}
use bakery_go.Data.Types.{Invoice}
use bakery_go.Data.Db.{OrderRow, Db}
use bakery_go.Data.Accounts.{Accounts}
use bakery_go.Proto.{BuyOrderSummary, CustomerOrdersResponse}
use bakery_go.Proto
use bakery_go.Server.Rbac.{Claims}
use bakery_go.Server.Shop.{Reply, replied, fails}
use bakery_go.Server.Invoices.{get_customer_invoices, get_order_details, get_invoice}
use bakery_go.Server.Listing.{get_my_orders}
use bakery_go.Server.Listing.Owned.{ShowsOwn, get_my_orders-ShowsOwn}
use bakery_go.Frontend.Sessions.{Request, Metadata, Templates, require_customer_auth}
use bakery_go.Frontend.Sessions.Guarded.{SessionOf}
use bakery_go.Frontend.Portal.{
  PortalClient, PortalTemplateData, titled, with_orders, with_invoices, at_most, dashboard,
  orders_page, customer_portal_dashboard_handler, customer_orders_handler,
}
use bakery_go.Frontend.Portal.Own.{Private, show_page-Private, for_customer-Private}

module _ {A S : Type 0} where
  abbrev pub as_option : Reply A × S → Option A × S
  as_option (fails c, s) = (none, s)
  as_option (replied a, s) = (some a, s)

  -- A call through the interceptors.
  abbrev pub served : Bool → (S → Reply A × S) → S → Option A × S
  served true handler s = (none, s)
  served false handler s = as_option (handler s)

module _ {A S T : Type 0} where
  -- A handler that leaves the accounts alone.
  abbrev pub beside : (S → Reply A × S) → T × S → Reply A × (T × S)
  beside handler (t, s) = let (r, s') = handler s in (r, (t, s'))

module _ {F P : Type 0} (fl : Floats F) (by_id : Sorter OrderRow) (by_age : Sorter (Invoice F))
    (refuses : String → Metadata → Bool) where
  abbrev pub portal_server : PortalClient F (Accounts × Db F P)
  portal_server = record {
    get_my_orders = λ md id.
        served (refuses "/bread.CustomerPortalService/GetMyOrders" md) (get_my_orders fl by_id id);
    get_my_invoices = λ md id.
        served (refuses "/bread.CustomerPortalService/GetMyInvoices" md)
          (beside (get_customer_invoices by_age id));
    get_order_details = λ md id.
        served (refuses "/bread.CustomerPortalService/GetOrderDetails" md)
          (beside (get_order_details fl id));
    get_invoice =
        λ md id. served (refuses "/bread.InvoiceService/GetInvoice" md) (beside (get_invoice id));
  }

module _ {F : Type 0} where
  abbrev pub AllOf : ℤ → List (BuyOrderSummary F) → Type 0
  AllOf id l = All (λ (s : BuyOrderSummary F). s.customer_id ≡ id) l

  -- All orders on a page are the customer's.
  abbrev pub OwnOrders : Claims → PortalTemplateData F → Type 0
  OwnOrders c data' =
      AllOf (int32 c.user_id) data'.orders × AllOf (int32 c.user_id) data'.recent_orders

  at_most-AllOf :
      (id : ℤ) (n : ℕ) (l : List (BuyOrderSummary F)) → AllOf id l → AllOf id (at_most n l)
  unfolding at_most
  at_most-AllOf id zero l h = tt
  at_most-AllOf id (suc n) [] h = tt
  at_most-AllOf id (suc n) (o ∷ os') h = (h.0, at_most-AllOf id n os' h.1)

  -- What a reply to GetMyOrders may hold.
  abbrev OwnReply : ℤ → Option (CustomerOrdersResponse F) → Type 0
  OwnReply id none = Unit {0}
  OwnReply id (some r) = AllOf id r.orders

  dashboard-own :
      (fl : Floats F) (c : Claims) (x : Option (CustomerOrdersResponse F))
      (y : Option (List (Proto.Invoice F)))
      → OwnReply (int32 c.user_id) x
      → OwnOrders c (with_invoices fl y (with_orders fl x (titled fl "My Dashboard" "dashboard")))
  unfolding at_most
  dashboard-own fl c none none h = (tt, tt)
  dashboard-own fl c none (some is) h = (tt, tt)
  dashboard-own fl c (some r) none h = (h, at_most-AllOf (int32 c.user_id) 5 r.orders h)
  dashboard-own fl c (some r) (some is) h = (h, at_most-AllOf (int32 c.user_id) 5 r.orders h)

module _ {F P : Type 0} (fl : Floats F) (by_id : Sorter OrderRow) (by_age : Sorter (Invoice F))
    (refuses : String → Metadata → Bool) where
  served-OwnReply :
      (refused : Bool) (id : ℤ) (a : Accounts) (d : Db F P)
      → OwnReply (int32 id) (served refused (get_my_orders fl by_id (int32 id)) (a, d)).0
  served-OwnReply true id a d = tt
  served-OwnReply false id a d =
      go (get_my_orders fl by_id (int32 id) (a, d)) (get_my_orders-ShowsOwn fl by_id (int32 id) a d)
    where
      go :
          (x : Reply (CustomerOrdersResponse F) × (Accounts × Db F P))
          → ShowsOwn fl (int32 id) (a, d) x
          → OwnReply (int32 id) (as_option x).0
      go (fails c, s) h = tt
      go (replied r, s) h =
          subst (λ (i : ℤ). AllOf i r.orders) (int32-id (int32 id) (int32-IsInt32 id)) h.4

  module _ (parse : String → Option Claims) (itoa : ℤ → String)
      (templates : Templates (PortalTemplateData F)) where
    orders_page-Private :
        (r : Request) (c : Claims) (x : Option (CustomerOrdersResponse F) × (Accounts × Db F P))
        → SessionOf parse r c
        → OwnReply (int32 c.user_id) x.0
        → Private parse OwnOrders r
            (orders_page fl parse itoa templates (portal_server fl by_id by_age refuses) x).0
    orders_page-Private r c (none, w) s h = tt
    orders_page-Private r c (some o, w) s h =
        show_page-Private parse OwnOrders r templates "portal/orders.html" _ (c, s, (h, tt))

    -- The portal's dashboard and its list of orders, from the browser to the tables and whatever
    -- calls the interceptors refuse and whatever queries fail: a page is shown only to a visitor
    -- whose cookie holds a token that the parser accepts as a customer's, and every order on it is
    -- that customer's, by its id as a 32-bit number.
    pub portal_orders-Private :
        (r : Request) (w : Accounts × Db F P)
        → let client = portal_server fl by_id by_age refuses in
          Private parse OwnOrders r
            (require_customer_auth parse
              (customer_portal_dashboard_handler fl parse itoa templates client)
              r
              w).0
          × Private parse OwnOrders r
              (require_customer_auth parse
                (customer_orders_handler fl parse itoa templates client)
                r
                w).0
    unfolding customer_portal_dashboard_handler customer_orders_handler
    portal_orders-Private r (a, d) =
        let client = portal_server fl by_id by_age refuses in
        let method : String = "/bread.CustomerPortalService/GetMyOrders" in
        (
          for_customer-Private fl parse itoa templates client OwnOrders
              (λ r'. dashboard fl parse itoa templates client) r (a, d)
              (λ c s md.
                show_page-Private parse OwnOrders r templates "portal/base.html" _ (
                  c,
                  s,
                  dashboard-own fl c _ _ (served-OwnReply (refuses method md) c.user_id a d),
                )),
          for_customer-Private fl parse itoa templates client OwnOrders
              (λ r' id md w.
                orders_page fl parse itoa templates client (client.get_my_orders md (int32 id) w))
              r (a, d)
              (λ c s md.
                orders_page-Private r c (client.get_my_orders md (int32 c.user_id) (a, d)) s
                  (served-OwnReply (refuses method md) c.user_id a d)),
        )
