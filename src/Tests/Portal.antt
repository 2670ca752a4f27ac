-- ===== src/Tests/Portal.antt =====
-- A customer's portal, with a session and over the server's handlers.
use bakery_go.Common.{true, false, [], ◌∷◌, Option, none, some, String, str_eq, if◌then◌else◌}
use bakery_go.Common.Int.{ℤ, pos}
use bakery_go.Common.Sorting.{insertion_sorter}
use bakery_go.Data.Types.{Invoice}
use bakery_go.Data.Db.{OrderRow, Db}
use bakery_go.Data.Accounts.{Accounts}
use bakery_go.Server.Rbac.{Claims}
use bakery_go.Server.Auth.{customer_claims}
use bakery_go.Frontend.Sessions.{Request, Templates, require_customer_auth}
use bakery_go.Frontend.Portal.{
  PortalClient, PortalTemplateData, customer_portal_dashboard_handler, customer_orders_handler,
  customer_order_detail_handler, customer_invoice_detail_handler,
}
use bakery_go.Frontend.Portal.Own.{Private, OwnOrder, OwnInvoice, portal_details-Private}
use bakery_go.Frontend.Portal.Served.{portal_server, OwnOrders, portal_orders-Private}
use bakery_go.Tests.Matching.{cents}
use bakery_go.Tests.Orders.{stored_breakfast}
use bakery_go.Tests.Accounts.{ana, accounts}

abbrev parse : String → Option Claims
parse t = if str_eq t "t-ana" then some (customer_claims ana) else none

abbrev request : Request
request = record {
  cookies = ("customer_token", "t-ana") ∷ [];
  id = "1";
  form = none;
  error = "";
  message = "";
}

abbrev templates : Templates (PortalTemplateData ℤ)
templates name = some (λ d. true)

abbrev client : PortalClient ℤ (Accounts × Db ℤ ℤ)
client =
    portal_server cents (insertion_sorter OrderRow) (insertion_sorter (Invoice ℤ))
      (λ method md. false)

abbrev world : Accounts × Db ℤ ℤ
world = (accounts, stored_breakfast)

portal_orders-Private_example :
    Private parse OwnOrders request
      (require_customer_auth parse
        (customer_portal_dashboard_handler cents parse (λ i. "8") templates client)
        request
        world).0
    × Private parse OwnOrders request
        (require_customer_auth parse
          (customer_orders_handler cents parse (λ i. "8") templates client)
          request
          world).0
portal_orders-Private_example =
    portal_orders-Private cents (insertion_sorter OrderRow) (insertion_sorter (Invoice ℤ))
      (λ method md. false) parse (λ i. "8") templates request world

portal_details-Private_example :
    Private parse OwnOrder request
      (require_customer_auth parse
        (customer_order_detail_handler cents parse (λ i. "8") templates client (λ s. some (pos 1)))
        request
        world).0
    × Private parse OwnInvoice request
        (require_customer_auth parse
          (customer_invoice_detail_handler cents parse
            (λ i. "8")
            templates
            client
            (λ s. some (pos 1)))
          request
          world).0
portal_details-Private_example =
    portal_details-Private cents parse (λ i. "8") templates client (λ s. some (pos 1)) request world
