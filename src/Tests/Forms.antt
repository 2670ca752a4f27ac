-- ===== src/Tests/Forms.antt =====
-- An administrator fills up the baguettes.
use bakery_go.Common.{◌≡◌, refl, false, [], ◌∷◌, Option, none, some, String, str_eq, if◌then◌else◌}
use bakery_go.Common.Int.{ℤ, pos, int32}
use bakery_go.Common.Sorting.{insertion_sorter}
use bakery_go.Data.Types.{Bread}
use bakery_go.Data.Db.{OrderRow, Db}
use bakery_go.Data.Accounts.{Customer, Accounts}
use bakery_go.Data.Stock.{quantity_of}
use bakery_go.Server.Rbac.{Claims}
use bakery_go.Server.Auth.{admin_claims}
use bakery_go.Server.Admin.{get_bread_by_id, update_bread}
use bakery_go.Frontend.Sessions.{Request, Response, require_admin_auth}
use bakery_go.Frontend.Administration.{AdminClient, AdminTemplateData}
use bakery_go.Frontend.Administration.Served.{admin_server}
use bakery_go.Frontend.Administration.Forms.{admin_adjust_quantity_handler}
use bakery_go.Frontend.Administration.Forms.Adjusting.{Adjusted, adjust_quantity-Adjusted}
use bakery_go.Tests.Stock.{healthy}
use bakery_go.Tests.Matching.{cents}
use bakery_go.Tests.Accounts.{boss, accounts}

abbrev parse : String → Option Claims
parse t = if str_eq t "t-boss" then some (admin_claims boss) else none

abbrev atoi : String → ℤ
atoi s = if str_eq s "1" then pos 1 else if str_eq s "30" then pos 30 else pos 0

abbrev request_for : String → Request
request_for quantity = record {
  cookies = ("admin_token", "t-boss") ∷ [];
  id = "1";
  form = some (("quantity", quantity) ∷ []);
  error = "";
  message = "";
}

abbrev server : AdminClient ℤ (Accounts × Db ℤ ℤ)
server =
    admin_server cents (λ a. a) (pos 1) (pos 7) "INV-1" (insertion_sorter (Bread ℤ))
      (insertion_sorter Customer) (insertion_sorter OrderRow) (λ method md. false)

adjust_quantity-Adjusted_example : Adjusted parse atoi (pos 1) (request_for "30") healthy.tables (
    require_admin_auth parse
      (admin_adjust_quantity_handler server atoi)
      (request_for "30")
      (accounts, healthy))
adjust_quantity-Adjusted_example =
    adjust_quantity-Adjusted cents (λ a. a) (pos 1) (pos 7) "INV-1" (insertion_sorter (Bread ℤ))
      (insertion_sorter Customer) (insertion_sorter OrderRow) (λ method md. false) atoi parse
      (pos 1) (request_for "30") accounts healthy

abbrev answered : Response (AdminTemplateData ℤ) × (Accounts × Db ℤ ℤ)
unfolding require_admin_auth admin_adjust_quantity_handler
answered =
    require_admin_auth parse (admin_adjust_quantity_handler server atoi) (request_for "many")
      (accounts, healthy)

-- What is no number sets the stock to 0.
no_number : quantity_of (pos 1) answered.1.1.tables.breads ≡ some (pos 0)
unfolding quantity_of int32 answered get_bread_by_id update_bread
no_number = refl
