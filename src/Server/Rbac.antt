-- ===== src/Server/Rbac.antt =====
-- server/middleware.go: who may call which method, and the chain of interceptors before a handler
-- (BuildInterceptorChain). Parameters are the rate limiter, whose state is `L`, and jwt's parser,
-- which answers `none` for a token that is wrong, expired or signed by another method.
pub mod Guard
use Prim.Native.String.{◌++◌ as concat, ◌∷◌ as next, [] as end_of_text, len, slice}
use Prim.Native.Char.{code}
use text.Mathlib.Text.{starts_with}
use bakery_go.Common.Int.{ℤ}
use bakery_go.Common.{
  ℕ, Bool, true, false, List, [], ◌∷◌, Option, none, some, String, if◌then◌else◌, ◌||◌, ◌&&◌, not,
  str_eq, ltb,
}

abbrev pub role_customer : String
role_customer = "customer"

abbrev pub role_admin : String
role_admin = "admin"

unfoldable pub method_roles : List (String × String)
method_roles =
    ("/bread.AdminService/GetDashboardStats", role_admin)
    ∷ ("/bread.AdminService/GetAllCustomers", role_admin)
    ∷ ("/bread.AdminService/GetAllBreadMakers", role_admin)
    ∷ ("/bread.AdminService/GetAllBread", role_admin)
    ∷ ("/bread.AdminService/GetBreadById", role_admin)
    ∷ ("/bread.AdminService/CreateBread", role_admin)
    ∷ ("/bread.AdminService/UpdateBread", role_admin)
    ∷ ("/bread.AdminService/DeleteBread", role_admin)
    ∷ ("/bread.AdminService/GetLowStockAlerts", role_admin)
    ∷ ("/bread.AdminService/UpdateOrderStatus", role_admin)
    ∷ ("/bread.AdminService/GetCustomerOrders", role_admin)
    ∷ ("/bread.AdminService/GetMakerOrders", role_admin)
    ∷ ("/bread.AdminService/GetAllOrders", role_admin)
    ∷ ("/bread.AdminService/GetAllMakeOrders", role_admin)
    ∷ ("/bread.BrokerService/ReportOrder", "")
    ∷ ("/bread.BrokerService/ReserveInventory", "")
    ∷ ("/bread.BrokerService/ReportMatchingResults", "")
    ∷ ("/bread.BuyBread/BuyBread", "")
    ∷ ("/bread.BuyBread/BuyBreadStream", "")
    ∷ ("/bread.BuyOrderService/BuyOrder", role_customer)
    ∷ ("/bread.BuyOrderService/BuyOrderStream", role_customer)
    ∷ ("/bread.CustomerPortalService/GetMyOrders", role_customer)
    ∷ ("/bread.CustomerPortalService/GetMyInvoices", role_customer)
    ∷ ("/bread.CustomerPortalService/GetOrderDetails", role_customer)
    ∷ ("/bread.CheckInventory/CheckBreadInventory", "")
    ∷ ("/bread.CheckInventory/CheckBreadInventoryStream", "")
    ∷ ("/bread.MakeBread/BakeBread", "")
    ∷ ("/bread.MakeBread/SendBreadToBakery", "")
    ∷ ("/bread.RemoveOldBread/RemoveBread", "")
    ∷ ("/bread.RemoveOldBread/RemoveBreadStream", "")
    ∷ ("/bread.AuthService/AdminLogin", "")
    ∷ ("/bread.AuthService/CustomerLogin", "")
    ∷ ("/bread.AuthService/ValidateToken", "")
    ∷ ("/bread.InvoiceService/GetInvoice", "")
    ∷ ("/bread.InvoiceService/GetCustomerInvoices", role_customer)
    ∷ ("/bread.InvoiceService/GetAllInvoices", role_admin)
    ∷ ("/bread.InvoiceService/CreateInvoice", role_admin)
    ∷ []

-- A look-up in a Go map.
unfoldable pub lookup : {V : Type 0} → List (String × V) → String → Option V
lookup [] k = none
lookup (e ∷ m) k = let rest = lookup m k in if str_eq e.0 k then some e.1 else rest

abbrev pub or_default : Option String → String
or_default none = role_customer
or_default (some r) = r

unfoldable pub get_method_role : String → String
unfolding lookup method_roles
get_method_role full_method = or_default (lookup method_roles full_method)

-- The claims of a token, without the registered ones (expiry, time of issue, issuer).
pub record Claims : Type 0 where
  pub user_id : ℤ
  pub username : String
  pub user_type : String
  pub role : String

-- The context of a call: the metadata of the request, the peer's address, and the values that the
-- interceptors add.
pub record Context : Type 0 where
  pub metadata : Option (List (String × List String))
  pub peer : Option String
  pub claims : Option Claims
  pub customer_id : Option String

-- The codes of the errors in use.
pub data Code : Type 0 where
  unauthenticated permission_denied resource_exhausted : Code

pub data Reply : Type 0 where
  refused : Code → Reply
  passed : Context → Reply

abbrev pub values_of : Option (List String) → List String
values_of none = []
values_of (some vs) = vs

-- `md.Get`, also of a context without metadata.
abbrev pub get : String → Option (List (String × List String)) → List String
get k none = []
get k (some md) = values_of (lookup md k)

abbrev pub identity_by_address : List String → String
identity_by_address [] = "ip:unknown"
identity_by_address (ip ∷ ips) = concat "ip:" ip

abbrev pub identity_of : List String → List String → String
identity_of [] ips = identity_by_address ips
identity_of (id ∷ ids) ips =
    if not (str_eq id "") then concat "cid:" id else identity_by_address ips

unfoldable pub identity_from_metadata : Option (List (String × List String)) → String
unfolding lookup
identity_from_metadata md = identity_of (get "customer_id" md) (get "x-forwarded-for" md)

abbrev or_peer : Option String → String
or_peer none = "ip:unknown"
or_peer (some address) = concat "peer:" address

unfoldable pub identity_from_context : Context → String
unfolding identity_from_metadata
identity_from_context ctx =
    let id = identity_from_metadata ctx.metadata in
    if not (str_eq id "ip:unknown") then id else or_peer ctx.peer

-- The token without the scheme.
unfoldable pub token_string : String → String
token_string v = if ltb 7 (len v) && starts_with v "Bearer " then slice v 7 (len v) else v

abbrev pub authorised : String → Context → Option Claims → Reply
authorised role ctx none = refused unauthenticated
authorised role ctx (some c) =
    if not (str_eq c.user_type role) && not (str_eq c.user_type role_admin)
    then refused permission_denied
    else passed (record ctx { claims = some c })

abbrev pub with_token : (String → Option Claims) → String → Context → List String → Reply
with_token parse role ctx [] = refused unauthenticated
with_token parse role ctx (v ∷ vs) = authorised role ctx (parse (token_string v))

unfoldable pub rbac_check : (String → Option Claims) → Context → String → Reply
unfolding get_method_role lookup token_string
rbac_check parse ctx full_method =
    let required_role = get_method_role full_method in
    if str_eq required_role ""
    then passed ctx
    else with_token parse required_role ctx (get "authorization" ctx.metadata)

-- The loop over the characters: '0' to '9' only.
unfoldable pub only_digits : String → Bool
only_digits end_of_text = true
only_digits (next c s) = not (ltb (code c) 48 || ltb 57 (code c)) && only_digits s

abbrev pub with_customer : Context → List String → Context
with_customer ctx [] = ctx
with_customer ctx (id ∷ ids) =
    if not (str_eq id "") && only_digits id then record ctx { customer_id = some id } else ctx

unfoldable pub inject_customer_id : Context → Context
unfolding only_digits lookup
inject_customer_id ctx = with_customer ctx (get "customer_id" ctx.metadata)

abbrev pub injected : Reply → Reply
injected (refused c) = refused c
injected (passed ctx) = passed (inject_customer_id ctx)

module _ {L : Type 0} (limit : String → L → Bool × L) (parse : String → Option Claims) where
  abbrev pub after_limit : Context → String → Bool × L → Reply × L
  after_limit ctx full_method (false, l) = (refused resource_exhausted, l)
  after_limit ctx full_method (true, l) = (injected (rbac_check parse ctx full_method), l)

  -- What a unary call lets reach its handler.
  unfoldable pub interceptor_chain : Context → String → L → Reply × L
  unfolding get_method_role identity_from_context rbac_check inject_customer_id
  interceptor_chain ctx full_method l =
      let admitted =
        if not (str_eq (get_method_role full_method) "")
        then limit (identity_from_context ctx) l
        else (true, l) in
      after_limit ctx full_method admitted

-- The methods that return a stream.
unfoldable pub is_streaming : String → Bool
is_streaming m =
    str_eq m "/bread.MakeBread/MadeBreadStream"
    || str_eq m "/bread.CheckInventory/CheckBreadInventoryStream"
    || str_eq m "/bread.BuyBread/BuyBreadStream"
    || str_eq m "/bread.BuyOrderService/BuyOrderStream"
    || str_eq m "/bread.RemoveOldBread/RemoveBreadStream"
    || str_eq m "/bread.MakeOrderService/MakeOrderStream"

module _ {L : Type 0} (limit : String → L → Bool × L) (parse : String → Option Claims) where
  -- A call at the server, which installs the chain for unary methods only.
  unfoldable pub serve : Context → String → L → Reply × L
  unfolding is_streaming interceptor_chain
  serve ctx full_method l =
      if is_streaming full_method
      then (passed ctx, l)
      else interceptor_chain limit parse ctx full_method l
