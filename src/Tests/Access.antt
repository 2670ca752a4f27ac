-- ===== src/Tests/Access.antt =====
-- Calls with and without a token.
use bakery_go.Common.{
  ◌≡◌, refl, true, Bool, [], ◌∷◌, Option, none, some, String, str_eq, if◌then◌else◌,
}
use bakery_go.Common.Int.{pos}
use bakery_go.Server.Rbac.{
  get_method_role, Claims, Context, unauthenticated, refused, passed, interceptor_chain, serve,
}

abbrev parse : String → Option Claims
parse token =
    (if str_eq token "t0k3n"
      then some (record { user_id = pos 12; username = "ana"; user_type = "customer"; role = "" })
      else none)

abbrev call : Context
call = record {
  metadata = some (("authorization", "Bearer t0k3n" ∷ []) ∷ ("customer_id", "12" ∷ []) ∷ []);
  peer = none;
  claims = none;
  customer_id = none;
}

abbrev no_limit : String → Unit {0} → Bool × Unit {0}
no_limit id l = (true, l)

abbrev my_orders : String
my_orders = "/bread.CustomerPortalService/GetMyOrders"

-- The table wants a customer, and the stream is open to all.
unguarded :
    let m : String = "/bread.BuyOrderService/BuyOrderStream" in
    (get_method_role m ≡ "customer")
    × ((serve no_limit parse (record call { metadata = none }) m tt).0
        ≡ passed (record call { metadata = none }))
unfolding get_method_role serve
unguarded = (refl, refl)

passes :
    (interceptor_chain no_limit parse call my_orders tt).0
    ≡ passed (record call {
      claims =
          some (record { user_id = pos 12; username = "ana"; user_type = "customer"; role = "" });
      customer_id = some "12";
    })
unfolding interceptor_chain
passes = refl

without_token :
    (interceptor_chain no_limit parse (record call { metadata = none }) my_orders tt).0
    ≡ refused unauthenticated
unfolding interceptor_chain
without_token = refl
