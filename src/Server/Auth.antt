-- ===== src/Server/Auth.antt =====
-- server/gRPCAuth.go: requireAdminToken, AdminLogin, CustomerLogin, ValidateToken, CreateAdminUser.
-- Parameters are bcrypt's comparison, and jwt's functions: `sign` makes a token of claims that
-- expires a day later, and `parse` reads one, unless it is wrong, expired or signed by another
-- method. Texts and dates are left out.
pub mod Tokens
use Prim.Native.String.{len, slice}
use text.Mathlib.Text.{starts_with}
use bakery_go.Common.{
  Bool, true, false, List, [], ◌∷◌, Option, none, some, String, if◌then◌else◌, str_eq, not,
}
use bakery_go.Common.Int.{ℤ, pos, int32}
use bakery_go.Data.Db.{Result, ok, err}
use bakery_go.Data.Accounts.{
  Customer, AdminUser, Accounts, get_customer_by_email, get_admin_user_by_username,
  insert_admin_user,
}
use bakery_go.Server.Rbac.{Claims, Context, lookup, values_of}

pub data Code : Type 0 where
  unauthenticated permission_denied internal : Code

pub data Reply (A : Type 0) : Type 0 where
  replied : A → Reply A
  fails : Code → Reply A

-- LoginResponse and CustomerLoginResponse.
pub data Login (U : Type 0) : Type 0 where
  invalid : Login U
  successful : String → U → Login U

-- The fields of an account that a reply shows.
pub record ShownAdmin : Type 0 where
  pub id : ℤ
  pub username : String
  pub email : String
  pub role : String

pub record ShownCustomer : Type 0 where
  pub id : ℤ
  pub name : String
  pub email : String

abbrev pub trim_bearer : String → String
trim_bearer v = if starts_with v "Bearer " then slice v 7 (len v) else v

abbrev pub admin_claims : AdminUser → Claims
admin_claims user = record {
  user_id = user.id;
  username = user.username;
  user_type = "admin";
  role = user.role;
}

abbrev pub customer_claims : Customer → Claims
customer_claims customer = record {
  user_id = customer.id;
  username = customer.email;
  user_type = "customer";
  role = "";
}

abbrev pub shown_admin : ℤ → AdminUser → ShownAdmin
shown_admin id user = record {
  id = int32 id;
  username = user.username;
  email = user.email;
  role = user.role;
}

abbrev pub shown_customer : Customer → ShownCustomer
shown_customer customer = record {
  id = int32 customer.id;
  name = customer.name;
  email = customer.email;
}

module _ (parse : String → Option Claims) where
  abbrev pub if_admin : Option Claims → Reply Claims
  if_admin none = fails unauthenticated
  if_admin (some c) =
      if not (str_eq c.user_type "admin") then fails permission_denied else replied c

  abbrev pub from_values : List String → Reply Claims
  from_values [] = fails unauthenticated
  from_values (v ∷ vs) = if_admin (parse (trim_bearer v))

  abbrev pub from_metadata : Option (List (String × List String)) → Reply Claims
  from_metadata none = fails unauthenticated
  from_metadata (some md) = from_values (values_of (lookup md "authorization"))

  unfoldable pub require_admin_token : Context → Reply Claims
  unfolding lookup
  require_admin_token ctx = from_metadata ctx.metadata

  -- Whether the token is valid, with the user's id and type if it is.
  unfoldable pub validate_token : String → Option (ℤ × String)
  validate_token token = shown (parse token)
    where
      shown : Option Claims → Option (ℤ × String)
      shown none = none
      shown (some c) = some (c.user_id, c.user_type)

module _ (matches : String → String → Bool) (sign : Claims → Option String) where
  abbrev pub signed_in : {U : Type 0} → U → Option String → Reply (Login U)
  signed_in u none = fails internal
  signed_in u (some token) = replied (successful token u)

  abbrev pub admin_found : String → Result AdminUser → Reply (Login ShownAdmin)
  admin_found password (err e) = replied invalid
  admin_found password (ok user) =
      if matches user.password password
      then signed_in (shown_admin user.id user) (sign (admin_claims user))
      else replied invalid

  unfoldable pub admin_login : String → String → Accounts → Reply (Login ShownAdmin) × Accounts
  unfolding get_admin_user_by_username
  admin_login username password a =
      let (r, a') = get_admin_user_by_username username a in (admin_found password r, a')

  abbrev pub customer_found : String → Result Customer → Reply (Login ShownCustomer)
  customer_found password (err e) = replied invalid
  customer_found password (ok customer) =
      if matches customer.password password
      then signed_in (shown_customer customer) (sign (customer_claims customer))
      else replied invalid

  unfoldable pub customer_login :
      String → String → Accounts → Reply (Login ShownCustomer) × Accounts
  unfolding get_customer_by_email
  customer_login email password a =
      let (r, a') = get_customer_by_email email a in (customer_found password r, a')

module _ (parse : String → Option Claims) (hash : String → Option String) where
  abbrev pub after_insert : AdminUser → Result ℤ × Accounts → Reply ShownAdmin × Accounts
  after_insert user (err e, a) = (fails internal, a)
  after_insert user (ok id, a) = (replied (shown_admin id user), a)

  abbrev pub if_allowed : AdminUser → Reply Claims → Accounts → Reply ShownAdmin × Accounts
  if_allowed user (fails c) a = (fails c, a)
  if_allowed user (replied claims) a = after_insert user (insert_admin_user hash user a)

  -- The request is an account without an id, with its plain password.
  unfoldable pub create_admin_user : Context → AdminUser → Accounts → Reply ShownAdmin × Accounts
  unfolding require_admin_token insert_admin_user
  create_admin_user ctx user a = if_allowed user (require_admin_token parse ctx) a
