-- ===== src/Frontend/Sessions.antt =====
-- frontend/cmd/web/auth_handlers.go: who is logged in, as the cookies say (validateToken,
-- getCustomerIDFromToken, getAdminUserFromToken), what is passed on to the server
-- (adminGRPCContext, customerGRPCContext), the middleware (RequireAdminAuth, RequireCustomerAuth),
-- and the handlers for logging in and out. Parameters are jwt's parser, which answers `none` for a
-- token that is wrong or expired, the server's answers, and the templates. The texts of errors are
-- left out of the answers, and so is csrf.
pub mod Guarded
use Prim.Native.String.{◌++◌ as concat}
use bakery_go.Common.{
  ℕ, Bool, true, false, List, [], ◌∷◌, Option, none, some, String, if◌then◌else◌, ◌||◌, ◌&&◌, not,
  str_eq,
}
use bakery_go.Common.Int.{ℤ, pos, negsuc, eqb_ℤ, ltb_ℤ}
use bakery_go.Server.Rbac.{Claims, lookup}

pub record Request : Type 0 where
  pub cookies : List (String × String)
  pub id : String  -- the variable of the path
  pub form : Option (List (String × String))  -- what ParseForm reads
  pub error : String  -- of the query
  pub message : String

pub record Cookie : Type 0 where
  pub name : String
  pub value : String
  pub max_age : ℤ

-- What a handler writes: a redirection, a page, or an error with its status. `D` is the data of the
-- pages.
pub data Response (D : Type 0) : Type 0 where
  redirects : String → Response D
  page : String → D → Response D
  http_error : ℕ → Response D

-- The answer of a login call.
pub data LoginReply : Type 0 where
  lost : LoginReply
  unsuccessful : String → LoginReply
  successful : String → LoginReply

-- The metadata of a call to the server.
abbrev pub Metadata : Type 0
Metadata = List (String × String)

abbrev pub cookie : String → Request → Option String
cookie name r = lookup r.cookies name

-- A cookie that is not empty.
abbrev pub non_empty : Option String → Option String
non_empty none = none
non_empty (some v) = if str_eq v "" then none else some v

abbrev pub text_or_empty : Option String → String
text_or_empty none = ""
text_or_empty (some v) = v

abbrev pub form_value : List (String × String) → String → String
form_value form k = text_or_empty (lookup form k)

abbrev pub bearer : String → String × String
bearer token = ("authorization", concat "Bearer " token)

-- The pages that are there, and whether one can be written with its data.
abbrev pub Templates : Type 0 → Type 0
Templates D = String → Option (D → Bool)

module _ {D : Type 0} where
  abbrev pub written : String → D → Option (D → Bool) → Response D
  written name data' none = http_error 500
  written name data' (some execute) = if execute data' then page name data' else http_error 500

  abbrev pub show_page : Templates D → String → D → Response D
  show_page templates name data' = written name data' (templates name)

  -- The page to log in at, unless a valid session is there.
  abbrev pub login_page_unless : Bool → String → Templates D → String → D → Response D
  login_page_unless true home templates name data' = redirects home
  login_page_unless false home templates name data' = show_page templates name data'

abbrev pub of_type : String → Option Claims → Bool
of_type expected none = false
of_type expected (some c) = str_eq expected "" || str_eq c.user_type expected

abbrev pub id_of : Option Claims → ℤ
id_of none = pos 0
id_of (some c) = c.user_id

abbrev pub admin_of : Option Claims → ℤ × String × String
admin_of none = (pos 0, "", "")
admin_of (some c) = (c.user_id, c.username, c.role)

module _ (parse : String → Option Claims) where
  abbrev pub validate_token : String → String → Bool
  validate_token token expected_type = of_type expected_type (parse token)

  abbrev pub id_in : Option String → ℤ
  id_in none = pos 0
  id_in (some token) = id_of (parse token)

  unfoldable pub get_customer_id_from_token : Request → ℤ
  unfolding lookup
  get_customer_id_from_token r = id_in (cookie "customer_token" r)

  abbrev pub admin_in : Option String → ℤ × String × String
  admin_in none = (pos 0, "", "")
  admin_in (some token) = admin_of (parse token)

  unfoldable pub get_admin_user_from_token : Request → ℤ × String × String
  unfolding lookup
  get_admin_user_from_token r = admin_in (cookie "admin_token" r)

  module _ {D W : Type 0} where
    -- What the two middlewares share: the cookie, the page to log in at, and that page with the
    -- note on an expired session.
    abbrev pub require_token :
        Option String
        → (login expired user_type : String) → (Request → W → Response D × W)
        → Request
        → W
        → Response D × W
    require_token none login expired user_type next r w = (redirects login, w)
    require_token (some token) login expired user_type next r w =
        if validate_token token user_type then next r w else (redirects expired, w)

    unfoldable pub require_admin_auth :
        (Request → W → Response D × W) → Request → W → Response D × W
    unfolding lookup
    require_admin_auth next r w =
        require_token (non_empty (cookie "admin_token" r)) "/admin/login"
          "/admin/login?error=Session+expired" "admin" next r w

    unfoldable pub require_customer_auth :
        (Request → W → Response D × W) → Request → W → Response D × W
    unfolding lookup
    require_customer_auth next r w =
        require_token (non_empty (cookie "customer_token" r)) "/portal/login"
          "/portal/login?error=Session+expired" "customer" next r w

  abbrev pub has_session : Option String → String → Bool
  has_session none user_type = false
  has_session (some token) user_type = validate_token token user_type

  unfoldable pub admin_login_page_handler :
      Templates (String × String) → Request → Response (String × String)
  unfolding lookup
  admin_login_page_handler templates r =
      login_page_unless (has_session (non_empty (cookie "admin_token" r)) "admin") "/admin"
        templates "admin/login.html" ("Admin Login", r.error)

  unfoldable pub customer_login_page_handler :
      Templates (String × String) → Request → Response (String × String)
  unfolding lookup
  customer_login_page_handler templates r =
      login_page_unless (has_session (non_empty (cookie "customer_token" r)) "customer") "/portal"
        templates "portal/login.html" ("Customer Login", r.error)

  -- The metadata with which the pages of a customer call the server: none are added without a
  -- cookie.
  abbrev pub customer_metadata : Option String → ℤ → (ℤ → String) → Metadata
  customer_metadata none id itoa = if ltb_ℤ (pos 0) id then ("customer_id", itoa id) ∷ [] else []
  customer_metadata (some token) id itoa =
      if ltb_ℤ (pos 0) id then bearer token ∷ ("customer_id", itoa id) ∷ [] else bearer token ∷ []

  unfoldable pub customer_grpc_context : (ℤ → String) → Request → Metadata
  unfolding get_customer_id_from_token lookup
  customer_grpc_context itoa r =
      customer_metadata (non_empty (cookie "customer_token" r)) (get_customer_id_from_token r) itoa

abbrev pub admin_metadata : Option String → Option Metadata
admin_metadata none = none
admin_metadata (some token) = some (bearer token ∷ [])

unfoldable pub admin_grpc_context : Request → Option Metadata
unfolding lookup
admin_grpc_context r = admin_metadata (non_empty (cookie "admin_token" r))

-- A cookie that ends at once.
abbrev pub ended : String → Cookie
ended name = record { name = name; value = ""; max_age = negsuc 0 }

-- Logging in: the cookies that are set, and where the browser goes.
module _ {D : Type 0} where
  abbrev pub logged_in : (name home login : String) → LoginReply → List Cookie × Response D
  logged_in name home login lost = ([], redirects (concat login "?error=Login+failed"))
  logged_in name home login (unsuccessful message) =
      ([], redirects (concat (concat login "?error=") message))
  logged_in name home login (successful token) =
      (record { name = name; value = token; max_age = pos 86400 } ∷ [], redirects home)

  module _ {W : Type 0} (call : String → String → W → LoginReply × W) where
    abbrev pub login_with :
        (name home login field : String)
        → Option (List (String × String))
        → W
        → (List Cookie × Response D) × W
    login_with name home login field none w =
        (([], redirects (concat login "?error=Invalid+form+data")), w)
    login_with name home login field (some form) w =
        let (reply, w') = call (form_value form field) (form_value form "password") w in
        (logged_in name home login reply, w')

    unfoldable pub admin_login_handler : Request → W → (List Cookie × Response D) × W
    unfolding lookup
    admin_login_handler r w = login_with "admin_token" "/admin" "/admin/login" "username" r.form w

    unfoldable pub customer_login_handler : Request → W → (List Cookie × Response D) × W
    unfolding lookup
    customer_login_handler r w =
        login_with "customer_token" "/portal" "/portal/login" "email" r.form w

  abbrev pub admin_logout_handler : Request → List Cookie × Response D
  admin_logout_handler r = (ended "admin_token" ∷ [], redirects "/admin/login")

  abbrev pub customer_logout_handler : Request → List Cookie × Response D
  customer_logout_handler r = (ended "customer_token" ∷ [], redirects "/portal/login")
