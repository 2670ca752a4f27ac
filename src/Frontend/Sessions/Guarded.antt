-- ===== src/Frontend/Sessions/Guarded.antt =====
-- What stands behind RequireCustomerAuth and RequireAdminAuth.
use bakery_go.Common.{
  ◌≡◌, refl, true, false, Option, none, some, String, ap, ◌∙◌, sym, arith, Bool-cases, inl, inr,
  str_eq, eq_iff,
}
use bakery_go.Server.Rbac.{Claims}
use bakery_go.Frontend.Sessions.{
  Request, Response, redirects, cookie, non_empty, of_type, id_in, id_of, require_token,
  require_customer_auth, require_admin_auth, get_customer_id_from_token,
}

-- The cookie holds a token that the parser accepts, with these claims, which are a customer's.
abbrev pub SessionOf : (String → Option Claims) → Request → Claims → Type 0
SessionOf parse r c =
    (token : String) × (cookie "customer_token" r ≡ some token)
    × (parse token ≡ some c)
    × (c.user_type ≡ "customer")

abbrev pub AdminSessionOf : (String → Option Claims) → Request → Claims → Type 0
AdminSessionOf parse r c =
    (token : String) × (cookie "admin_token" r ≡ some token)
    × (parse token ≡ some c)
    × (c.user_type ≡ "admin")

non_empty-some : (o : Option String) (token : String) → non_empty o ≡ some token → o ≡ some token
non_empty-some none token e = absurd (ground (arith, e))
non_empty-some (some v) token e = elim (Bool-cases (str_eq v "")) [
  | inl blank ↦ absurd (ground (arith, e, blank))
  | inr full ↦ let kept : non_empty (some v) ≡ some v = rw full refl in sym kept ∙ e
]

of_type-some :
    (expected : String) (o : Option Claims)
    → str_eq expected "" ≡ false
    → of_type expected o ≡ true
    → (c : Claims) × (o ≡ some c) × (c.user_type ≡ expected)
of_type-some expected none named e = absurd (ground (arith, e))
of_type-some expected (some c) named e =
    let same : str_eq c.user_type expected ≡ true = ground (arith, e, named) in
    (c, refl, (eq_iff c.user_type expected).0 same)

module _ (parse : String → Option Claims) {D W : Type 0} (next : Request → W → Response D × W)
    (r : Request) (w : W) (Q : Response D × W → Type 0) where
  require_token-guards :
      (o : Option String) (login expired user_type : String)
      → str_eq user_type "" ≡ false
      → Q (redirects login, w)
      → Q (redirects expired, w)
      → ((token : String)
          → o ≡ some token
          → (c : Claims) → parse token ≡ some c
          → c.user_type ≡ user_type
          → Q (next r w))
      → Q (require_token parse o login expired user_type next r w)
  require_token-guards none login expired user_type named at_login at_expired go = at_login
  require_token-guards (some token) login expired user_type named at_login at_expired go =
      elim (Bool-cases (of_type user_type (parse token))) [
        | inl valid ↦
            let c = of_type-some user_type (parse token) named valid in
            rw valid (go token refl c.0 c.1 c.2)
        | inr wrong ↦ rw wrong at_expired
      ]

  pub require_customer_auth-guards :
      Q (redirects "/portal/login", w)
      → Q (redirects "/portal/login?error=Session+expired", w)
      → ((c : Claims) → SessionOf parse r c → Q (next r w))
      → Q (require_customer_auth parse next r w)
  unfolding require_customer_auth
  require_customer_auth-guards at_login at_expired go =
      require_token-guards (non_empty (cookie "customer_token" r)) "/portal/login"
        "/portal/login?error=Session+expired" "customer" refl at_login at_expired
        (λ token there c parsed of_customer.
          go c (token, non_empty-some (cookie "customer_token" r) token there, parsed, of_customer))

  pub require_admin_auth-guards :
      Q (redirects "/admin/login", w)
      → Q (redirects "/admin/login?error=Session+expired", w)
      → ((c : Claims) → AdminSessionOf parse r c → Q (next r w))
      → Q (require_admin_auth parse next r w)
  unfolding require_admin_auth
  require_admin_auth-guards at_login at_expired go =
      require_token-guards (non_empty (cookie "admin_token" r)) "/admin/login"
        "/admin/login?error=Session+expired" "admin" refl at_login at_expired
        (λ token there c parsed of_admin.
          go c (token, non_empty-some (cookie "admin_token" r) token there, parsed, of_admin))

-- In a session the customer is that of the claims.
pub session_customer :
    (parse : String → Option Claims) (r : Request) (c : Claims)
    → SessionOf parse r c
    → get_customer_id_from_token parse r ≡ c.user_id
unfolding get_customer_id_from_token
session_customer parse r c s = ap (id_in parse) s.1 ∙ ap id_of s.2
