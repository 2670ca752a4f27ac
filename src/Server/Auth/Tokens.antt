-- ===== src/Server/Auth/Tokens.antt =====
-- Who can make an administrator, and what a login's token is good for.
use bakery_go.Common.{
  ◌≡◌, refl, true, Bool, List, [], ◌∷◌, Option, none, some, String, arith, Bool-cases, inl, inr, ap,
  sym, ◌∙◌, subst, str_eq, eq_iff, not,
}
use bakery_go.Common.Int.{ℤ}
use bakery_go.Data.Db.{Result, ok, err}
use bakery_go.Data.Accounts.{
  Customer, AdminUser, Accounts, query, or_no_rows, admin_by_username, get_admin_user_by_username,
  get_customer_by_email, insert_admin_user,
}
use bakery_go.Data.Accounts.Kept.{admin_row, Kept, insert_admin_user-Kept, admin_by_username-append}
use bakery_go.Server.Rbac
use bakery_go.Server.Rbac.{
  Claims, Context, lookup, values_of, authorised, role_customer, role_admin,
}
use bakery_go.Server.Auth.{
  Reply, replied, fails, Login, invalid, successful, ShownAdmin, ShownCustomer, trim_bearer,
  admin_claims, customer_claims, shown_admin, shown_customer, if_admin, from_values, from_metadata,
  require_admin_token, signed_in, admin_found, admin_login, customer_found, customer_login,
  after_insert, if_allowed, create_admin_user,
}

abbrev value : {A : Type 0} → A → Reply A → A
value a (replied b) = b
value a (fails c) = a

replied_value : {A : Type 0} (a b : A) → replied a ≡ replied b → a ≡ b
replied_value a b e = ap (value a) e

module _ (parse : String → Option Claims) where
  -- The token that the metadata carry is that of an administrator.
  abbrev pub AdminToken : Context → Claims → Type 0
  AdminToken ctx c =
      (md : List (String × List String)) × (v : String) × (vs : List String) × (ctx.metadata
        ≡ some md)
      × (values_of (lookup md "authorization") ≡ v ∷ vs)
      × (parse (trim_bearer v) ≡ some c)
      × (c.user_type ≡ "admin")

  if_admin-Admin :
      (o : Option Claims) (c : Claims)
      → if_admin parse o ≡ replied c
      → (o ≡ some c) × (c.user_type ≡ "admin")
  if_admin-Admin none c h = absurd (ground (arith, h))
  if_admin-Admin (some d) c h = elim (Bool-cases (not (str_eq d.user_type "admin"))) [
    | inl bad ↦ absurd (ground (arith, h, bad))
    | inr good ↦
        let p = replied_value d c (sym (rw good refl) ∙ h) in
        (
          ap some p,
          ap (λ (x : Claims). x.user_type) (sym p)
              ∙ (eq_iff d.user_type "admin").0 (ground (arith, good)),
        )
  ]

  require_admin_token-AdminToken :
      (ctx : Context) (c : Claims) → require_admin_token parse ctx ≡ replied c → AdminToken ctx c
  unfolding require_admin_token
  require_admin_token-AdminToken ctx c h = from ctx.metadata refl h
    where
      from_list :
          (md : List (String × List String)) (vs : List String)
          → ctx.metadata ≡ some md
          → values_of (lookup md "authorization") ≡ vs
          → from_values parse vs ≡ replied c
          → AdminToken ctx c
      from_list md [] m l h = absurd (ground (arith, h))
      from_list md (v ∷ vs) m l h =
          let a = if_admin-Admin (parse (trim_bearer v)) c h in (md, v, vs, m, l, a.0, a.1)

      from :
          (o : Option (List (String × List String)))
          → ctx.metadata ≡ o
          → from_metadata parse o ≡ replied c
          → AdminToken ctx c
      from none m h = absurd (ground (arith, h))
      from (some md) m h = from_list md (values_of (lookup md "authorization")) m refl h

module _ (parse : String → Option Claims) (hash : String → Option String) where
  -- What a call of CreateAdminUser has done.
  abbrev pub Created : Context → AdminUser → Accounts → Reply ShownAdmin × Accounts → Type 0
  Created ctx user a (replied u, a') =
      (c : Claims) × AdminToken parse ctx c
      × ((id : ℤ) × (u ≡ shown_admin id user) × Kept hash user a (ok id, a'))
  Created ctx user a (fails c, a') = (a'.admin_users ≡ a.admin_users) × (a'.customers ≡ a.customers)

  inserted-Created :
      (ctx : Context) (user : AdminUser) (a : Accounts) (c : Claims) (r : Result ℤ × Accounts)
      → AdminToken parse ctx c
      → Kept hash user a r
      → Created ctx user a (after_insert parse hash user r)
  inserted-Created ctx user a c (ok id, a') t k = (c, t, (id, refl, k))
  inserted-Created ctx user a c (err e, a') t k = k

  allowed-Created :
      (ctx : Context) (user : AdminUser) (a : Accounts) (r : Reply Claims)
      → require_admin_token parse ctx ≡ r
      → Created ctx user a (if_allowed parse hash user r a)
  allowed-Created ctx user a (fails c) e = (refl, refl)
  allowed-Created ctx user a (replied c) e =
      inserted-Created ctx user a c (insert_admin_user hash user a)
        (require_admin_token-AdminToken parse ctx c e) (insert_admin_user-Kept hash user a)

  -- CreateAdminUser makes an account only for a caller whose metadata carry a valid token of an
  -- administrator, and keeps the hash of its password, under an id, a user name and an address that
  -- no account had. A call that fails makes none.
  pub create_admin_user-Created :
      (ctx : Context) (user : AdminUser) (a : Accounts)
      → Created ctx user a (create_admin_user parse hash ctx user a)
  unfolding create_admin_user
  create_admin_user-Created ctx user a =
      allowed-Created ctx user a (require_admin_token parse ctx) refl

  -- A new administrator can log in: if bcrypt accepts a password for its hash, the token of the
  -- account's claims can be signed, and the query does not fail, then AdminLogin with the user name
  -- and the password of an account that was just made replies with that token and the account.
  pub create-admin_login :
      (ctx : Context) (user : AdminUser) (a a' : Accounts) (u : ShownAdmin)
      (matches : String → String → Bool) (sign : Claims → Option String) (token : String)
      → ((p h : String) → hash p ≡ some h → matches h p ≡ true)
      → create_admin_user parse hash ctx user a ≡ (replied u, a')
      → a'.faults ≡ []
      → sign (admin_claims (record user { id = a.next_admin })) ≡ some token
      → (admin_login matches sign user.username user.password a').0 ≡ replied (successful token u)
  unfolding admin_login get_admin_user_by_username query
  create-admin_login ctx user a a' u matches sign token accepts done healthy signed =
      let k = subst (Created ctx user a) done (create_admin_user-Created ctx user a) in
      let kept = k.2.2 in
      let id = k.2.0 in
      let row = admin_row id kept.0 user in
      let found : (get_admin_user_by_username user.username a').0 ≡ ok row =
        rw healthy refl
        ∙ ap (λ l. or_no_rows (admin_by_username user.username l)) kept.4
        ∙ ap or_no_rows (admin_by_username-append row a.admin_users kept.3) in
      let sign_row = ap (λ (i : ℤ). sign (admin_claims (record user { id = i }))) kept.2 ∙ signed in
      ap (admin_found matches sign user.password) found
      ∙ rw (accepts user.password kept.0 kept.1, sign_row)
          (ap (λ (x : ShownAdmin). replied (successful token x)) (sym k.2.1))

module _ (matches : String → String → Bool) (sign : Claims → Option String) where
  abbrev token_or : {U : Type 0} → String → Reply (Login U) → String
  token_or t (replied (successful token u)) = token
  token_or t (replied invalid) = t
  token_or t (fails c) = t

  signed_in-token :
      {U : Type 0} (o : Option String) (shown u : U) (token : String)
      → signed_in matches sign shown o ≡ replied (successful token u)
      → o ≡ some token
  signed_in-token none shown u token h = absurd (ground (arith, h))
  signed_in-token (some t) shown u token h = ap (λ r. some (token_or t r)) h

  customer_found-signed :
      (password token : String) (r : Result Customer) (u : ShownCustomer)
      → customer_found matches sign password r ≡ replied (successful token u)
      → (c : Customer) × (sign (customer_claims c) ≡ some token)
  customer_found-signed password token (err e) u h = absurd (ground (arith, h))
  customer_found-signed password token (ok c) u h =
      elim (Bool-cases (matches c.password password)) [
        | inr wrong ↦ absurd (ground (arith, h, wrong))
        | inl right ↦ (
          c,
          signed_in-token (sign (customer_claims c)) (shown_customer c) u token
              (sym (rw right refl) ∙ h),
        )
      ]

-- The token of a customer's login opens what is for customers, and nothing that is for
-- administrators: if the login gave out a token, and jwt reads the claims that it has signed, then a
-- call with the token is admitted with the customer's claims where a customer is asked for, and
-- refused where an administrator is.
pub customer_login-authorised :
    (matches : String → String → Bool) (sign : Claims → Option String)
    (parse : String → Option Claims) (email password token : String) (a : Accounts)
    (u : ShownCustomer) (ctx : Context)
    → ((c : Claims) (t : String) → sign c ≡ some t → parse t ≡ some c)
    → (customer_login matches sign email password a).0 ≡ replied (successful token u)
    → ((c : Claims) × (c.user_type ≡ "customer")
        × (authorised role_customer ctx (parse token)
            ≡ Rbac.passed (record ctx { claims = some c })))
      × (authorised role_admin ctx (parse token) ≡ Rbac.refused Rbac.permission_denied)
unfolding customer_login
customer_login-authorised matches sign parse email password token a u ctx reads done =
    let signed =
      customer_found-signed matches sign password token (get_customer_by_email email a).0 u done in
    let read = reads (customer_claims signed.0) token signed.1 in
    ((customer_claims signed.0, refl, rw read refl), rw read refl)
