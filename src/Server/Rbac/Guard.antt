-- ===== src/Server/Rbac/Guard.antt =====
-- What a call must bring to reach its handler.
use bakery_go.Common.{
  ◌≡◌, refl, ◌⊎◌, inl, inr, true, false, Bool, List, [], ◌∷◌, Option, none, some, String, arith,
  Bool-cases, str_eq, ◌||◌, ◌&&◌, not, ap, ◌∙◌, subst,
}
use bakery_go.Server.Rbac.{
  method_roles, lookup, or_default, get_method_role, Claims, Context, Reply, refused, passed, get,
  token_string, authorised, with_token, rbac_check, only_digits, with_customer, inject_customer_id,
  injected, after_limit, interceptor_chain, role_admin, role_customer,
}

-- The call brings a token whose claims have the role or are an administrator's.
abbrev pub Bears : (String → Option Claims) → String → Context → Claims → Type 0
Bears parse role ctx c =
    (v : String) × (vs : List String) × (get "authorization" ctx.metadata ≡ v ∷ vs)
    × (parse (token_string v) ≡ some c)
    × ((str_eq c.user_type role || str_eq c.user_type role_admin) ≡ true)

-- The context that a check lets pass: no role is required, and it is the caller's, or it has the
-- claims of a token with the role.
abbrev pub Cleared : (String → Option Claims) → String → Context → Reply → Type 0
Cleared parse role ctx (refused c) = Unit {0}
Cleared parse role ctx (passed ctx') =
    ((str_eq role "" ≡ true) × (ctx' ≡ ctx))
    ⊎ ((c : Claims) × Bears parse role ctx c × (ctx' ≡ record ctx { claims = some c }))

module _ (parse : String → Option Claims) where
  authorised-Cleared :
      (role : String) (ctx : Context) (v : String) (vs : List String) (o : Option Claims)
      → get "authorization" ctx.metadata ≡ v ∷ vs
      → parse (token_string v) ≡ o
      → Cleared parse role ctx (authorised role ctx o)
  authorised-Cleared role ctx v vs none e p = tt
  authorised-Cleared role ctx v vs (some c) e p =
      elim (Bool-cases (not (str_eq c.user_type role) && not (str_eq c.user_type role_admin))) [
        | inl other ↦ rw other tt
        | inr fits ↦ rw fits (inr (c, (v, vs, e, p, ground (arith, fits)), refl))
      ]

  with_token-Cleared :
      (role : String) (ctx : Context) (vs : List String)
      → get "authorization" ctx.metadata ≡ vs
      → Cleared parse role ctx (with_token parse role ctx vs)
  with_token-Cleared role ctx [] e = tt
  with_token-Cleared role ctx (v ∷ vs) e =
      authorised-Cleared role ctx v vs (parse (token_string v)) e refl

  rbac_check-Cleared :
      (ctx : Context) (m : String) → Cleared parse (get_method_role m) ctx (rbac_check parse ctx m)
  unfolding rbac_check
  rbac_check-Cleared ctx m = elim (Bool-cases (str_eq (get_method_role m) "")) [
    | inl free ↦ rw free (inl (free, refl))
    | inr closed ↦ rw closed (with_token-Cleared (get_method_role m) ctx _ refl)
  ]

  -- The handler gets the claims that the check found: the customer's id is another value.
  with_customer-claims :
      (ctx : Context) (ids : List String) → (with_customer ctx ids).claims ≡ ctx.claims
  with_customer-claims ctx [] = refl
  with_customer-claims ctx (id ∷ ids) = elim (Bool-cases (not (str_eq id "") && only_digits id)) [
    | inl good ↦ rw good refl
    | inr bad ↦ rw bad refl
  ]

  -- What a reply to a guarded call tells.
  abbrev pub Guarded : String → Context → Reply → Type 0
  Guarded role ctx (refused c) = Unit {0}
  Guarded role ctx (passed ctx') = (c : Claims) × Bears parse role ctx c × (ctx'.claims ≡ some c)

  Cleared-Guarded :
      (role : String) (ctx : Context) (r : Reply)
      → str_eq role "" ≡ false
      → Cleared parse role ctx r
      → Guarded role ctx (injected r)
  unfolding inject_customer_id
  Cleared-Guarded role ctx (refused c) closed h = tt
  Cleared-Guarded role ctx (passed ctx') closed (inl h) = absurd (ground (arith, closed, h.0))
  Cleared-Guarded role ctx (passed ctx') closed (inr h) = (
    h.0,
    h.1,
    with_customer-claims ctx' (get "customer_id" ctx'.metadata)
        ∙ ap (λ (x : Context). x.claims) h.2,
  )

  module _ {L : Type 0} (limit : String → L → Bool × L) where
    after_limit-Guarded :
        (ctx : Context) (m : String) (r : Bool × L)
        → str_eq (get_method_role m) "" ≡ false
        → Guarded (get_method_role m) ctx (after_limit limit parse ctx m r).0
    after_limit-Guarded ctx m (false, l) closed = tt
    after_limit-Guarded ctx m (true, l) closed =
        Cleared-Guarded (get_method_role m) ctx (rbac_check parse ctx m) closed
          (rbac_check-Cleared ctx m)

    -- The chain lets a call of a method that requires a role pass only with a token of that role or
    -- of an administrator.
    pub interceptor_chain-Guarded :
        (ctx : Context) (m : String) (l : L)
        → str_eq (get_method_role m) "" ≡ false
        → Guarded (get_method_role m) ctx (interceptor_chain limit parse ctx m l).0
    unfolding interceptor_chain
    interceptor_chain-Guarded ctx m l closed = rw closed (after_limit-Guarded ctx m _ closed)

    -- A method that the table does not name is guarded as one for customers: fail-safe.
    pub interceptor_chain_unknown :
        (ctx : Context) (m : String) (l : L)
        → lookup method_roles m ≡ none
        → Guarded role_customer ctx (interceptor_chain limit parse ctx m l).0
    unfolding get_method_role
    interceptor_chain_unknown ctx m l unknown =
        let role : get_method_role m ≡ role_customer = ap or_default unknown in
        subst (λ (r : String). Guarded r ctx (interceptor_chain limit parse ctx m l).0) role
          (interceptor_chain-Guarded ctx m l (rw role refl))

    -- An open method reaches its handler without a token, and takes nothing from the rate limiter.
    pub interceptor_chain_open :
        (ctx : Context) (m : String) (l : L)
        → str_eq (get_method_role m) "" ≡ true
        → interceptor_chain limit parse ctx m l ≡ (passed (inject_customer_id ctx), l)
    unfolding interceptor_chain rbac_check
    interceptor_chain_open ctx m l free = rw free (rw free refl)
