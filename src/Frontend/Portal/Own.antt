-- ===== src/Frontend/Portal/Own.antt =====
-- Whose order and whose invoice a page of the portal shows.
use bakery_go.Common.{◌≡◌, refl, Bool, Option, none, some, String, sym, subst, Bool-cases, inl, inr}
use bakery_go.Common.Int.{ℤ, pos, int32, eqb_ℤ}
use bakery_go.Common.Floats.{Floats}
use bakery_go.Data.Stock.Rows.{eqb_ℤ_eq}
use bakery_go.Proto
use bakery_go.Proto.{BuyOrderSummary, BuyOrderDetailsResponse, CustomerOrdersResponse}
use bakery_go.Server.Rbac.{Claims}
use bakery_go.Frontend.Sessions.{
  Request, Response, redirects, page, http_error, Metadata, Templates, written, show_page,
  get_customer_id_from_token, customer_grpc_context, require_customer_auth,
}
use bakery_go.Frontend.Sessions.Guarded.{SessionOf, require_customer_auth-guards, session_customer}
use bakery_go.Frontend.Portal.{
  PortalClient, PortalTemplateData, for_customer, order_page, order_for, invoice_page, invoice_for,
  customer_order_detail_handler, customer_invoice_detail_handler,
}

module _ {F : Type 0} where
  -- A page is shown in a customer's session only, and `Q` holds of the claims and of its data.
  abbrev pub Private :
      (String → Option Claims)
      → (Claims → PortalTemplateData F → Type 0)
      → Request
      → Response (PortalTemplateData F)
      → Type 0
  Private parse Q r (redirects url) = Unit {0}
  Private parse Q r (http_error n) = Unit {0}
  Private parse Q r (page name data') = (c : Claims) × SessionOf parse r c × Q c data'

  abbrev pub OwnOrder : Claims → PortalTemplateData F → Type 0
  OwnOrder c data' =
      (o : BuyOrderSummary F) × (data'.order ≡ some o) × (o.customer_id ≡ int32 c.user_id)

  abbrev pub OwnInvoice : Claims → PortalTemplateData F → Type 0
  OwnInvoice c data' =
      (i : Proto.Invoice F) × (data'.invoice ≡ some i) × (i.customer_id ≡ int32 c.user_id)

  pub show_page-Private :
      (parse : String → Option Claims) (Q : Claims → PortalTemplateData F → Type 0) (r : Request)
      (templates : Templates (PortalTemplateData F)) (name : String) (data' : PortalTemplateData F)
      → (c : Claims) × SessionOf parse r c × Q c data'
      → Private parse Q r (show_page templates name data')
  show_page-Private parse Q r templates name data' h = go (templates name)
    where
      go : (o : Option (PortalTemplateData F → Bool)) → Private parse Q r (written name data' o)
      go none = tt
      go (some execute) = elim (Bool-cases (execute data')) [
        | inl works ↦ rw works h
        | inr broken ↦ rw broken tt
      ]

module _ {F W : Type 0} (fl : Floats F) (parse : String → Option Claims) (itoa : ℤ → String)
    (templates : Templates (PortalTemplateData F)) (client : PortalClient F W) where
  -- A page for the customer of the session, behind the middleware.
  pub for_customer-Private :
      (Q : Claims → PortalTemplateData F → Type 0)
      (show : Request → ℤ → Metadata → W → Response (PortalTemplateData F) × W) (r : Request)
      (w : W)
      → ((c : Claims)
          → SessionOf parse r c
          → (md : Metadata) → Private parse Q r (show r c.user_id md w).0)
      → Private parse Q r
          (require_customer_auth parse
            (λ r'. for_customer fl parse itoa templates client (show r') r')
            r
            w).0
  for_customer-Private Q show r w own =
      require_customer_auth-guards parse
        (λ r'. for_customer fl parse itoa templates client (show r') r') r w
        (λ x. Private parse Q r x.0) tt tt
        (λ c s.
          let id = get_customer_id_from_token parse r in
          let md = customer_grpc_context parse itoa r in
          elim (Bool-cases (eqb_ℤ id (pos 0))) [
            | inl nobody ↦ rw nobody tt
            | inr somebody ↦ rw somebody (
                subst (λ (i : ℤ). Private parse Q r (show r i md w).0)
                  (sym (session_customer parse r c s)) (own c s md))
          ])

  order_page-Private :
      (r : Request) (c : Claims) (md : Metadata) (x : Option (BuyOrderDetailsResponse F) × W)
      → SessionOf parse r c
      → Private parse OwnOrder r (order_page fl parse itoa templates client c.user_id md x).0
  order_page-Private r c md (none, w) s = tt
  order_page-Private r c md (some o, w) s =
      elim (Bool-cases (eqb_ℤ o.customer_id (int32 c.user_id))) [
        | inl own ↦ rw own (
            show_page-Private parse OwnOrder r templates "portal/order_detail.html" _
              (c, s, (_, refl, eqb_ℤ_eq o.customer_id (int32 c.user_id) own)))
        | inr other ↦ rw other tt
      ]

  order_for-Private :
      (r : Request) (c : Claims) (md : Metadata) (o : Option ℤ) (w : W)
      → SessionOf parse r c
      → Private parse OwnOrder r (order_for fl parse itoa templates client o c.user_id md w).0
  order_for-Private r c md none w s = tt
  order_for-Private r c md (some i) w s =
      order_page-Private r c md (client.get_order_details md (int32 i) w) s

  invoice_page-Private :
      (r : Request) (c : Claims) (md : Metadata) (x : Option (Proto.Invoice F) × W)
      → SessionOf parse r c
      → Private parse OwnInvoice r (invoice_page fl parse itoa templates client c.user_id md x).0
  invoice_page-Private r c md (none, w) s = tt
  invoice_page-Private r c md (some i, w) s =
      elim (Bool-cases (eqb_ℤ i.customer_id (int32 c.user_id))) [
        | inl own ↦ rw own (
            show_page-Private parse OwnInvoice r templates "portal/invoice_detail.html" _
              (c, s, (_, refl, eqb_ℤ_eq i.customer_id (int32 c.user_id) own)))
        | inr other ↦ rw other tt
      ]

  invoice_for-Private :
      (r : Request) (c : Claims) (md : Metadata) (o : Option ℤ) (w : W)
      → SessionOf parse r c
      → Private parse OwnInvoice r (invoice_for fl parse itoa templates client o c.user_id md w).0
  invoice_for-Private r c md none w s = tt
  invoice_for-Private r c md (some i) w s =
      invoice_page-Private r c md (client.get_invoice md (int32 i) w) s

  -- The pages for one order and for one invoice, behind their middleware and whatever the server
  -- answers: one is shown only to a visitor whose cookie holds a token that the parser accepts as a
  -- customer's, and the order or the invoice on it is of that customer, by its id as a 32-bit
  -- number.
  pub portal_details-Private :
      (atoi : String → Option ℤ) (r : Request) (w : W)
      → Private parse OwnOrder r
          (require_customer_auth parse
            (customer_order_detail_handler fl parse itoa templates client atoi)
            r
            w).0
        × Private parse OwnInvoice r
            (require_customer_auth parse
              (customer_invoice_detail_handler fl parse itoa templates client atoi)
              r
              w).0
  unfolding customer_order_detail_handler customer_invoice_detail_handler
  portal_details-Private atoi r w = (
    for_customer-Private OwnOrder (λ r'. order_for fl parse itoa templates client (atoi r'.id)) r w
        (λ c s md. order_for-Private r c md (atoi r.id) w s),
    for_customer-Private OwnInvoice (λ r'. invoice_for fl parse itoa templates client (atoi r'.id))
        r w (λ c s md. invoice_for-Private r c md (atoi r.id) w s),
  )
