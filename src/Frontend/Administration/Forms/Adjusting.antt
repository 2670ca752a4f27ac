-- ===== src/Frontend/Administration/Forms/Adjusting.antt =====
-- The form for a quantity over the server's handlers, from the browser to the tables. The
-- interceptors in between may refuse any call.
use bakery_go.Common.{
  ◌≡◌, ◌⊎◌, inl, inr, refl, Bool, true, false, List, Option, none, some, String, str_eq, ap, ◌∙◌,
  sym, subst, if◌then◌else◌, Bool-cases,
}
use bakery_go.Common.Int.{ℤ, int32, eqb_ℤ}
use bakery_go.Common.Floats.{Floats}
use bakery_go.Common.Sorting.{Sorter}
use bakery_go.Data.Types.{Bread}
use bakery_go.Data.Db.{OrderRow, Tables, Db, Result, ok, err}
use bakery_go.Data.Db.Hoare.{Holds}
use bakery_go.Data.Accounts.{Customer, Accounts}
use bakery_go.Data.Stock.Rows.{map_option, eqb_ℤ_eq}
use bakery_go.Data.Breads
use bakery_go.Data.Breads.{bread_by_id, change_bread, rewritten}
use bakery_go.Data.Breads.Rewriting.{Rewritten, bread_by_id-change_bread}
use bakery_go.Proto
use bakery_go.Proto.{UpdateBreadRequest}
use bakery_go.Server.Rbac.{Claims}
use bakery_go.Server.Shop.{Reply, replied, fails, not_found, proto_bread}
use bakery_go.Server.Shop.Pricing.{get_bread_by_id-Holds}
use bakery_go.Server.Admin.{updated_bread, one_bread, get_bread_by_id, update_bread}
use bakery_go.Server.Admin.Catalogue.{Written, update_bread-Written}
use bakery_go.Frontend.Sessions.{
  Request, Response, redirects, page, http_error, Metadata, form_value, admin_grpc_context,
  require_admin_auth,
}
use bakery_go.Frontend.Sessions.Guarded.{AdminSessionOf, require_admin_auth-guards}
use bakery_go.Frontend.Portal.Served.{as_option, served, beside}
use bakery_go.Frontend.Administration.{AdminTemplateData, AdminClient, with_context}
use bakery_go.Frontend.Administration.Served.{admin_server}
use bakery_go.Frontend.Administration.Forms.{
  with_quantity, sent_to, adjust_read, with_form, admin_adjust_quantity_handler,
}

module _ {F P : Type 0} where
  -- The bread has the quantity, and as far as the row of the id `j` tells, nothing else is changed.
  abbrev pub QuantitySet : ℤ → ℤ → ℤ → Tables F P → Tables F P → Type 0
  QuantitySet j id q t t' =
      (t' ≡ record t { breads = t'.breads })
      × (bread_by_id j t'.breads
          ≡ map_option (λ b. if eqb_ℤ j id then record b { quantity = q } else b)
              (bread_by_id j t.breads))

  Rewritten-QuantitySet :
      (j id q : ℤ) (b : Bread F) (t t' : Tables F P)
      → bread_by_id id t.breads ≡ some b
      → Rewritten (updated_bread (with_quantity id q (proto_bread b))) t t'
      → QuantitySet j id q t t'
  Rewritten-QuantitySet j id q b t t' found w =
      let f = rewritten (updated_bread (with_quantity id q (proto_bread b))) in
      let breads_are = ap (λ (u : Tables F P). u.breads) w in
      let row =
        ap (bread_by_id j) breads_are ∙ bread_by_id-change_bread id j f t.breads (λ c. refl) in
      (
        w ∙ ap (λ (bs : List (Bread F)). record t { breads = bs }) (sym breads_are),
        elim (Bool-cases (eqb_ℤ j id)) [
          | inl same ↦
              let here = ap (λ (i : ℤ). bread_by_id i t.breads) (eqb_ℤ_eq j id same) ∙ found in
              row ∙ rw (same, here) refl
          | inr other ↦ row ∙ rw other refl
        ],
      )

module _ {D : Type 0} where
  -- The browser is told that the quantity is updated.
  abbrev pub is_updated : Response D → Bool
  is_updated (redirects url) = str_eq url "/admin/alerts?message=Quantity+updated+successfully"
  is_updated (page name data') = false
  is_updated (http_error n) = false

module _ {F P : Type 0} (parse : String → Option Claims) (atoi : String → ℤ) where
  -- The tables are as they were and no success is reported, or an administrator's form has set the
  -- quantity of its bread.
  abbrev pub Adjusted :
      ℤ → Request → Tables F P → Response (AdminTemplateData F) × (Accounts × Db F P) → Type 0
  Adjusted j r t (response, (a, d)) =
      ((d.tables ≡ t) × (is_updated response ≡ false))
      ⊎ ((c : Claims) × (form : List (String × String)) × AdminSessionOf parse r c
          × (r.form ≡ some form)
          × QuantitySet j (int32 (atoi r.id)) (int32 (atoi (form_value form "quantity"))) t
              d.tables)

module _ {F P : Type 0} (j id q : ℤ) where
  -- The same, for one bread and its quantity.
  abbrev Set : Tables F P → Response (AdminTemplateData F) × (Accounts × Db F P) → Type 0
  Set t (response, (a, d)) =
      ((d.tables ≡ t) × (is_updated response ≡ false)) ⊎ QuantitySet j id q t d.tables

  update-Set :
      (refused : Bool) (b : Bread F) (a : Accounts) (d : Db F P) (t : Tables F P) (url : String)
      → bread_by_id id t.breads ≡ some b
      → d.tables ≡ t
      → let req = with_quantity id q (proto_bread b) in
        Set t (sent_to url (served refused (beside (update_bread req)) (a, d)))
  update-Set true b a d t url found same = inl (same, refl)
  update-Set false b a d t url found same = go (update_bread req d) (
      subst (λ (u : Tables F P). Written req u (update_bread req d)) same
        (update_bread-Written req d))
    where
      req : UpdateBreadRequest F
      req = with_quantity id q (proto_bread b)

      go :
          (x : Reply (Proto.Bread F) × Db F P)
          → Written req t x
          → Set t (sent_to url (as_option (x.0, (a, x.1))))
      go (replied b', d') w = inr (Rewritten-QuantitySet j id q b t d'.tables found w)
      go (fails c, d') (inl e) = inl (e, refl)
      go (fails c, d') (inr w) = inr (Rewritten-QuantitySet j id q b t d'.tables found w)

module _ {F P : Type 0} (fl : Floats F) (to_numeric : F → F) (tax_rate : F) (now : ℤ)
    (number : String) (by_quantity : Sorter (Bread F)) (by_name : Sorter Customer)
    (by_id : Sorter OrderRow) (refuses : String → Metadata → Bool) (atoi : String → ℤ) where
  abbrev server : AdminClient F (Accounts × Db F P)
  server = admin_server fl to_numeric tax_rate now number by_quantity by_name by_id refuses

  adjust-Set :
      (j id q : ℤ) (md : Metadata) (a : Accounts) (d : Db F P)
      → Set j id q d.tables (adjust_read server atoi id q md (server.get_bread_by_id md id (a, d)))
  unfolding get_bread_by_id
  adjust-Set j id q md a d = by_refusal (refuses "/bread.AdminService/GetBreadById" md)
    where
      read :
          (x : Result (Bread F) × Db F P)
          → Holds
              (λ b t. (bread_by_id id d.tables.breads ≡ some b) × (t ≡ d.tables))
              (λ t. t ≡ d.tables)
              x
          → let y = one_bread not_found x in
            Set j id q d.tables (adjust_read server atoi id q md (as_option (y.0, (a, y.1))))
      read (ok b, d') h =
          update-Set j id q (refuses "/bread.AdminService/UpdateBread" md) b a d' d.tables
            "/admin/alerts?message=Quantity+updated+successfully" h.0 h.1
      read (err e, d') h = inl (h, refl)

      by_refusal :
          (refused : Bool)
          → Set j id q d.tables (
              adjust_read server atoi id q md (served refused (beside (get_bread_by_id id)) (a, d)))
      by_refusal true = inl (refl, refl)
      by_refusal false = read (Breads.get_bread_by_id id d) (get_bread_by_id-Holds id d)

  -- What the handler does with a form and a token.
  abbrev adjust :
      Request
      → List (String × String)
      → Metadata
      → Accounts × Db F P
      → Response (AdminTemplateData F) × (Accounts × Db F P)
  adjust r form md w =
      let id = int32 (atoi r.id) in
      adjust_read server atoi id (int32 (atoi (form_value form "quantity"))) md
        (server.get_bread_by_id md id w)

  -- The form for a quantity, from the browser to the tables, and whatever calls the interceptors
  -- refuse and whatever queries fail. Either the tables are as they were and the browser is not
  -- told of an update; or the visitor's cookie holds a token that the parser accepts as an
  -- administrator's, the bread with the id of the path has the quantity of the form, and nothing
  -- else is changed, neither in another table nor, for any id, in the row of that id. The two
  -- numbers are what strconv.Atoi returns, also beside an error, cut to 32 bits.
  pub adjust_quantity-Adjusted :
      (parse : String → Option Claims) (j : ℤ) (r : Request) (a : Accounts) (d : Db F P)
      → Adjusted parse atoi j r d.tables
          (require_admin_auth parse (admin_adjust_quantity_handler server atoi) r (a, d))
  unfolding admin_adjust_quantity_handler
  adjust_quantity-Adjusted parse j r a d =
      require_admin_auth-guards parse (admin_adjust_quantity_handler server atoi) r (a, d)
        (Adjusted parse atoi j r d.tables) (inl (refl, refl)) (inl (refl, refl))
        (λ c s. by_form c s r.form refl)
    where
      lift :
          (c : Claims) (form : List (String × String))
          (x : Response (AdminTemplateData F) × (Accounts × Db F P))
          → AdminSessionOf parse r c
          → r.form ≡ some form
          → Set j (int32 (atoi r.id)) (int32 (atoi (form_value form "quantity"))) d.tables x
          → Adjusted parse atoi j r d.tables x
      lift c form x s e (inl same) = inl same
      lift c form x s e (inr set) = inr (c, form, s, e, set)

      by_context :
          (c : Claims) (form : List (String × String)) (context : Option Metadata)
          → AdminSessionOf parse r c
          → r.form ≡ some form
          → Adjusted parse atoi j r d.tables (with_context (adjust r form) context (a, d))
      by_context c form none s e = inl (refl, refl)
      by_context c form (some md) s e =
          lift c form (adjust r form md (a, d)) s e
            (adjust-Set j (int32 (atoi r.id)) (int32 (atoi (form_value form "quantity"))) md a d)

      by_form :
          (c : Claims) (s : AdminSessionOf parse r c) (form : Option (List (String × String)))
          → r.form ≡ form
          → Adjusted parse atoi j r d.tables
              (with_form (λ form. with_context (adjust r form) (admin_grpc_context r)) form (a, d))
      by_form c s none e = inl (refl, refl)
      by_form c s (some form) e = by_context c form (admin_grpc_context r) s e
