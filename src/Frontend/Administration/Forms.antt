-- ===== src/Frontend/Administration/Forms.antt =====
-- The forms of the administrators in frontend/cmd/web/admin_handlers.go.
pub mod Adjusting
use bakery_go.Common.{List, Option, none, some, String}
use bakery_go.Common.Int.{ℤ, int32}
use bakery_go.Proto
use bakery_go.Proto.{CreateBreadRequest, UpdateBreadRequest}
use bakery_go.Frontend.Sessions.{
  Request, Response, redirects, http_error, form_value, admin_grpc_context, Metadata,
}
use bakery_go.Frontend.Administration.{AdminClient, as_admin, page_or}

module _ {D W : Type 0} where
  -- Where a form leads.
  abbrev pub sent_to : {A : Type 0} → String → Option A × W → Response D × W
  sent_to url = page_or 500 (λ a. redirects url)

  -- A handler of a form.
  abbrev pub with_form :
      (List (String × String) → W → Response D × W)
      → Option (List (String × String))
      → W
      → Response D × W
  with_form go none w = (http_error 400, w)
  with_form go (some form) w = go form w

module _ {F : Type 0} where
  -- The bread that was read, with another quantity.
  abbrev pub with_quantity : ℤ → ℤ → Proto.Bread F → UpdateBreadRequest F
  with_quantity id quantity bread = record {
    id = id;
    name = bread.name;
    price = bread.price;
    quantity = quantity;
    description = bread.description;
    kind = bread.kind;
    image = bread.image;
  }

module _ {F : Type 0} (atoi : String → ℤ) (parse_float : String → F) where
  abbrev pub create_request : List (String × String) → CreateBreadRequest F
  create_request form = record {
    name = form_value form "name";
    price = parse_float (form_value form "price");
    quantity = int32 (atoi (form_value form "quantity"));
    description = form_value form "description";
    kind = form_value form "type";
    image = form_value form "image";
  }

  abbrev pub update_request : ℤ → List (String × String) → UpdateBreadRequest F
  update_request id form = record {
    id = id;
    name = form_value form "name";
    price = parse_float (form_value form "price");
    quantity = int32 (atoi (form_value form "quantity"));
    description = form_value form "description";
    kind = form_value form "type";
    image = form_value form "image";
  }

module _ {D F W : Type 0} (client : AdminClient F W) where
  unfoldable pub admin_order_status_handler : Request → W → Response D × W
  unfolding admin_grpc_context
  admin_order_status_handler r =
      with_form
        (λ form.
          as_admin
            (λ md w.
              sent_to "/admin/orders?message=Order+status+updated"
                (client.update_order_status md r.id (form_value form "status") w))
            r)
        r.form

  module _ (atoi : String → ℤ) where
    unfoldable pub admin_bread_delete_handler : Request → W → Response D × W
    unfolding admin_grpc_context
    admin_bread_delete_handler r =
        as_admin
          (λ md w.
            sent_to "/admin/bread?message=Bread+deleted+successfully"
              (client.delete_bread md (int32 (atoi r.id)) w))
          r

    abbrev pub adjust_read : ℤ → ℤ → Metadata → Option (Proto.Bread F) × W → Response D × W
    adjust_read id quantity md (none, w) = (http_error 404, w)
    adjust_read id quantity md (some bread, w) =
        sent_to "/admin/alerts?message=Quantity+updated+successfully"
          (client.update_bread md (with_quantity id quantity bread) w)

    unfoldable pub admin_adjust_quantity_handler : Request → W → Response D × W
    unfolding admin_grpc_context
    admin_adjust_quantity_handler r =
        with_form
          (λ form.
            as_admin
              (λ md w.
                let id = int32 (atoi r.id) in
                adjust_read id (int32 (atoi (form_value form "quantity"))) md
                  (client.get_bread_by_id md id w))
              r)
          r.form

    module _ (parse_float : String → F) where
      unfoldable pub admin_bread_create_handler : Request → W → Response D × W
      unfolding admin_grpc_context
      admin_bread_create_handler r =
          with_form
            (λ form.
              as_admin
                (λ md w.
                  sent_to "/admin/bread?message=Bread+created+successfully"
                    (client.create_bread md (create_request atoi parse_float form) w))
                r)
            r.form

      unfoldable pub admin_bread_update_handler : Request → W → Response D × W
      unfolding admin_grpc_context
      admin_bread_update_handler r =
          with_form
            (λ form.
              as_admin
                (λ md w. sent_to "/admin/bread?message=Bread+updated+successfully" (
                  client.update_bread md (update_request atoi parse_float (int32 (atoi r.id)) form)
                    w))
                r)
            r.form
