-- ===== src/System/CartEndpoints.antt =====
-- The endpoints of services/cart-service, as order-service calls them, and the cart of a buyer after the
-- checkout saga.
use ecommerce_services.Common.{
  ◌<◌, String, none, some, List, [], ◌∷◌, map, ◌≡◌, ◌≢◌, ap, ◌∙◌, ◌&&◌, ◌==◌, if◌then◌else◌, ==-ne,
  eq_refl,
}
use ecommerce_services.Common.Dict.{contains}
use ecommerce_services.Common.Hashes.{Hashes}
use ecommerce_services.Shared.{Response, Body, content, error}
use ecommerce_services.Shared.InternalAuth.{require_internal_caller}
use ecommerce_services.Shared.Jwt.{Jwt}
use ecommerce_services.Cart.{
  Settings, CartOut, Carts, CartService, get_cart_endpoint, delete_batch, batch_remove_items,
}
use ecommerce_services.Cart.View.{view}
use ecommerce_services.Cart.Refinement.{remove_batch-Allows}
use ecommerce_services.Order.Services.{CatalogApi, PaymentApi, CartApi, CartItem, Services, Headers}
use ecommerce_services.Order.World
use ecommerce_services.Order.World.{World, Order}
use ecommerce_services.Order.Saga.{Line}
use ecommerce_services.Order.Checkout.{product_of, run_saga}
use ecommerce_services.Order.Clearing.{run_saga-cleared}

-- The entry `items` of a body, which is what order-service reads.
abbrev items_entry : Body CartOut → Body (List CartItem)
items_entry (content cart) = content cart.items
items_entry (error e) = error e

abbrev items_response : Response CartOut → Response (List CartItem)
items_response r = record { status_code = r.status_code; body = items_entry r.body }

module _ (J : Jwt) (H : Hashes) (settings : Settings) where
  abbrev pub cart_api : CartApi
  cart_api = record {
    State = CartService J H;
    get_cart = λ request_id authorization s.
        let (r, s') = get_cart_endpoint J H request_id (some authorization) s in
        (items_response r, s');
    batch_remove = λ (h : Headers) user_id ids s.
        let (r, carts) = delete_batch H settings h.0 h.1 h.2 user_id ids s.carts in
        (r, record s { carts = carts });
  }

  -- order-service, with its token, is let through.
  delete_batch-removes :
      (r user_id : String) (ids : List String) (s : Carts H)
      → settings.internal_service_token ≢ ""
      → (delete_batch H settings r settings.internal_service_token "order-service" user_id ids s).1
        ≡ (batch_remove_items H settings user_id ids s).1
  unfolding delete_batch require_internal_caller contains
  delete_batch-removes r user_id ids s named =
      rw (==-ne settings.internal_service_token "" named, eq_refl settings.internal_service_token)

  module _ (catalog : CatalogApi) (payment : PaymentApi) where
    abbrev pub services : Services
    services = record { catalog = catalog; payment = payment; cart = cart_api }

    -- Once a checkout has ended, PAID or FAILED, with every call answered, none of its products is in
    -- the buyer's cart, and every other product of that cart and every other cart is as it was. Both
    -- services are configured with one internal token, which is not empty, and the time to live of the
    -- carts is positive.
    pub run_saga-clears_cart :
        (order_settings : World.Settings) (o : Order) (l : Line) (lines : List Line)
        (w : World services) (v p : String)
        → order_settings.internal_service_token ≡ settings.internal_service_token
        → settings.internal_service_token ≢ ""
        → 0 < settings.cart_ttl_seconds
        → w.fates ≡ []
        → view H (run_saga services order_settings o (l ∷ lines) w).1.cart.carts v p ≡ (
            if o.user_id == v && contains p (map product_of (l ∷ lines))
            then none
            else view H w.cart.carts v p)
    run_saga-clears_cart order_settings o l lines w v p same named ttl_pos quiet =
        let ids = map product_of (l ∷ lines) in
        let carts = w.cart.carts in
        ap (λ (c : CartService J H). view H c.carts v p)
          (run_saga-cleared services order_settings o l lines w quiet)
        ∙ ap
            (λ t.
              view H (delete_batch H settings w.request_id t "order-service" o.user_id ids carts).1
                v p)
            same
        ∙ ap (λ s. view H s v p) (delete_batch-removes w.request_id o.user_id ids carts named)
        ∙ remove_batch-Allows H settings ttl_pos o.user_id ids carts v p
