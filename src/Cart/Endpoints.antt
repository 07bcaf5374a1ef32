-- ===== src/Cart/Endpoints.antt =====
-- The endpoints of app/routers/cart.py for users, with their dependency from app/security.py.
use ecommerce_services.Common.{ℕ, String, Option}
use ecommerce_services.Common.Hashes.{Hashes}
use ecommerce_services.Shared.{ok, Action, Response, respond, continue}
use ecommerce_services.Shared.Jwt.{Jwt}
use ecommerce_services.Shared.Security.{JwksClient, JwksAnswer, TokenClaims, get_current_user}
use ecommerce_services.Catalog.{PriceOut}
use ecommerce_services.Order.World.{Outcome}
use ecommerce_services.Cart.Defs.{CartOut, AddItemRequest, Settings, Carts}
use ecommerce_services.Cart.Items.{get_cart, add_item, remove_item, checkout_intent}

module _ (J : Jwt) (H : Hashes) where
  -- The carts, `jwks_client`, and what auth-service answers when it is asked for its keys.
  pub record CartService : Type 0 where
    pub carts : Carts H
    pub jwks_client : JwksClient J
    pub auth : JwksAnswer J

  -- A handler behind `current_user_dependency`.
  unfoldable pub with_user :
      {A : Type 0}
      → String
      → ℕ
      → Option String
      → (TokenClaims → Action (Carts H) A)
      → CartService
      → Response A × CartService
  with_user request_id status authorization handler s =
      let (r, client) = get_current_user J s.carts.now s.auth authorization s.jwks_client in
      let (x, carts) = continue r handler s.carts in
      (respond request_id status x, record s { carts = carts; jwks_client = client })

  unfoldable pub get_cart_endpoint :
      String → Option String → CartService → Response CartOut × CartService
  unfolding with_user
  get_cart_endpoint request_id authorization =
      with_user request_id 200 authorization (λ user. get_cart H user.user_id)

  unfoldable pub checkout_intent_endpoint :
      String → Option String → CartService → Response CartOut × CartService
  unfolding with_user
  checkout_intent_endpoint request_id authorization =
      with_user request_id 200 authorization (λ user. checkout_intent H user.user_id)

  unfoldable pub add_item_endpoint :
      Settings
      → String
      → Option String
      → AddItemRequest
      → Outcome PriceOut
      → CartService
      → Response CartOut × CartService
  unfolding with_user
  add_item_endpoint settings request_id authorization body outcome =
      with_user request_id 200 authorization (λ user. add_item H settings body user.user_id outcome)

  unfoldable pub remove_item_endpoint :
      Settings → String → Option String → String → CartService → Response (Unit {0}) × CartService
  unfolding with_user
  remove_item_endpoint settings request_id authorization product_id =
      with_user request_id 204 authorization
        (λ user t. (ok tt, remove_item H settings product_id user.user_id t))
