-- ===== src/System/CartTests.antt =====
-- A buyer who checks out the cart, with the services for carts and products behind order-service.
use Prim.Native.String.{◌++◌ as append}
use ecommerce_services.Common.{
  String, ◌<◌, ◌==◌, ◌&&◌, none, some, List, [], ◌∷◌, ◌≡◌, ◌≢◌, refl, ap, false, arith, eq_iff,
  if◌then◌else◌, map,
}
use ecommerce_services.Common.Dict
use ecommerce_services.Common.Dict.{contains}
use ecommerce_services.Common.Hashes.{dict_hashes}
use ecommerce_services.Common.Table.{find, update}
use ecommerce_services.Shared.{Result, ok, respond}
use ecommerce_services.Shared.InternalAuth.{require_internal_caller}
use ecommerce_services.Shared.JwtDemo.{demo_jwt, fields}
use ecommerce_services.Shared.Security.{
  jwks, issuer, TokenClaims, get_current_user, decode_bearer, decode_token, key_for, get_key,
  refresh_keys, verify_token, bearer, starts_lower, after_space,
}
use ecommerce_services.Catalog.{get_price_endpoint, post_reserve, invalidate_product}
use ecommerce_services.Catalog.Demo
use ecommerce_services.Cart.{
  Settings, CartService, get_cart_endpoint, get_cart, read_cart, items_of, is_meta, cart_key,
}
use ecommerce_services.Cart.View.{view}
use ecommerce_services.Order.Services.{Services}
use ecommerce_services.Order.World.{World, Order, pending, paid, id_of, key_of}
use ecommerce_services.Order.Saga.{
  Line, OrderOut, CreateOrder, resolve_items, price_all, reserve_all, order_out, load_items,
}
use ecommerce_services.Order.Clients
use ecommerce_services.Order.Clients.{
  get_price, reserve_stock, charge, clear_cart_items, get_cart_items,
}
use ecommerce_services.Order.Checkout.{product_of, run_saga, create_order_for}
use ecommerce_services.System.CatalogEndpoints.{catalog_api}
use ecommerce_services.System.CartEndpoints.{services, run_saga-clears_cart}
use ecommerce_services.System.CartCheckout.{checkout_empties_cart}
use ecommerce_services.System.Demo.{payments, order_settings, no_metrics}

abbrev settings : Settings
settings = record {
  cart_ttl_seconds = 86400;
  cart_abandonment_threshold_seconds = 1800;
  internal_service_token = "dev-internal-token-change-me";
}

abbrev user_token : String
user_token =
    demo_jwt.encode
      (record {
        sub = "u-1";
        email = "ann@example.com";
        iss = issuer;
        iat = 0;
        exp = 900;
        jti = "j-1";
      })
      "key" "a1b2"

abbrev cart_service : CartService demo_jwt dict_hashes
cart_service = record {
  carts = record {
    store =
        ("cart:u-1", (("P001", 2) ∷ ("_updated_at", 3) ∷ [], some 86403))
        ∷ ("cart:u-2", (("P001", 1) ∷ [], some 86403))
        ∷ [];
    now = 5;
    items_added_total = 2;
    abandonment_total = 0;
  };
  jwks_client = record { ttl_seconds = 300; keys = []; fetched_at = 0 };
  auth = jwks (("a1b2", "key") ∷ []);
}

abbrev shop_services : Services
shop_services =
    services demo_jwt dict_hashes settings (catalog_api Demo.caches Demo.settings) payments

abbrev world : List Order → World shop_services
world orders = record {
  orders = orders;
  order_items = [];
  events = [];
  metrics = no_metrics;
  catalog = Demo.shop;
  payment = [];
  cart = cart_service;
  fates = [];
  request_id = "r-1";
  now = 5;
}

abbrev order_1 : Order
order_1 = record {
  id = "o-1";
  user_id = "u-1";
  status = pending;
  amount_cents = 3998;
  idempotency_key = "k-1";
  stock_reserved = false;
  failure_reason = none;
  delivered = false;
  created_at = 5;
  updated_at = 5;
}

abbrev lines : List Line
lines = ("P001", 2) ∷ []

token-ne-nil : ◌≢◌ {A = String} "dev-internal-token-change-me" ""
token-ne-nil = ground (arith, eq_iff "dev-internal-token-change-me" "")

key-ne-nil : ◌≢◌ {A = String} "k-1" ""
key-ne-nil = ground (arith, eq_iff "k-1" "")

day_pos : 0 < settings.cart_ttl_seconds
day_pos = omega arith

run_saga-clears_cart_example :
    view dict_hashes
      (run_saga shop_services order_settings order_1 lines (world (order_1 ∷ []))).1.cart.carts
      "u-1"
      "P001"
    ≡ (if "u-1" == "u-1" && contains "P001" (map product_of lines)
        then none
        else view dict_hashes cart_service.carts "u-1" "P001")
run_saga-clears_cart_example =
    run_saga-clears_cart demo_jwt dict_hashes settings (catalog_api Demo.caches Demo.settings)
      payments order_settings order_1 ("P001", 2) [] (world (order_1 ∷ [])) "u-1" "P001" refl
      token-ne-nil day_pos refl

abbrev request : CreateOrder
request = record {
  items = none;
  user_id = "u-1";
  idempotency_key = some "k-1";
  authorization = append "Bearer " user_token;
  new_id = "o-1";
}

abbrev ann : TokenClaims
ann = record { user_id = "u-1"; email = "ann@example.com" }

known :
    (get_current_user demo_jwt 5 cart_service.auth
      (some request.authorization)
      cart_service.jwks_client).0
    ≡ ok ann
unfolding get_current_user decode_bearer decode_token key_for get_key refresh_keys verify_token
    bearer starts_lower after_space fields Dict.lookup
known = refl

abbrev run : Result OrderOut × World shop_services
run = create_order_for shop_services order_settings (λ w. w) request "k-1" (world [])

abbrev paid_out : OrderOut
paid_out = record {
  id = "o-1";
  user_id = "u-1";
  status = paid;
  amount_cents = 3998;
  items = ("P001", 2) ∷ [];
  failure_reason = none;
  created_at = 5;
}

run-paid : run.0 ≡ ok paid_out
unfolding create_order_for resolve_items price_all get_price get_price_endpoint respond
    require_internal_caller contains reserve_all reserve_stock post_reserve invalidate_product find
    update charge order_out load_items clear_cart_items get_cart_items Clients.read_cart
    get_cart_endpoint get_cart read_cart items_of is_meta cart_key get_current_user decode_bearer
    decode_token key_for get_key refresh_keys verify_token bearer starts_lower after_space fields
    Dict.lookup
run-paid = refl

no_key : find key_of "k-1" (world []).orders ≡ none
unfolding find
no_key = refl

no_id : find id_of "o-1" (world []).orders ≡ none
unfolding find
no_id = refl

checkout_empties_cart_example :
    view dict_hashes run.1.cart.carts "u-1" "P001"
    ≡ (if "u-1" == "u-1" then none else view dict_hashes cart_service.carts "u-1" "P001")
checkout_empties_cart_example =
    checkout_empties_cart demo_jwt dict_hashes settings (catalog_api Demo.caches Demo.settings)
      payments order_settings request "k-1" ann (world []) run.1 "u-1" "P001" refl token-ne-nil
      day_pos refl known refl key-ne-nil no_key no_id (ap (λ r. (r, run.1)) run-paid)
