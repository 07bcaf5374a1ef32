-- ===== src/Cart/Defs.antt =====
-- app/redis_client.py, app/schemas.py and app/catalog_client.py of services/cart-service.
use Prim.Native.String.{◌++◌ as append}
use ecommerce_services.Common.{ℕ, String, Bool, ◌||◌, ◌==◌, List, [], ◌∷◌}
use ecommerce_services.Common.Hashes.{Hashes}
use ecommerce_services.Shared.{Result}
use ecommerce_services.Catalog.{PriceOut}
use ecommerce_services.Order.World.{Outcome}
use ecommerce_services.Order.Services.{CartItem}
use ecommerce_services.Order.Clients.{read_price}

-- `CartOut`; its items are `CartItemOut`, which order-service reads.
pub record CartOut : Type 0 where
  pub items : List CartItem

pub record AddItemRequest : Type 0 where
  pub product_id : String
  pub quantity : ℕ

-- `Settings`, as far as the service reads it.
pub record Settings : Type 0 where
  pub cart_ttl_seconds : ℕ
  pub cart_abandonment_threshold_seconds : ℕ
  pub internal_service_token : String

abbrev pub updated_at_field : String
updated_at_field = "_updated_at"

abbrev pub abandonment_counted_field : String
abandonment_counted_field = "_abandonment_counted"

-- `field in META_FIELDS`
unfoldable pub is_meta : String → Bool
is_meta field = field == updated_at_field || field == abandonment_counted_field

unfoldable pub cart_key : String → String
cart_key user_id = append "cart:" user_id

-- `get_price_and_stock`, from the outcome of the call on: the same lines as in order-service.
unfoldable pub get_price_and_stock : String → Outcome PriceOut → Result PriceOut
get_price_and_stock = read_price

module _ (H : Hashes) where
  -- Redis, the clock and the two counters.
  pub record Carts : Type 0 where
    pub store : H.Store
    pub now : ℕ
    pub items_added_total : ℕ
    pub abandonment_total : ℕ

  module _ (settings : Settings) where
    unfoldable pub touch_cart : String → Carts → Carts
    touch_cart key s =
        let stamped = H.hset s.now key updated_at_field s.now s.store in
        let unmarked = H.hdel s.now key (abandonment_counted_field ∷ []) stamped in
        record s { store = H.expire s.now key settings.cart_ttl_seconds unmarked }
