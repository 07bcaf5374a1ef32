-- ===== src/Cart/Items.antt =====
-- app/routers/cart.py of services/cart-service.
use ecommerce_services.Common.{
  ℕ, ◌+◌, String, Bool, false, not, ◌||◌, Option, none, some, List, [], ◌∷◌, ltb, if◌then◌else◌,
}
use ecommerce_services.Common.Int.{pos, ltb_ℤ}
use ecommerce_services.Common.Dict
use ecommerce_services.Common.Dict.{Dict}
use ecommerce_services.Common.Redis.{is_some}
use ecommerce_services.Common.Hashes.{Hashes}
use ecommerce_services.Shared.{
  AppError, app_error, ok, err, Action, Response, respond, lift, raise_if, ◌>>=◌, ◌>>◌,
}
use ecommerce_services.Shared.InternalAuth.{require_internal_caller}
use ecommerce_services.Catalog.{PriceOut, insufficient_stock, invalid_quantity}
use ecommerce_services.Order.World.{Outcome}
use ecommerce_services.Order.Services.{CartItem}
use ecommerce_services.Cart.Defs.{
  CartOut, AddItemRequest, Settings, Carts, is_meta, cart_key, touch_cart, get_price_and_stock,
}

abbrev pub empty_cart : AppError
empty_cart = app_error "EMPTY_CART" "Cart is empty, nothing to check out" 400

-- The comprehension of `_read_cart`.
unfoldable pub items_of : Dict ℕ → List CartItem
items_of [] = []
items_of ((pid, qty) ∷ raw) =
    let rest = items_of raw in
    if is_meta pid then rest else record { product_id = pid; quantity = qty } ∷ rest

-- `any(f not in META_FIELDS for f in hash)`
unfoldable pub has_items : Dict ℕ → Bool
has_items [] = false
has_items ((field, v) ∷ hash) = not (is_meta field) || has_items hash

-- `int(value or 0)`
abbrev pub or_zero : Option ℕ → ℕ
or_zero none = 0
or_zero (some n) = n

-- The ids that a HMGET found.
unfoldable pub present_of : List String → Dict ℕ → List String
present_of [] hash = []
present_of (pid ∷ pids) hash =
    let rest = present_of pids hash in if is_some (Dict.lookup pid hash) then pid ∷ rest else rest

module _ (H : Hashes) where
  unfoldable pub read_cart : String → Carts H → CartOut
  unfolding items_of
  read_cart user_id s = record { items = items_of (H.hgetall s.now (cart_key user_id) s.store) }

  unfoldable pub get_cart : String → Action (Carts H) CartOut
  unfolding read_cart
  get_cart user_id s = (ok (read_cart user_id s), s)

  unfoldable pub checkout_intent : String → Action (Carts H) CartOut
  unfolding read_cart
  checkout_intent user_id s =
      let cart = read_cart user_id s in
      (elim cart.items [ [] ↦ err empty_cart | i ∷ is ↦ ok cart ], s)

  module _ (settings : Settings) where
    -- `add_item` once the product is known.
    unfoldable pub add_product : AddItemRequest → String → PriceOut → Action (Carts H) CartOut
    unfolding touch_cart
    add_product body user_id product s =
        let key = cart_key user_id in
        let current_qty = or_zero (Dict.lookup body.product_id (H.hgetall s.now key s.store)) in
        let new_qty = current_qty + body.quantity in
        if ltb_ℤ product.stock (pos new_qty)
        then (err insufficient_stock, s)
        else let set : Carts H = record s {
          store = H.hset s.now key body.product_id new_qty s.store;
        } in
          let touched : Carts H = touch_cart H settings key set in
          let s' : Carts H = record touched { items_added_total = touched.items_added_total + 1 } in
          (ok (read_cart user_id s'), s')

    -- `add_item`, with the validation of its body; `outcome` is that of the call to the catalog.
    unfoldable pub add_item : AddItemRequest → String → Outcome PriceOut → Action (Carts H) CartOut
    unfolding add_product
    add_item body user_id outcome = do
      raise_if (not (ltb 0 body.quantity)) invalid_quantity
      product ← lift (get_price_and_stock body.product_id outcome)
      add_product body user_id product

    unfoldable pub remove_item : String → String → Carts H → Carts H
    unfolding touch_cart
    remove_item product_id user_id s =
        let key = cart_key user_id in
        let s' : Carts H = record s { store = H.hdel s.now key (product_id ∷ []) s.store } in
        if has_items (H.hgetall s.now key s'.store) then touch_cart H settings key s' else s'

    -- `batch_remove_items` once HMGET has answered; an empty list is deleted from nothing.
    unfoldable pub remove_present : String → List String → Carts H → List String × Carts H
    unfolding touch_cart
    remove_present key [] s = ([], s)
    remove_present key (p ∷ ps) s =
        (p ∷ ps, touch_cart H settings key (record s { store = H.hdel s.now key (p ∷ ps) s.store }))

    unfoldable pub batch_remove_items : String → List String → Carts H → List String × Carts H
    unfolding remove_present
    batch_remove_items x_user_id product_ids s =
        let key = cart_key x_user_id in
        remove_present key (present_of product_ids (H.hgetall s.now key s.store)) s

    -- DELETE /cart/items:batch, with the dependency `require_order_service`.
    unfoldable pub delete_batch :
        String → String → String → String → List String → Carts H → Response (List String) × Carts H
    unfolding batch_remove_items
    delete_batch request_id x_internal_token x_internal_caller x_user_id product_ids s =
        let (r, s') =
          (do
            lift (
                require_internal_caller settings.internal_service_token ("order-service" ∷ [])
                  x_internal_token x_internal_caller)
            λ t. let (removed, t') = batch_remove_items x_user_id product_ids t in (ok removed, t'))
            s in
        (respond request_id 200 r, s')
