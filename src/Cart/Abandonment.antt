-- ===== src/Cart/Abandonment.antt =====
-- app/abandonment.py of services/cart-service: `run_pass`.
use ecommerce_services.Common.{ℕ, ◌+◌, String, Bool, true, false, not, ◌&&◌, List, [], ◌∷◌, leb}
use ecommerce_services.Common.Dict
use ecommerce_services.Common.Dict.{Dict}
use ecommerce_services.Common.Redis.{is_some}
use ecommerce_services.Common.Hashes.{Hashes}
use ecommerce_services.Cart.Defs.{Settings, Carts, updated_at_field, abandonment_counted_field}
use ecommerce_services.Cart.Items.{has_items, or_zero}

-- The four tests of the loop: a cart with items that is not counted yet and whose last write is
-- `threshold` old. An empty hash has no items.
unfoldable pub is_abandoned : ℕ → ℕ → Dict ℕ → Bool
unfolding has_items Dict.lookup
is_abandoned threshold now cart =
    not (is_some (Dict.lookup abandonment_counted_field cart))
    && has_items cart
    && leb (or_zero (Dict.lookup updated_at_field cart) + threshold) now

module _ (H : Hashes) (settings : Settings) where
  -- The loop over the keys of the scan, with the number counted so far.
  unfoldable pub count_abandoned : List String → ℕ → Carts H → ℕ × Carts H
  unfolding is_abandoned
  count_abandoned [] counted s = (counted, s)
  count_abandoned (key ∷ keys) counted s =
      elim (is_abandoned settings.cart_abandonment_threshold_seconds s.now
        (H.hgetall s.now key s.store)) [
          | false ↦ count_abandoned keys counted s
          | true ↦ count_abandoned keys (counted + 1) (record s {
            store = H.hset s.now key abandonment_counted_field 1 s.store;
            abandonment_total = s.abandonment_total + 1;
          })
        ]

  -- The pattern `cart:*` of the scan leaves out no key: the service writes no others.
  unfoldable pub abandonment_pass : Carts H → ℕ × Carts H
  unfolding count_abandoned
  abandonment_pass s = count_abandoned (H.scan s.now s.store) 0 s
