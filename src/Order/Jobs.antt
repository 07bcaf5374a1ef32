-- ===== src/Order/Jobs.antt =====
-- The background jobs of services/order-service: `run_pass` of app/reconciliation.py and of
-- app/delivery_simulator.py, each a query and a loop over the orders that it selects.
use ecommerce_services.Common.{
  ℕ, ◌+◌, Bool, true, false, not, ◌&&◌, ltb, some, List, [], ◌∷◌, map, keep, length, if◌then◌else◌,
}
use ecommerce_services.Order.Reasons.{normalize_failure_reason}
use ecommerce_services.Order.Services.{Services}
use ecommerce_services.Order.World.{
  OrderStatus, pending, paid, failed, Order, order_failed, order_delivered, Settings, World,
}
use ecommerce_services.Order.Clients.{clear_cart_items}
use ecommerce_services.Order.Saga.{Line, load_items, publish, save, touched, release_all}
use ecommerce_services.Order.Checkout.{counted, count_failed, product_of}

abbrev is_pending : OrderStatus → Bool
is_pending pending = true
is_pending paid = false
is_pending failed = false

abbrev is_paid : OrderStatus → Bool
is_paid pending = false
is_paid paid = true
is_paid failed = false

-- The WHERE of each query; `created_at < now - timeout` without the subtraction.
abbrev pub is_stuck : Settings → ℕ → Order → Bool
is_stuck settings now o =
    is_pending o.status && ltb (o.created_at + settings.pending_order_timeout_seconds) now

abbrev pub is_due : Settings → ℕ → Order → Bool
is_due settings now o =
    is_paid o.status
    && not o.delivered
    && ltb (o.updated_at + settings.delivery_simulation_delay_seconds) now

module _ {S : Services} where
  -- The body of a loop for each order of the result.
  unfoldable pub for_each : (Order → World S → World S) → List Order → World S → World S
  for_each body [] w = w
  for_each body (o ∷ os) w = for_each body os (body o w)

module _ (S : Services) (settings : Settings) where
  abbrev pub expired : World S → Order → Order
  expired w o = touched S w (record o {
    status = failed;
    failure_reason = some (normalize_failure_reason "reconciliation_timeout");
  })

  -- The loop of the reconciliation, for one order.
  unfoldable pub reconcile_order : Order → World S → World S
  unfolding save publish
  reconcile_order o w =
      let items : List Line = load_items o.id w.order_items in
      let w₁ : World S = if o.stock_reserved then release_all S settings items o.id w else w in
      let o' : Order = expired w₁ o in
      let w₂ : World S = counted S (count_failed o'.failure_reason) (save S o' w₁) in
      let w₃ : World S = publish S (order_failed o'.id o'.user_id o'.failure_reason) w₂ in
      clear_cart_items S settings o'.user_id (map product_of items) w₃

  unfoldable pub reconciliation_pass : World S → ℕ × World S
  unfolding reconcile_order for_each
  reconciliation_pass w =
      let stuck : List Order = keep (is_stuck settings w.now) w.orders in
      (length stuck, for_each reconcile_order stuck w)

  abbrev pub handed_over : World S → Order → Order
  handed_over w o = touched S w (record o { delivered = true })

  -- The loop of the delivery simulation, for one order.
  unfoldable pub deliver_order : Order → World S → World S
  unfolding save publish
  deliver_order o w =
      let items : List Line = load_items o.id w.order_items in
      let o' : Order = handed_over w o in
      publish S (order_delivered o'.id o'.user_id (map product_of items) w.now) (save S o' w)

  unfoldable pub delivery_pass : World S → ℕ × World S
  unfolding deliver_order for_each
  delivery_pass w =
      let due : List Order = keep (is_due settings w.now) w.orders in
      (length due, for_each deliver_order due w)
