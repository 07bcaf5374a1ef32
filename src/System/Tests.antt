-- ===== src/System/Tests.antt =====
-- Runs of the checkout saga against the catalog's own endpoints, and the theorems at those inputs.
use ecommerce_services.Common.{none, some, List, [], ◌∷◌, ◌≡◌, refl, ap, true}
use ecommerce_services.Shared.{ok, respond, Result}
use ecommerce_services.Shared.InternalAuth.{require_internal_caller}
use ecommerce_services.Common.Dict.{contains}
use ecommerce_services.Catalog.{get_price_endpoint, post_reserve, invalidate_product}
use ecommerce_services.Order.World.{World, Order, dropped, paid, lost}
use ecommerce_services.Order.Saga.{
  Line, OrderOut, CreateOrder, resolve_items, price_all, reserve_all, order_out, load_items,
}
use ecommerce_services.Order.Clients.{get_price, reserve_stock, charge, clear_cart_items}
use ecommerce_services.Common.Table.{find, update}
use ecommerce_services.Order.Checkout.{run_saga, create_order}
use ecommerce_services.Order.Conservation.{Settles, run_saga-conserves_stock}
use ecommerce_services.Order.Outcomes.{IsStored, Completes, run_saga-Completes}
use ecommerce_services.Order.Stock.{stock_in}
use ecommerce_services.Order.Jobs.{reconciliation_pass, delivery_pass}
use ecommerce_services.Order.Sweep.{IsUnique}
use ecommerce_services.Order.Reconciliation.{Reconciles, reconciliation_pass-Reconciles}
use ecommerce_services.Order.Delivery.{Delivers, delivery_pass-Delivers}
use ecommerce_services.Order.Queries.{get_order, Answers, get_order-Answers}
use ecommerce_services.Order.Idempotency.{create_order-retry}
use ecommerce_services.System.Demo.{services, order_1, world, order_settings}

abbrev lines : List Line
lines = ("P001", 2) ∷ ("P002", 1) ∷ []

abbrev too_many : List Line
too_many = ("P002", 1) ∷ ("P001", 3) ∷ []

run_saga-conserves_stock_example :
    Settles services order_settings too_many
      (stock_in services order_settings (world [] []))
      (run_saga services order_settings order_1 too_many (world [] []))
run_saga-conserves_stock_example =
    run_saga-conserves_stock services order_settings order_1 too_many (world [] []) refl

order_1-IsStored :
    IsStored services order_settings order_1 (world (order_1 ∷ []) (dropped "timeout" ∷ []))
unfolding find
order_1-IsStored = (order_1, refl, refl)

-- The first reservation never reaches the catalog.
run_saga-Completes_example :
    Completes services order_settings order_1 (world (order_1 ∷ []) (dropped "timeout" ∷ [])) (
      run_saga services order_settings order_1 lines
        (world (order_1 ∷ []) (dropped "timeout" ∷ [])))
run_saga-Completes_example =
    run_saga-Completes services order_settings order_1 lines
      (world (order_1 ∷ []) (dropped "timeout" ∷ [])) order_1-IsStored

abbrev pub request : CreateOrder
request = record {
  items = some (("P001", 1) ∷ []);
  user_id = "u-1";
  idempotency_key = some "k-1";
  authorization = "Bearer t";
  new_id = "o-1";
}

abbrev retried : CreateOrder
retried = record request { items = none; new_id = "o-2" }

abbrev first_run : Result OrderOut × World services
first_run = create_order services order_settings (λ w. w) request (world [] [])

abbrev paid_out : OrderOut
paid_out = record {
  id = "o-1";
  user_id = "u-1";
  status = paid;
  amount_cents = 1999;
  items = ("P001", 1) ∷ [];
  failure_reason = none;
  created_at = 5;
}

first_run-paid : first_run.0 ≡ ok paid_out
unfolding create_order resolve_items price_all get_price get_price_endpoint respond
    require_internal_caller contains reserve_all reserve_stock post_reserve invalidate_product find
    update charge order_out load_items clear_cart_items
first_run-paid = refl

create_order-retry_example :
    create_order services order_settings (λ w. w) retried first_run.1 ≡ (ok paid_out, first_run.1)
create_order-retry_example =
    create_order-retry services order_settings (λ w. w) (λ w. w) request retried "k-1" paid_out
      (world [] []) first_run.1 refl refl (ap (λ r. (r, first_run.1)) first_run-paid)

-- An order that was left PENDING with its stock reserved, and one that has been paid.
abbrev stuck_order : Order
stuck_order = record order_1 { id = "o-3"; idempotency_key = "k-3"; stock_reserved = true }

abbrev paid_order : Order
paid_order = record order_1 { id = "o-4"; idempotency_key = "k-4"; status = paid }

abbrev old_orders : World services
old_orders = record (world (stuck_order ∷ paid_order ∷ []) (lost "timeout" ∷ [])) {
  order_items =
      record { order_id = "o-3"; product_id = "P001"; quantity = 1 }
      ∷ record { order_id = "o-4"; product_id = "P002"; quantity = 1 }
      ∷ [];
  now = 1000;
}

old_orders-IsUnique : IsUnique old_orders.orders
unfolding find
old_orders-IsUnique = (refl, (refl, tt))

reconciliation_pass-Reconciles_example :
    Reconciles services order_settings old_orders
      (reconciliation_pass services order_settings old_orders)
reconciliation_pass-Reconciles_example =
    reconciliation_pass-Reconciles services order_settings old_orders old_orders-IsUnique

delivery_pass-Delivers_example :
    Delivers services order_settings old_orders (delivery_pass services order_settings old_orders)
delivery_pass-Delivers_example =
    delivery_pass-Delivers services order_settings old_orders old_orders-IsUnique

-- Another user asks for the paid order.
get_order-Answers_example :
    Answers services "o-4" "u-2" old_orders (get_order services "o-4" "u-2" old_orders)
get_order-Answers_example = get_order-Answers services "o-4" "u-2" old_orders
