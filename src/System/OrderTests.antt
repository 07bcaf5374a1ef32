-- ===== src/System/OrderTests.antt =====
-- Runs of order-service as a whole, and of the two consumers on what it publishes.
use mathlib.Core.List.Memᴰ.{head, tail}
use ecommerce_services.Common.{
  none, some, List, [], ◌∷◌, ◌≡◌, map, length, keep, String, refl, sym, subst, All, ℕ, ◌+◌, ◌*◌,
  ◌≤◌, arith, ◌==◌, Bool, true, false, if◌then◌else◌,
}
use ecommerce_services.Common.Dict.{contains}
use ecommerce_services.Common.Str.{str}
use ecommerce_services.Common.Table.{find, update}
use ecommerce_services.Shared.{respond}
use ecommerce_services.Shared.InternalAuth.{require_internal_caller}
use ecommerce_services.Catalog.{get_price_endpoint, post_reserve, invalidate_product}
use ecommerce_services.Events.{advances}
use ecommerce_services.Events.Progress.{started}
use ecommerce_services.Events.Notifications.{json, handle_event}
use ecommerce_services.System.Notified.{texts, due, notifications_tell_orders}
use ecommerce_services.Order.World.{
  World, Order, id_of, Event, order_created, order_paid, order_delivered, paid,
}
use ecommerce_services.Order.Saga.{resolve_items, price_all, reserve_all, order_out, load_items}
use ecommerce_services.Order.Clients.{get_price, reserve_stock, charge, clear_cart_items}
use ecommerce_services.Order.Checkout.{create_order}
use ecommerce_services.Order.Jobs.{delivery_pass}
use ecommerce_services.Order.Frame.{own}
use ecommerce_services.Order.Sweep.{IsUnique}
use ecommerce_services.Order.Lifecycle.{Runs, db_of}
use ecommerce_services.Order.Acts.{
  Acts, post, reconcile, deliver, wait, done, and_then, perform_all,
}
use ecommerce_services.Order.Refinement.{perform_all-Runs}
use ecommerce_services.Order.Story.{is_about, Tells}
use ecommerce_services.Order.History.{IsToldOf, IsTold}
use ecommerce_services.Order.Final.{IsKept}
use ecommerce_services.Order.Guarantees.{perform_all-IsToldOf, perform_all-IsKept}
use ecommerce_services.Order.Deliveries.{IsDelivery}
use ecommerce_services.Review.OneReview.{Act, receive, post as review, run, no_documents}
use ecommerce_services.Review.Bought.{IsCovered}
use ecommerce_services.System.Purchases.{after, IsFrom, reviews-IsCovered_by_purchases}
use ecommerce_services.System.Demo.{services, order_1, world, order_settings}
use ecommerce_services.System.Tests.{request}

-- Two requests with one new id, one of them between the pricing and the insertion of the other, and a
-- pass of each job.
abbrev acts : Acts
acts =
    and_then
      (post request (and_then (post (record request { idempotency_key = some "k-2" }) done) done))
      (and_then (wait 1000) (and_then reconcile (and_then deliver done)))

perform_all-Runs_example :
    Runs
      (db_of (own services (world [] [])))
      (db_of (own services (perform_all services order_settings acts (world [] []))))
perform_all-Runs_example = perform_all-Runs services order_settings acts (world [] []) tt

perform_all-IsToldOf_example :
    IsToldOf "o-1" (db_of (own services (perform_all services order_settings acts (world [] []))))
perform_all-IsToldOf_example =
    perform_all-IsToldOf services order_settings acts (world [] []) refl refl refl "o-1"

-- An order that has been paid, before the acts.
abbrev settled : Order
settled = record order_1 { id = "o-4"; idempotency_key = "k-4"; status = paid }

settled-found : find (λ (o : Order). o.id) "o-4" (settled ∷ []) ≡ some settled
unfolding find
settled-found = refl

settled-IsUnique : IsUnique (settled ∷ [])
unfolding find
settled-IsUnique = (refl, tt)

perform_all-IsKept_example :
    IsKept "o-4" settled (perform_all services order_settings acts (world (settled ∷ []) [])).orders
perform_all-IsKept_example =
    perform_all-IsKept services order_settings acts (world (settled ∷ []) []) settled-IsUnique "o-4"
      settled-found

-- A checkout that is delivered, and reviewed after its delivery has been announced twice.
abbrev purchase : Acts
purchase = and_then (post request done) (and_then (wait 1000) (and_then deliver done))

abbrev announced : List Event
announced =
    order_created "o-1" "u-1" (("P001", 1) ∷ []) 1999
    ∷ order_paid "o-1" "u-1" 1999 5
    ∷ order_delivered "o-1" "u-1" ("P001" ∷ []) 1005
    ∷ []

purchase-announced : (after services order_settings purchase (world [] [])).events ≡ announced
unfolding perform_all create_order delivery_pass resolve_items price_all get_price
    get_price_endpoint respond require_internal_caller contains reserve_all reserve_stock
    post_reserve invalidate_product find update charge order_out load_items clear_cart_items
purchase-announced = refl

abbrev reviewing : List Act
reviewing =
    receive (json (order_delivered "o-1" "u-1" ("P001" ∷ []) 1005))
    ∷ receive (json (order_delivered "o-1" "u-1" ("P001" ∷ []) 1005))
    ∷ review (record { product_id = "P001"; order_id = none; rating = 5; comment = "Good" }) "u-1"
        "r-1" 1010
    ∷ []

reviewing-IsFrom :
    All (IsFrom (after services order_settings purchase (world [] [])).events) reviewing
reviewing-IsFrom =
    subst (λ es. All (IsFrom es) reviewing) (sym purchase-announced)
      (tail (tail (head refl)), (tail (tail (head refl)), (tt, tt)))

reviews-IsCovered_by_purchases_example :
    All
      (IsCovered (IsDelivery (after services order_settings purchase (world [] []))))
      (run reviewing no_documents).reviews
reviews-IsCovered_by_purchases_example =
    reviews-IsCovered_by_purchases services order_settings purchase (world [] []) reviewing refl
      refl refl reviewing-IsFrom

-- A crash has left an order PENDING; the reconciliation takes it up, and then there is another request.
abbrev crashed : World services
crashed = record (world (order_1 ∷ []) []) { events = order_created "o-1" "u-1" [] 3998 ∷ [] }

abbrev recovery : Acts
recovery = and_then (wait 1000) (and_then reconcile (and_then (post request done) done))

crashed-IsUnique : IsUnique (order_1 ∷ [])
unfolding find
crashed-IsUnique = (refl, tt)

crashed-Tells :
    (b : Bool)
    → Tells []
        (if b then some order_1 else none)
        (elim b [ false ↦ [] | true ↦ order_created "o-1" "u-1" [] 3998 ∷ [] ])
crashed-Tells true = (λ _. refl, (0, (0, refl)))
crashed-Tells false = (refl, refl)

crashed-IsTold : IsTold (db_of (own services crashed))
unfolding find load_items
crashed-IsTold j = crashed-Tells ("o-1" == j)

notifications_tell_orders_example :
    let v = perform_all services order_settings recovery crashed in
    ((n : ℕ) × (n ≤ length v.events * (3 * 3 + 1))
      × (let (point, c) = advances 3 handle_event (map json v.events) n (started []) in
          (c.committed ≡ length v.events) × (c.kept ≡ texts v.events) × (c.dlq ≡ [])))
    × ((j : String) → texts (keep (is_about j) v.events) ≡ due (find id_of j v.orders))
notifications_tell_orders_example =
    notifications_tell_orders services order_settings recovery crashed 3 (omega arith)
      crashed-IsUnique crashed-IsTold

-- What the buyer of the purchase is told.
purchase-texts : texts announced ≡ "Order o-1 received" ∷ "Order o-1 paid — 1999" ∷ []
unfolding str
purchase-texts = refl
