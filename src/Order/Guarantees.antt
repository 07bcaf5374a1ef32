-- ===== src/Order/Guarantees.antt =====
-- What order-service keeps to, whatever it does: what is published tells the table, and no order is lost.
use ecommerce_services.Common.{String, ◌≡◌, some, [], refl, sym, subst}
use ecommerce_services.Common.Table.{find}
use ecommerce_services.Order.Saga.{load_items}
use ecommerce_services.Order.Services.{Services}
use ecommerce_services.Order.World.{World, Settings, Order, id_of}
use ecommerce_services.Order.Sweep.{IsUnique}
use ecommerce_services.Order.Frame.{own}
use ecommerce_services.Order.Lifecycle.{db_of}
use ecommerce_services.Order.Acts.{Acts, perform_all}
use ecommerce_services.Order.Refinement.{perform_all-Runs}
use ecommerce_services.Order.History.{IsToldOf, Runs-IsTold}
use ecommerce_services.Order.Final.{IsKept, Runs-IsKept}

module _ (S : Services) (settings : Settings) where
  -- From a database without orders, items and events, over any sequence of requests, jobs and pauses,
  -- where anything of that may also happen between the pricing and the insertion of a request, and
  -- whatever becomes of the HTTP calls: the events about an id are none if it has no row, and else
  -- they are, in this order and each once, order_created with the row's user, amount and items; then
  -- nothing if the row is PENDING, order_failed with its user and reason if it is FAILED, order_paid with
  -- its user and amount if it is PAID; and last, if it is delivered, order_delivered with its user and
  -- the products of its items. A PENDING row is not delivered.
  pub perform_all-IsToldOf :
      (acts : Acts) (w : World S)
      → w.orders ≡ []
      → w.order_items ≡ []
      → w.events ≡ []
      → (j : String) → IsToldOf j (db_of (own S (perform_all S settings acts w)))
  unfolding find load_items
  perform_all-IsToldOf acts w no_orders no_items no_events =
      Runs-IsTold (perform_all-Runs S settings acts w (subst IsUnique (sym no_orders) tt))
        (λ j. rw (no_orders, no_items, no_events) (refl, refl))

  -- An order that is in the table stays there, over any sequence of requests, jobs and pauses, where
  -- anything of that may also happen between the pricing and the insertion of a request, and whatever
  -- becomes of the HTTP calls: its user, amount, key and time of creation never change, once it is PAID
  -- or FAILED its status and failure reason never change, and a reservation or a delivery that is
  -- recorded is never taken back. The ids in the table are assumed to be unique at first.
  pub perform_all-IsKept :
      (acts : Acts) (w : World S)
      → IsUnique w.orders
      → (j : String) {o : Order} → find id_of j w.orders ≡ some o
      → IsKept j o (perform_all S settings acts w).orders
  perform_all-IsKept acts w unique j found =
      Runs-IsKept j (perform_all-Runs S settings acts w unique) found
