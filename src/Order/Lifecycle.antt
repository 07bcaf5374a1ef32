-- ===== src/Order/Lifecycle.antt =====
-- The database of order-service as a state machine: what may happen to an order, with the events that
-- are published. This is the specification of app/routers/orders.py, app/reconciliation.py and
-- app/delivery_simulator.py, apart from the calls to other services.
use ecommerce_services.Common.{
  ℕ, ◌+◌, String, true, false, Option, none, some, List, [], ◌∷◌, ◌++◌, map, ◌≡◌, refl, ◌∙◌,
  eq_refl,
}
use ecommerce_services.Common.Table.{find, update}
use ecommerce_services.Order.World.{
  Order, OrderItem, Event, order_created, order_failed, order_paid, order_delivered, pending, paid,
  failed, id_of,
}
use ecommerce_services.Order.Saga.{Line, item_row, load_items}
use ecommerce_services.Order.Checkout.{product_of}
use ecommerce_services.Order.Frame.{Own}
use ecommerce_services.Order.Sweep.{find-set}

-- The two tables, the published events and the clock.
pub record Db : Type 0 where
  pub orders : List Order
  pub items : List OrderItem
  pub events : List Event
  pub now : ℕ

abbrev pub db_of : Own → Db
db_of (rows, items, events, metrics, now) = record {
  orders = rows;
  items = items;
  events = events;
  now = now;
}

abbrev pub set_row : Order → List Order → List Order
set_row o rows = update id_of o.id (λ _. o) rows

-- The rows that the transitions write.
abbrev pub reserved_row : ℕ → Order → Order
reserved_row now o = record o { stock_reserved = true; updated_at = now }

abbrev pub paid_row : ℕ → Order → Order
paid_row now o = record o { status = paid; updated_at = now }

abbrev pub failed_row : ℕ → Option String → Order → Order
failed_row now reason o = record o { status = failed; failure_reason = reason; updated_at = now }

abbrev pub delivered_row : ℕ → Order → Order
delivered_row now o = record o { delivered = true; updated_at = now }

pub data Step : Db → Db → Type 0 where
  -- A new order is PENDING.
  place :
      (s : Db) (o : Order) (lines : List Line)
      → find id_of o.id s.orders ≡ none
      → o.status ≡ pending
      → o.delivered ≡ false
      → Step s (record s {
        orders = s.orders ++ o ∷ [];
        items = s.items ++ map (item_row o.id) lines;
        events = s.events ++ order_created o.id o.user_id lines o.amount_cents ∷ [];
      })
  -- The stock of a PENDING order is reserved.
  reserve :
      (s : Db) (o : Order)
      → find id_of o.id s.orders ≡ some o
      → o.status ≡ pending
      → Step s (record s { orders = set_row (reserved_row s.now o) s.orders })
  -- A PENDING order whose stock is reserved is PAID.
  pay :
      (s : Db) (o : Order)
      → find id_of o.id s.orders ≡ some o
      → o.status ≡ pending
      → o.stock_reserved ≡ true
      → Step s (record s {
        orders = set_row (paid_row s.now o) s.orders;
        events = s.events ++ order_paid o.id o.user_id o.amount_cents s.now ∷ [];
      })
  -- A PENDING order is FAILED.
  fail :
      (s : Db) (o : Order) (reason : Option String)
      → find id_of o.id s.orders ≡ some o
      → o.status ≡ pending
      → Step s (record s {
        orders = set_row (failed_row s.now reason o) s.orders;
        events = s.events ++ order_failed o.id o.user_id reason ∷ [];
      })
  -- A PAID order is delivered, once.
  deliver :
      (s : Db) (o : Order)
      → find id_of o.id s.orders ≡ some o
      → o.status ≡ paid
      → o.delivered ≡ false
      → Step s (record s {
        orders = set_row (delivered_row s.now o) s.orders;
        events =
            s.events
            ++ order_delivered o.id o.user_id (map product_of (load_items o.id s.items)) s.now ∷ [];
      })
  wait : (s : Db) (d : ℕ) → Step s (record s { now = s.now + d })

pub data Runs (s : Db) : Db → Type 0 where
  here : Runs s s
  next : {t u : Db} → Runs s t → Step t u → Runs s u

-- The row that has been set is found by its id.
pub find-set_row :
    (x : Order) (rows : List Order) {o : Order}
    → find id_of x.id rows ≡ some o
    → find id_of x.id (set_row x rows) ≡ some x
find-set_row x rows {o} h = find-set x.id x.id x rows refl ∙ rw (eq_refl x.id, h)
