-- ===== src/Order/World.antt =====
-- The state of order-service and of what it reaches: its database (app/models.py), the events that it
-- has published (app/kafka_producer.py), its metrics (app/metrics.py), the other services, and the
-- fate of the HTTP calls to come.
use ecommerce_services.Common.{ℕ, String, Bool, Option, List, [], ◌∷◌}
use ecommerce_services.Shared.{Response}
use ecommerce_services.Order.Services.{Services}

-- `OrderStatus`
pub data OrderStatus : Type 0 where
  pending paid failed : OrderStatus

-- `Order`, a row of the table `orders`; times are in seconds.
pub record Order : Type 0 where
  pub id : String
  pub user_id : String
  pub status : OrderStatus
  pub amount_cents : ℕ
  pub idempotency_key : String
  pub stock_reserved : Bool
  pub failure_reason : Option String
  pub delivered : Bool
  pub created_at : ℕ
  pub updated_at : ℕ

-- `OrderItem`, a row of `order_items`, less its generated number, which nothing reads.
pub record OrderItem : Type 0 where
  pub order_id : String
  pub product_id : String
  pub quantity : ℕ

-- The columns that queries select by.
abbrev pub id_of : Order → String
id_of o = o.id

abbrev pub key_of : Order → String
key_of o = o.idempotency_key

-- A message of `publish_order_event`: its type and payload. Its key is the order's id.
pub data Event : Type 0 where
  order_created : String → String → List (String × ℕ) → ℕ → Event
  order_failed : String → String → Option String → Event
  order_paid : String → String → ℕ → ℕ → Event
  order_delivered : String → String → List String → ℕ → Event

-- The counters of app/metrics.py; the failures by their label, the amounts as observed.
pub record Metrics : Type 0 where
  pub orders_created_total : ℕ
  pub orders_paid_total : ℕ
  pub orders_failed : List (Option String)
  pub reservation_failures_total : ℕ
  pub payment_failures_total : ℕ
  pub order_amounts : List ℕ

-- What becomes of an HTTP call: it is answered, it never arrives, or the answer is lost on the way
-- back (a timeout), with the text of the exception that the client then sees.
pub data Fate : Type 0 where
  delivered : Fate
  dropped lost : String → Fate

-- `Settings`, as far as the handlers read it.
pub record Settings : Type 0 where
  pub internal_service_token : String
  pub pending_order_timeout_seconds : ℕ
  pub delivery_simulation_delay_seconds : ℕ

module _ (S : Services) where
  pub record World : Type 0 where
    pub orders : List Order
    pub order_items : List OrderItem
    pub events : List Event
    pub metrics : Metrics
    pub catalog : S.catalog.State
    pub payment : S.payment.State
    pub cart : S.cart.State
    -- The fates of the next calls; past the end of the list every call is answered.
    pub fates : List Fate
    pub request_id : String
    pub now : ℕ

-- What an HTTP client hands back: a response, or `httpx.HTTPError` with its text.
pub data Outcome (A : Type 0) : Type 0 where
  answered : Response A → Outcome A
  http_error : String → Outcome A

module _ {S : Services} {A : Type 0} where
  unfoldable pub transmit_as :
      List Fate → (World S → Response A × World S) → World S → Outcome A × World S
  transmit_as [] call w = let (r, w') = call w in (answered r, w')
  transmit_as (delivered ∷ fates) call w =
      let (r, w') = call (record w { fates = fates }) in (answered r, w')
  transmit_as (dropped exc ∷ fates) call w = (http_error exc, record w { fates = fates })
  transmit_as (lost exc ∷ fates) call w =
      let (r, w') = call (record w { fates = fates }) in (http_error exc, w')

  -- One call over the network, which takes the next fate.
  unfoldable pub transmit : (World S → Response A × World S) → World S → Outcome A × World S
  unfolding transmit_as
  transmit call w = transmit_as w.fates call w
