-- ===== src/Order/Story.antt =====
-- The story of an order: the events about its id, by its row, and how each transition goes on with it.
use ecommerce_services.Common.{
  ℕ, String, Bool, true, false, Option, none, some, List, [], ◌∷◌, ◌++◌, map, ◌≡◌, refl, ◌==◌,
}
use ecommerce_services.Order.World.{
  Order, OrderStatus, pending, paid, failed, Event, order_created, order_failed, order_paid,
  order_delivered,
}
use ecommerce_services.Order.Saga.{Line}
use ecommerce_services.Order.Checkout.{product_of}
use ecommerce_services.Order.Lifecycle.{reserved_row, paid_row, failed_row, delivered_row}

abbrev pub order_of : Event → String
order_of (order_created i u lines amount) = i
order_of (order_failed i u reason) = i
order_of (order_paid i u amount at) = i
order_of (order_delivered i u products at) = i

abbrev pub is_about : String → Event → Bool
is_about j e = order_of e == j

-- The events after the creation, with the times of the payment and of the delivery.
abbrev pub outcome : OrderStatus → Bool → List Line → Order → ℕ → ℕ → List Event
outcome pending d lines o t t' = []
outcome failed d lines o t t' = order_failed o.id o.user_id o.failure_reason ∷ []
outcome paid false lines o t t' = order_paid o.id o.user_id o.amount_cents t ∷ []
outcome paid true lines o t t' =
    order_paid o.id o.user_id o.amount_cents t
    ∷ order_delivered o.id o.user_id (map product_of lines) t'
    ∷ []

abbrev pub story : List Line → Order → ℕ → ℕ → List Event
story lines o t t' =
    order_created o.id o.user_id lines o.amount_cents ∷ outcome o.status o.delivered lines o t t'

-- The lines, the row and the events of one id: there is nothing, or the events are the story of the row.
abbrev pub Tells : List Line → Option Order → List Event → Type 0
Tells lines none es = (lines ≡ []) × (es ≡ [])
Tells lines (some o) es =
    (o.status ≡ pending → o.delivered ≡ false) × ((t : ℕ) × ((t' : ℕ) × (es ≡ story lines o t t')))

module _ (o : Order) (n : ℕ) (lines : List Line) (past : List Event) where
  pub Tells-reserved :
      o.status ≡ pending → Tells lines (some o) past → Tells lines (some (reserved_row n o)) past
  Tells-reserved status (fresh, (t, (t', h))) = (fresh, (t, (t', rw (h, status))))

  pub Tells-paid :
      o.status ≡ pending
      → Tells lines (some o) past
      → Tells lines (some (paid_row n o)) (past ++ order_paid o.id o.user_id o.amount_cents n ∷ [])
  Tells-paid status (fresh, (t, (t', h))) =
      (λ _. fresh status, (n, (t', rw (h, status, fresh status))))

  pub Tells-failed :
      (reason : Option String)
      → o.status ≡ pending
      → Tells lines (some o) past
      → Tells lines (some (failed_row n reason o)) (past ++ order_failed o.id o.user_id reason ∷ [])
  Tells-failed reason status (fresh, (t, (t', h))) = (λ _. fresh status, (t, (t', rw (h, status))))

  pub Tells-delivered :
      o.status ≡ paid
      → o.delivered ≡ false
      → Tells lines (some o) past
      → Tells lines
          (some (delivered_row n o))
          (past ++ order_delivered o.id o.user_id (map product_of lines) n ∷ [])
  Tells-delivered status undelivered (fresh, (t, (t', h))) =
      (λ clash. absurd (cc), (t, (n, rw (h, status, undelivered))))

pub Tells-placed :
    (o : Order) (lines : List Line)
    → o.status ≡ pending
    → o.delivered ≡ false
    → Tells lines (some o) (order_created o.id o.user_id lines o.amount_cents ∷ [])
Tells-placed o lines status undelivered = (λ _. undelivered, (0, (0, rw status refl)))
