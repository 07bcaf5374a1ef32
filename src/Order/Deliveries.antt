-- ===== src/Order/Deliveries.antt =====
-- What an announced delivery says about the tables of order-service.
use ecommerce_services.Common.{
  ℕ, String, Bool, true, false, Option, none, some, List, [], ◌∷◌, map, keep, All, ◌≡◌, refl, sym,
  ap, subst, ◌∙◌, inl, inr, eq_refl, Bool-cases,
}
use ecommerce_services.Common.Table.{find, column-find}
use ecommerce_services.Order.World.{
  Order, OrderStatus, pending, paid, failed, Event, order_created, order_failed, order_paid,
  order_delivered, id_of,
}
use ecommerce_services.Order.Saga.{load_items}
use ecommerce_services.Order.Checkout.{product_of}
use ecommerce_services.Order.Lifecycle.{Db}
use ecommerce_services.Order.Story.{is_about, order_of, outcome, story, Tells}
use ecommerce_services.Order.History.{IsTold}

-- The order of the event is PAID and delivered, to the user and with the products that the event names.
abbrev pub IsDelivery : Db → String → String → List String → Type 0
IsDelivery s i u products =
    (o : Order) × (find id_of i s.orders ≡ some o)
    × (o.status ≡ paid)
    × (o.delivered ≡ true)
    × (o.user_id ≡ u)
    × (map product_of (load_items i s.items) ≡ products)

abbrev pub IsBacked : Db → Event → Type 0
IsBacked s (order_created i u lines amount) = Unit
IsBacked s (order_failed i u reason) = Unit
IsBacked s (order_paid i u amount at) = Unit
IsBacked s (order_delivered i u products at) = IsDelivery s i u products

outcome-IsBacked :
    (s : Db) (o : Order) (t t' : ℕ) (status : OrderStatus) (d : Bool)
    → find id_of o.id s.orders ≡ some o
    → o.status ≡ status
    → o.delivered ≡ d
    → All (IsBacked s) (outcome status d (load_items o.id s.items) o t t')
outcome-IsBacked s o t t' pending d found status delivered = tt
outcome-IsBacked s o t t' failed d found status delivered = (tt, tt)
outcome-IsBacked s o t t' paid false found status delivered = (tt, tt)
outcome-IsBacked s o t t' paid true found status delivered =
    (tt, ((o, found, status, delivered, refl, refl), tt))

Tells-IsBacked :
    (s : Db) (j : String) (row : Option Order) (es : List Event)
    → find id_of j s.orders ≡ row
    → Tells (load_items j s.items) row es
    → All (IsBacked s) es
Tells-IsBacked s j none es found (no_lines, no_events) = rw no_events tt
Tells-IsBacked s j (some o) es found (fresh, (t, (t', h))) =
    let same : j ≡ o.id = sym (column-find id_of j s.orders found) in
    subst (λ fs. All (IsBacked s) fs) (sym (h ∙ ap (λ k. story (load_items k s.items) o t t') same))
      (
        tt,
        outcome-IsBacked s o t t' o.status o.delivered
            (ap (λ k. find id_of k s.orders) (sym same) ∙ found) refl refl,
      )

keep-hit :
    (j : String) (e : Event) (es : List Event)
    → is_about j e ≡ true
    → keep (is_about j) (e ∷ es) ≡ e ∷ keep (is_about j) es
keep-hit j e es t = rw (t, keep)

-- What holds of the events about each order holds of all events.
All-about :
    (P : Event → Type 0) (es : List Event)
    → ((j : String) → All P (keep (is_about j) es))
    → All P es
All-about P [] h = tt
All-about P (e ∷ es) h = (
  (subst (All P) (keep-hit (order_of e) e es (eq_refl (order_of e))) (h (order_of e))).0,
  All-about P es (λ j. elim (Bool-cases (is_about j e)) [
    | inl t ↦ (subst (All P) (keep-hit j e es t) (h j)).1
    | inr f ↦
        let rest : keep (is_about j) (e ∷ es) ≡ keep (is_about j) es = rw (f, keep) in
        subst (All P) rest (h j)
  ]),
)

pub events-IsBacked : (s : Db) → IsTold s → All (IsBacked s) s.events
events-IsBacked s told =
    All-about (IsBacked s) s.events
      (λ j. Tells-IsBacked s j (find id_of j s.orders) _ refl (told j))
