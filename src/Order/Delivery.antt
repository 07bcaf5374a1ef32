-- ===== src/Order/Delivery.antt =====
-- What a pass of app/delivery_simulator.py does to the table and the events.
use mathlib.Core.Option
use ecommerce_services.Common.{
  ℕ, String, true, List, [], ◌∷◌, ◌++◌, map, keep, length, ◌≡◌, refl, ap, ◌∙◌, if◌then◌else◌,
}
use ecommerce_services.Common.Table.{find, update}
use ecommerce_services.Order.Services.{Services}
use ecommerce_services.Order.World.{
  World, Settings, Order, OrderItem, Event, order_delivered, id_of,
}
use ecommerce_services.Order.Saga.{load_items}
use ecommerce_services.Order.Checkout.{product_of}
use ecommerce_services.Order.Frame.{Own, own}
use ecommerce_services.Order.Jobs.{is_due, deliver_order, delivery_pass}
use ecommerce_services.Order.Sweep.{
  IsUnique, find-swept-keep, IsSteady, for_each-rows, for_each-log,
}

module _ (S : Services) (settings : Settings) where
  -- The row and the event that the simulation leaves of an order.
  abbrev pub delivered_at : ℕ → Order → Order
  delivered_at now o = record o { delivered = true; updated_at = now }

  abbrev pub delivered_event : ℕ → List OrderItem → Order → Event
  delivered_event now items o =
      order_delivered o.id o.user_id (map product_of (load_items o.id items)) now

  abbrev pub handed : Order → Own → Own
  handed o (rows, items, events, metrics, now) = (
    update id_of o.id (λ _. delivered_at now o) rows,
    items,
    events ++ delivered_event now items o ∷ [],
    metrics,
    now,
  )

  pub deliver_order-own :
      (o : Order) (w : World S) → own S (deliver_order S settings o w) ≡ handed o (own S w)
  unfolding deliver_order
  deliver_order-own o w = refl

  -- What a pass of the simulation has done to the world `w`.
  unfoldable pub Delivers : World S → ℕ × World S → Type 0
  Delivers w (n, w') =
      let due : List Order = keep (is_due settings w.now) w.orders in
      (n ≡ length due)
      × ((j : String)
          → find id_of j w'.orders
            ≡ Option.map (λ o. if is_due settings w.now o then delivered_at w.now o else o)
                (find id_of j w.orders))
      × (w'.events ≡ w.events ++ map (delivered_event w.now w.order_items) due)

  -- A pass of the delivery simulation marks as delivered every order that is PAID, not yet delivered and
  -- has not been touched for the delay, and leaves every other order as it is. Each of those orders, and no other, is published once, with the products that it lists,
  -- and the pass returns their number. The ids in the table are assumed to be unique.
  pub delivery_pass-Delivers :
      (w : World S) → IsUnique w.orders → Delivers w (delivery_pass S settings w)
  unfolding Delivers delivery_pass
  delivery_pass-Delivers w unique =
      let due : List Order = keep (is_due settings w.now) w.orders in
      let body : Order → World S → World S = deliver_order S settings in
      let at : (o : Order) (v : World S) → own S (body o v) ≡ handed o (own S v) =
        deliver_order-own in
      let steady : (o : Order) (v : World S)
          → IsSteady w.now w.order_items v
          → IsSteady w.now w.order_items (body o v) =
        λ o v s. (ap (λ (y : Own). y.4) (at o v) ∙ s.0, ap (λ (y : Own). y.1) (at o v) ∙ s.1) in
      (
        refl,
        λ j.
            ap (find id_of j) (
              for_each-rows w.now w.order_items body steady (delivered_at w.now) (λ o. refl)
                (λ o v s.
                  ap (λ (y : Own). y.0) (at o v)
                  ∙ ap (λ t. update id_of o.id (λ _. delivered_at t o) v.orders) s.0)
                due w (refl, refl))
            ∙ find-swept-keep (delivered_at w.now) (λ o. refl) (is_due settings w.now) j w.orders
                unique,
        for_each-log w.now w.order_items body steady (λ v. v.events)
            (delivered_event w.now w.order_items)
            (λ o v s.
              ap (λ (y : Own). y.2) (at o v)
              ∙ ap (λ n. v.events ++ delivered_event n v.order_items o ∷ []) s.0
              ∙ ap (λ items. v.events ++ delivered_event w.now items o ∷ []) s.1)
            due w (refl, refl),
      )
