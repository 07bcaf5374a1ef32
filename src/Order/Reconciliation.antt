-- ===== src/Order/Reconciliation.antt =====
-- What a pass of app/reconciliation.py does to the table, the events and the counters.
use mathlib.Core.Option
use ecommerce_services.Common.{
  ℕ, String, Option, some, List, [], ◌∷◌, ◌++◌, map, keep, length, ◌≡◌, refl, ap, ◌∙◌, inl, inr,
  if◌then◌else◌, Bool-cases,
}
use ecommerce_services.Common.Table.{find, update}
use ecommerce_services.Common.Dict
use ecommerce_services.Order.Reasons.{normalize_failure_reason}
use ecommerce_services.Order.Services.{Services}
use ecommerce_services.Order.World.{World, Settings, Order, Event, order_failed, id_of, failed}
use ecommerce_services.Order.Saga.{load_items, release_all}
use ecommerce_services.Order.Checkout.{count_failed}
use ecommerce_services.Order.Frame.{Own, own, clear_cart_items-own, release_all-own}
use ecommerce_services.Order.Jobs.{is_stuck, reconcile_order, reconciliation_pass}
use ecommerce_services.Order.Sweep.{
  IsUnique, find-swept-keep, IsSteady, for_each-rows, for_each-log,
}

module _ (S : Services) (settings : Settings) where
  abbrev released : Order → World S → World S
  released o w =
      if o.stock_reserved then release_all S settings (load_items o.id w.order_items) o.id w else w

  released-own : (o : Order) (w : World S) → own S (released o w) ≡ own S w
  released-own o w = elim (Bool-cases o.stock_reserved) [
    | inl t ↦ rw t (release_all-own S settings (load_items o.id w.order_items) o.id w)
    | inr f ↦ rw f
  ]

  abbrev pub timeout_label : Option String
  timeout_label = some "RECONCILIATION_TIMEOUT"

  -- The row and the event that the reconciliation leaves of an order.
  abbrev pub expired_at : ℕ → Order → Order
  expired_at now o = record o { status = failed; failure_reason = timeout_label; updated_at = now }

  abbrev pub expired_event : Order → Event
  expired_event o = order_failed o.id o.user_id timeout_label

  abbrev pub marked : Order → Own → Own
  marked o (rows, items, events, metrics, now) = (
    update id_of o.id (λ _. expired_at now o) rows,
    items,
    events ++ expired_event o ∷ [],
    count_failed timeout_label metrics,
    now,
  )

  pub reconcile_order-own :
      (o : Order) (w : World S) → own S (reconcile_order S settings o w) ≡ marked o (own S w)
  unfolding reconcile_order normalize_failure_reason Dict.lookup
  reconcile_order-own o w =
      clear_cart_items-own S settings o.user_id _ _ ∙ ap (marked o) (released-own o w)

  -- What a pass of the reconciliation has done to the world `w`.
  unfoldable pub Reconciles : World S → ℕ × World S → Type 0
  Reconciles w (n, w') =
      let stuck : List Order = keep (is_stuck settings w.now) w.orders in
      (n ≡ length stuck)
      × ((j : String)
          → find id_of j w'.orders
            ≡ Option.map (λ o. if is_stuck settings w.now o then expired_at w.now o else o)
                (find id_of j w.orders))
      × (w'.events ≡ w.events ++ map expired_event stuck)
      × (w'.metrics.orders_failed ≡ w.metrics.orders_failed ++ map (λ _. timeout_label) stuck)

  -- Whatever becomes of the HTTP calls, a pass of the reconciliation turns every order that is PENDING
  -- and older than the timeout into FAILED with the reason RECONCILIATION_TIMEOUT and leaves every
  -- other order as it is; each of those orders, and no other, is published and counted as failed once,
  -- and the pass returns their number. The ids in the table are assumed to be unique.
  pub reconciliation_pass-Reconciles :
      (w : World S) → IsUnique w.orders → Reconciles w (reconciliation_pass S settings w)
  unfolding Reconciles reconciliation_pass
  reconciliation_pass-Reconciles w unique =
      let stuck : List Order = keep (is_stuck settings w.now) w.orders in
      let body : Order → World S → World S = reconcile_order S settings in
      let at : (o : Order) (v : World S) → own S (body o v) ≡ marked o (own S v) =
        reconcile_order-own in
      let steady : (o : Order) (v : World S)
          → IsSteady w.now w.order_items v
          → IsSteady w.now w.order_items (body o v) =
        λ o v s. (ap (λ (y : Own). y.4) (at o v) ∙ s.0, ap (λ (y : Own). y.1) (at o v) ∙ s.1) in
      (
        refl,
        λ j.
            ap (find id_of j) (
              for_each-rows w.now w.order_items body steady (expired_at w.now) (λ o. refl)
                (λ o v s.
                  ap (λ (y : Own). y.0) (at o v)
                  ∙ ap (λ t. update id_of o.id (λ _. expired_at t o) v.orders) s.0)
                stuck w (refl, refl))
            ∙ find-swept-keep (expired_at w.now) (λ o. refl) (is_stuck settings w.now) j w.orders
                unique,
        for_each-log w.now w.order_items body steady (λ v. v.events) expired_event
            (λ o v s. ap (λ (y : Own). y.2) (at o v)) stuck w (refl, refl),
        for_each-log w.now w.order_items body steady (λ v. v.metrics.orders_failed)
            (λ _. timeout_label) (λ o v s. ap (λ (y : Own). y.3.orders_failed) (at o v)) stuck w
            (refl, refl),
      )
