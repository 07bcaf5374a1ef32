-- ===== src/Order/Outcomes.antt =====
-- Every saga ends: its order is PAID or FAILED in the table, whatever becomes of the HTTP calls.
use ecommerce_services.Common.{
  String, true, Option, none, some, List, [], ◌∷◌, ◌++◌, map, ◌≡◌, refl, sym, ap, ◌∙◌, ◌⊎◌, inl,
  inr,
}
use ecommerce_services.Common.Table.{find, find-replaced, column-find}
use ecommerce_services.Order.Reasons.{normalize_failure_reason}
use ecommerce_services.Order.Services.{Services}
use ecommerce_services.Order.World.{
  World, Settings, paid, failed, Order, id_of, key_of, order_paid, order_failed, Metrics,
}
use ecommerce_services.Order.Clients.{Charge, charged, not_charged, charge}
use ecommerce_services.Order.Saga.{
  Line, OrderOut, order_out, publish, save, touched, reserve_all, release_all,
}
use ecommerce_services.Order.Checkout.{
  fail_order, pay_order, settle, charge_order, reserve_or_fail, run_saga, count_payment_failure,
  count_reservation_failure, product_of, counted, count_failed, count_paid,
}
use ecommerce_services.Order.Frame.{
  Own, own, clear_cart_items-own, charge-own, release_all-own, reserve_all-own,
}

module _ (S : Services) (settings : Settings) where
  -- The order's row is found by its id and by its key.
  abbrev pub IsStored : Order → World S → Type 0
  IsStored o w =
      (x : Order) × (find id_of o.id w.orders ≡ some x)
      × (find key_of o.idempotency_key w.orders ≡ some x)

  -- How an order has ended: its row, and what was published and counted since `w`.
  abbrev pub Ended : Order → World S → Order → World S → Type 0
  Ended o w o' w' =
      ((o'.status ≡ paid)
        × (o'.stock_reserved ≡ true)
        × (w'.events ≡ w.events ++ order_paid o.id o.user_id o.amount_cents w.now ∷ [])
        × (w'.metrics.orders_failed ≡ w.metrics.orders_failed))
      ⊎ ((label : String) × (o'.status ≡ failed)
          × (o'.failure_reason ≡ some label)
          × (w'.events ≡ w.events ++ order_failed o.id o.user_id (some label) ∷ [])
          × (w'.metrics.orders_failed ≡ w.metrics.orders_failed ++ some label ∷ []))

  abbrev pub Finished : Order → World S → OrderOut × World S → Type 0
  Finished o w (out, w') =
      (o' : Order) × (find id_of o.id w'.orders ≡ some o')
      × (find key_of o.idempotency_key w'.orders ≡ some o')
      × (out ≡ order_out S o' w')
      × Ended o w o' w'

  save-IsStored :
      (o o' : Order) (w : World S)
      → o'.id ≡ o.id
      → o'.idempotency_key ≡ o.idempotency_key
      → IsStored o w
      → (find id_of o.id (save S o' w).orders ≡ some o')
        × (find key_of o.idempotency_key (save S o' w).orders ≡ some o')
  unfolding save
  save-IsStored o o' w same_id same_key (x, by_id, by_key) =
      let found : id_of x ≡ o'.id = column-find id_of o.id w.orders by_id ∙ sym same_id in
      (
        find-replaced id_of id_of o.id o'.id x o' w.orders by_id found same_id,
        find-replaced key_of id_of o.idempotency_key o'.id x o' w.orders by_key found same_key,
      )

  -- The same own part, the same facts about the order.
  IsStored-own : (o : Order) (v w : World S) → own S v ≡ own S w → IsStored o w → IsStored o v
  IsStored-own o v w e (x, by_id, by_key) =
      let rows : v.orders ≡ w.orders = ap (λ (y : Own). y.0) e in (x, rw rows by_id, rw rows by_key)

  fail_order-Finished :
      (count : Metrics → Metrics) (o : Order) (reason : String) (lines : List Line) (w : World S)
      → ((m : Metrics) → (count m).orders_failed ≡ m.orders_failed)
      → IsStored o w
      → Finished o w (fail_order S settings count o reason lines w)
  unfolding fail_order
  fail_order-Finished count o reason lines w kept stored =
      let label : String = normalize_failure_reason reason in
      let o' : Order = touched S w (record o { status = failed; failure_reason = some label }) in
      let w₁ : World S = counted S (λ m. count_failed (some label) (count m)) (save S o' w) in
      let w₂ : World S = publish S (order_failed o'.id o'.user_id (some label)) w₁ in
      let e = clear_cart_items-own S settings o'.user_id (map product_of lines) w₂ in
      let (by_id, by_key) = save-IsStored o o' w refl refl stored in
      let rows = ap (λ (y : Own). y.0) e in
      (
        o',
        rw rows by_id,
        rw rows by_key,
        refl,
        inr (
          label,
          refl,
          refl,
          ap (λ (y : Own). y.2) e,
          ap (λ (y : Own). y.3.orders_failed) e ∙ ap (λ l. l ++ some label ∷ []) (kept w.metrics),
        ),
      )

  pay_order-Finished :
      (o : Order) (lines : List Line) (w : World S)
      → o.stock_reserved ≡ true
      → IsStored o w
      → Finished o w (pay_order S settings o lines w)
  unfolding pay_order
  pay_order-Finished o lines w is_reserved stored =
      let o' : Order = touched S w (record o { status = paid }) in
      let w₁ : World S = counted S (count_paid o'.amount_cents) (save S o' w) in
      let w₂ : World S = publish S (order_paid o'.id o'.user_id o'.amount_cents w.now) w₁ in
      let e = clear_cart_items-own S settings o'.user_id (map product_of lines) w₂ in
      let (by_id, by_key) = save-IsStored o o' w refl refl stored in
      let rows = ap (λ (y : Own). y.0) e in
      (
        o',
        rw rows by_id,
        rw rows by_key,
        refl,
        inl (refl, is_reserved, ap (λ (y : Own). y.2) e, ap (λ (y : Own). y.3.orders_failed) e),
      )

  Finished-moved :
      (o : Order) (v w : World S) (r : OrderOut × World S)
      → v.events ≡ w.events
      → v.metrics ≡ w.metrics
      → v.now ≡ w.now
      → Finished o v r
      → Finished o w r
  Finished-moved o v w (out, w') events metrics now (o', by_id, by_key, same, inl (p, s, e, m)) =
      let m' = ap (λ (x : Metrics). x.orders_failed) metrics in
      (
        o',
        by_id,
        by_key,
        same,
        inl (
          p,
          s,
          e
              ∙ ap (λ l. l ++ order_paid o.id o.user_id o.amount_cents v.now ∷ []) events
              ∙ ap (λ n. w.events ++ order_paid o.id o.user_id o.amount_cents n ∷ []) now,
          m ∙ m',
        ),
      )
  Finished-moved o v w (out, w') events metrics now (o', by_id, by_key, same, inr (l, f, x, e, m)) =
      (
        o',
        by_id,
        by_key,
        same,
        inr (
          l,
          f,
          x,
          e ∙ ap (λ es. es ++ order_failed o.id o.user_id (some l) ∷ []) events,
          m ∙ ap (λ (y : Metrics). y.orders_failed ++ some l ∷ []) metrics,
        ),
      )

  Finished-own :
      (o : Order) (v w : World S) (r : OrderOut × World S)
      → own S v ≡ own S w
      → Finished o v r
      → Finished o w r
  Finished-own o v w r e =
      Finished-moved o v w r (ap (λ (y : Own). y.2) e) (ap (λ (y : Own). y.3) e)
        (ap (λ (y : Own). y.4) e)

  settle-Finished :
      (o : Order) (lines : List Line) (c : Charge) (w : World S)
      → o.stock_reserved ≡ true
      → IsStored o w
      → Finished o w (settle S settings o lines (c, w))
  unfolding settle
  settle-Finished o lines charged w is_reserved stored =
      pay_order-Finished o lines w is_reserved stored
  settle-Finished o lines (not_charged reason) w is_reserved stored =
      let v = release_all S settings lines o.id w in
      let e = release_all-own S settings lines o.id w in
      Finished-own o v w (fail_order S settings count_payment_failure o reason lines v) e (
        fail_order-Finished count_payment_failure o reason lines v (λ m. refl)
          (IsStored-own o v w e stored))

  charge_order-Finished :
      (o : Order) (lines : List Line) (w : World S)
      → IsStored o w
      → Finished o w (charge_order S settings o lines w)
  unfolding charge_order
  charge_order-Finished o lines w stored =
      let o' : Order = touched S w (record o { stock_reserved = true }) in
      let (by_id, by_key) = save-IsStored o o' w refl refl stored in
      let u : World S = save S o' w in
      let x = charge S settings o'.id o'.amount_cents "INR" o'.idempotency_key u in
      let e = charge-own S settings o'.id o'.amount_cents "INR" o'.idempotency_key u in
      Finished-moved o u w (settle S settings o' lines x) refl refl refl (
        Finished-own o x.1 u (settle S settings o' lines x) e
          (settle-Finished o' lines x.0 x.1 refl (IsStored-own o x.1 u e (o', by_id, by_key))))

  reserve_or_fail-Finished :
      (o : Order) (lines done : List Line) (failure : Option String) (w : World S)
      → IsStored o w
      → Finished o w (reserve_or_fail S settings o lines ((done, failure), w))
  unfolding reserve_or_fail
  reserve_or_fail-Finished o lines done none w stored = charge_order-Finished o lines w stored
  reserve_or_fail-Finished o lines done (some reason) w stored =
      let v = release_all S settings done o.id w in
      let e = release_all-own S settings done o.id w in
      Finished-own o v w (fail_order S settings count_reservation_failure o reason lines v) e (
        fail_order-Finished count_reservation_failure o reason lines v (λ m. refl)
          (IsStored-own o v w e stored))

  pub run_saga-Finished :
      (o : Order) (lines : List Line) (w : World S)
      → IsStored o w
      → Finished o w (run_saga S settings o lines w)
  unfolding run_saga
  run_saga-Finished o lines w stored =
      let x = reserve_all S settings lines o.id [] w in
      let e = reserve_all-own S settings lines o.id [] w in
      Finished-own o x.1 w (reserve_or_fail S settings o lines x) e
        (reserve_or_fail-Finished o lines x.0.0 x.0.1 x.1 (IsStored-own o x.1 w e stored))

  -- What the saga promises about the order that it is run for.
  unfoldable pub Completes : Order → World S → OrderOut × World S → Type 0
  Completes o w r = Finished o w r

  -- Whatever becomes of the HTTP calls, the saga of a stored order ends with that order PAID, with its
  -- stock marked as reserved, or FAILED with a reason, in the row that its id and its key find; the
  -- answer shows that row. Exactly one event has been published, the one for that end, and a failure
  -- has been counted once, under the label that the row stores.
  pub run_saga-Completes :
      (o : Order) (lines : List Line) (w : World S)
      → IsStored o w
      → Completes o w (run_saga S settings o lines w)
  unfolding Completes
  run_saga-Completes o lines w stored = run_saga-Finished o lines w stored
