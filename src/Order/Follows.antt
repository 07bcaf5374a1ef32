-- ===== src/Order/Follows.antt =====
-- The saga of order-service follows the machine of Order/Lifecycle.antt.
use ecommerce_services.Common.{
  String, true, false, Option, none, some, Option-cases, List, [], ◌∷◌, ◌++◌, map, ◌≡◌, refl, sym,
  ap, subst, ◌∙◌, inl, inr, eq_refl, Bool-cases,
}
use ecommerce_services.Common.Redis.{is_some}
use ecommerce_services.Common.Table.{find, find-append_none}
use ecommerce_services.Order.Reasons.{normalize_failure_reason}
use ecommerce_services.Order.Services.{Services}
use ecommerce_services.Order.World.{World, Settings, Order, pending, Metrics, id_of, key_of}
use ecommerce_services.Order.Clients.{Charge, charged, not_charged}
use ecommerce_services.Order.Saga.{Line, item_row, reserve_all, save, publish}
use ecommerce_services.Order.Checkout.{
  insert_order, fail_order, pay_order, settle, charge_order, reserve_or_fail, run_saga, start_saga,
  replay, count_payment_failure, count_reservation_failure,
}
use ecommerce_services.Order.Frame.{
  Own, own, clear_cart_items-own, charge-own, release_all-own, reserve_all-own,
}
use ecommerce_services.Order.Lifecycle.{
  Db, db_of, reserved_row, Runs, next, place, reserve, pay, fail, find-set_row,
}

module _ (S : Services) (settings : Settings) (start : Db) where
  -- The machine gets from the start to the world `w`.
  abbrev pub Reached : World S → Type 0
  Reached w = Runs start (db_of (own S w))

  -- It gets there, and the table has the order, which is PENDING.
  abbrev Has : Order → Own → Type 0
  Has o x = (find id_of o.id x.0 ≡ some o) × (o.status ≡ pending) × Runs start (db_of x)

  pub framed : {a b : Own} → a ≡ b → Runs start (db_of b) → Runs start (db_of a)
  framed e r = subst (λ x. Runs start (db_of x)) (sym e) r

  kept : (o : Order) {a b : Own} → a ≡ b → Has o b → Has o a
  kept o e (found, status, r) =
      (ap (λ (x : Own). find id_of o.id x.0) e ∙ found, status, framed e r)

  fail_order-Reached :
      (count : Metrics → Metrics) (o : Order) (reason : String) (lines : List Line) (w : World S)
      → Has o (own S w)
      → Reached (fail_order S settings count o reason lines w).1
  unfolding fail_order save publish
  fail_order-Reached count o reason lines w (found, status, r) =
      framed (clear_cart_items-own S settings o.user_id _ _)
        (next r (fail (db_of (own S w)) o (some (normalize_failure_reason reason)) found status))

  pay_order-Reached :
      (o : Order) (lines : List Line) (w : World S)
      → o.stock_reserved ≡ true
      → Has o (own S w)
      → Reached (pay_order S settings o lines w).1
  unfolding pay_order save publish
  pay_order-Reached o lines w reserved (found, status, r) =
      framed (clear_cart_items-own S settings o.user_id _ _)
        (next r (pay (db_of (own S w)) o found status reserved))

  settle-Reached :
      (o : Order) (lines : List Line) (c : Charge) (w : World S)
      → o.stock_reserved ≡ true
      → Has o (own S w)
      → Reached (settle S settings o lines (c, w)).1
  unfolding settle
  settle-Reached o lines charged w reserved h = pay_order-Reached o lines w reserved h
  settle-Reached o lines (not_charged reason) w reserved h =
      fail_order-Reached count_payment_failure o reason lines _
        (kept o (release_all-own S settings lines o.id w) h)

  charge_order-Reached :
      (o : Order) (lines : List Line) (w : World S)
      → Has o (own S w)
      → Reached (charge_order S settings o lines w).1
  unfolding charge_order save
  charge_order-Reached o lines w (found, status, r) =
      let o' : Order = reserved_row w.now o in
      let v : World S = save S o' w in
      settle-Reached o' lines _ _ refl (
        kept o' (charge-own S settings o'.id o'.amount_cents "INR" o'.idempotency_key v) (
          find-set_row o' w.orders found,
          status,
          next r (reserve (db_of (own S w)) o found status),
        ))

  reserve_or_fail-Reached :
      (o : Order) (lines done : List Line) (failure : Option String) (w : World S)
      → Has o (own S w)
      → Reached (reserve_or_fail S settings o lines ((done, failure), w)).1
  unfolding reserve_or_fail
  reserve_or_fail-Reached o lines done none w h = charge_order-Reached o lines w h
  reserve_or_fail-Reached o lines done (some reason) w h =
      fail_order-Reached count_reservation_failure o reason lines _
        (kept o (release_all-own S settings done o.id w) h)

  run_saga-Reached :
      (o : Order) (lines : List Line) (w : World S)
      → Has o (own S w)
      → Reached (run_saga S settings o lines w).1
  unfolding run_saga
  run_saga-Reached o lines w h =
      let x = reserve_all S settings lines o.id [] w in
      reserve_or_fail-Reached o lines x.0.0 x.0.1 x.1
        (kept o (reserve_all-own S settings lines o.id [] w) h)

  abbrev inserted : Order → List Line → World S → World S
  inserted o lines w = record w {
    orders = w.orders ++ o ∷ [];
    order_items = w.order_items ++ map (item_row o.id) lines;
  }

  replay-Reached :
      (o : Order) (lines : List Line) (w : World S)
      → Reached w
      → Reached (start_saga S settings o lines (false, w)).1
  unfolding start_saga replay
  replay-Reached o lines w r = elim (Option-cases (find key_of o.idempotency_key w.orders)) [
    | inl missing ↦ rw (missing, replay) r
    | inr (x, found) ↦ rw (found, replay) r
  ]

  started-Reached :
      (o : Order) (lines : List Line) (w : World S)
      → find id_of o.id w.orders ≡ none
      → o.status ≡ pending
      → o.delivered ≡ false
      → Reached w
      → Reached (start_saga S settings o lines (true, inserted o lines w)).1
  unfolding start_saga publish
  started-Reached o lines w free status undelivered r = run_saga-Reached o lines _ (
    find-append_none id_of o.id w.orders (o ∷ []) free ∙ (unfold find in rw (eq_refl o.id)),
    status,
    next r (place (db_of (own S w)) o lines free status undelivered),
  )

  -- The insertion of a new PENDING order, and its saga.
  pub start_saga-Reached :
      (o : Order) (lines : List Line) (w : World S)
      → o.status ≡ pending
      → o.delivered ≡ false
      → Reached w
      → Reached (start_saga S settings o lines (insert_order S o lines w)).1
  unfolding insert_order
  start_saga-Reached o lines w status undelivered r =
      elim (Bool-cases (is_some (find key_of o.idempotency_key w.orders))) [
        | inl taken ↦ rw taken (replay-Reached o lines w r)
        | inr new_key ↦ elim (Option-cases (find id_of o.id w.orders)) [
          | inl free ↦ rw (new_key, free) (started-Reached o lines w free status undelivered r)
          | inr (x, found) ↦ rw (new_key, found) (replay-Reached o lines w r)
        ]
      ]
