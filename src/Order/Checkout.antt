-- ===== src/Order/Checkout.antt =====
-- app/routers/orders.py of services/order-service: `create_order`, step by step.
use ecommerce_services.Common.{
  ℕ, ◌+◌, String, Bool, true, false, ◌||◌, ◌==◌, Option, none, some, List, [], ◌∷◌, ◌++◌, map,
  if◌then◌else◌,
}
use ecommerce_services.Common.Redis.{is_some}
use ecommerce_services.Common.Table.{find}
use ecommerce_services.Shared.{Result, ok, err, Action, ◌>>=◌}
use ecommerce_services.Order.Reasons.{normalize_failure_reason}
use ecommerce_services.Order.Services.{Services}
use ecommerce_services.Order.World.{
  pending, paid, failed, Order, id_of, key_of, order_created, order_failed, order_paid, Metrics,
  Settings, World,
}
use ecommerce_services.Order.Clients.{
  Charge, charged, not_charged, internal_error, charge, clear_cart_items,
}
use ecommerce_services.Order.Saga.{
  Line, OrderOut, CreateOrder, missing_key, item_row, order_out, publish, save, touched,
  resolve_items, price_all, reserve_all, release_all,
}

abbrev pub product_of : Line → String
product_of (p, q) = p

-- The row that `Order(user_id=…, amount_cents=…, idempotency_key=…)` adds, with the column defaults.
abbrev pub new_order : CreateOrder → String → ℕ → ℕ → Order
new_order q key amount now = record {
  id = q.new_id;
  user_id = q.user_id;
  status = pending;
  amount_cents = amount;
  idempotency_key = key;
  stock_reserved = false;
  failure_reason = none;
  delivered = false;
  created_at = now;
  updated_at = now;
}

abbrev pub count_reservation_failure : Metrics → Metrics
count_reservation_failure m = record m {
  reservation_failures_total = m.reservation_failures_total + 1;
}

abbrev pub count_payment_failure : Metrics → Metrics
count_payment_failure m = record m { payment_failures_total = m.payment_failures_total + 1 }

abbrev pub count_failed : Option String → Metrics → Metrics
count_failed reason m = record m { orders_failed = m.orders_failed ++ reason ∷ [] }

abbrev pub count_created : Metrics → Metrics
count_created m = record m { orders_created_total = m.orders_created_total + 1 }

abbrev pub count_paid : ℕ → Metrics → Metrics
count_paid amount m = record m {
  orders_paid_total = m.orders_paid_total + 1;
  order_amounts = m.order_amounts ++ amount ∷ [];
}

module _ (S : Services) where
  -- Step 3, in the database: the unique constraints on the key and on the id are the guard.
  unfoldable pub insert_order : Order → List Line → World S → Bool × World S
  insert_order o lines w =
      if is_some (find key_of o.idempotency_key w.orders) || is_some (find id_of o.id w.orders)
      then (false, w)
      else (
        true,
        record w {
          orders = w.orders ++ o ∷ [];
          order_items = w.order_items ++ map (item_row o.id) lines;
        },
      )

  abbrev pub counted : (Metrics → Metrics) → World S → World S
  counted f w = record w { metrics = f w.metrics }

module _ (S : Services) (settings : Settings) where
  -- The end of both failing branches: the order becomes FAILED, which is counted and published, and
  -- the lines leave the cart.
  unfoldable pub fail_order :
      (Metrics → Metrics) → Order → String → List Line → World S → OrderOut × World S
  unfolding save publish
  fail_order count o raw_reason lines w =
      let reason : Option String = some (normalize_failure_reason raw_reason) in
      let o' : Order = touched S w (record o { status = failed; failure_reason = reason }) in
      let w₁ : World S = counted S (λ m. count_failed reason (count m)) (save S o' w) in
      let w₂ : World S = publish S (order_failed o'.id o'.user_id reason) w₁ in
      let w₃ : World S = clear_cart_items S settings o'.user_id (map product_of lines) w₂ in
      (order_out S o' w₃, w₃)

  -- The end of the successful branch.
  unfoldable pub pay_order : Order → List Line → World S → OrderOut × World S
  unfolding save publish
  pay_order o lines w =
      let o' : Order = touched S w (record o { status = paid }) in
      let w₁ : World S = counted S (count_paid o'.amount_cents) (save S o' w) in
      let w₂ : World S = publish S (order_paid o'.id o'.user_id o'.amount_cents w.now) w₁ in
      let w₃ : World S = clear_cart_items S settings o'.user_id (map product_of lines) w₂ in
      (order_out S o' w₃, w₃)

  unfoldable pub settle : Order → List Line → Charge × World S → OrderOut × World S
  unfolding fail_order pay_order
  settle o lines (not_charged reason, w) =
      fail_order count_payment_failure o reason lines (release_all S settings lines o.id w)
  settle o lines (charged, w) = pay_order o lines w

  -- Step 5: remember the reservation, and charge.
  unfoldable pub charge_order : Order → List Line → World S → OrderOut × World S
  unfolding settle save
  charge_order o lines w =
      let o' : Order = touched S w (record o { stock_reserved = true }) in
      settle o' lines
        (charge S settings o'.id o'.amount_cents "INR" o'.idempotency_key (save S o' w))

  unfoldable pub reserve_or_fail :
      Order → List Line → (List Line × Option String) × World S → OrderOut × World S
  unfolding charge_order fail_order
  reserve_or_fail o lines ((reserved, some reason), w) =
      fail_order count_reservation_failure o reason lines (release_all S settings reserved o.id w)
  reserve_or_fail o lines ((reserved, none), w) = charge_order o lines w

  -- Steps 4 and 5.
  unfoldable pub run_saga : Order → List Line → World S → OrderOut × World S
  unfolding reserve_or_fail
  run_saga o lines w = reserve_or_fail o lines (reserve_all S settings lines o.id [] w)

  -- The answer with an order that is there already.
  unfoldable pub replay : String → Action (World S) OrderOut
  replay key w = elim (find key_of key w.orders) [
    | some o ↦ (ok (order_out S o w), w)
    | none ↦ (err internal_error, w)
  ]

  unfoldable pub start_saga : Order → List Line → Bool × World S → Result OrderOut × World S
  unfolding run_saga replay publish
  start_saga o lines (true, w) =
      let w₁ : World S = counted S count_created w in
      let w₂ : World S = publish S (order_created o.id o.user_id lines o.amount_cents) w₁ in
      let (out, w₃) = run_saga o lines w₂ in (ok out, w₃)
  start_saga o lines (false, w) = replay o.idempotency_key w

  module _ (meanwhile : World S → World S) where
    -- Steps 1 to 5 for a new key; `meanwhile` is what other requests and jobs do between the pricing
    -- and the insertion.
    unfoldable pub place_order : CreateOrder → String → Action (World S) OrderOut
    unfolding start_saga insert_order
    place_order q key = do
      lines ← resolve_items S settings q
      amount ← price_all S settings lines 0
      λ w.
          let v : World S = meanwhile w in
          let o : Order = new_order q key amount v.now in
          start_saga o lines (insert_order S o lines v)

    -- `create_order`
    unfoldable pub create_order_for : CreateOrder → String → Action (World S) OrderOut
    unfolding place_order
    create_order_for q key w =
        if key == "" then (err missing_key, w) else elim (find key_of key w.orders) [
          | some o ↦ (ok (order_out S o w), w)
          | none ↦ place_order q key w
        ]

    unfoldable pub create_order : CreateOrder → Action (World S) OrderOut
    unfolding create_order_for
    create_order q w = elim q.idempotency_key [
      | none ↦ (err missing_key, w)
      | some key ↦ create_order_for q key w
    ]
