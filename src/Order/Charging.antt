-- ===== src/Order/Charging.antt =====
-- What the checkout saga does to the payments, when every call is answered.
use ecommerce_services.Common.{
  String, true, Option, none, some, List, [], ◌∷◌, ◌≡◌, ◌≢◌, ◌⊎◌, refl, sym, ap, subst, ◌∙◌, inl,
  inr, arith,
}
use ecommerce_services.Shared.{Response}
use ecommerce_services.Order.Services.{Services, ChargeRequest, ChargeResponse}
use ecommerce_services.Order.World.{World, Settings, Order, Metrics, paid, failed, answered}
use ecommerce_services.Order.Clients.{
  Charge, charged, not_charged, internal_headers, read_charge, clear_cart_items,
}
use ecommerce_services.Order.Saga.{Line, OrderOut, order_out, publish, save, touched, reserve_all}
use ecommerce_services.Order.Checkout.{
  fail_order, pay_order, settle, charge_order, reserve_or_fail, run_saga, count_payment_failure,
  count_reservation_failure,
}
use ecommerce_services.Order.Clearing.{
  Untouched, reserve_all-Untouched, release_all-Untouched, charge_quiet,
}

-- A charge is read as made exactly when the status is 200.
read_charge-cases :
    (r : Response ChargeResponse)
    → ((r.status_code ≡ 200) × (read_charge (answered r) ≡ charged))
      ⊎ ((r.status_code ≢ 200)
          × (reason : String) × (read_charge (answered r) ≡ not_charged reason))
unfolding read_charge
read_charge-cases r = elim (Charge-cases (read_charge (answered r))) [
  | inl e ↦ inl (ground arith, e)
  | inr (reason, e) ↦ inr (ground arith, reason, e)
]
  where
    Charge-cases : (x : Charge) → (x ≡ charged) ⊎ ((reason : String) × (x ≡ not_charged reason))
    Charge-cases charged = inl refl
    Charge-cases (not_charged reason) = inr (reason, refl)

module _ (S : Services) (settings : Settings) where
  clear_cart_items-payment :
      (u : String) (is : List String) (w : World S)
      → (w.fates ≡ [])
      → (clear_cart_items S settings u is w).payment ≡ w.payment
  unfolding clear_cart_items
  clear_cart_items-payment u [] w e = refl
  clear_cart_items-payment u (i ∷ is) w e = rw e

  -- The request that a saga sends to the payments.
  abbrev pub charge_of : Order → ChargeRequest
  charge_of o = record {
    order_id = o.id;
    amount = o.amount_cents;
    currency = "INR";
    idempotency_key = o.idempotency_key;
  }

  -- The payments' answer to it, and their state after it.
  abbrev pub charging : Order → World S → Response ChargeResponse × S.payment.State
  charging o w = S.payment.charge (internal_headers S settings w) (charge_of o) w.payment

  -- An order ends FAILED and no charge has been asked for, or one has: the order is PAID if it was
  -- answered with 200, else FAILED.
  abbrev pub Charges : Order → World S → OrderOut × World S → Type 0
  Charges o w (out, w') =
      ((out.status ≡ failed) × (w'.payment ≡ w.payment))
      ⊎ ((w'.payment ≡ (charging o w).1)
          × (((out.status ≡ paid) × ((charging o w).0.status_code ≡ 200))
              ⊎ ((out.status ≡ failed) × ((charging o w).0.status_code ≢ 200))))

  fail_order-payment :
      (count : Metrics → Metrics) (o : Order) (reason : String) (lines : List Line) (w : World S)
      → w.fates ≡ []
      → let (out, w') = fail_order S settings count o reason lines w in
        (out.status ≡ failed) × (w'.payment ≡ w.payment)
  unfolding fail_order order_out save publish
  fail_order-payment count o reason lines w e = (refl, clear_cart_items-payment _ _ _ e)

  pay_order-payment :
      (o : Order) (lines : List Line) (w : World S)
      → w.fates ≡ []
      → let (out, w') = pay_order S settings o lines w in
        (out.status ≡ paid) × (w'.payment ≡ w.payment)
  unfolding pay_order order_out save publish
  pay_order-payment o lines w e = (refl, clear_cart_items-payment _ _ _ e)

  settle-charged :
      (o : Order) (lines : List Line) (w : World S)
      → w.fates ≡ []
      → let (out, w') = settle S settings o lines (charged, w) in
        (out.status ≡ paid) × (w'.payment ≡ w.payment)
  unfolding settle
  settle-charged o lines w e = pay_order-payment o lines w e

  settle-not_charged :
      (o : Order) (lines : List Line) (reason : String) (w : World S)
      → w.fates ≡ []
      → let (out, w') = settle S settings o lines (not_charged reason, w) in
        (out.status ≡ failed) × (w'.payment ≡ w.payment)
  unfolding settle
  settle-not_charged o lines reason w e =
      let ((_, quiet, _), same) = release_all-Untouched S settings lines o.id w e in
      let (status, after) = fail_order-payment count_payment_failure o reason lines _ quiet in
      (status, after ∙ same)

  charge_order-Charges :
      (o : Order) (lines : List Line) (w : World S)
      → w.fates ≡ []
      → Charges o w (charge_order S settings o lines w)
  unfolding charge_order save
  charge_order-Charges o lines w e =
      let o' : Order = touched S w (record o { stock_reserved = true }) in
      let u : World S = save S o' w in
      let (r, p) = charging o w in
      let v : World S = record u { payment = p } in
      let asked = charge_quiet S settings o.id o.amount_cents "INR" o.idempotency_key u e in
      elim (read_charge-cases r) [
        | inl (is_200, read) ↦
            let (status, after) = settle-charged o' lines v e in
            subst (λ y. Charges o w (settle S settings o' lines y))
              (sym (asked ∙ ap (λ x. (x, v)) read)) (inr (after, inl (status, is_200)))
        | inr (not_200, reason, read) ↦
            let (status, after) = settle-not_charged o' lines reason v e in
            subst (λ y. Charges o w (settle S settings o' lines y))
              (sym (asked ∙ ap (λ x. (x, v)) read)) (inr (after, inr (status, not_200)))
      ]

  Charges-Untouched :
      (o : Order) (w v : World S) (r : OrderOut × World S)
      → Untouched S settings w v
      → Charges o v r
      → Charges o w r
  Charges-Untouched o w v r ((cart, fates, request), payment) c =
      let same : charging o v ≡ charging o w = rw (request, payment) in
      elim c [
        | inl (status, after) ↦ inl (status, after ∙ payment)
        | inr (after, ends) ↦ inr (
          after ∙ ap (λ x. x.1) same,
          elim ends [
            | inl (status, is_200) ↦ inl (status, ap (λ x. x.0.status_code) (sym same) ∙ is_200)
            | inr (status, not_200) ↦
                inr (status, λ e. not_200 (ap (λ x. x.0.status_code) same ∙ e))
          ],
        )
      ]

  reserve_or_fail-Charges :
      (o : Order) (lines done : List Line) (failure : Option String) (w : World S)
      → w.fates ≡ []
      → Charges o w (reserve_or_fail S settings o lines ((done, failure), w))
  unfolding reserve_or_fail
  reserve_or_fail-Charges o lines done none w e = charge_order-Charges o lines w e
  reserve_or_fail-Charges o lines done (some reason) w e =
      let ((_, quiet, _), same) = release_all-Untouched S settings done o.id w e in
      let (status, after) = fail_order-payment count_reservation_failure o reason lines _ quiet in
      inl (status, after ∙ same)

  -- The payments at the end of a saga whose calls are all answered.
  pub run_saga-Charges :
      (o : Order) (lines : List Line) (w : World S)
      → w.fates ≡ []
      → Charges o w (run_saga S settings o lines w)
  unfolding run_saga
  run_saga-Charges o lines w e =
      let x = reserve_all S settings lines o.id [] w in
      let k = reserve_all-Untouched S settings lines o.id [] w e in
      Charges-Untouched o w x.1 (reserve_or_fail S settings o lines x) k
        (reserve_or_fail-Charges o lines x.0.0 x.0.1 x.1 k.0.1)
