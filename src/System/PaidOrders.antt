-- ===== src/System/PaidOrders.antt =====
-- The endpoint of services/payment-service, as order-service calls it, and what an order's end says
-- about its charge.
use ecommerce_services.Common.{
  ◌<◌, Bool, false, none, List, [], ◌∷◌, ◌≡◌, ◌≢◌, ◌⊎◌, sym, ap, subst, ◌∙◌, inl, inr,
}
use ecommerce_services.Common.Redis.{Redis}
use ecommerce_services.Shared.{Response, Body, content, error, ok, err}
use ecommerce_services.Payment
use ecommerce_services.Payment.{Stored, Service, redis_key, post_charge, get_result}
use ecommerce_services.Payment.Alone.{receipt, payment_declined, Posted, post_charge-Posted}
use ecommerce_services.Order.Services
use ecommerce_services.Order.Services.{Services, CatalogApi, CartApi, PaymentApi, Headers}
use ecommerce_services.Order.World
use ecommerce_services.Order.World.{World, Order, paid, failed}
use ecommerce_services.Order.Saga.{Line, OrderOut}
use ecommerce_services.Order.Checkout.{run_saga}
use ecommerce_services.Order.Charging.{charge_of, Charges, run_saga-Charges}

-- A request and a response of the charge, as the two services declare them.
abbrev received : Services.ChargeRequest → Payment.ChargeRequest
received b = record {
  order_id = b.order_id;
  amount = b.amount;
  currency = b.currency;
  idempotency_key = b.idempotency_key;
}

abbrev sent : Body Payment.ChargeResponse → Body Services.ChargeResponse
sent (error e) = error e
sent (content c) = content (record {
  order_id = c.order_id;
  amount = c.amount;
  currency = c.currency;
  idempotency_key = c.idempotency_key;
  status = c.status;
  charged_at = c.charged_at;
})

module _ (R : Redis Stored) (settings : Payment.Settings)
    (draw : Payment.ChargeRequest → Service R → Bool) where
  -- `draw` says whether a charge falls below the failure rate.
  abbrev pub payment_api : PaymentApi
  payment_api = record {
    State = Service R;
    charge = λ (h : Headers) b s.
        let (r, s') = post_charge R settings (draw (received b) s) h.0 h.1 h.2 (received b) s in
        (record { status_code = r.status_code; body = sent r.body }, s');
  }

  module _ (catalog : CatalogApi) (cart : CartApi) (order_settings : World.Settings) where
    abbrev pub services : Services
    services = record { catalog = catalog; payment = payment_api; cart = cart }

    -- A PAID order has been charged once and its receipt is stored; a FAILED one has not been charged.
    abbrev pub Agrees : Order → World services → OrderOut × World services → Type 0
    Agrees o w (out, w') =
        ((out.status ≡ paid)
          × (get_result R settings o.idempotency_key w'.payment
              ≡ ok (receipt (received (charge_of services order_settings o)) w.payment.now))
          × (w'.payment.processed ≡ o.idempotency_key ∷ w.payment.processed))
        ⊎ ((out.status ≡ failed)
            × ((w'.payment ≡ w.payment)
                ⊎ (get_result R settings o.idempotency_key w'.payment ≡ err payment_declined)))

    abbrev asked : Order → Payment.ChargeRequest
    asked o = received (charge_of services order_settings o)

    -- What payment-service has done with the request of a saga.
    abbrev posted : Order → World services → Response Payment.ChargeResponse × Service R
    posted o w =
        post_charge R settings (draw (asked o) w.payment) w.request_id
          order_settings.internal_service_token "order-service" (asked o) w.payment

    Charges-Agrees :
        (o : Order) (w : World services) (r : OrderOut × World services)
        (safe : settings.unsafe_idempotency_mode ≡ false)
        → Charges services order_settings o w r
        → Posted R settings safe (asked o) w.payment (posted o w)
        → Agrees o w r
    Charges-Agrees o w r safe (inl (status, same)) p = inr (status, inl same)
    Charges-Agrees o w r safe (inr (after, inl (status, is_200))) p = elim p [
      | inl (not_200, same) ↦ absurd (not_200 is_200)
      | inr (inl (not_200, stored)) ↦ absurd (not_200 is_200)
      | inr (inr (_, stored, once)) ↦ inl (
        status,
        ap (get_result R settings o.idempotency_key) after ∙ stored,
        ap (λ (s : Service R). s.processed) after ∙ once,
      )
    ]
    Charges-Agrees o w r safe (inr (after, inr (status, not_200))) p = elim p [
      | inl (_, same) ↦ inr (status, inl (after ∙ same))
      | inr (inl (_, stored)) ↦
          inr (status, inr (ap (get_result R settings o.idempotency_key) after ∙ stored))
      | inr (inr (is_200, _, _)) ↦ absurd (not_200 is_200)
    ]

    -- If every call of a saga is answered, the key of its order is new to payment-service, which runs in
    -- safe mode, and no other charge comes between: an order that ends PAID has been charged once and
    -- payment-service answers its key with the receipt, for the order's id and amount; an order that
    -- ends FAILED has left the payments as they were, or its charge has been declined. Both services
    -- are configured with one internal token, which is not empty, and the time to live of a result is
    -- positive.
    pub run_saga-Agrees :
        (o : Order) (lines : List Line) (w : World services)
        → w.fates ≡ []
        → settings.unsafe_idempotency_mode ≡ false
        → R.get w.payment.now (redis_key o.idempotency_key) w.payment.store ≡ none
        → order_settings.internal_service_token ≡ settings.internal_service_token
        → settings.internal_service_token ≢ ""
        → 0 < settings.idempotency_ttl_seconds
        → Agrees o w (run_saga services order_settings o lines w)
    run_saga-Agrees o lines w quiet safe fresh same named positive =
        let b = asked o in
        Charges-Agrees o w (run_saga services order_settings o lines w) safe
          (run_saga-Charges services order_settings o lines w quiet)
          (subst
            (λ t. Posted R settings safe b w.payment (
              post_charge R settings (draw b w.payment) w.request_id t "order-service" b w.payment))
            (sym same)
            (post_charge-Posted R settings safe (draw b w.payment) w.request_id b w.payment named
              positive fresh))
