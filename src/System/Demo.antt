-- ===== src/System/Demo.antt =====
-- What the runs of the whole start from: a payment service that charges everything, the settings of
-- order-service, its counters, and a world with an empty cart and two products.
use ecommerce_services.Common.{String, false, none, List, [], ◌∷◌}
use ecommerce_services.Catalog.Demo.{caches, settings, shop}
use ecommerce_services.System.CatalogEndpoints.{catalog_api}
use ecommerce_services.Shared.{ok, respond}
use ecommerce_services.Order.Services.{Services, CartApi, PaymentApi, ChargeRequest, Headers}
use ecommerce_services.Order.World.{World, Order, Fate, Settings, Metrics, pending}

abbrev pub payments : PaymentApi
payments = record {
  State = List ChargeRequest;
  charge = λ (h : Headers) body s. (
    respond h.0 200 (
        ok (record {
          order_id = body.order_id;
          amount = body.amount;
          currency = body.currency;
          idempotency_key = body.idempotency_key;
          status = "CHARGED";
          charged_at = 7;
        })),
    body ∷ s,
  );
}

abbrev pub order_settings : Settings
order_settings = record {
  internal_service_token = "dev-internal-token-change-me";
  pending_order_timeout_seconds = 300;
  delivery_simulation_delay_seconds = 60;
}

abbrev pub no_metrics : Metrics
no_metrics = record {
  orders_created_total = 0;
  orders_paid_total = 0;
  orders_failed = [];
  reservation_failures_total = 0;
  payment_failures_total = 0;
  order_amounts = [];
}

-- A cart that lists nothing.
abbrev pub carts : CartApi
carts = record {
  State = List String;
  get_cart = λ r auth s. (respond r 200 (ok []), s);
  batch_remove = λ (h : Headers) user ids s. (respond h.0 200 (ok ids), ids);
}

abbrev pub services : Services
services = record { catalog = catalog_api caches settings; payment = payments; cart = carts }

abbrev pub order_1 : Order
order_1 = record {
  id = "o-1";
  user_id = "u-1";
  status = pending;
  amount_cents = 3998;
  idempotency_key = "k-1";
  stock_reserved = false;
  failure_reason = none;
  delivered = false;
  created_at = 5;
  updated_at = 5;
}

abbrev pub world : List Order → List Fate → World services
world orders fates = record {
  orders = orders;
  order_items = [];
  events = [];
  metrics = no_metrics;
  catalog = shop;
  payment = [];
  cart = [];
  fates = fates;
  request_id = "r-1";
  now = 5;
}
