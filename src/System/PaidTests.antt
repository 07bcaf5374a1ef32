-- ===== src/System/PaidTests.antt =====
-- A checkout with the endpoints of the catalog and of the payments behind it.
use ecommerce_services.Common.{ℕ, String, Bool, false, List, [], ◌∷◌, ◌≡◌, ◌≢◌, refl, arith}
use ecommerce_services.Common.Redis.{Redis, dict_redis}
use ecommerce_services.Payment
use ecommerce_services.Payment.{Stored, Service}
use ecommerce_services.Catalog.Demo.{caches, settings, shop}
use ecommerce_services.Order.World.{World}
use ecommerce_services.Order.Saga.{Line}
use ecommerce_services.Order.Checkout.{run_saga}
use ecommerce_services.System.CatalogEndpoints.{catalog_api}
use ecommerce_services.System.PaidOrders.{services, Agrees, run_saga-Agrees}
use ecommerce_services.System.Demo.{carts, order_settings, order_1, no_metrics}

abbrev redis : Redis Stored
redis = dict_redis Stored

abbrev payment_settings : Payment.Settings
payment_settings = record {
  idempotency_ttl_seconds = 86400;
  unsafe_idempotency_mode = false;
  internal_service_token = "dev-internal-token-change-me";
}

abbrev never_declines : Payment.ChargeRequest → Service redis → Bool
never_declines b s = false

abbrev no_charges : Service redis
no_charges = record { store = []; now = 7; failures_total = 0; replays_total = 0; processed = [] }

abbrev world : World (
    services redis payment_settings never_declines
      (catalog_api caches settings)
      carts
      order_settings)
world = record {
  orders = order_1 ∷ [];
  order_items = [];
  events = [];
  metrics = no_metrics;
  catalog = shop;
  payment = no_charges;
  cart = [];
  fates = [];
  request_id = "r-1";
  now = 5;
}

abbrev lines : List Line
lines = ("P001", 2) ∷ []

run_saga-Agrees_example :
    Agrees redis payment_settings never_declines
      (catalog_api caches settings)
      carts
      order_settings
      order_1
      world
      (run_saga
        (services redis payment_settings never_declines
          (catalog_api caches settings)
          carts
          order_settings)
        order_settings
        order_1
        lines
        world)
unfolding ecommerce_services.Common.Dict.lookup
run_saga-Agrees_example =
    run_saga-Agrees redis payment_settings never_declines (catalog_api caches settings) carts
      order_settings order_1 lines world refl refl refl refl (λ e. absurd (cc (e))) (omega arith)
