-- ===== src/Order/Acts.antt =====
-- What order-service may do, as sequences of requests, passes of the jobs and pauses.
use ecommerce_services.Common.{ℕ, ◌+◌}
use ecommerce_services.Order.Services.{Services}
use ecommerce_services.Order.World.{World, Settings}
use ecommerce_services.Order.Saga.{CreateOrder}
use ecommerce_services.Order.Checkout.{create_order}
use ecommerce_services.Order.Jobs.{reconciliation_pass, delivery_pass}

-- What order-service does: a request, with what is done between its pricing and its insertion, a pass
-- of a job, or nothing while time passes.
mutual
  pub data Act : Type 0 where
    post : CreateOrder → Acts → Act
    reconcile : Act
    deliver : Act
    wait : ℕ → Act

  pub data Acts : Type 0 where
    done : Acts
    and_then : Act → Acts → Acts

unfoldable mutual
  unfolding create_order reconciliation_pass delivery_pass

  pub perform : (S : Services) → Settings → Act → World S → World S
  perform S settings (post q others) w =
      (create_order S settings (perform_all S settings others) q w).1
  perform S settings reconcile w = (reconciliation_pass S settings w).1
  perform S settings deliver w = (delivery_pass S settings w).1
  perform S settings (wait d) w = record w { now = w.now + d }

  pub perform_all : (S : Services) → Settings → Acts → World S → World S
  perform_all S settings done w = w
  perform_all S settings (and_then a acts) w = perform_all S settings acts (perform S settings a w)
