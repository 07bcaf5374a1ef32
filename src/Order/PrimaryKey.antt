-- ===== src/Order/PrimaryKey.antt =====
-- The primary key of the orders.
use ecommerce_services.Common.{[], ◌≡◌, sym, subst}
use ecommerce_services.Order.Services.{Services}
use ecommerce_services.Order.World.{World, Settings}
use ecommerce_services.Order.Sweep.{IsUnique}
use ecommerce_services.Order.Acts.{Acts, perform_all}
use ecommerce_services.Order.Unique.{Runs-IsUnique}
use ecommerce_services.Order.Refinement.{perform_all-Runs}

-- From a table without orders, over any sequence of requests, jobs and pauses, where anything of that
-- may also happen between the pricing and the insertion of a request, and whatever becomes of the
-- HTTP calls: no two orders in the table have the same id.
pub orders-IsUnique :
    (S : Services) (settings : Settings) (acts : Acts) (w : World S)
    → w.orders ≡ []
    → IsUnique (perform_all S settings acts w).orders
orders-IsUnique S settings acts w empty =
    let unique : IsUnique w.orders = subst IsUnique (sym empty) tt in
    Runs-IsUnique (perform_all-Runs S settings acts w unique) unique
