-- ===== src/Order/Crash.antt =====
-- What the reconciliation does to the stock that a crashed saga has reserved.
use ecommerce_services.Common.{String, true, false, none, List, [], ◌≡◌, sym, ap, ◌∙◌}
use ecommerce_services.Order.Services.{Services, less}
use ecommerce_services.Order.World.{World, Settings, Order}
use ecommerce_services.Order.Saga.{Line, load_items, reserve_all, release_all}
use ecommerce_services.Order.Jobs.{reconcile_order}
use ecommerce_services.Order.Stock.{ordered, stock_in, reserve_all-Reserving}
use ecommerce_services.Order.Conservation.{clear_cart_items-catalog, compensated}

module _ (S : Services) (settings : Settings) where
  reconcile_order-recorded :
      (o : Order) (u : World S)
      → o.stock_reserved ≡ true
      → (reconcile_order S settings o u).catalog
        ≡ (release_all S settings (load_items o.id u.order_items) o.id u).catalog
  unfolding reconcile_order
  reconcile_order-recorded o u recorded = clear_cart_items-catalog S settings _ _ _ ∙ rw recorded

  reconcile_order-unrecorded :
      (o : Order) (u : World S)
      → o.stock_reserved ≡ false
      → (reconcile_order S settings o u).catalog ≡ u.catalog
  unfolding reconcile_order
  reconcile_order-unrecorded o u unrecorded =
      clear_cart_items-catalog S settings _ _ _ ∙ rw unrecorded

  -- A saga has reserved all its lines, with every call answered, has recorded that in its order, and has
  -- then crashed. If the stock is still as the saga has left it and the calls of the reconciliation are
  -- answered, the reconciliation of the order puts the stock of every product back to what it was
  -- before the saga.
  pub crashed_saga_is_undone :
      (o : Order) (lines : List Line) (w u : World S) (j : String)
      → w.fates ≡ []
      → u.fates ≡ []
      → let ((done, failure), v) = reserve_all S settings lines o.id [] w in
        failure ≡ none
        → u.catalog ≡ v.catalog
        → o.stock_reserved ≡ true
        → load_items o.id u.order_items ≡ lines
        → stock_in S settings (reconcile_order S settings o u) j ≡ stock_in S settings w j
  crashed_saga_is_undone o lines w u j quiet_w quiet_u granted same recorded stored =
      let ((done, failure), v) = reserve_all S settings lines o.id [] w in
      let r = reserve_all-Reserving S settings lines o.id w quiet_w in
      ap (λ c. S.catalog.stock c j) (reconcile_order-recorded o u recorded)
      ∙ ap (λ ls. stock_in S settings (release_all S settings ls o.id u) j)
          (stored ∙ sym (r.complete granted))
      ∙ compensated S settings lines done o.id w v failure r u same quiet_u j

  -- A saga has reserved the first of its lines, with every call answered, and has then crashed, before
  -- its order recorded a reservation: if the stock is still as the saga has left it, the units of those
  -- lines are missing from the stock after the reconciliation of the order too, whatever becomes of its
  -- calls.
  pub crashed_reserving_leaks :
      (o : Order) (first : List Line) (w u : World S) (j : String)
      → w.fates ≡ []
      → let ((done, failure), v) = reserve_all S settings first o.id [] w in
        failure ≡ none
        → u.catalog ≡ v.catalog
        → o.stock_reserved ≡ false
        → stock_in S settings (reconcile_order S settings o u) j
          ≡ less (ordered j first) (stock_in S settings w j)
  crashed_reserving_leaks o first w u j quiet granted same unrecorded =
      let r = reserve_all-Reserving S settings first o.id w quiet in
      ap (λ c. S.catalog.stock c j) (reconcile_order-unrecorded o u unrecorded ∙ same)
      ∙ r.taken j
      ∙ ap (λ ls. less (ordered j ls) (stock_in S settings w j)) (r.complete granted)
