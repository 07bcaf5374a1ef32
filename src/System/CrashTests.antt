-- ===== src/System/CrashTests.antt =====
-- Orders that a crash has left PENDING, over the catalog's endpoints.
use ecommerce_services.Common.{true, none, List, [], ◌∷◌, ◌≡◌, refl}
use ecommerce_services.Common.Dict.{contains}
use ecommerce_services.Common.Table.{find, update}
use ecommerce_services.Shared.{respond}
use ecommerce_services.Shared.InternalAuth.{require_internal_caller}
use ecommerce_services.Catalog.{post_reserve, invalidate_product}
use ecommerce_services.Order.Services.{less}
use ecommerce_services.Order.World.{World, Order}
use ecommerce_services.Order.Saga.{Line, reserve_all, load_items, item_row}
use ecommerce_services.Order.Clients.{reserve_stock}
use ecommerce_services.Order.Jobs.{reconcile_order}
use ecommerce_services.Order.Stock.{stock_in, ordered}
use ecommerce_services.Order.Crash.{crashed_saga_is_undone, crashed_reserving_leaks}
use ecommerce_services.System.Demo.{services, order_1, world, order_settings}

abbrev lines : List Line
lines = ("P001", 2) ∷ ("P002", 1) ∷ []

abbrev start : World services
start = world (order_1 ∷ []) []

-- What a later process finds, after the given reservations.
abbrev found : List Line → World services
found reserved_lines = record start {
  order_items = item_row "o-1" ("P001", 2) ∷ item_row "o-1" ("P002", 1) ∷ [];
  catalog = (reserve_all services order_settings reserved_lines "o-1" [] start).1.catalog;
  request_id = "";
  now = 1000;
}

abbrev recorded_order : Order
recorded_order = record order_1 { stock_reserved = true }

all_granted : (reserve_all services order_settings lines "o-1" [] start).0.1 ≡ none
unfolding reserve_all reserve_stock post_reserve require_internal_caller contains find update
    invalidate_product respond
all_granted = refl

items_stored : load_items "o-1" (found lines).order_items ≡ lines
unfolding load_items
items_stored = refl

crashed_saga_is_undone_example :
    stock_in services order_settings
      (reconcile_order services order_settings recorded_order (found lines))
      "P001"
    ≡ stock_in services order_settings start "P001"
crashed_saga_is_undone_example =
    crashed_saga_is_undone services order_settings recorded_order lines start (found lines) "P001"
      refl refl all_granted refl refl items_stored

abbrev first : List Line
first = ("P001", 2) ∷ []

first_granted : (reserve_all services order_settings first "o-1" [] start).0.1 ≡ none
unfolding reserve_all reserve_stock post_reserve require_internal_caller contains find update
    invalidate_product respond
first_granted = refl

crashed_reserving_leaks_example :
    stock_in services order_settings
      (reconcile_order services order_settings order_1 (found first))
      "P001"
    ≡ less (ordered "P001" first) (stock_in services order_settings start "P001")
crashed_reserving_leaks_example =
    crashed_reserving_leaks services order_settings order_1 first start (found first) "P001" refl
      first_granted refl refl
