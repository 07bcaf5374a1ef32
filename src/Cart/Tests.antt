-- ===== src/Cart/Tests.antt =====
-- A cart that is filled, left alone and counted, and the theorems at such inputs.
use ecommerce_services.Common.{List, [], ◌∷◌}
use ecommerce_services.Common.Int.{pos}
use ecommerce_services.Common.Hashes.{dict_hashes}
use ecommerce_services.Shared.{content}
use ecommerce_services.Catalog.{PriceOut}
use ecommerce_services.Order.World.{Outcome, answered, http_error}
use ecommerce_services.Cart.Defs.{Settings, Carts, AddItemRequest}
use ecommerce_services.Cart.Abandonment.{abandonment_pass}
use ecommerce_services.Cart.Refinement.{Act, add, remove, remove_batch, scan_carts, wait, serve_all}
use ecommerce_services.Cart.Counted.{Counts, abandonment_pass-Counts}

abbrev settings : Settings
settings = record {
  cart_ttl_seconds = 86400;
  cart_abandonment_threshold_seconds = 1800;
  internal_service_token = "dev-internal-token-change-me";
}

abbrev no_carts : Carts dict_hashes
no_carts = record { store = []; now = 5; items_added_total = 0; abandonment_total = 0 }

abbrev mice : AddItemRequest
mice = record { product_id = "P001"; quantity = 2 }

abbrev in_stock : Outcome PriceOut
in_stock = answered (record {
  status_code = 200;
  body = content (record { id = "P001"; price_cents = 1999; stock = pos 3 });
})

abbrev day : List Act
day =
    add mice "u-1" in_stock
    ∷ add mice "u-1" in_stock
    ∷ add mice "u-2" (http_error "timeout")
    ∷ wait 2000
    ∷ scan_carts
    ∷ remove_batch "u-1" ("P001" ∷ "P002" ∷ [])
    ∷ remove "P002" "u-1"
    ∷ []

abbrev left_alone : Carts dict_hashes
left_alone = serve_all dict_hashes settings (add mice "u-1" in_stock ∷ wait 2000 ∷ []) no_carts

abandonment_pass-Counts_example :
    Counts dict_hashes settings left_alone (abandonment_pass dict_hashes settings left_alone)
abandonment_pass-Counts_example = abandonment_pass-Counts dict_hashes settings left_alone
