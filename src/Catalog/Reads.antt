-- ===== src/Catalog/Reads.antt =====
-- app/routers/catalog.py of services/catalog-service: the reads, and their cache-aside.
use ecommerce_services.Common.{
  ℕ, ◌+◌, String, ◌||◌, Option, none, some, List, [], ◌∷◌, map, ltb, length, take, drop,
}
use ecommerce_services.Common.Table.{find}
use ecommerce_services.Shared.{
  AppError, app_error, ok, err, Action, Response, respond, lift, raise_if, ◌>>◌,
}
use ecommerce_services.Shared.InternalAuth.{require_internal_caller}
use ecommerce_services.Catalog.Defs.{
  Product, id_of, ProductOut, ProductListOut, PriceOut, Settings, Caches, Catalog, product_key,
  to_out,
}
use ecommerce_services.Catalog.Stock.{product_not_found}

-- `Query(ge=1, le=100)` and `Query(ge=0)`; the text of the message is the validation library's.
abbrev pub invalid_limit : AppError
invalid_limit = app_error "VALIDATION_ERROR" "limit: Input should be from 1 to 100" 422

abbrev price_out : Product → PriceOut
price_out p = record { id = p.id; price_cents = p.price_cents; stock = p.stock }

module _ (C : Caches) (settings : Settings) where
  -- `get_cached_product`
  unfoldable pub get_cached_product : ℕ → String → Catalog C → Option ProductOut
  get_cached_product now product_id s = C.by_id.get now (product_key product_id) s.cache

  -- `set_cached_product`
  unfoldable pub set_cached_product : ℕ → String → ProductOut → Catalog C → Catalog C
  set_cached_product now product_id out s = record s {
    cache =
        C.by_id.set_ex now (product_key product_id) out settings.product_cache_ttl_seconds s.cache;
  }

  -- `get_product` from the row on, when the cache has missed.
  unfoldable pub load_product : ℕ → String → Option Product → Action (Catalog C) ProductOut
  unfolding set_cached_product
  load_product now product_id none s = (err (product_not_found product_id), s)
  load_product now product_id (some p) s =
      (ok (to_out p), set_cached_product now product_id (to_out p) s)

  unfoldable pub serve_product : ℕ → String → Option ProductOut → Action (Catalog C) ProductOut
  unfolding load_product
  serve_product now product_id (some cached) s =
      (ok cached, record s { cache_hits_total = s.cache_hits_total + 1 })
  serve_product now product_id none s =
      load_product now product_id (find id_of product_id s.products)
        (record s { cache_misses_total = s.cache_misses_total + 1 })

  -- `get_product`
  unfoldable pub get_product : ℕ → String → Action (Catalog C) ProductOut
  unfolding get_cached_product serve_product
  get_product now product_id s =
      serve_product now product_id (get_cached_product now product_id s) s

  -- One page, and the total, from the table; `order_by_id` is the database's ORDER BY id.
  unfoldable pub page_of : (List Product → List Product) → ℕ → ℕ → List Product → ProductListOut
  page_of order_by_id limit offset products = record {
    items = map to_out (take limit (drop offset (order_by_id products)));
    total = length products;
    limit = limit;
    offset = offset;
  }

  unfoldable pub serve_page :
      (List Product → List Product)
      → ℕ
      → ℕ
      → ℕ
      → Option ProductListOut
      → Action (Catalog C) ProductListOut
  serve_page order_by_id now limit offset (some cached) s =
      (ok cached, record s { cache_hits_total = s.cache_hits_total + 1 })
  serve_page order_by_id now limit offset none s =
      let result = page_of order_by_id limit offset s.products in
      (
        ok result,
        record s {
          cache_misses_total = s.cache_misses_total + 1;
          pages = C.set_page now limit offset result settings.product_cache_ttl_seconds s.pages;
        },
      )

  -- `list_products`, with the validation of its query.
  unfoldable pub list_products :
      (List Product → List Product) → ℕ → ℕ → ℕ → Action (Catalog C) ProductListOut
  unfolding serve_page
  list_products order_by_id now limit offset = do
    raise_if (ltb limit 1 || ltb 100 limit) invalid_limit
    λ s. serve_page order_by_id now limit offset (C.get_page now limit offset s.pages) s

  -- `get_price`, which reads the table and never the cache.
  unfoldable pub get_price : String → Action (Catalog C) PriceOut
  get_price product_id s = elim (find id_of product_id s.products) [
    | none ↦ (err (product_not_found product_id), s)
    | some p ↦ (ok (price_out p), s)
  ]

  module _ (request_id x_internal_token x_internal_caller : String) where
    -- GET /catalog/products/{product_id}/price, with the dependency `require_price_reader`.
    unfoldable pub get_price_endpoint : String → Catalog C → Response PriceOut × Catalog C
    unfolding get_price
    get_price_endpoint product_id s =
        let (r, s') =
          (do
            lift (
                require_internal_caller settings.internal_service_token
                  ("cart-service" ∷ "order-service" ∷ []) x_internal_token x_internal_caller)
            get_price product_id)
            s in
        (respond request_id 200 r, s')
