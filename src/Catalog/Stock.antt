-- ===== src/Catalog/Stock.antt =====
-- app/routers/catalog.py of services/catalog-service: the writes, reserve_stock and release_stock.
use Prim.Native.String.{◌++◌ as append}
use ecommerce_services.Common.{
  ℕ, ◌+◌, String, true, false, not, Option, none, some, [], ◌∷◌, ltb, if◌then◌else◌,
}
use ecommerce_services.Common.Int.{ℤ, pos, ◌+ℤ◌, ◌-ℤ◌, ltb_ℤ}
use ecommerce_services.Common.Table.{find, update}
use ecommerce_services.Shared.{
  AppError, app_error, ok, err, Action, Response, respond, lift, raise_if, ◌>>◌,
}
use ecommerce_services.Shared.InternalAuth.{require_internal_caller}
use ecommerce_services.Catalog.Defs.{
  Product, id_of, ReserveRequest, ReleaseRequest, ReserveResponse, Settings, Caches, Catalog,
  product_key,
}

abbrev pub product_not_found : String → AppError
product_not_found product_id =
    app_error "PRODUCT_NOT_FOUND" (append "No product with id " product_id) 404

abbrev pub insufficient_stock : AppError
insufficient_stock = app_error "INSUFFICIENT_STOCK" "Requested quantity exceeds available stock" 409

-- `Field(gt=0)` on the quantity; the text of the message is the validation library's.
abbrev pub invalid_quantity : AppError
invalid_quantity = app_error "VALIDATION_ERROR" "quantity: Input should be greater than 0" 422

abbrev reserved_out : ReserveRequest → ℤ → ReserveResponse
reserved_out body remaining = record {
  product_id = body.product_id;
  order_id = body.order_id;
  reserved = true;
  remaining_stock = remaining;
}

abbrev released_out : ReserveRequest → ℤ → ReserveResponse
released_out body stock = record {
  product_id = body.product_id;
  order_id = body.order_id;
  reserved = false;
  remaining_stock = stock;
}

-- UPDATE products SET stock = stock - :q
abbrev pub take_stock : ℕ → Product → Product
take_stock q p = record p { stock = p.stock -ℤ pos q }

-- UPDATE products SET stock = stock + :q
abbrev pub put_stock : ℕ → Product → Product
put_stock q p = record p { stock = p.stock +ℤ pos q }

module _ (C : Caches) where
  -- `invalidate_product`
  unfoldable pub invalidate_product : String → Catalog C → Catalog C
  invalidate_product product_id s = record s {
    cache = C.by_id.delete (product_key product_id) s.cache;
  }

  -- `reserve_stock` after SELECT … FOR UPDATE; a raise rolls the transaction back, and leaves the
  -- metric.
  unfoldable pub reserve_row : Option Product → ReserveRequest → Action (Catalog C) ReserveResponse
  reserve_row none body s = (err (product_not_found body.product_id), s)
  reserve_row (some row) body s =
      if ltb_ℤ row.stock (pos body.quantity)
      then (err insufficient_stock, record s { conflicts_total = s.conflicts_total + 1 })
      else (
        ok (reserved_out body (row.stock -ℤ pos body.quantity)),
        invalidate_product body.product_id (record s {
          products = update id_of body.product_id (take_stock body.quantity) s.products;
        }),
      )

  unfoldable pub reserve_stock : ReserveRequest → Action (Catalog C) ReserveResponse
  unfolding reserve_row
  reserve_stock body s = reserve_row (find id_of body.product_id s.products) body s

  -- `release_stock`: the row count of the UPDATE is 0 exactly when no row has the id.
  unfoldable pub release_row : Option Product → ReleaseRequest → Action (Catalog C) ReserveResponse
  release_row none body s = (err (product_not_found body.product_id), s)
  release_row (some row) body s = (
    ok (released_out body (row.stock +ℤ pos body.quantity)),
    invalidate_product body.product_id
        (record s { products = update id_of body.product_id (put_stock body.quantity) s.products }),
  )

  unfoldable pub release_stock : ReleaseRequest → Action (Catalog C) ReserveResponse
  unfolding release_row
  release_stock body s = release_row (find id_of body.product_id s.products) body s

  module _ (settings : Settings) (request_id x_internal_token x_internal_caller : String) where
    -- POST /catalog/stock/reserve: the dependency `require_order_service`, the validation of the
    -- body, the handler, and the response.
    unfoldable pub post_reserve : ReserveRequest → Catalog C → Response ReserveResponse × Catalog C
    unfolding reserve_stock
    post_reserve body s =
        let (r, s') =
          (do
            lift (
                require_internal_caller settings.internal_service_token ("order-service" ∷ [])
                  x_internal_token x_internal_caller)
            raise_if (not (ltb 0 body.quantity)) invalid_quantity
            reserve_stock body)
            s in
        (respond request_id 200 r, s')

    -- POST /catalog/stock/release
    unfoldable pub post_release : ReleaseRequest → Catalog C → Response ReserveResponse × Catalog C
    unfolding release_stock
    post_release body s =
        let (r, s') =
          (do
            lift (
                require_internal_caller settings.internal_service_token ("order-service" ∷ [])
                  x_internal_token x_internal_caller)
            raise_if (not (ltb 0 body.quantity)) invalid_quantity
            release_stock body)
            s in
        (respond request_id 200 r, s')
