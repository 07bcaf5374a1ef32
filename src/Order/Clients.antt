-- ===== src/Order/Clients.antt =====
-- app/clients.py of services/order-service: the calls to the other services. Expected business
-- failures come back as values; transport failures of a read raise.
use Prim.Native.String.{◌++◌ as append}
use ecommerce_services.Common.{ℕ, String, not, List, [], ◌∷◌, eqb, if◌then◌else◌}
use ecommerce_services.Common.Str.{str}
use ecommerce_services.Shared.{AppError, app_error, Result, ok, err, Body, content, error, Action}
use ecommerce_services.Catalog.{PriceOut, ReserveRequest, ReserveResponse}
use ecommerce_services.Order.Services.{
  Services, Headers, headers, ChargeRequest, ChargeResponse, CartItem,
}
use ecommerce_services.Order.World.{World, Settings, Outcome, answered, http_error, transmit}

abbrev unavailable : String → String → AppError
unavailable code message = app_error code message 503

-- What an unhandled exception is answered with.
abbrev pub internal_error : AppError
internal_error = app_error "INTERNAL_ERROR" "An unexpected error occurred" 500

-- The `reserved` and `reason` entries of the dict that `reserve_stock` returns.
pub data Reservation : Type 0 where
  reserved : Reservation
  not_reserved : String → Reservation

-- Those of `charge`.
pub data Charge : Type 0 where
  charged : Charge
  not_charged : String → Charge

-- The content of a response, for `r.json()` with the keys of the expected schema.
abbrev json_of : {A : Type 0} → Body A → Result A
json_of (content a) = ok a
json_of (error e) = err internal_error

-- `get_price` from the outcome of the call on.
unfoldable pub read_price : String → Outcome PriceOut → Result PriceOut
read_price product_id (http_error exc) =
    err (unavailable "CATALOG_UNAVAILABLE" (append "catalog-service is unavailable: " exc))
read_price product_id (answered r) =
    if eqb r.status_code 404
    then err (app_error "PRODUCT_NOT_FOUND" (append "No product with id " product_id) 404)
    else if not (eqb r.status_code 200)
    then err (app_error "CATALOG_ERROR" "catalog-service returned an unexpected error" 502)
    else json_of r.body

unfoldable pub read_reservation : Outcome ReserveResponse → Reservation
read_reservation (http_error exc) = not_reserved (append "transport_error:" exc)
read_reservation (answered r) =
    if eqb r.status_code 200
    then reserved
    else if eqb r.status_code 409
    then not_reserved "insufficient_stock"
    else if eqb r.status_code 404
    then not_reserved "product_not_found"
    else not_reserved (append "upstream_error_" (str r.status_code))

-- `r.json().get("error", {}).get("code", "payment_declined")`
abbrev declined_code : Body ChargeResponse → String
declined_code (content a) = "payment_declined"
declined_code (error e) = e.code

unfoldable pub read_charge : Outcome ChargeResponse → Charge
read_charge (http_error exc) = not_charged (append "transport_error:" exc)
read_charge (answered r) =
    if eqb r.status_code 200
    then charged
    else if eqb r.status_code 402
    then not_charged (declined_code r.body)
    else not_charged (append "upstream_error_" (str r.status_code))

-- `r.json().get("items", [])`
abbrev items_of : Body (List CartItem) → List CartItem
items_of (content items) = items
items_of (error e) = []

unfoldable pub read_cart : Outcome (List CartItem) → Result (List CartItem)
read_cart (http_error exc) =
    err (unavailable "CART_SERVICE_UNAVAILABLE" (append "cart-service is unavailable: " exc))
read_cart (answered r) =
    if not (eqb r.status_code 200)
    then err (app_error "CART_UNAVAILABLE" "Unable to retrieve cart" 502)
    else ok (items_of r.body)

module _ (S : Services) (settings : Settings) where
  -- `INTERNAL_HEADERS`, with the request id that the HTTP client adds.
  abbrev pub internal_headers : World S → Headers
  internal_headers w = headers w.request_id settings.internal_service_token "order-service"

  unfoldable pub get_price : String → Action (World S) PriceOut
  unfolding transmit read_price
  get_price product_id w =
      let (r, w') =
        transmit
          (λ v.
            let (answer, c) = S.catalog.get_price (internal_headers v) product_id v.catalog in
            (answer, record v { catalog = c }))
          w in
      (read_price product_id r, w')

  abbrev pub stock_request : String → ℕ → String → ReserveRequest
  stock_request product_id quantity order_id = record {
    product_id = product_id;
    quantity = quantity;
    order_id = order_id;
  }

  unfoldable pub reserve_stock : String → ℕ → String → World S → Reservation × World S
  unfolding transmit read_reservation
  reserve_stock product_id quantity order_id w =
      let (r, w') =
        transmit
          (λ v.
            let (answer, c) =
              S.catalog.reserve (internal_headers v) (stock_request product_id quantity order_id)
                v.catalog in
            (answer, record v { catalog = c }))
          w in
      (read_reservation r, w')

  -- Best effort: neither the answer nor a transport error is looked at, only logged.
  unfoldable pub release_stock : String → ℕ → String → World S → World S
  unfolding transmit
  release_stock product_id quantity order_id w =
      (transmit
        (λ v.
          let (answer, c) =
            S.catalog.release (internal_headers v) (stock_request product_id quantity order_id)
              v.catalog in
          (answer, record v { catalog = c }))
        w).1

  unfoldable pub charge : String → ℕ → String → String → World S → Charge × World S
  unfolding transmit read_charge
  charge order_id amount_cents currency idempotency_key w =
      let body : ChargeRequest = record {
        order_id = order_id;
        amount = amount_cents;
        currency = currency;
        idempotency_key = idempotency_key;
      } in
      let (r, w') =
        transmit
          (λ v.
            let (answer, p) = S.payment.charge (internal_headers v) body v.payment in
            (answer, record v { payment = p }))
          w in
      (read_charge r, w')

  unfoldable pub get_cart_items : String → Action (World S) (List CartItem)
  unfolding transmit read_cart
  get_cart_items authorization w =
      let (r, w') =
        transmit
          (λ v.
            let (answer, c) = S.cart.get_cart v.request_id authorization v.cart in
            (answer, record v { cart = c }))
          w in
      (read_cart r, w')

  -- Fire and forget: the answer is only logged.
  unfoldable pub clear_cart_items : String → List String → World S → World S
  unfolding transmit
  clear_cart_items user_id [] w = w
  clear_cart_items user_id (i ∷ is) w =
      (transmit
        (λ v.
          let (answer, c) = S.cart.batch_remove (internal_headers v) user_id (i ∷ is) v.cart in
          (answer, record v { cart = c }))
        w).1
