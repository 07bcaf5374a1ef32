-- ===== src/Order/Services.antt =====
-- What order-service calls in the other services: an endpoint for each call, and the promises about
-- the stock that the checkout saga rests on. The catalog's endpoints fill the first record.
use mathlib.Core.Option
use ecommerce_services.Common.{
  ℕ, ◌+◌, String, true, Option, none, some, List, ◌≡◌, ◌≢◌, ◌==◌, if◌then◌else◌, refl, ap,
}
use ecommerce_services.Common.Redis.{is_some}
use ecommerce_services.Common.Int.{ℤ, pos, ◌+ℤ◌, ◌-ℤ◌, int_laws}
use ecommerce_services.Shared.{Response}
use ecommerce_services.Catalog.{PriceOut, ReserveRequest, ReserveResponse}

-- A stock that a quantity is taken from or put back to; `none` is a product that does not exist.
unfoldable pub less : ℕ → Option ℤ → Option ℤ
less q = Option.map (λ v. v -ℤ pos q)

unfoldable pub more : ℕ → Option ℤ → Option ℤ
more q = Option.map (λ v. v +ℤ pos q)

-- The quantity of a request, counted for the product `j`.
abbrev pub share : String → String → ℕ → ℕ
share j product_id quantity = if product_id == j then quantity else 0

abbrev pub Headers : Type 0
Headers = String × String × String

-- The request id, the internal token and the name of the caller.
abbrev pub headers : String → String → String → Headers
headers request_id token caller = (request_id, token, caller)

pub record CatalogApi : Type 1 where
  pub State : Type 0
  pub get_price : Headers → String → State → Response PriceOut × State
  pub reserve : Headers → ReserveRequest → State → Response ReserveResponse × State
  pub release : Headers → ReserveRequest → State → Response ReserveResponse × State
  pub stock : State → String → Option ℤ
  pub get_price-stock :
      (h : Headers) (i j : String) (s : State) → stock (get_price h i s).1 j ≡ stock s j
  pub reserve_granted :
      (h : Headers) (body : ReserveRequest) (s : State)
      → (reserve h body s).0.status_code ≡ 200
      → (j : String)
      → stock (reserve h body s).1 j ≡ less (share j body.product_id body.quantity) (stock s j)
  pub reserve_refused :
      (h : Headers) (body : ReserveRequest) (s : State)
      → (reserve h body s).0.status_code ≢ 200
      → (j : String) → stock (reserve h body s).1 j ≡ stock s j
  -- What has been reserved can be released in any state in which the product exists, by the same
  -- caller in any request.
  pub release_granted :
      (h : Headers) (r : String) (body : ReserveRequest) (s t : State)
      → (reserve h body s).0.status_code ≡ 200
      → is_some (stock t body.product_id) ≡ true
      → (j : String)
      → stock (release (headers r h.1 h.2) body t).1 j
        ≡ more (share j body.product_id body.quantity) (stock t j)
  pub reserve_exists :
      (h : Headers) (body : ReserveRequest) (s : State)
      → (reserve h body s).0.status_code ≡ 200
      → is_some (stock s body.product_id) ≡ true

-- `ChargeRequest` of payment-service.
pub record ChargeRequest : Type 0 where
  pub order_id : String
  pub amount : ℕ
  pub currency : String
  pub idempotency_key : String

pub record ChargeResponse : Type 0 where
  pub order_id : String
  pub amount : ℕ
  pub currency : String
  pub idempotency_key : String
  pub status : String
  pub charged_at : ℕ

pub record PaymentApi : Type 1 where
  pub State : Type 0
  pub charge : Headers → ChargeRequest → State → Response ChargeResponse × State

-- `CartItemOut` of cart-service.
pub record CartItem : Type 0 where
  pub product_id : String
  pub quantity : ℕ

pub record CartApi : Type 1 where
  pub State : Type 0
  -- GET /cart, with the user's own Authorization header.
  pub get_cart : String → String → State → Response (List CartItem) × State
  -- DELETE /cart/items:batch, for a user.
  pub batch_remove : Headers → String → List String → State → Response (List String) × State

pub record Services : Type 1 where
  pub catalog : CatalogApi
  pub payment : PaymentApi
  pub cart : CartApi

-- Laws of the two movements of a stock.
pub less-zero : (o : Option ℤ) → less 0 o ≡ o
unfolding less
less-zero none = refl
less-zero (some v) = ap (λ w. some w) (omega int_laws)

pub less-less : (a b : ℕ) (o : Option ℤ) → less b (less a o) ≡ less (a + b) o
unfolding less
less-less a b none = refl
less-less a b (some v) = ap (λ w. some w) (grind int_laws)

pub more-more : (a b : ℕ) (o : Option ℤ) → more b (more a o) ≡ more (a + b) o
unfolding more
more-more a b none = refl
more-more a b (some v) = ap (λ w. some w) (grind int_laws)

pub more-zero : (o : Option ℤ) → more 0 o ≡ o
unfolding more
more-zero none = refl
more-zero (some v) = ap (λ w. some w) (omega int_laws)

pub more-less_self : (a : ℕ) (o : Option ℤ) → more a (less a o) ≡ o
unfolding less more
more-less_self a none = refl
more-less_self a (some v) = ap (λ w. some w) (omega int_laws)

pub is_some-more : (a : ℕ) (o : Option ℤ) → is_some (more a o) ≡ is_some o
unfolding more
is_some-more a none = refl
is_some-more a (some v) = refl

pub is_some-less : (a : ℕ) (o : Option ℤ) → is_some (less a o) ≡ is_some o
unfolding less
is_some-less a none = refl
is_some-less a (some v) = refl
