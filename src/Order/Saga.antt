-- ===== src/Order/Saga.antt =====
-- app/routers/orders.py of services/order-service: the parts of `create_order`, the checkout saga.
use ecommerce_services.Common.{
  ℕ, ◌+◌, ◌*◌, String, ◌==◌, Option, none, some, List, [], ◌∷◌, ◌++◌, map, if◌then◌else◌,
}
use ecommerce_services.Common.Table.{update}
use ecommerce_services.Shared.{AppError, app_error, ok, err, Action, pure, ◌>>=◌}
use ecommerce_services.Order.Services.{Services, CartItem}
use ecommerce_services.Order.World.{OrderStatus, Order, OrderItem, id_of, Event, Settings, World}
use ecommerce_services.Order.Clients.{
  reserved, not_reserved, get_price, reserve_stock, release_stock, get_cart_items,
}

-- A line of an order: product id and quantity.
abbrev pub Line : Type 0
Line = String × ℕ

-- `OrderOut`; its items are the lines.
pub record OrderOut : Type 0 where
  pub id : String
  pub user_id : String
  pub status : OrderStatus
  pub amount_cents : ℕ
  pub items : List Line
  pub failure_reason : Option String
  pub created_at : ℕ

-- The request: the optional items of the body, the token's user, the two headers, and the id that
-- `uuid4` draws for the new row.
pub record CreateOrder : Type 0 where
  pub items : Option (List Line)
  pub user_id : String
  pub idempotency_key : Option String
  pub authorization : String
  pub new_id : String

abbrev pub missing_key : AppError
missing_key = app_error "MISSING_IDEMPOTENCY_KEY" "Idempotency-Key header is required" 400

abbrev pub empty_cart : AppError
empty_cart = app_error "EMPTY_CART" "Cart is empty, nothing to check out" 400

-- `_load_items`
unfoldable pub load_items : String → List OrderItem → List Line
load_items order_id [] = []
load_items order_id (i ∷ rows) =
    let rest = load_items order_id rows in
    if i.order_id == order_id then (i.product_id, i.quantity) ∷ rest else rest

abbrev pub item_row : String → Line → OrderItem
item_row order_id (p, q) = record { order_id = order_id; product_id = p; quantity = q }

abbrev pub line_of : CartItem → Line
line_of i = (i.product_id, i.quantity)

module _ (S : Services) where
  -- `_to_out` of an order and its items.
  unfoldable pub order_out : Order → World S → OrderOut
  order_out o w = record {
    id = o.id;
    user_id = o.user_id;
    status = o.status;
    amount_cents = o.amount_cents;
    items = load_items o.id w.order_items;
    failure_reason = o.failure_reason;
    created_at = o.created_at;
  }

  -- `publish_order_event`
  unfoldable pub publish : Event → World S → World S
  publish e w = record w { events = w.events ++ e ∷ [] }

  -- A commit of changes to one order: the row with the new values, and `updated_at`.
  unfoldable pub save : Order → World S → World S
  save o w = record w { orders = update id_of o.id (λ _. o) w.orders }

  abbrev pub touched : World S → Order → Order
  touched w o = record o { updated_at = w.now }

module _ (S : Services) (settings : Settings) where
  -- Step 1: the items of the body, else those of the caller's cart.
  unfoldable pub resolve_items : CreateOrder → Action (World S) (List Line)
  resolve_items q = elim q.items [
    | some (i ∷ is) ↦ pure (i ∷ is)
    | _ ↦ do
      cart_items ← get_cart_items S settings q.authorization
      λ w. elim cart_items [ [] ↦ (err empty_cart, w) | i ∷ is ↦ (ok (map line_of (i ∷ is)), w) ]
  ]

  -- Step 2: the price snapshot.
  unfoldable pub price_all : List Line → ℕ → Action (World S) ℕ
  price_all [] amount w = (ok amount, w)
  price_all ((p, q) ∷ rest) amount w =
      let (r, w') = get_price S settings p w in
      elim r [ ok price ↦ price_all rest (amount + price.price_cents * q) w' | err e ↦ (err e, w') ]

  -- Step 4: reserve the lines in order, up to the first that fails.
  unfoldable pub reserve_all :
      List Line → String → List Line → World S → (List Line × Option String) × World S
  reserve_all [] order_id so_far w = ((so_far, none), w)
  reserve_all ((p, q) ∷ rest) order_id so_far w =
      let (r, w') = reserve_stock S settings p q order_id w in
      elim r [
        | reserved ↦ reserve_all rest order_id (so_far ++ (p, q) ∷ []) w'
        | not_reserved reason ↦ ((so_far, some reason), w')
      ]

  -- The compensation: release each line.
  unfoldable pub release_all : List Line → String → World S → World S
  release_all [] order_id w = w
  release_all ((p, q) ∷ rest) order_id w =
      release_all rest order_id (release_stock S settings p q order_id w)
