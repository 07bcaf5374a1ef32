-- ===== src/Order/Queries.antt =====
-- app/routers/orders.py of services/order-service: `get_order` and `list_orders`.
use Prim.Native.String.{◌++◌ as append}
use mathlib.Core.Option.{some-injective}
use ecommerce_services.Common.{
  ℕ, String, Bool, not, Option, none, some, List, [], ◌∷◌, map, keep, take, drop, All, ◌≡◌, ◌≢◌,
  refl, ap, ◌∙◌, inl, inr, ◌==◌, arith, if◌then◌else◌, Text-cases, Option-cases, All-take, All-drop,
  length, length-map, length-take_le, ◌≤◌, sym,
}
use ecommerce_services.Common.Table.{find}
use ecommerce_services.Shared.{AppError, app_error, Result, ok, err}
use ecommerce_services.Order.Services.{Services}
use ecommerce_services.Order.World.{World, Order, id_of}
use ecommerce_services.Order.Saga.{OrderOut, order_out}

abbrev pub order_not_found : String → AppError
order_not_found order_id = app_error "ORDER_NOT_FOUND" (append "No order with id " order_id) 404

abbrev pub by_user : String → Order → Bool
by_user user_id o = o.user_id == user_id

kept :
    (user_id : String) (rows : List Order)
    → All (λ (o : Order). o.user_id ≡ user_id) (keep (by_user user_id) rows)
kept user_id [] = tt
kept user_id (o ∷ rows) = elim (Text-cases o.user_id user_id) [
  | inl (ours, t) ↦ rw (keep, t, All) (ours, kept user_id rows)
  | inr (ne, t) ↦ rw (keep, t) (kept user_id rows)
]

module _ (S : Services) where
  abbrev show_row : String → String → Option Order → World S → Result OrderOut
  show_row order_id user_id none w = err (order_not_found order_id)
  show_row order_id user_id (some o) w =
      if not (by_user user_id o) then err (order_not_found order_id) else ok (order_out S o w)

  -- `get_order`, for the user of the token.
  unfoldable pub get_order : String → String → World S → Result OrderOut
  get_order order_id user_id w = show_row order_id user_id (find id_of order_id w.orders) w

  -- `list_orders`, with the sort of the database, ORDER BY created_at DESC.
  unfoldable pub list_orders : (List Order → List Order) → String → ℕ → ℕ → World S → List OrderOut
  list_orders order_by_created user_id limit offset w =
      map (λ o. order_out S o w)
        (take limit (drop offset (order_by_created (keep (by_user user_id) w.orders))))

  -- What `get_order` answers: the order of that id to its owner, and 404 to anyone else, in the words
  -- that an unknown id has.
  abbrev pub Answers : String → String → World S → Result OrderOut → Type 0
  Answers order_id user_id w (ok out) =
      (o : Order) × (find id_of order_id w.orders ≡ some o)
      × (o.user_id ≡ user_id)
      × (out ≡ order_out S o w)
  Answers order_id user_id w (err e) =
      (e ≡ order_not_found order_id)
      × ((o : Order) → find id_of order_id w.orders ≡ some o → o.user_id ≢ user_id)

  -- An order is shown to its owner and to nobody else, whatever its state; any other request of an id
  -- is answered 404, and then no order with that id is the caller's.
  pub get_order-Answers :
      (order_id user_id : String) (w : World S)
      → Answers order_id user_id w (get_order order_id user_id w)
  unfolding get_order
  get_order-Answers order_id user_id w = elim (Option-cases (find id_of order_id w.orders)) [
    | inl missing ↦ rw missing (refl, λ o e. absurd (cc))
    | inr (o, found) ↦ elim (Text-cases o.user_id user_id) [
      | inl (ours, t) ↦ rw (found, t) (o, found, ours, refl)
      | inr (ne, t) ↦
          rw (found, t)
            (refl, λ x e mine. ne (ap (λ y. y.user_id) (some-injective o x (sym found ∙ e)) ∙ mine))
    ]
  ]

  listed :
      (user_id : String) (rows : List Order) (w : World S)
      → All (λ (o : Order). o.user_id ≡ user_id) rows
      → All (λ (x : OrderOut). x.user_id ≡ user_id) (map (λ o. order_out S o w) rows)
  unfolding order_out
  listed user_id [] w h = tt
  listed user_id (o ∷ rows) w (ours, h) = (ours, listed user_id rows w h)

  -- A page of the list holds at most as many orders as the limit, and only orders of the caller. The
  -- sort of the database is assumed to return rows that it was given.
  pub list_orders_lem :
      (order_by_created : List Order → List Order)
      → ((P : Order → Type 0) (rows : List Order) → All P rows → All P (order_by_created rows))
      → (user_id : String) (limit offset : ℕ) (w : World S)
      → All
          (λ (x : OrderOut). x.user_id ≡ user_id)
          (list_orders order_by_created user_id limit offset w)
        × (length (list_orders order_by_created user_id limit offset w) ≤ limit)
  unfolding list_orders
  list_orders_lem order_by_created sorts user_id limit offset w =
      let rows = order_by_created (keep (by_user user_id) w.orders) in
      (
        listed user_id (take limit (drop offset rows)) w
            (All-take _ limit _ (All-drop _ offset rows (sorts _ _ (kept user_id w.orders)))),
        omega (
          arith,
          length-map (λ (o : Order). order_out S o w) (take limit (drop offset rows)),
          length-take_le limit (drop offset rows),
        ),
      )
