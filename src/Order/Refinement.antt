-- ===== src/Order/Refinement.antt =====
-- order-service implements the machine of Order/Lifecycle.antt, whatever it does.
use ecommerce_services.Common.{
  ℕ, String, Option, none, some, Option-cases, List, [], ◌∷◌, map, refl, inl, inr, ◌==◌, Bool-cases,
}
use ecommerce_services.Common.Table.{find}
use ecommerce_services.Shared.{Result, ok, err, Result-cases, Action, continue}
use ecommerce_services.Order.Services.{Services, CartItem}
use ecommerce_services.Order.World.{World, Settings, key_of}
use ecommerce_services.Order.Clients.{get_price, get_cart_items}
use ecommerce_services.Order.Saga.{Line, CreateOrder, resolve_items, price_all, empty_cart, line_of}
use ecommerce_services.Order.Checkout.{place_order, create_order_for, create_order, new_order}
use ecommerce_services.Order.Frame.{transmit_as-own}
use ecommerce_services.Order.Sweep.{IsUnique}
use ecommerce_services.Order.Frame.{own}
use ecommerce_services.Order.Lifecycle.{Db, db_of, Runs, here, next, wait}
use ecommerce_services.Order.Acts.{
  Act, Acts, post, reconcile, deliver, wait as pause, done, and_then, perform, perform_all,
}
use ecommerce_services.Order.Follows.{Reached, framed, start_saga-Reached}
use ecommerce_services.Order.Passes.{reconciliation_pass-Reached, delivery_pass-Reached}

module _ (S : Services) (settings : Settings) (start : Db) (unique : IsUnique start.orders) where
  abbrev At : World S → Type 0
  At = Reached S settings start

  get_price-Reached : (p : String) (w : World S) → At w → At (get_price S settings p w).1
  unfolding get_price
  get_price-Reached p w u = framed S settings start (transmit_as-own S w.fates _ (λ v. refl) w) u

  get_cart_items-Reached : (a : String) (w : World S) → At w → At (get_cart_items S settings a w).1
  unfolding get_cart_items
  get_cart_items-Reached a w u =
      framed S settings start (transmit_as-own S w.fates _ (λ v. refl) w) u

  price_all-Reached :
      (lines : List Line) (amount : ℕ) (w : World S)
      → At w
      → At (price_all S settings lines amount w).1
  unfolding price_all
  price_all-Reached [] amount w u = u
  price_all-Reached ((p, q) ∷ lines) amount w u =
      let v = get_price-Reached p w u in
      elim (Result-cases (get_price S settings p w).0) [
        | inr (e, failed) ↦ rw (failed, price_all) v
        | inl (price, known) ↦ rw (known, price_all) (price_all-Reached lines _ _ v)
      ]

  continue-Reached :
      {A B : Type 0} (r : Result A) (f : A → Action (World S) B) (w : World S)
      → At w
      → ((a : A) (v : World S) → At v → At (f a v).1)
      → At (continue r f w).1
  continue-Reached (ok a) f w u step = step a w u
  continue-Reached (err e) f w u step = u

  cart_lines-Reached :
      (items : List CartItem) (w : World S)
      → At w
      → At
          (elim items as (λ x. Result (List Line) × World S) [
            | [] ↦ (err empty_cart, w)
            | i ∷ is ↦ (ok (map line_of (i ∷ is)), w)
          ]).1
  cart_lines-Reached [] w u = u
  cart_lines-Reached (i ∷ is) w u = u

  resolve_items-Reached :
      (q : CreateOrder) (items : Option (List Line)) (w : World S)
      → At w
      → At (resolve_items S settings (record q { items = items }) w).1
  unfolding resolve_items
  resolve_items-Reached q (some (i ∷ is)) w u = u
  resolve_items-Reached q (some []) w u =
      continue-Reached (get_cart_items S settings q.authorization w).0 _ _
        (get_cart_items-Reached q.authorization w u) cart_lines-Reached
  resolve_items-Reached q none w u =
      continue-Reached (get_cart_items S settings q.authorization w).0 _ _
        (get_cart_items-Reached q.authorization w u) cart_lines-Reached

  module _ (meanwhile : World S → World S) (others : (w : World S) → At w → At (meanwhile w)) where
    place_order-Reached :
        (q : CreateOrder) (key : String) (w : World S)
        → At w
        → At (place_order S settings meanwhile q key w).1
    unfolding place_order
    place_order-Reached q key w u =
        continue-Reached (resolve_items S settings q w).0 _ _ (resolve_items-Reached q q.items w u)
          (λ lines v h.
            continue-Reached (price_all S settings lines 0 v).0 _ _ (price_all-Reached lines 0 v h)
              (λ amount x k.
                start_saga-Reached S settings start (new_order q key amount (meanwhile x).now) lines
                  (meanwhile x) refl refl (others x k)))

    create_order_for-Reached :
        (q : CreateOrder) (key : String) (w : World S)
        → At w
        → At (create_order_for S settings meanwhile q key w).1
    unfolding create_order_for
    create_order_for-Reached q key w u = elim (Bool-cases (key == "")) [
      | inl missing ↦ rw missing u
      | inr given ↦ elim (Option-cases (find key_of key w.orders)) [
        | inl fresh ↦ rw (given, fresh, create_order_for) (place_order-Reached q key w u)
        | inr (o, found) ↦ rw (given, found, create_order_for) u
      ]
    ]

    create_order-Reached :
        (q : CreateOrder) (w : World S) → At w → At (create_order S settings meanwhile q w).1
    unfolding create_order
    create_order-Reached q w u = elim (Option-cases q.idempotency_key) [
      | inl missing ↦ rw (missing, create_order) u
      | inr (key, given) ↦ rw (given, create_order) (create_order_for-Reached q key w u)
    ]

  mutual
    unfolding perform perform_all

    pub perform-Reached : (a : Act) (w : World S) → At w → At (perform S settings a w)
    perform-Reached (post q others) w u =
        create_order-Reached (perform_all S settings others) (perform_all-Reached others) q w u
    perform-Reached reconcile w u = reconciliation_pass-Reached S settings start unique w u
    perform-Reached deliver w u = delivery_pass-Reached S settings start unique w u
    perform-Reached (pause d) w u = next u (wait (db_of (own S w)) d)

    pub perform_all-Reached :
        (acts : Acts) (w : World S) → At w → At (perform_all S settings acts w)
    perform_all-Reached done w u = u
    perform_all-Reached (and_then a acts) w u =
        perform_all-Reached acts (perform S settings a w) (perform-Reached a w u)

-- Whatever order-service does, its database goes the way of the machine: over any sequence of requests,
-- passes of the jobs and pauses, where anything of that may also happen between the pricing and the
-- insertion of a request, and whatever becomes of the HTTP calls, the tables, the events and the
-- clock afterwards are reached from those before by the transitions place, reserve, pay, fail, deliver
-- and wait, each under its condition. The ids in the table are assumed to be unique at first.
pub perform_all-Runs :
    (S : Services) (settings : Settings) (acts : Acts) (w : World S)
    → IsUnique w.orders
    → Runs (db_of (own S w)) (db_of (own S (perform_all S settings acts w)))
perform_all-Runs S settings acts w unique =
    perform_all-Reached S settings (db_of (own S w)) unique acts w here
