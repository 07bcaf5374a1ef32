-- ===== src/Order/Clearing.antt =====
-- What the checkout saga does to the cart of the buyer, when every call is answered.
use ecommerce_services.Common.{
  ℕ, String, true, Option, none, some, List, [], ◌∷◌, ◌++◌, map, ◌≡◌, refl, ◌∙◌, inl, inr,
}
use ecommerce_services.Order.Services.{Services}
use ecommerce_services.Order.World.{World, Settings, Order, Metrics, answered}
use ecommerce_services.Order.Clients.{
  Charge, charged, not_charged, internal_headers, charge, read_charge, reserve_stock, release_stock,
  clear_cart_items,
}
use ecommerce_services.Order.Saga.{Line, OrderOut, publish, save, touched, reserve_all, release_all}
use ecommerce_services.Order.Checkout.{
  product_of, fail_order, pay_order, settle, charge_order, reserve_or_fail, run_saga,
  count_payment_failure, count_reservation_failure,
}
use ecommerce_services.Order.Stock.{Reservation-cases, reserve_stock_quiet, release_stock_quiet}

module _ (S : Services) (settings : Settings) where
  -- The carts and what a call to them depends on are the same, and calls go on to be answered.
  abbrev pub Kept : World S → World S → Type 0
  Kept w w' = (w'.cart ≡ w.cart) × (w'.fates ≡ []) × (w'.request_id ≡ w.request_id)

  Kept-trans : (u v w : World S) → Kept u v → Kept v w → Kept u w
  Kept-trans u v w (a, b, c) (a', b', c') = (a' ∙ a, b', c' ∙ c)

  -- The payments are the same, too.
  abbrev pub Untouched : World S → World S → Type 0
  Untouched w w' = Kept w w' × (w'.payment ≡ w.payment)

  Untouched-trans : (u v w : World S) → Untouched u v → Untouched v w → Untouched u w
  Untouched-trans u v w (a, b) (a', b') = (Kept-trans u v w a a', b' ∙ b)

  reserve_stock-Untouched :
      (p : String) (q : ℕ) (i : String) (w : World S)
      → w.fates ≡ []
      → Untouched w (reserve_stock S settings p q i w).1
  reserve_stock-Untouched p q i w e =
      rw (reserve_stock_quiet S settings p q i w e) ((refl, e, refl), refl)

  release_stock-Untouched :
      (p : String) (q : ℕ) (i : String) (w : World S)
      → w.fates ≡ []
      → Untouched w (release_stock S settings p q i w)
  release_stock-Untouched p q i w e =
      rw (release_stock_quiet S settings p q i w e) ((refl, e, refl), refl)

  pub charge_quiet :
      (i : String) (amount : ℕ) (currency key : String) (w : World S)
      → w.fates ≡ []
      → let (r, p) =
          S.payment.charge
            (internal_headers S settings w)
            (record { order_id = i; amount = amount; currency = currency; idempotency_key = key })
            w.payment in
        charge S settings i amount currency key w
        ≡ (read_charge (answered r), record w { payment = p })
  unfolding charge
  charge_quiet i amount currency key w e = rw e

  pub charge-Kept :
      (i : String) (amount : ℕ) (currency key : String) (w : World S)
      → w.fates ≡ []
      → Kept w (charge S settings i amount currency key w).1
  charge-Kept i amount currency key w e =
      rw (charge_quiet i amount currency key w e) (refl, e, refl)

  pub reserve_all-Untouched :
      (lines : List Line) (i : String) (so_far : List Line) (w : World S)
      → w.fates ≡ []
      → Untouched w (reserve_all S settings lines i so_far w).1
  unfolding reserve_all
  reserve_all-Untouched [] i so_far w e = ((refl, e, refl), refl)
  reserve_all-Untouched ((p, q) ∷ lines) i so_far w e =
      let v = (reserve_stock S settings p q i w).1 in
      let k = reserve_stock-Untouched p q i w e in
      elim (Reservation-cases (reserve_stock S settings p q i w).0) [
        | inl granted ↦
            rw (granted, reserve_all)
              (Untouched-trans w v (reserve_all S settings lines i (so_far ++ (p, q) ∷ []) v).1 k
                (reserve_all-Untouched lines i (so_far ++ (p, q) ∷ []) v k.0.1))
        | inr (reason, refused) ↦ rw (refused, reserve_all) k
      ]

  pub release_all-Untouched :
      (lines : List Line) (i : String) (w : World S)
      → w.fates ≡ []
      → Untouched w (release_all S settings lines i w)
  unfolding release_all
  release_all-Untouched [] i w e = ((refl, e, refl), refl)
  release_all-Untouched ((p, q) ∷ lines) i w e =
      let v = release_stock S settings p q i w in
      let k = release_stock-Untouched p q i w e in
      Untouched-trans w v (release_all S settings lines i v) k
        (release_all-Untouched lines i v k.0.1)

  -- The carts after the call that removes the products of an order.
  abbrev pub cleared : World S → String → List String → S.cart.State
  cleared w user_id products =
      (S.cart.batch_remove (internal_headers S settings w) user_id products w.cart).1

  cleared-Kept :
      (u : String) (is : List String) (v w : World S) → Kept v w → cleared w u is ≡ cleared v u is
  cleared-Kept u is v w (cart, fates, request) = rw (cart, request)

  clear_cart_items-cleared :
      (u i : String) (is : List String) (w : World S)
      → w.fates ≡ []
      → (clear_cart_items S settings u (i ∷ is) w).cart ≡ cleared w u (i ∷ is)
  unfolding clear_cart_items
  clear_cart_items-cleared u i is w e = rw e

  abbrev Clears : Order → List Line → World S → OrderOut × World S → Type 0
  Clears o lines w r = r.1.cart ≡ cleared w o.user_id (map product_of lines)

  fail_order-Clears :
      (count : Metrics → Metrics) (o : Order) (reason : String) (l : Line) (lines : List Line)
      (w : World S)
      → w.fates ≡ []
      → Clears o (l ∷ lines) w (fail_order S settings count o reason (l ∷ lines) w)
  unfolding fail_order save publish
  fail_order-Clears count o reason l lines w e =
      clear_cart_items-cleared o.user_id (product_of l) (map product_of lines) _ e

  pay_order-Clears :
      (o : Order) (l : Line) (lines : List Line) (w : World S)
      → w.fates ≡ []
      → Clears o (l ∷ lines) w (pay_order S settings o (l ∷ lines) w)
  unfolding pay_order save publish
  pay_order-Clears o l lines w e =
      clear_cart_items-cleared o.user_id (product_of l) (map product_of lines) _ e

  settle-Clears :
      (o : Order) (l : Line) (lines : List Line) (c : Charge) (w : World S)
      → w.fates ≡ []
      → Clears o (l ∷ lines) w (settle S settings o (l ∷ lines) (c, w))
  unfolding settle
  settle-Clears o l lines charged w e = pay_order-Clears o l lines w e
  settle-Clears o l lines (not_charged reason) w e =
      let k = (release_all-Untouched (l ∷ lines) o.id w e).0 in
      fail_order-Clears count_payment_failure o reason l lines _ k.1
      ∙ cleared-Kept o.user_id (map product_of (l ∷ lines)) w
          (release_all S settings (l ∷ lines) o.id w) k

  charge_order-Clears :
      (o : Order) (l : Line) (lines : List Line) (w : World S)
      → w.fates ≡ []
      → Clears o (l ∷ lines) w (charge_order S settings o (l ∷ lines) w)
  unfolding charge_order save
  charge_order-Clears o l lines w e =
      let o' : Order = touched S w (record o { stock_reserved = true }) in
      let u : World S = save S o' w in
      let c = charge S settings o'.id o'.amount_cents "INR" o'.idempotency_key u in
      let k = charge-Kept o'.id o'.amount_cents "INR" o'.idempotency_key u e in
      settle-Clears o' l lines c.0 c.1 k.1
      ∙ cleared-Kept o.user_id (map product_of (l ∷ lines)) u c.1 k

  reserve_or_fail-Clears :
      (o : Order) (l : Line) (lines done : List Line) (failure : Option String) (w : World S)
      → w.fates ≡ []
      → Clears o (l ∷ lines) w (reserve_or_fail S settings o (l ∷ lines) ((done, failure), w))
  unfolding reserve_or_fail
  reserve_or_fail-Clears o l lines done none w e = charge_order-Clears o l lines w e
  reserve_or_fail-Clears o l lines done (some reason) w e =
      let k = (release_all-Untouched done o.id w e).0 in
      fail_order-Clears count_reservation_failure o reason l lines _ k.1
      ∙ cleared-Kept o.user_id (map product_of (l ∷ lines)) w (release_all S settings done o.id w) k

  -- The carts at the end of a saga whose calls are all answered.
  pub run_saga-cleared :
      (o : Order) (l : Line) (lines : List Line) (w : World S)
      → w.fates ≡ []
      → (run_saga S settings o (l ∷ lines) w).1.cart
        ≡ cleared w o.user_id (map product_of (l ∷ lines))
  unfolding run_saga
  run_saga-cleared o l lines w e =
      let x = reserve_all S settings (l ∷ lines) o.id [] w in
      let k = (reserve_all-Untouched (l ∷ lines) o.id [] w e).0 in
      reserve_or_fail-Clears o l lines x.0.0 x.0.1 x.1 k.1
      ∙ cleared-Kept o.user_id (map product_of (l ∷ lines)) w x.1 k
