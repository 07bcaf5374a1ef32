-- ===== src/Order/Conservation.antt =====
-- The checkout saga conserves the stock: it takes exactly what a paid order lists, and nothing for an
-- order that fails.
use ecommerce_services.Common.{
  true, ℕ, String, Option, none, some, List, [], ◌∷◌, ◌≡◌, refl, sym, ap, ◌∙◌, ◌⊎◌, inl, inr,
}
use ecommerce_services.Common.Int.{ℤ}
use ecommerce_services.Common.Redis.{is_some}
use ecommerce_services.Shared.{Response}
use ecommerce_services.Order.Services.{Services, less, more, more-less_self, is_some-less}
use ecommerce_services.Order.World.{
  World, Settings, Fate, delivered, dropped, lost, transmit_as, paid, failed, Order, Metrics,
}
use ecommerce_services.Order.Clients.{Charge, charged, not_charged, charge, clear_cart_items}
use ecommerce_services.Order.Saga.{
  Line, OrderOut, order_out, reserve_all, release_all, save, touched,
}
use ecommerce_services.Order.Checkout.{
  fail_order, pay_order, settle, charge_order, reserve_or_fail, run_saga, count_payment_failure,
  count_reservation_failure,
}
use ecommerce_services.Order.Stock.{
  ordered, stock_in, Reserving, reserve_all-Reserving, release_all-stock, All-Exists,
}

module _ (S : Services) (settings : Settings) where
  transmit_as-catalog :
      {A : Type 0} (fates : List Fate) (call : World S → Response A × World S)
      → ((v : World S) → (call v).1.catalog ≡ v.catalog)
      → (w : World S) → (transmit_as fates call w).1.catalog ≡ w.catalog
  unfolding transmit_as
  transmit_as-catalog [] call same w = same w
  transmit_as-catalog (delivered ∷ fs) call same w = same (record w { fates = fs })
  transmit_as-catalog (dropped exc ∷ fs) call same w = refl
  transmit_as-catalog (lost exc ∷ fs) call same w = same (record w { fates = fs })

  -- A call to the cart leaves the catalog alone, whatever its fate.
  pub clear_cart_items-catalog :
      (u : String) (is : List String) (w : World S)
      → (clear_cart_items S settings u is w).catalog ≡ w.catalog
  unfolding clear_cart_items
  clear_cart_items-catalog u [] w = refl
  clear_cart_items-catalog u (i ∷ is) w = transmit_as-catalog w.fates _ (λ v. refl) w

  fail_order-stock :
      (count : Metrics → Metrics) (o : Order) (reason : String) (lines : List Line) (w : World S)
      → let (out, w') = fail_order S settings count o reason lines w in
        (out.status ≡ failed) × (w'.catalog ≡ w.catalog)
  unfolding fail_order order_out
  fail_order-stock count o reason lines w = (refl, clear_cart_items-catalog _ _ _)

  pay_order-stock :
      (o : Order) (lines : List Line) (w : World S)
      → let (out, w') = pay_order S settings o lines w in
        (out.status ≡ paid) × (w'.catalog ≡ w.catalog)
  unfolding pay_order order_out
  pay_order-stock o lines w = (refl, clear_cart_items-catalog _ _ _)

  charge_quiet :
      (i : String) (amount : ℕ) (currency key : String) (w : World S)
      → w.fates ≡ []
      → let w' = (charge S settings i amount currency key w).1 in
        (w'.catalog ≡ w.catalog) × (w'.fates ≡ [])
  unfolding charge
  charge_quiet i amount currency key w e = rw e (refl, refl)

  -- How a saga has ended, and what it has done to the stock.
  abbrev pub Settles : List Line → (String → Option ℤ) → OrderOut × World S → Type 0
  Settles lines stock (out, w') =
      ((out.status ≡ paid)
        × ((j : String) → stock_in S settings w' j ≡ less (ordered j lines) (stock j)))
      ⊎ ((out.status ≡ failed) × ((j : String) → stock_in S settings w' j ≡ stock j))

  -- Everything that a failed saga has reserved is put back.
  fail_order-Settles :
      (count : Metrics → Metrics) (o : Order) (reason : String) (lines done : List Line)
      (stock : String → Option ℤ) (w : World S)
      → ((j : String) → stock_in S settings w j ≡ stock j)
      → Settles lines stock (fail_order S settings count o reason lines w)
  fail_order-Settles count o reason lines done stock w same =
      let (status, c) = fail_order-stock count o reason lines w in
      inr (status, λ j. ap (λ x. S.catalog.stock x j) c ∙ same j)

  -- What was taken for the lines `done`, and is releasable, is there again after the compensation.
  pub compensated :
      (lines done : List Line) (order_id : String) (w v : World S) (failure : Option String)
      → Reserving S settings lines order_id w v done failure
      → (u : World S) → u.catalog ≡ v.catalog
      → u.fates ≡ []
      → (j : String)
      → stock_in S settings (release_all S settings done order_id u) j ≡ stock_in S settings w j
  compensated lines done order_id w v failure r u same quiet j =
      let at_u : (k : String)
          → stock_in S settings u k ≡ less (ordered k done) (stock_in S settings w k) =
        λ k. ap (λ x. S.catalog.stock x k) same ∙ r.taken k in
      release_all-stock S settings done order_id u quiet r.releasable
        (All-Exists S settings (stock_in S settings w) (stock_in S settings u) done
          (λ k. sym (ap is_some (at_u k) ∙ is_some-less (ordered k done) (stock_in S settings w k)))
          r.exist)
        j
      ∙ ap (more (ordered j done)) (at_u j)
      ∙ more-less_self (ordered j done) (stock_in S settings w j)

  settle-Settles :
      (o : Order) (lines done : List Line) (w v : World S) (failure : Option String)
      → Reserving S settings lines o.id w v done failure
      → done ≡ lines
      → (c : Charge) (u : World S) → u.catalog ≡ v.catalog
      → u.fates ≡ []
      → Settles lines (stock_in S settings w) (settle S settings o lines (c, u))
  unfolding settle
  settle-Settles o lines done w v failure r all charged u same quiet =
      let (status, c) = pay_order-stock o lines u in
      inl (
        status,
        λ j.
            ap (λ x. S.catalog.stock x j) (c ∙ same)
            ∙ r.taken j
            ∙ ap (λ d. less (ordered j d) (stock_in S settings w j)) all,
      )
  settle-Settles o lines done w v failure r all (not_charged reason) u same quiet =
      fail_order-Settles count_payment_failure o reason lines done (stock_in S settings w)
        (release_all S settings lines o.id u)
        (λ j.
          ap (λ d. stock_in S settings (release_all S settings d o.id u) j) (sym all)
          ∙ compensated lines done o.id w v failure r u same quiet j)

  reserve_or_fail-Settles :
      (o : Order) (lines done : List Line) (w v : World S) (failure : Option String)
      → Reserving S settings lines o.id w v done failure
      → Settles lines
          (stock_in S settings w)
          (reserve_or_fail S settings o lines ((done, failure), v))
  unfolding reserve_or_fail charge_order
  reserve_or_fail-Settles o lines done w v (some reason) r =
      fail_order-Settles count_reservation_failure o reason lines done (stock_in S settings w)
        (release_all S settings done o.id v)
        (compensated lines done o.id w v (some reason) r v refl r.quiet)
  reserve_or_fail-Settles o lines done w v none r =
      let o' : Order = touched S v (record o { stock_reserved = true }) in
      let u : World S = save S o' v in
      let c = charge S settings o'.id o'.amount_cents "INR" o'.idempotency_key u in
      let (same, quiet) = charge_quiet o'.id o'.amount_cents "INR" o'.idempotency_key u r.quiet in
      settle-Settles o' lines done w v none r (r.complete refl) c.0 c.1 same quiet

  -- If every HTTP call of a saga is answered, the order that it returns is PAID and the stock of each
  -- product has fallen by the quantity that the order lists of it, or the order is FAILED and the
  -- stock of each product is what it was before: whatever was reserved has been released.
  pub run_saga-conserves_stock :
      (o : Order) (lines : List Line) (w : World S)
      → w.fates ≡ []
      → Settles lines (stock_in S settings w) (run_saga S settings o lines w)
  unfolding run_saga
  run_saga-conserves_stock o lines w e =
      let ((done, failure), v) = reserve_all S settings lines o.id [] w in
      reserve_or_fail-Settles o lines done w v failure
        (reserve_all-Reserving S settings lines o.id w e)
