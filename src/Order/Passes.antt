-- ===== src/Order/Passes.antt =====
-- The passes of the jobs of order-service follow the machine of Order/Lifecycle.antt.
use ecommerce_services.Common.{
  ℕ, Bool, true, false, none, some, List, [], ◌∷◌, keep, ◌≡◌, refl, sym, ap, subst, ◌∙◌, inl, inr,
  arith, eq_iff, eq_refl, Bool-cases,
}
use ecommerce_services.Common.Table.{find}
use ecommerce_services.Order.Services.{Services}
use ecommerce_services.Order.World.{World, Settings, Order, pending, paid, failed, id_of}
use ecommerce_services.Order.Frame.{Own, own}
use ecommerce_services.Order.Jobs.{
  for_each, is_stuck, is_due, reconcile_order, reconciliation_pass, deliver_order, delivery_pass,
}
use ecommerce_services.Order.Sweep.{IsUnique, find-keep-none, find-set}
use ecommerce_services.Order.Reconciliation.{reconcile_order-own, timeout_label}
use ecommerce_services.Order.Delivery.{deliver_order-own}
use ecommerce_services.Order.Lifecycle.{
  Db, db_of, set_row, failed_row, delivered_row, next, fail, deliver,
}
use ecommerce_services.Order.Unique.{Runs-IsUnique}
use ecommerce_services.Order.Follows.{Reached, framed}

module _ (p : Order → Bool) where
  -- Each of the selected orders is a row of the table and passes the test.
  abbrev IsAmong : List Order → List Order → Type 0
  IsAmong [] rows = Unit
  IsAmong (o ∷ os) rows =
      (find id_of o.id rows ≡ some o) × (find id_of o.id os ≡ none) × (p o ≡ true) × IsAmong os rows

  -- A row that comes first and is none of the selected orders.
  IsAmong-first :
      (r : Order) (os rows : List Order)
      → find id_of r.id os ≡ none
      → IsAmong os rows
      → IsAmong os (r ∷ rows)
  unfolding find
  IsAmong-first r [] rows h a = tt
  IsAmong-first r (o ∷ os) rows h (found, fresh, passes, a) = (
    ground (arith, found, eq_iff r.id o.id, eq_iff o.id r.id),
    fresh,
    passes,
    IsAmong-first r os rows (ground (arith, h)) a,
  )

  -- A row that is set and is none of the selected orders.
  IsAmong-set :
      (x : Order) (os rows : List Order)
      → find id_of x.id os ≡ none
      → IsAmong os rows
      → IsAmong os (set_row x rows)
  unfolding find
  IsAmong-set x [] rows h a = tt
  IsAmong-set x (o ∷ os) rows h (found, fresh, passes, a) = (
    find-set x.id o.id x rows refl ∙ ground (arith, found, eq_iff x.id o.id, eq_iff o.id x.id),
    fresh,
    passes,
    IsAmong-set x os rows (ground (arith, h)) a,
  )

  keep-IsAmong : (rows : List Order) → IsUnique rows → IsAmong (keep p rows) rows
  keep-IsAmong [] u = tt
  keep-IsAmong (r ∷ rows) (fresh, u) =
      let rest : IsAmong (keep p rows) (r ∷ rows) =
        IsAmong-first r (keep p rows) rows (find-keep-none p r.id rows fresh)
          (keep-IsAmong rows u) in
      elim (Bool-cases (p r)) [
        | inl t ↦
            rw (t, keep)
              ((unfold find in rw (eq_refl r.id)), find-keep-none p r.id rows fresh, t, rest)
        | inr f ↦ rw (f, keep) rest
      ]

  module _ (S : Services) (settings : Settings) (start : Db) where
    -- A loop whose body takes the machine on and sets the row of its order.
    for_each-Reached :
        (body : Order → World S → World S) (set : ℕ → Order → Order)
        → ((n : ℕ) (o : Order) → (set n o).id ≡ o.id)
        → ((o : Order) (w : World S) → (body o w).orders ≡ set_row (set w.now o) w.orders)
        → ((o : Order) (w : World S)
            → find id_of o.id w.orders ≡ some o
            → p o ≡ true
            → Reached S settings start w
            → Reached S settings start (body o w))
        → (os : List Order) (w : World S) → IsAmong os w.orders
        → Reached S settings start w
        → Reached S settings start (for_each body os w)
    unfolding for_each
    for_each-Reached body set same rows step [] w a r = r
    for_each-Reached body set same rows step (o ∷ os) w (found, fresh, passes, a) r =
        for_each-Reached body set same rows step os (body o w)
          (subst (IsAmong os) (sym (rows o w)) (
            IsAmong-set (set w.now o) os w.orders (ap (λ k. find id_of k os) (same w.now o) ∙ fresh)
              a))
          (step o w found passes r)

module _ (S : Services) (settings : Settings) (start : Db) (unique : IsUnique start.orders) where
  is_stuck-pending : (n : ℕ) (o : Order) → is_stuck settings n o ≡ true → o.status ≡ pending
  is_stuck-pending n o h =
      elim o.status as (λ s. is_stuck settings n (record o { status = s }) ≡ true → s ≡ pending) [
        | pending ↦ λ h. refl
        | paid ↦ λ h. absurd (cc)
        | failed ↦ λ h. absurd (cc)
      ]
        h

  is_due-paid :
      (n : ℕ) (o : Order) → is_due settings n o ≡ true → (o.status ≡ paid) × (o.delivered ≡ false)
  is_due-paid n o h =
      elim o.status
          as (λ s.
            is_due settings n (record o { status = s }) ≡ true
            → (s ≡ paid) × (o.delivered ≡ false)) [
              | pending ↦ λ h. absurd (cc)
              | paid ↦ λ h. (refl, ground (arith, h))
              | failed ↦ λ h. absurd (cc)
            ]
        h

  pub reconciliation_pass-Reached :
      (w : World S)
      → Reached S settings start w
      → Reached S settings start (reconciliation_pass S settings w).1
  unfolding reconciliation_pass
  reconciliation_pass-Reached w r =
      for_each-Reached (is_stuck settings w.now) S settings start (reconcile_order S settings)
        (λ n o. failed_row n (timeout_label S settings) o) (λ n o. refl)
        (λ o v. ap (λ (x : Own). x.0) (reconcile_order-own S settings o v))
        (λ o v found stuck reached. framed S settings start (reconcile_order-own S settings o v) (
          next reached (
            fail (db_of (own S v)) o (timeout_label S settings) found
              (is_stuck-pending w.now o stuck))))
        (keep (is_stuck settings w.now) w.orders) w
        (keep-IsAmong (is_stuck settings w.now) w.orders (Runs-IsUnique r unique)) r

  pub delivery_pass-Reached :
      (w : World S)
      → Reached S settings start w
      → Reached S settings start (delivery_pass S settings w).1
  unfolding delivery_pass
  delivery_pass-Reached w r =
      for_each-Reached (is_due settings w.now) S settings start (deliver_order S settings)
        delivered_row (λ n o. refl)
        (λ o v. ap (λ (x : Own). x.0) (deliver_order-own S settings o v))
        (λ o v found due reached.
          let (status, undelivered) = is_due-paid w.now o due in
          framed S settings start (deliver_order-own S settings o v)
            (next reached (deliver (db_of (own S v)) o found status undelivered)))
        (keep (is_due settings w.now) w.orders) w
        (keep-IsAmong (is_due settings w.now) w.orders (Runs-IsUnique r unique)) r
