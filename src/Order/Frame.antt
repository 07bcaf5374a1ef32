-- ===== src/Order/Frame.antt =====
-- The calls to other services leave what order-service itself keeps alone, whatever their fate.
use ecommerce_services.Common.{ℕ, String, Option, some, ◌++◌, List, [], ◌∷◌, ◌≡◌, refl, ◌∙◌}
use ecommerce_services.Shared.{Response}
use ecommerce_services.Order.Services.{Services}
use ecommerce_services.Order.World.{
  World, Settings, Fate, delivered, dropped, lost, transmit_as, Order, OrderItem, Event, Metrics,
}
use ecommerce_services.Order.Clients.{
  Reservation, reserved, not_reserved, reserve_stock, release_stock, charge, clear_cart_items,
}
use ecommerce_services.Order.Saga.{Line, reserve_all, release_all}

-- The database, the published events, the metrics and the clock.
abbrev pub Own : Type 0
Own = List Order × List OrderItem × List Event × Metrics × ℕ

module _ (S : Services) where
  abbrev pub own : World S → Own
  own w = (w.orders, w.order_items, w.events, w.metrics, w.now)

  pub transmit_as-own :
      {A : Type 0} (fates : List Fate) (call : World S → Response A × World S)
      → ((v : World S) → own (call v).1 ≡ own v)
      → (w : World S) → own (transmit_as fates call w).1 ≡ own w
  unfolding transmit_as
  transmit_as-own [] call same w = same w
  transmit_as-own (delivered ∷ fs) call same w = same (record w { fates = fs })
  transmit_as-own (dropped exc ∷ fs) call same w = refl
  transmit_as-own (lost exc ∷ fs) call same w = same (record w { fates = fs })

  module _ (settings : Settings) where
    pub clear_cart_items-own :
        (u : String) (is : List String) (w : World S)
        → own (clear_cart_items S settings u is w) ≡ own w
    unfolding clear_cart_items
    clear_cart_items-own u [] w = refl
    clear_cart_items-own u (i ∷ is) w = transmit_as-own w.fates _ (λ v. refl) w

    pub charge-own :
        (i : String) (amount : ℕ) (currency key : String) (w : World S)
        → own (charge S settings i amount currency key w).1 ≡ own w
    unfolding charge
    charge-own i amount currency key w = transmit_as-own w.fates _ (λ v. refl) w

    pub release_stock-own :
        (p : String) (q : ℕ) (order_id : String) (w : World S)
        → own (release_stock S settings p q order_id w) ≡ own w
    unfolding release_stock
    release_stock-own p q order_id w = transmit_as-own w.fates _ (λ v. refl) w

    pub reserve_stock-own :
        (p : String) (q : ℕ) (order_id : String) (w : World S)
        → own (reserve_stock S settings p q order_id w).1 ≡ own w
    unfolding reserve_stock
    reserve_stock-own p q order_id w = transmit_as-own w.fates _ (λ v. refl) w

    pub release_all-own :
        (lines : List Line) (order_id : String) (w : World S)
        → own (release_all S settings lines order_id w) ≡ own w
    unfolding release_all
    release_all-own [] order_id w = refl
    release_all-own ((p, q) ∷ lines) order_id w =
        release_all-own lines order_id (release_stock S settings p q order_id w)
        ∙ release_stock-own p q order_id w

    pub reserve_all-own :
        (lines : List Line) (order_id : String) (so_far : List Line) (w : World S)
        → own (reserve_all S settings lines order_id so_far w).1 ≡ own w
    unfolding reserve_all
    reserve_all-own [] order_id so_far w = refl
    reserve_all-own ((p, q) ∷ lines) order_id so_far w =
        go (reserve_stock S settings p q order_id w).0
          (reserve_all-own lines order_id (so_far ++ (p, q) ∷ [])
              (reserve_stock S settings p q order_id w).1
            ∙ reserve_stock-own p q order_id w)
          (reserve_stock-own p q order_id w)
      where
        go :
            (r : Reservation)
            → own
                (reserve_all S settings lines order_id
                  (so_far ++ (p, q) ∷ [])
                  (reserve_stock S settings p q order_id w).1).1
              ≡ own w
            → own (reserve_stock S settings p q order_id w).1 ≡ own w
            → own (
                (elim r as (λ _. (List Line × Option String) × World S) [
                  | reserved ↦
                      reserve_all S settings lines order_id
                        (so_far ++ (p, q) ∷ [])
                        (reserve_stock S settings p q order_id w).1
                  | not_reserved reason ↦
                      ((so_far, some reason), (reserve_stock S settings p q order_id w).1)
                ]).1)
              ≡ own w
        go reserved e f = e
        go (not_reserved reason) e f = f
