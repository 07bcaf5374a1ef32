-- ===== src/System/Purchases.antt =====
-- From the checkout to the review: the events of order-service reach review-service, in whatever order and
-- however often Kafka hands them over.
use mathlib.Core.List.{Memᴰ}
use mathlib.Core.List.Memᴰ.{head, tail}
use ecommerce_services.Common.{List, [], ◌∷◌, All, ◌≡◌, sym, subst}
use ecommerce_services.Events.Notifications.{json, malformed}
use ecommerce_services.Order.Services.{Services}
use ecommerce_services.Order.World.{
  World, Settings, Event, order_created, order_failed, order_paid, order_delivered,
}
use ecommerce_services.Order.Frame.{own}
use ecommerce_services.Order.Lifecycle.{Db, db_of}
use ecommerce_services.Order.Acts.{Acts, perform_all}
use ecommerce_services.Order.Deliveries.{IsDelivery, IsBacked, events-IsBacked}
use ecommerce_services.Order.Guarantees.{perform_all-IsToldOf}
use ecommerce_services.Review.OneReview.{Act, receive, post, run, no_documents}
use ecommerce_services.Review.Bought.{IsHonest, IsCovered, reviews-IsCovered}

-- The messages that are events come from the list.
abbrev pub IsFrom : List Event → Act → Type 0
IsFrom events (receive (malformed exc)) = Unit
IsFrom events (receive (json e)) = Memᴰ e events
IsFrom events (post body user_id new_id now) = Unit

holds_of_member : {A : Type 0} (P : A → Type 0) (x : A) (xs : List A) → All P xs → Memᴰ x xs → P x
holds_of_member P x [] h m = elim m [ ]
holds_of_member P x (y ∷ ys) (first, h) (head e) = subst P (sym e) first
holds_of_member P x (y ∷ ys) (first, h) (tail m) = holds_of_member P x ys h m

IsFrom-IsHonest :
    (s : Db) (a : Act) → All (IsBacked s) s.events → IsFrom s.events a → IsHonest (IsDelivery s) a
IsFrom-IsHonest s (receive (malformed exc)) h m = tt
IsFrom-IsHonest s (receive (json (order_created i u lines amount))) h m = tt
IsFrom-IsHonest s (receive (json (order_failed i u reason))) h m = tt
IsFrom-IsHonest s (receive (json (order_paid i u amount at))) h m = tt
IsFrom-IsHonest s (receive (json (order_delivered i u products at))) h m =
    holds_of_member (IsBacked s) (order_delivered i u products at) s.events h m
IsFrom-IsHonest s (post body user_id new_id now) h m = tt

All-IsHonest :
    (s : Db) (acts : List Act)
    → All (IsBacked s) s.events
    → All (IsFrom s.events) acts
    → All (IsHonest (IsDelivery s)) acts
All-IsHonest s [] h m = tt
All-IsHonest s (a ∷ acts) h (first, m) = (IsFrom-IsHonest s a h first, All-IsHonest s acts h m)

module _ (S : Services) (settings : Settings) where
  -- The database of order-service after the acts.
  abbrev pub after : Acts → World S → Db
  after acts w = db_of (own S (perform_all S settings acts w))

  -- order-service starts with an empty database and does whatever it does; review-service starts with an
  -- empty one and takes reviews and messages, of which every event is one that order-service has
  -- published by the end, in any order and any number of times. Then behind every review that is stored
  -- is an order that is PAID and delivered and holds a product, such that the order's user with this
  -- product and the review's user with the reviewed product have one id of eligibility.
  pub reviews-IsCovered_by_purchases :
      (acts : Acts) (w : World S) (reviewing : List Act)
      → w.orders ≡ []
      → w.order_items ≡ []
      → w.events ≡ []
      → All (IsFrom (after acts w).events) reviewing
      → All (IsCovered (IsDelivery (after acts w))) (run reviewing no_documents).reviews
  reviews-IsCovered_by_purchases acts w reviewing no_orders no_items no_events sent =
      let s : Db = after acts w in
      reviews-IsCovered (IsDelivery s) reviewing (
        All-IsHonest s reviewing
          (events-IsBacked s (perform_all-IsToldOf S settings acts w no_orders no_items no_events))
          sent)
