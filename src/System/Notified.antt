-- ===== src/System/Notified.antt =====
-- From the checkout to the buyer's notifications: notification-service reads what order-service publishes.
use Prim.Native.String.{◌++◌ as append}
use ecommerce_services.Common.{
  ℕ, String, Option, none, some, List, [], ◌∷◌, ◌++◌, map, keep, length, All, ◌≡◌, refl, sym, ap,
  ◌∙◌, append-nil, append_assoc, length-map, Bool, true, false, ◌-◌, ◌*◌, ◌+◌, ◌≤◌, subst,
}
use ecommerce_services.Common.Str.{str}
use ecommerce_services.Common.Table.{find}
use ecommerce_services.Events.{advances}
use ecommerce_services.Events.Quiet.{all_effects, reference-quiet}
use ecommerce_services.Events.Notifications.{Raw, json, malformed, shown, notify, handle_event}
use ecommerce_services.Events.Progress.{started, advances-Drains}
use ecommerce_services.Order.Services.{Services}
use ecommerce_services.Order.World.{
  World, Settings, Order, OrderStatus, pending, paid, failed, id_of, Event, order_created,
  order_failed, order_paid, order_delivered,
}
use ecommerce_services.Order.Saga.{Line}
use ecommerce_services.Order.Acts.{Acts, perform_all}
use ecommerce_services.Order.Story.{is_about, outcome, Tells}
use ecommerce_services.Order.Frame.{own}
use ecommerce_services.Order.Sweep.{IsUnique}
use ecommerce_services.Order.Lifecycle.{db_of}
use ecommerce_services.Order.Refinement.{perform_all-Runs}
use ecommerce_services.Order.History.{IsTold, Runs-IsTold}

-- The notification that each event is due, as notification-service's handler writes it.
abbrev pub received_text : String → String
received_text i = append (append "Order " i) " received"

abbrev pub paid_text : String → ℕ → String
paid_text i amount = append (append (append "Order " i) " paid — ") (str amount)

abbrev pub failed_text : String → Option String → String
failed_text i reason = append (append (append "Order " i) " failed: ") (shown reason)

abbrev text_of : Event → List String
text_of (order_created i u lines amount) = received_text i ∷ []
text_of (order_paid i u amount at) = paid_text i amount ∷ []
text_of (order_failed i u reason) = failed_text i reason ∷ []
text_of (order_delivered i u products at) = []

abbrev pub texts : List Event → List String
texts [] = []
texts (e ∷ es) = text_of e ++ texts es

-- What a buyer is told of an order, by its row.
abbrev ending : Order → OrderStatus → List String
ending o pending = []
ending o paid = paid_text o.id o.amount_cents ∷ []
ending o failed = failed_text o.id o.failure_reason ∷ []

abbrev pub due : Option Order → List String
due none = []
due (some o) = received_text o.id ∷ ending o o.status

abbrev IsJson : Raw → Type 0
IsJson (json e) = Unit
IsJson (malformed exc) = ⊥

abbrev sent_after : Raw → List String → List String
sent_after (json e) sent = sent ++ text_of e
sent_after (malformed exc) sent = sent

handle_event-quiet :
    (m : Raw) (sent : List String) → IsJson m → handle_event m sent ≡ (none, sent_after m sent)
unfolding handle_event notify
handle_event-quiet (json (order_created i u lines amount)) sent fine = refl
handle_event-quiet (json (order_paid i u amount at)) sent fine = refl
handle_event-quiet (json (order_failed i u reason)) sent fine = refl
handle_event-quiet (json (order_delivered i u products at)) sent fine = rw append-nil refl
handle_event-quiet (malformed exc) sent fine = absurd fine

All-IsJson : (es : List Event) → All IsJson (map json es)
All-IsJson [] = tt
All-IsJson (e ∷ es) = (tt, All-IsJson es)

all_effects-texts :
    (es : List Event) (sent : List String)
    → all_effects sent_after (map json es) sent ≡ sent ++ texts es
all_effects-texts [] sent = sym (append-nil sent)
all_effects-texts (e ∷ es) sent =
    all_effects-texts es (sent ++ text_of e) ∙ append_assoc sent (text_of e) (texts es)

ending-texts :
    (o : Order) (lines : List Line) (t t' : ℕ) (status : OrderStatus) (d : Bool)
    → texts (outcome status d lines o t t') ≡ ending o status
ending-texts o lines t t' pending d = refl
ending-texts o lines t t' failed d = refl
ending-texts o lines t t' paid false = refl
ending-texts o lines t t' paid true = refl

Tells-texts :
    (lines : List Line) (row : Option Order) (es : List Event)
    → Tells lines row es
    → texts es ≡ due row
Tells-texts lines none es (no_lines, no_events) = ap texts no_events
Tells-texts lines (some o) es (fresh, (t, (t', h))) =
    ap texts h ∙ ap (λ ts. received_text o.id ∷ ts) (ending-texts o lines t t' o.status o.delivered)

module _ (S : Services) (settings : Settings) where
  -- order-service starts with any database whose ids are unique and in which the events about an id tell
  -- its row, a PENDING order with its order_created among them, say one that a crash has left; and it goes
  -- through any sequence of requests, passes of the jobs and pauses, where anything of that may also
  -- happen between the pricing and the insertion of a request, whatever becomes of the HTTP calls,
  -- but where every saga and every pass runs to its end. Its events are then the log of
  -- notification-service, which starts at the beginning of it and allows at least one attempt: after
  -- some number of steps, with the bound given, it has committed the whole log, the texts sent are those
  -- of the events, in order and each once, and nothing is in the dead-letter queue. And the texts of the
  -- events about an id are: none if it has no order; else that the order is received, and after that
  -- nothing if it is PENDING, that it is paid, with its amount, if it is PAID, and that it has failed,
  -- with its reason, if it is FAILED.
  pub notifications_tell_orders :
      (acts : Acts) (w : World S) (max_attempts : ℕ)
      → 1 ≤ max_attempts
      → IsUnique w.orders
      → IsTold (db_of (own S w))
      → let v = perform_all S settings acts w in
        ((n : ℕ) × (n ≤ length v.events * (3 * max_attempts + 1))
          × (let (point, c) =
                advances max_attempts handle_event (map json v.events) n (started []) in
              (c.committed ≡ length v.events) × (c.kept ≡ texts v.events) × (c.dlq ≡ [])))
        × ((j : String) → texts (keep (is_about j) v.events) ≡ due (find id_of j v.orders))
  notifications_tell_orders acts w max_attempts allowed unique told =
      let v : World S = perform_all S settings acts w in
      let log : List Raw = map json v.events in
      let same : length log ≡ length v.events = length-map json v.events in
      let (n, le, (polls, all, both)) = advances-Drains max_attempts handle_event log [] allowed in
      let ends =
        both
        ∙ reference-quiet handle_event sent_after IsJson handle_event-quiet (max_attempts - 1) log
            [] [] (All-IsJson v.events) in
      (
        (
          n,
          subst (λ k. n ≤ k * (3 * max_attempts + 1)) same le,
          (all ∙ same, ap (λ x. x.0) ends ∙ all_effects-texts v.events [], ap (λ x. x.1) ends),
        ),
        λ j.
            Tells-texts _ (find id_of j v.orders) _
              (Runs-IsTold (perform_all-Runs S settings acts w unique) told j),
      )
