-- ===== src/Events/Tests.antt =====
-- Runs of the notification consumer over a log with a malformed message.
use ecommerce_services.Common.{
  some, List, [], ◌∷◌, arith, ℕ, ◌+◌, ◌-◌, ◌*◌, ◌≤◌, ◌<◌, ◌≡◌, length, refl,
}
use ecommerce_services.Events.Consumer.{message_at, polling, advances, advance, fail, restart}
use ecommerce_services.Events.Settled.{watched, IsSettled}
use ecommerce_services.Events.Crashes.{Turn, step, crash, take_turns, crashes_lose_nothing}
use ecommerce_services.Order.World.{order_created, order_failed}
use ecommerce_services.Events.Notifications.{Raw, json, malformed, notify, handle_event}
use ecommerce_services.Events.Reference.{reference}
use ecommerce_services.Events.Progress.{started, advances-Drains}

abbrev log : List Raw
log =
    json (order_created "o-1" "u-1" (("P001", 1) ∷ []) 1999)
    ∷ malformed "Expecting value"
    ∷ json (order_failed "o-1" "u-1" (some "TRANSPORT_ERROR"))
    ∷ []

advances-Drains_example :
    (n : ℕ) × (n ≤ length log * (3 * 3 + 1))
    × (let (point, c) = advances 3 handle_event log n (started []) in
        (point ≡ polling)
        × (c.committed ≡ length log)
        × ((c.kept, c.dlq) ≡ reference handle_event (3 - 1) log [] []))
advances-Drains_example = advances-Drains 3 handle_event log [] (omega arith)

-- What that comes to: two notifications, and the malformed message set aside.
log-reference : reference handle_event 2 log [] [] ≡ (
  "Order o-1 received" ∷ "Order o-1 failed: TRANSPORT_ERROR" ∷ [],
  (malformed "Expecting value", "Expecting value") ∷ [],
)
unfolding reference handle_event notify
log-reference = refl

-- The first message is committed. The service crashes with the malformed one in hand, again after the
-- second of three failures, and then when that message is in the dead-letter queue, but not committed.
abbrev turns : List Turn
turns =
    step ∷ step ∷ step ∷ step ∷ crash ∷ step ∷ step ∷ step ∷ step ∷ step ∷ step ∷ crash ∷ step
    ∷ step ∷ step ∷ step ∷ step ∷ step ∷ step ∷ step ∷ step ∷ crash ∷ []

-- A crash forgets the count: the handler has failed five times when the message is set aside once.
turns-dlq :
    (take_turns 3 handle_event log turns (started ([], []))).1.dlq
    ≡ (malformed "Expecting value", "Expecting value") ∷ []
unfolding take_turns advance restart fail handle_event message_at notify
turns-dlq = refl

crashes_lose_nothing_example :
    let s = take_turns 3 handle_event log turns (started ([], [])) in
    ((p : ℕ) (m : Raw)
      → p < s.1.committed
      → message_at p log ≡ some m
      → IsSettled 3 s.1.kept.1 s.1.dlq m)
    × (n : ℕ) × (n ≤ (length log - s.1.committed) * (3 * 3 + 1))
    × (let (point, c) = advances 3 (watched handle_event) log n (restart s) in
        (c.committed ≡ length log)
        × ((p : ℕ) (m : Raw) → message_at p log ≡ some m → IsSettled 3 c.kept.1 c.dlq m))
crashes_lose_nothing_example = crashes_lose_nothing 3 handle_event log turns [] (omega arith)
