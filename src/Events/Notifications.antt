-- ===== src/Events/Notifications.antt =====
-- `handle_event` of app/consumer.py of services/notification-service.
use Prim.Native.String.{◌++◌ as append}
use ecommerce_services.Common.{String, Option, none, some, List, [], ◌∷◌, ◌++◌}
use ecommerce_services.Common.Str.{str}
use ecommerce_services.Order.World.{Event, order_created, order_failed, order_paid, order_delivered}

-- A message: an event that order-service has published, or a text that `json.loads` refuses with an
-- error.
pub data Raw : Type 0 where
  json : Event → Raw
  malformed : String → Raw

-- A Python value in an f-string.
abbrev pub shown : Option String → String
shown none = "None"
shown (some s) = s

-- `notify`: the texts that have been sent. A webhook that fails is only logged.
unfoldable pub notify : String → List String → List String
notify text sent = sent ++ text ∷ []

unfoldable pub handle_event : Raw → List String → Option String × List String
unfolding notify
handle_event (malformed exc) sent = (some exc, sent)
handle_event (json (order_created order_id user_id items amount)) sent =
    (none, notify (append (append "Order " order_id) " received") sent)
handle_event (json (order_paid order_id user_id amount paid_at)) sent =
    (none, notify (append (append (append "Order " order_id) " paid — ") (str amount)) sent)
handle_event (json (order_failed order_id user_id reason)) sent =
    (none, notify (append (append (append "Order " order_id) " failed: ") (shown reason)) sent)
handle_event (json (order_delivered order_id user_id product_ids delivered_at)) sent = (none, sent)
