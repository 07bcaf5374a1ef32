-- ===== src/Order/History.antt =====
-- What is published about an order tells its row: the events of the machine, order by order.
use mathlib.Core.Option
use ecommerce_services.Common.{
  String, false, none, some, List, [], ◌∷◌, ◌++◌, map, keep, ◌≡◌, refl, sym, ap, subst, ◌∙◌, inl,
  inr, arith, ◌==◌, eq_refl, append-nil, Text-cases, if◌then◌else◌,
}
use ecommerce_services.Common.Table.{find, update, find-append_none, find-append_miss}
use ecommerce_services.Order.World.{
  Order, OrderItem, pending, Event, order_created, order_failed, order_paid, order_delivered, id_of,
}
use ecommerce_services.Order.Saga.{Line, load_items, item_row}
use ecommerce_services.Order.Checkout.{product_of}
use ecommerce_services.Order.Sweep.{find-set}
use ecommerce_services.Order.Lifecycle.{
  Db, set_row, reserved_row, paid_row, failed_row, delivered_row, Step, place, reserve, pay, fail,
  deliver, wait, Runs, here, next,
}
use ecommerce_services.Order.Story.{
  order_of, is_about, Tells, Tells-reserved, Tells-paid, Tells-failed, Tells-delivered,
  Tells-placed,
}

abbrev pub IsToldOf : String → Db → Type 0
IsToldOf j s = Tells (load_items j s.items) (find id_of j s.orders) (keep (is_about j) s.events)

abbrev pub IsTold : Db → Type 0
IsTold s = (j : String) → IsToldOf j s

keep-append :
    (j : String) (es fs : List Event)
    → keep (is_about j) (es ++ fs) ≡ keep (is_about j) es ++ keep (is_about j) fs
keep-append j [] fs = refl
keep-append j (e ∷ es) fs = ground (arith, keep-append j es fs)

load_items-append :
    (j : String) (is js : List OrderItem)
    → load_items j (is ++ js) ≡ load_items j is ++ load_items j js
unfolding load_items
load_items-append j [] js = refl
load_items-append j (i ∷ is) js = ground (arith, load_items-append j is js)

load_items-rows :
    (i j : String) (lines : List Line)
    → load_items j (map (item_row i) lines) ≡ (if i == j then lines else [])
unfolding load_items
load_items-rows i j [] = ground arith
load_items-rows i j ((p, q) ∷ lines) = ground (arith, load_items-rows i j lines)

abbrev published : Db → Order → List Event → Db
published s x es = record s { orders = set_row x s.orders; events = s.events ++ es }

-- A row is set, and events about its order are published.
set-IsTold :
    (s : Db) (o x : Order) (es : List Event)
    → find id_of o.id s.orders ≡ some o
    → x.id ≡ o.id
    → ((j : String) → keep (is_about j) es ≡ (if o.id == j then es else []))
    → ((past : List Event)
        → Tells (load_items o.id s.items) (some o) past
        → Tells (load_items o.id s.items) (some x) (past ++ es))
    → IsTold s
    → IsTold (published s x es)
set-IsTold s o x es found same about change told j = elim (Text-cases o.id j) [
  | inl (e, t) ↦ subst (λ k. IsToldOf k (published s x es)) e here
  | inr (ne, t) ↦ rw (keep-append j s.events es, about j, rows j, t, append-nil) (told j)
]
  where
    rows :
        (k : String)
        → find id_of k (set_row x s.orders) ≡ (
            if o.id == k
            then Option.map (λ _. x) (find id_of k s.orders)
            else find id_of k s.orders)
    rows k =
        ap (λ i. find id_of k (update id_of i (λ _. x) s.orders)) same
        ∙ find-set o.id k x s.orders same

    here : IsToldOf o.id (published s x es)
    here =
        rw (keep-append o.id s.events es, about o.id, rows o.id, eq_refl o.id, found)
          (change _ (
            subst (λ r. Tells (load_items o.id s.items) r (keep (is_about o.id) s.events)) found
              (told o.id)))

-- What is published about one order is about no other.
only :
    (e : Event) (j : String) → keep (is_about j) (e ∷ []) ≡ (if order_of e == j then e ∷ [] else [])
only e j = elim (Text-cases (order_of e) j) [
  | inl (same, t) ↦ rw (t, keep)
  | inr (ne, t) ↦ rw (t, keep)
]

-- The first event of an order.
place-IsTold :
    (s : Db) (o : Order) (lines : List Line)
    → find id_of o.id s.orders ≡ none
    → o.status ≡ pending
    → o.delivered ≡ false
    → IsTold s
    → IsTold (record s {
      orders = s.orders ++ o ∷ [];
      items = s.items ++ map (item_row o.id) lines;
      events = s.events ++ order_created o.id o.user_id lines o.amount_cents ∷ [];
    })
unfolding find
place-IsTold s o lines free status undelivered told j =
    let e : Event = order_created o.id o.user_id lines o.amount_cents in
    elim (Text-cases o.id j) [
      | inl (same, t) ↦
          let none_yet : find id_of j s.orders ≡ none =
            ap (λ k. find id_of k s.orders) (sym same) ∙ free in
          let (no_lines, no_events) : Tells (load_items j s.items) none
              (keep (is_about j) s.events) =
            subst (λ r. Tells (load_items j s.items) r (keep (is_about j) s.events)) none_yet
              (told j) in
          rw
            (
              find-append_none id_of j s.orders (o ∷ []) none_yet,
              load_items-append j s.items (map (item_row o.id) lines),
              load_items-rows o.id j lines,
              keep-append j s.events (e ∷ []),
              only e j,
              no_lines,
              no_events,
              t,
            )
            (Tells-placed o lines status undelivered)
      | inr (ne, t) ↦
          rw
            (
              load_items-append j s.items (map (item_row o.id) lines),
              load_items-rows o.id j lines,
              keep-append j s.events (e ∷ []),
              only e j,
              find-append_miss id_of j s.orders (o ∷ []) (unfold find in rw t),
              t,
              append-nil (load_items j s.items),
              append-nil (keep (is_about j) s.events),
            )
            (told j)
    ]

-- The transitions.
Step-IsTold : {s t : Db} → Step s t → IsTold s → IsTold t
Step-IsTold (place s o lines free status undelivered) told =
    place-IsTold s o lines free status undelivered told
Step-IsTold (reserve s o found status) told =
    subst
      (λ es. IsTold (record s { orders = set_row (reserved_row s.now o) s.orders; events = es }))
      (append-nil s.events)
      (set-IsTold s o (reserved_row s.now o) [] found refl (λ j. ground arith)
        (λ past h. rw append-nil (Tells-reserved o s.now _ past status h)) told)
Step-IsTold (pay s o found status reserved) told =
    set-IsTold s o (paid_row s.now o) _ found refl
      (only (order_paid o.id o.user_id o.amount_cents s.now))
      (λ past. Tells-paid o s.now _ past status) told
Step-IsTold (fail s o reason found status) told =
    set-IsTold s o (failed_row s.now reason o) _ found refl
      (only (order_failed o.id o.user_id reason))
      (λ past. Tells-failed o s.now _ past reason status) told
Step-IsTold (deliver s o found status undelivered) told =
    set-IsTold s o (delivered_row s.now o) _ found refl
      (only (order_delivered o.id o.user_id (map product_of (load_items o.id s.items)) s.now))
      (λ past. Tells-delivered o s.now _ past status undelivered) told
Step-IsTold (wait s d) told = told

pub Runs-IsTold : {s t : Db} → Runs s t → IsTold s → IsTold t
Runs-IsTold here told = told
Runs-IsTold (next r step) told = Step-IsTold step (Runs-IsTold r told)
