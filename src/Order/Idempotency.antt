-- ===== src/Order/Idempotency.antt =====
-- The Idempotency-Key: one order for a key, and the same answer for every retry.
use ecommerce_services.Common.{
  ℕ, String, true, false, Option, none, some, List, [], ◌∷◌, ◌++◌, ◌≡◌, refl, sym, ap, subst, ◌∙◌,
  ◌⊎◌, inl, inr, Bool-cases, Option-cases, ◌==◌, eq_refl, map,
}
use ecommerce_services.Common.Redis.{is_some}
use ecommerce_services.Common.Table.{find, find-append_none}
use ecommerce_services.Shared.{Result, ok, err, continue}
use ecommerce_services.Order.Services.{Services}
use ecommerce_services.Order.World.{World, Settings, Order, id_of, key_of, order_created}
use ecommerce_services.Order.Saga.{
  Line, OrderOut, CreateOrder, order_out, item_row, missing_key, resolve_items, price_all, publish,
}
use ecommerce_services.Order.Checkout.{
  insert_order, start_saga, replay, place_order, create_order_for, create_order, new_order, counted,
  count_created,
}
use ecommerce_services.Order.Outcomes.{IsStored, run_saga-Finished}

module _ (S : Services) (settings : Settings) where
  -- A successful answer shows the row that the key finds.
  abbrev pub Shows : String → Result OrderOut × World S → Type 0
  Shows key (ok out, w') =
      (o : Order) × (find key_of key w'.orders ≡ some o) × (out ≡ order_out S o w')
  Shows key (err e, w') = Unit

  is_some-none : {A : Type 0} (o : Option A) → is_some o ≡ false → o ≡ none
  is_some-none none h = refl
  is_some-none (some a) h = cc

  replay-Shows : (key : String) (w : World S) → Shows key (replay S settings key w)
  unfolding replay
  replay-Shows key w = elim (Option-cases (find key_of key w.orders)) [
    | inl missing ↦ rw (missing, replay) tt
    | inr (o, found) ↦ rw (found, replay) (o, found, refl)
  ]

  abbrev inserted : Order → List Line → World S → World S
  inserted o lines w = record w {
    orders = w.orders ++ o ∷ [];
    order_items = w.order_items ++ map (item_row o.id) lines;
  }

  -- The insertion is refused and changes nothing, or neither the key nor the id was taken.
  insert_order-cases :
      (o : Order) (lines : List Line) (w : World S)
      → (insert_order S o lines w ≡ (false, w))
        ⊎ ((find key_of o.idempotency_key w.orders ≡ none)
            × (find id_of o.id w.orders ≡ none)
            × (insert_order S o lines w ≡ (true, inserted o lines w)))
  unfolding insert_order
  insert_order-cases o lines w =
      elim (Bool-cases (is_some (find key_of o.idempotency_key w.orders))) [
        | inl t ↦ inl (rw t)
        | inr f ↦ elim (Bool-cases (is_some (find id_of o.id w.orders))) [
          | inl t ↦ inl (rw (f, t))
          | inr g ↦ inr (is_some-none _ f, is_some-none _ g, rw (f, g))
        ]
      ]

  inserted-IsStored :
      (o : Order) (lines : List Line) (w : World S)
      → find key_of o.idempotency_key w.orders ≡ none
      → find id_of o.id w.orders ≡ none
      → IsStored S settings o (inserted o lines w)
  unfolding find
  inserted-IsStored o lines w no_key no_id = (
    o,
    find-append_none id_of o.id w.orders (o ∷ []) no_id ∙ rw (eq_refl o.id),
    find-append_none key_of o.idempotency_key w.orders (o ∷ []) no_key
        ∙ rw (eq_refl o.idempotency_key),
  )

  start_saga-Shows :
      (o : Order) (lines : List Line) (w : World S)
      → Shows o.idempotency_key (start_saga S settings o lines (insert_order S o lines w))
  start_saga-Shows o lines w = elim (insert_order-cases o lines w) [
    | inl refused ↦ rw refused (unfold start_saga in replay-Shows o.idempotency_key w)
    | inr (no_key, no_id, done) ↦
        let stored = inserted-IsStored o lines w no_key no_id in
        rw done (
          unfold start_saga publish in
          let v : World S =
            publish S (order_created o.id o.user_id lines o.amount_cents)
              (counted S count_created (inserted o lines w)) in
          let (o', by_id, by_key, same, ended) = run_saga-Finished S settings o lines v stored in
          (o', by_key, same))
  ]

  module _ (meanwhile : World S → World S) where
    place_order-Shows :
        (q : CreateOrder) (key : String) (w : World S)
        → Shows key (place_order S settings meanwhile q key w)
    unfolding place_order
    place_order-Shows q key w = go (resolve_items S settings q w).0 (resolve_items S settings q w).1
      where
        priced :
            (lines : List Line) (amount : Result ℕ) (v : World S)
            → Shows key (
                continue {B = OrderOut} amount
                  (λ a u.
                    start_saga S settings
                      (new_order q key a (meanwhile u).now)
                      lines
                      (insert_order S (new_order q key a (meanwhile u).now) lines (meanwhile u)))
                  v)
        priced lines (err e) v = tt
        priced lines (ok a) v =
            start_saga-Shows (new_order q key a (meanwhile v).now) lines (meanwhile v)

        go :
            (r : Result (List Line)) (v : World S)
            → Shows key (
                continue {B = OrderOut} r
                  (λ lines u.
                    continue {B = OrderOut}
                      (price_all S settings lines 0 u).0
                      (λ a u'. start_saga S settings (new_order q key a (meanwhile u').now) lines (
                        insert_order S (new_order q key a (meanwhile u').now) lines (meanwhile u')))
                      (price_all S settings lines 0 u).1)
                  v)
        go (err e) v = tt
        go (ok lines) v =
            priced lines (price_all S settings lines 0 v).0 (price_all S settings lines 0 v).1

    create_order_for-Shows :
        (q : CreateOrder) (key : String) (w : World S)
        → Shows key (create_order_for S settings meanwhile q key w)
    unfolding create_order_for
    create_order_for-Shows q key w = elim (Bool-cases (key == "")) [
      | inl t ↦ rw t tt
      | inr f ↦ elim (Option-cases (find key_of key w.orders)) [
        | inl fresh ↦ rw (f, fresh, create_order_for) (place_order-Shows q key w)
        | inr (o, found) ↦ rw (f, found, create_order_for) (o, found, refl)
      ]
    ]

  create_order-key :
      (meanwhile : World S → World S) (q : CreateOrder) (key : String) (w : World S)
      → q.idempotency_key ≡ some key
      → create_order S settings meanwhile q w ≡ create_order_for S settings meanwhile q key w
  unfolding create_order
  create_order-key meanwhile q key w e = rw (e, create_order)

  create_order_for-found :
      (meanwhile : World S → World S) (q : CreateOrder) (key : String) (o : Order) (w : World S)
      → (key == "") ≡ false
      → find key_of key w.orders ≡ some o
      → create_order_for S settings meanwhile q key w ≡ (ok (order_out S o w), w)
  unfolding create_order_for
  create_order_for-found meanwhile q key o w f found = rw (f, found, create_order_for)

  -- No order is created without a key.
  create_order_for-key :
      (meanwhile : World S → World S) (q : CreateOrder) (key : String) {out : OrderOut}
      (w : World S) {w' : World S}
      → create_order_for S settings meanwhile q key w ≡ (ok out, w')
      → (key == "") ≡ false
  unfolding create_order_for
  create_order_for-key meanwhile q key {out} w {w'} e = elim (Bool-cases (key == "")) [
    | inl t ↦
        let refused : create_order_for S settings meanwhile q key w ≡ (err missing_key, w) = rw t in
        let absurdity : err missing_key ≡ ok out = ap (λ x. x.0) (sym refused ∙ e) in absurd (cc)
    | inr f ↦ f
  ]

  -- A retry of a request that has been answered with an order, with the same key, any other contents
  -- and whatever other requests do meanwhile, is answered with the same order and changes nothing: no
  -- second order, no second reservation, charge or event.
  pub create_order-retry :
      (meanwhile meanwhile' : World S → World S) (q q' : CreateOrder) (key : String)
      (out : OrderOut) (w w' : World S)
      → q.idempotency_key ≡ some key
      → q'.idempotency_key ≡ some key
      → create_order S settings meanwhile q w ≡ (ok out, w')
      → create_order S settings meanwhile' q' w' ≡ (ok out, w')
  create_order-retry meanwhile meanwhile' q q' key out w w' e e' created =
      let first : create_order_for S settings meanwhile q key w ≡ (ok out, w') =
        sym (create_order-key meanwhile q key w e) ∙ created in
      let shown : Shows key (ok out, w') =
        subst (λ r. Shows key r) first (create_order_for-Shows meanwhile q key w) in
      create_order-key meanwhile' q' key w' e'
      ∙ create_order_for-found meanwhile' q' key shown.0 w'
          (create_order_for-key meanwhile q key w first) shown.1
      ∙ ap (λ x. (ok x, w')) (sym shown.2)
