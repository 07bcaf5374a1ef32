-- ===== src/System/CartCheckout.antt =====
-- A checkout of the buyer's cart: `create_order` with no items in its body, and cart-service behind it.
use ecommerce_services.Common.{
  ℕ, ◌<◌, ◌+◌, ◌*◌, String, true, false, none, some, List, [], ◌∷◌, map, ◌≡◌, ◌≢◌, refl, sym, ap,
  ◌∙◌, ◌==◌, ◌&&◌, if◌then◌else◌, inl, inr, arith, Bool-cases, Text-cases, ==-ne, ◌++◌,
}
use ecommerce_services.Common.Dict.{contains}
use ecommerce_services.Common.Hashes.{Hashes}
use ecommerce_services.Common.Table.{find}
use ecommerce_services.Shared.{Result, ok, continue, Result-cases, respond, content}
use ecommerce_services.Shared.Jwt.{Jwt}
use ecommerce_services.Shared.Security.{TokenClaims, get_current_user}
use ecommerce_services.Cart.{CartService, Settings, Carts, get_cart_endpoint, get_cart, read_cart}
use ecommerce_services.Cart.View.{view, quantity_in}
use ecommerce_services.Order.Services.{CatalogApi, PaymentApi, CartItem, Services}
use ecommerce_services.Order.World
use ecommerce_services.Order.World.{World, Order, order_created, id_of, key_of, answered}
use ecommerce_services.Order.Clients
use ecommerce_services.Order.Clients.{get_price, read_price, get_cart_items, internal_headers}
use ecommerce_services.Order.Saga.{
  Line, OrderOut, CreateOrder, line_of, price_all, resolve_items, publish, item_row,
}
use ecommerce_services.Order.Checkout.{
  product_of, run_saga, insert_order, start_saga, place_order, create_order_for, new_order, counted,
  count_created,
}
use ecommerce_services.System.CartEndpoints.{services, run_saga-clears_cart}

module _ (S : Services) (settings : World.Settings) where
  get_price_quiet :
      (p : String) (w : World S)
      → w.fates ≡ []
      → let (r, c) = S.catalog.get_price (internal_headers S settings w) p w.catalog in
        get_price S settings p w ≡ (read_price p (answered r), record w { catalog = c })
  unfolding get_price
  get_price_quiet p w e = rw e

  get_cart_items_quiet :
      (authorization : String) (w : World S)
      → w.fates ≡ []
      → let (r, c) = S.cart.get_cart w.request_id authorization w.cart in
        get_cart_items S settings authorization w
        ≡ (Clients.read_cart (answered r), record w { cart = c })
  unfolding get_cart_items
  get_cart_items_quiet authorization w e = rw e

  -- What the pricing leaves alone.
  abbrev Same : World S → World S → Type 0
  Same w w' = (w'.cart ≡ w.cart) × (w'.fates ≡ []) × (w'.orders ≡ w.orders)

  price_all-Same :
      (lines : List Line) (amount : ℕ) (w : World S)
      → w.fates ≡ []
      → Same w (price_all S settings lines amount w).1
  unfolding price_all
  price_all-Same [] amount w e = (refl, e, refl)
  price_all-Same ((p, q) ∷ lines) amount w e =
      let v = (get_price S settings p w).1 in
      let (a, b, c) : Same w v = rw (get_price_quiet p w e) (refl, e, refl) in
      elim (Result-cases (get_price S settings p w).0) [
        | inr (x, failed) ↦ rw (failed, price_all) (a, b, c)
        | inl (price, known) ↦
            let (a', b', c') = price_all-Same lines (amount + price.price_cents * q) v b in
            rw (known, price_all) (a' ∙ a, b', c' ∙ c)
      ]

  -- A new order whose lines are priced goes through the saga.
  abbrev Placed : CreateOrder → List Line → World S → World S → Type 0
  Placed q lines w w' =
      (o : Order) × (v : World S) × (o.user_id ≡ q.user_id)
      × (v.cart ≡ w.cart)
      × (v.fates ≡ [])
      × (w' ≡ (run_saga S settings o lines v).1)

  abbrev store_priced : CreateOrder → String → List Line → ℕ → World S → Result OrderOut × World S
  store_priced q key lines amount v =
      let o : Order = new_order q key amount v.now in
      start_saga S settings o lines (insert_order S o lines v)

  stored-Placed :
      (q : CreateOrder) (key : String) (lines : List Line) (amount : ℕ) (w v w' : World S)
      {out : OrderOut}
      → Same w v
      → find key_of key w.orders ≡ none
      → find id_of q.new_id w.orders ≡ none
      → store_priced q key lines amount v ≡ (ok out, w')
      → Placed q lines w w'
  unfolding start_saga insert_order publish
  stored-Placed q key lines amount w v w' {out} (cart, fates, orders) no_key no_id h =
      let o : Order = new_order q key amount v.now in
      let v₁ : World S = record v {
        orders = v.orders ++ o ∷ [];
        order_items = v.order_items ++ map (item_row o.id) lines;
      } in
      let v₂ : World S = counted S count_created v₁ in
      let inserted : insert_order S o lines v ≡ (true, v₁) = rw (
        ap (find key_of key) orders ∙ no_key,
        ap (find id_of q.new_id) orders ∙ no_id,
        insert_order,
      ) in
      let started : start_saga S settings o lines (true, v₁) ≡ (ok out, w') =
        ap (start_saga S settings o lines) (sym inserted) ∙ h in
      (
        o,
        publish S (order_created o.id o.user_id lines o.amount_cents) v₂,
        refl,
        cart,
        fates,
        sym (ap (λ x. x.1) started),
      )

  priced-Placed :
      (q : CreateOrder) (key : String) (lines : List Line) (w w' : World S) {out : OrderOut}
      → w.fates ≡ []
      → find key_of key w.orders ≡ none
      → find id_of q.new_id w.orders ≡ none
      → continue
          (price_all S settings lines 0 w).0
          (store_priced q key lines)
          (price_all S settings lines 0 w).1
        ≡ (ok out, w')
      → Placed q lines w w'
  priced-Placed q key lines w w' e no_key no_id h =
      elim (Result-cases (price_all S settings lines 0 w).0) [
        | inr (x, failed) ↦ absurd (ground arith)
        | inl (amount, priced) ↦
            stored-Placed q key lines amount w (price_all S settings lines 0 w).1 w'
              (price_all-Same lines 0 w e) no_key no_id (rw priced at h)
      ]

-- A product that is not among those of the items has no quantity in them.
quantity_in-missing :
    (p : String) (items : List CartItem)
    → contains p (map product_of (map line_of items)) ≡ false
    → quantity_in p items ≡ none
unfolding contains quantity_in
quantity_in-missing p [] h = refl
quantity_in-missing p (i ∷ is) h = ground (arith, quantity_in-missing p is)

module _ (J : Jwt) (H : Hashes) (settings : Settings) (catalog : CatalogApi) (payment : PaymentApi)
    (order_settings : World.Settings) where
  abbrev S : Services
  S = services J H settings catalog payment

  -- The state of cart-service after it has looked at the caller's token.
  abbrev seen : String → World S → World S
  seen authorization w = record w {
    cart = record w.cart {
      jwks_client =
          (get_current_user J w.cart.carts.now w.cart.auth (some authorization)
            w.cart.jwks_client).1;
    };
  }

  get_cart_endpoint-shown :
      (r authorization : String) (user : TokenClaims) (s : CartService J H)
      → (get_current_user J s.carts.now s.auth (some authorization) s.jwks_client).0 ≡ ok user
      → get_cart_endpoint J H r (some authorization) s ≡ (
        record { status_code = 200; body = content (read_cart H user.user_id s.carts) },
        record s {
          jwks_client =
              (get_current_user J s.carts.now s.auth (some authorization) s.jwks_client).1;
        },
      )
  unfolding get_cart_endpoint get_cart respond
  get_cart_endpoint-shown r authorization user s known = rw known

  get_cart_items-shown :
      (authorization : String) (user : TokenClaims) (w : World S)
      → w.fates ≡ []
      → (get_current_user J w.cart.carts.now w.cart.auth (some authorization) w.cart.jwks_client).0
        ≡ ok user
      → get_cart_items S order_settings authorization w
        ≡ (ok (read_cart H user.user_id w.cart.carts).items, seen authorization w)
  unfolding Clients.read_cart
  get_cart_items-shown authorization user w quiet known =
      get_cart_items_quiet S order_settings authorization w quiet
      ∙ rw (get_cart_endpoint-shown w.request_id authorization user w.cart known)

  -- A checkout with no items in the body, on its way from the cart to the saga.
  place_order-Placed :
      (q : CreateOrder) (key : String) (user : TokenClaims) (items : List CartItem) (w w' : World S)
      {out : OrderOut}
      → w.fates ≡ []
      → find key_of key w.orders ≡ none
      → find id_of q.new_id w.orders ≡ none
      → get_cart_items S order_settings q.authorization w ≡ (ok items, seen q.authorization w)
      → place_order S order_settings (λ v. v) (record q { items = none }) key w ≡ (ok out, w')
      → (l : Line) × (lines : List Line) × (l ∷ lines ≡ map line_of items)
        × Placed S order_settings q (l ∷ lines) (seen q.authorization w) w'
  unfolding place_order resolve_items
  place_order-Placed q key user [] w w' quiet no_key no_id read h = absurd (cc (rw read at h))
  place_order-Placed q key user (i ∷ is) w w' quiet no_key no_id read h = (
    line_of i,
    map line_of is,
    refl,
    priced-Placed S order_settings (record q { items = none }) key (map line_of (i ∷ is))
        (seen q.authorization w) w' quiet no_key no_id (rw read at h),
  )

  -- Without the products of the buyer's cart, that cart shows nothing.
  emptied :
      (u b p : String) (carts : Carts H)
      → (if u == b && contains p (map product_of (map line_of (read_cart H u carts).items))
          then none
          else view H carts b p)
        ≡ (if u == b then none else view H carts b p)
  emptied u b p carts = elim (Text-cases u b) [
    | inr (ne, t) ↦ rw t
    | inl (same, t) ↦
        let items = (read_cart H u carts).items in
        elim (Bool-cases (contains p (map product_of (map line_of items)))) [
          | inl there ↦ rw (t, there)
          | inr gone ↦
              rw (t, gone)
                (ap (λ i. view H carts i p) (sym same) ∙ quantity_in-missing p items gone)
        ]
  ]

  -- A buyer checks out the cart: `create_order` with a new key and no items in the body. If every call
  -- is answered, cart-service takes the request for the buyer, and an order is returned, then the
  -- buyer's cart is empty afterwards, whether the order is PAID or FAILED, and every other cart is as it
  -- was. Both services are configured with one internal token, which is not empty, the time to live of
  -- the carts is positive, and nobody else writes to the database during the request.
  pub checkout_empties_cart :
      (q : CreateOrder) (key : String) (user : TokenClaims) (w w' : World S) (b p : String)
      {out : OrderOut}
      → order_settings.internal_service_token ≡ settings.internal_service_token
      → settings.internal_service_token ≢ ""
      → 0 < settings.cart_ttl_seconds
      → w.fates ≡ []
      → (get_current_user J w.cart.carts.now w.cart.auth
          (some q.authorization)
          w.cart.jwks_client).0
        ≡ ok user
      → user.user_id ≡ q.user_id
      → key ≢ ""
      → find key_of key w.orders ≡ none
      → find id_of q.new_id w.orders ≡ none
      → create_order_for S order_settings (λ v. v) (record q { items = none }) key w ≡ (ok out, w')
      → view H w'.cart.carts b p ≡ (if q.user_id == b then none else view H w.cart.carts b p)
  unfolding create_order_for
  checkout_empties_cart q key user w w' b p {out} same named ttl_pos quiet known buyer fresh no_key
        no_id h =
      let items = (read_cart H user.user_id w.cart.carts).items in
      let (l, lines, ordered, placed) =
        place_order-Placed q key user items w w' {out = out} quiet no_key no_id
          (get_cart_items-shown q.authorization user w quiet known)
          (rw (==-ne key "" fresh, no_key) at h) in
      let (o, v, owner, cart, fates, ran) = placed in
      let asked = λ (u : String) (ls : List Line) (c : CartService J H).
        if u == b && contains p (map product_of ls) then none else view H c.carts b p in
      ap (λ (x : World S). view H x.cart.carts b p) ran
      ∙ run_saga-clears_cart J H settings catalog payment order_settings o l lines v b p same named
          ttl_pos fates
      ∙ ap (λ u. asked u (l ∷ lines) v.cart) (owner ∙ sym buyer)
      ∙ ap (λ ls. asked user.user_id ls v.cart) ordered
      ∙ ap (asked user.user_id (map line_of items)) cart
      ∙ emptied user.user_id b p w.cart.carts
      ∙ ap (λ u. if u == b then none else view H w.cart.carts b p) buyer
