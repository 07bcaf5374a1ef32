-- ===== src/Cart/View.antt =====
-- What a user sees of a cart, and what each write of Redis does to it.
use Prim.Native.String.{◌++◌ as append}
use text.Mathlib.TextLemmas.{append_cancel_left}
use ecommerce_services.Common.{
  ℕ, ◌+◌, ◌<◌, String, true, false, ◌&&◌, Option, none, some, List, [], ◌∷◌, ◌≡◌, refl, sym, ap,
  ◌∙◌, ◌⊎◌, inl, inr, arith, ◌==◌, eq_iff, eq_refl, ==-ne, if◌then◌else◌, Bool-cases, Text-cases,
}
use ecommerce_services.Common.Dict
use ecommerce_services.Common.Dict.{Dict, contains}
use ecommerce_services.Common.Hashes.{Hashes}
use ecommerce_services.Order.Services.{CartItem}
use ecommerce_services.Cart.Defs.{
  Settings, Carts, is_meta, cart_key, touch_cart, updated_at_field, abandonment_counted_field,
}
use ecommerce_services.Cart.Items.{items_of, read_cart}

-- The quantity of a product in a list of items.
unfoldable pub quantity_in : String → List CartItem → Option ℕ
quantity_in p [] = none
quantity_in p (i ∷ is) = if i.product_id == p then some i.quantity else quantity_in p is

-- A field of the hash, as far as it is a product.
abbrev pub product_field : String → Dict ℕ → Option ℕ
product_field p hash = if is_meta p then none else Dict.lookup p hash

pub quantity_in-items_of :
    (p : String) (raw : Dict ℕ) → quantity_in p (items_of raw) ≡ product_field p raw
unfolding quantity_in items_of Dict.lookup
quantity_in-items_of p [] = ground arith
quantity_in-items_of p ((f, v) ∷ raw) = elim (Text-cases f p) [
  | inl (e, t) ↦ rw e (ground (arith, eq_refl p, quantity_in-items_of p raw))
  | inr (ne, t) ↦ ground (arith, t, quantity_in-items_of p raw)
]

pub cart_key-eq : (u v : String) → (cart_key u == cart_key v) ≡ (u == v)
unfolding cart_key
cart_key-eq u v = elim (Text-cases u v) [
  | inl (e, t) ↦ rw (e, eq_refl (append "cart:" v), eq_refl v)
  | inr (ne, t) ↦
      rw t (==-ne (cart_key u) (cart_key v) (λ e. ne (append_cancel_left "cart:" u v e)))
]

-- The quantity of a product that a user's cart shows.
abbrev pub view : (H : Hashes) → Carts H → String → String → Option ℕ
view H s user_id p = quantity_in p (read_cart H user_id s).items

module _ (H : Hashes) (settings : Settings) (ttl_pos : 0 < settings.cart_ttl_seconds) where
  -- Neither of the fields that a touch writes is a product.
  touch_cart-field :
      (s : Carts H) (k j p : String)
      → is_meta p ≡ false
      → Dict.lookup p (H.hgetall s.now j (touch_cart H settings k s).store)
        ≡ Dict.lookup p (H.hgetall s.now j s.store)
  unfolding touch_cart
  touch_cart-field s k j p product =
      let stamped = H.hset s.now k updated_at_field s.now s.store in
      let unmarked = H.hdel s.now k (abandonment_counted_field ∷ []) stamped in
      ap (Dict.lookup p) (H.hgetall-expire s.now k j settings.cart_ttl_seconds unmarked ttl_pos)
      ∙ H.hget-hdel s.now k j p (abandonment_counted_field ∷ []) stamped
      ∙ (unfold is_meta contains in
          ground (
            arith,
            product,
            eq_iff p abandonment_counted_field,
            eq_iff abandonment_counted_field p,
            eq_iff p updated_at_field,
            eq_iff updated_at_field p,
            H.hget-hset s.now k j updated_at_field p s.now s.store,
          ))

  pub view-field :
      (s : Carts H) (u p : String)
      → view H s u p ≡ product_field p (H.hgetall s.now (cart_key u) s.store)
  unfolding read_cart
  view-field s u p = quantity_in-items_of p (H.hgetall s.now (cart_key u) s.store)

  -- Two states at one time with the same fields of products show the same carts.
  pub view-same :
      (s s' : Carts H) (u p : String)
      → s'.now ≡ s.now
      → (is_meta p ≡ false
          → Dict.lookup p (H.hgetall s.now (cart_key u) s'.store)
            ≡ Dict.lookup p (H.hgetall s.now (cart_key u) s.store))
      → view H s' u p ≡ view H s u p
  view-same s s' u p at same =
      rw (view-field s' u p, view-field s u p)
        (elim (Bool-cases (is_meta p)) [
          | inl m ↦ rw m
          | inr n ↦ rw n (ap (λ t. Dict.lookup p (H.hgetall t (cart_key u) s'.store)) at ∙ same n)
        ])

  pub view-touch_cart :
      (s : Carts H) (k u p : String) → view H (touch_cart H settings k s) u p ≡ view H s u p
  view-touch_cart s k u p =
      view-same s (touch_cart H settings k s) u p (unfold touch_cart in refl)
        (touch_cart-field s k (cart_key u) p)

  -- A write of a product's quantity.
  pub view-hset :
      (s : Carts H) (v u f p : String) (n : ℕ)
      → is_meta f ≡ false
      → view H (record s { store = H.hset s.now (cart_key v) f n s.store }) u p
        ≡ (if v == u && f == p then some n else view H s u p)
  view-hset s v u f p n product =
      let s' : Carts H = record s { store = H.hset s.now (cart_key v) f n s.store } in
      let e = H.hget-hset s.now (cart_key v) (cart_key u) f p n s.store in
      rw (view-field s' u p, view-field s u p, e, cart_key-eq)
        (elim (Text-cases f p) [
          | inl (same, t) ↦ rw (t, ← same, product) refl
          | inr (ne, t) ↦ rw t (ground arith)
        ])

  -- A deletion of fields.
  pub view-hdel :
      (s : Carts H) (v u p : String) (fs : List String)
      → view H (record s { store = H.hdel s.now (cart_key v) fs s.store }) u p
        ≡ (if v == u && contains p fs then none else view H s u p)
  view-hdel s v u p fs =
      let s' : Carts H = record s { store = H.hdel s.now (cart_key v) fs s.store } in
      let e = H.hget-hdel s.now (cart_key v) (cart_key u) p fs s.store in
      rw (view-field s' u p, view-field s u p, e, cart_key-eq) (ground arith)

  -- A mark on a hash.
  pub view-hset_meta :
      (s : Carts H) (k f u p : String) (n : ℕ)
      → is_meta f ≡ true
      → view H (record s { store = H.hset s.now k f n s.store }) u p ≡ view H s u p
  view-hset_meta s k f u p n meta =
      view-same s (record s { store = H.hset s.now k f n s.store }) u p refl
        (λ product. H.hget-hset s.now k (cart_key u) f p n s.store ∙ elim (Text-cases f p) [
          | inl (e, t) ↦ absurd (cc (sym meta ∙ ap is_meta e ∙ product))
          | inr (ne, t) ↦ rw t (ground arith)
        ])

  -- As time passes a cart stays or is gone.
  pub view-later :
      (s : Carts H) (d : ℕ) (u : String)
      → let s' : Carts H = record s { now = s.now + d } in
        ((p : String) → view H s' u p ≡ view H s u p) ⊎ ((p : String) → view H s' u p ≡ none)
  view-later s d u =
      let s' : Carts H = record s { now = s.now + d } in
      elim (H.hgetall-later s.now (s.now + d) (cart_key u) s.store (omega arith)) [
        | inl same ↦
            inl (λ p. view-field s' u p ∙ ap (product_field p) same ∙ sym (view-field s u p))
        | inr gone ↦ inr (λ p. view-field s' u p ∙ ap (product_field p) gone ∙ nothing p)
      ]
    where
      nothing : (p : String) → product_field p [] ≡ none
      nothing p = unfold Dict.lookup in ground arith
