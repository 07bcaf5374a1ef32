-- ===== src/Cart/Refinement.antt =====
-- The carts of the service are carts: maps from users and products to quantities, which forget
-- everything about Redis, its times to live and the metadata fields.
use ecommerce_services.Common.{
  ℕ, ◌+◌, ◌<◌, String, Bool, false, not, ◌&&◌, Option, none, some, List, [], ◌∷◌, ◌≡◌, refl, sym,
  ap, ◌∙◌, ◌⊎◌, inl, inr, arith, ◌==◌, ltb, if◌then◌else◌, Bool-cases, Text-cases, eq_refl,
}
use ecommerce_services.Common.Int.{pos, ltb_ℤ}
use ecommerce_services.Common.Dict
use ecommerce_services.Common.Dict.{Dict, contains}
use ecommerce_services.Common.Redis.{is_some}
use ecommerce_services.Common.Hashes.{Hashes}
use ecommerce_services.Shared.{Result, ok, err}
use ecommerce_services.Catalog.{PriceOut}
use ecommerce_services.Order.World.{Outcome}
use ecommerce_services.Cart.Defs.{
  Settings, Carts, AddItemRequest, is_meta, cart_key, get_price_and_stock,
}
use ecommerce_services.Cart.Items.{
  or_zero, add_item, remove_item, batch_remove_items, remove_present, present_of,
}
use ecommerce_services.Cart.Abandonment.{abandonment_pass}
use ecommerce_services.Cart.View.{view, view-hdel, view-touch_cart, view-field}

-- The carts of all users.
abbrev pub Ideal : Type 0
Ideal = String → String → Option ℕ

-- What reaches the service, and the passing of time.
pub data Act : Type 0 where
  add : AddItemRequest → String → Outcome PriceOut → Act
  remove : String → String → Act
  remove_batch : String → List String → Act
  scan_carts : Act
  wait : ℕ → Act

-- Whether an addition is accepted, for the quantity that is there.
abbrev pub fits : AddItemRequest → Result PriceOut → Option ℕ → Bool
fits body (err e) there = false
fits body (ok product) there =
    ltb 0 body.quantity && not (ltb_ℤ product.stock (pos (or_zero there + body.quantity)))

-- What each act may do to the carts: an addition that fits adds its quantity, a removal removes, and
-- as time passes a cart may be forgotten as a whole.
abbrev pub Allows : Act → Ideal → Ideal → Type 0
Allows (add body u outcome) a b =
    (v p : String)
    → b v p ≡ (
        if fits body (get_price_and_stock body.product_id outcome) (a u body.product_id)
          && (u == v && body.product_id == p)
        then some (or_zero (a u body.product_id) + body.quantity)
        else a v p)
Allows (remove q u) a b = (v p : String) → b v p ≡ (if u == v && q == p then none else a v p)
Allows (remove_batch u qs) a b =
    (v p : String) → b v p ≡ (if u == v && contains p qs then none else a v p)
Allows scan_carts a b = (v p : String) → b v p ≡ a v p
Allows (wait d) a b = (v : String) → ((p : String) → b v p ≡ a v p) ⊎ ((p : String) → b v p ≡ none)

pub data Behaves : List Act → Ideal → Ideal → Type 0 where
  done : {a : Ideal} → Behaves [] a a
  step :
      {q : Act} {qs : List Act} {a b c : Ideal}
      → Allows q a b
      → Behaves qs b c
      → Behaves (q ∷ qs) a c

-- No product is called like a metadata field.
abbrev pub IsProduct : Act → Type 0
IsProduct (add body u outcome) = is_meta body.product_id ≡ false
IsProduct _ = Unit

module _ (H : Hashes) (settings : Settings) where
  unfoldable pub serve : Act → Carts H → Carts H
  serve (add body u outcome) s = (add_item H settings body u outcome s).1
  serve (remove q u) s = remove_item H settings q u s
  serve (remove_batch u qs) s = (batch_remove_items H settings u qs s).1
  serve scan_carts s = (abandonment_pass H settings s).1
  serve (wait d) s = record s { now = s.now + d }

  unfoldable pub serve_all : List Act → Carts H → Carts H
  serve_all [] s = s
  serve_all (q ∷ qs) s = serve_all qs (serve q s)

  module _ (ttl_pos : 0 < settings.cart_ttl_seconds) where
    abbrev shown : Carts H → Ideal
    shown = view H

    -- What HMGET has not found need not be deleted.
    remove_present-view :
        (u v p : String) (ps : List String) (s : Carts H)
        → shown (remove_present H settings (cart_key u) ps s).1 v p
          ≡ (if u == v && contains p ps then none else shown s v p)
    unfolding remove_present contains
    remove_present-view u v p [] s = ground arith
    remove_present-view u v p (q ∷ ps) s =
        view-touch_cart H settings ttl_pos _ (cart_key u) v p
        ∙ view-hdel H settings ttl_pos s u v p (q ∷ ps)

    present_of-contains :
        (p : String) (qs : List String) (hash : Dict ℕ)
        → contains p (present_of qs hash) ≡ (contains p qs && is_some (Dict.lookup p hash))
    unfolding contains present_of
    present_of-contains p [] hash = refl
    present_of-contains p (q ∷ qs) hash = elim (Text-cases q p) [
      | inl (e, t) ↦ rw e (ground (arith, eq_refl p, present_of-contains p qs hash))
      | inr (ne, t) ↦ ground (arith, t, present_of-contains p qs hash)
    ]

    absent :
        (s : Carts H) (u p : String)
        → is_some (Dict.lookup p (H.hgetall s.now (cart_key u) s.store)) ≡ false
        → shown s u p ≡ none
    absent s u p e = view-field H settings ttl_pos s u p ∙ ground arith

    pub remove_batch-Allows :
        (u : String) (qs : List String) (s : Carts H)
        → Allows (remove_batch u qs) (shown s) (shown (batch_remove_items H settings u qs s).1)
    unfolding batch_remove_items
    remove_batch-Allows u qs s v p =
        let hash = H.hgetall s.now (cart_key u) s.store in
        remove_present-view u v p (present_of qs hash) s
        ∙ rw (present_of-contains p qs hash) (elim (Text-cases u v) [
          | inr (ne, t) ↦ rw t
          | inl (e, t) ↦ elim (Bool-cases (is_some (Dict.lookup p hash))) [
            | inl there ↦ rw (t, there) (ground arith)
            | inr gone ↦
                let no_item : shown s v p ≡ none =
                  ap (λ w. shown s w p) (sym e) ∙ absent s u p gone in
                rw (t, gone, no_item) (ground arith)
          ]
        ])
