-- ===== src/Catalog/Effect.antt =====
-- What the writes of the catalog do to each product, on every branch.
use mathlib.Core.Option
use ecommerce_services.Common.{
  ◌+◌, String, ◌≡◌, refl, ◌⊎◌, inl, inr, true, Option, none, some, arith, ◌==◌, if◌then◌else◌,
  Option-cases, Bool-cases, Text-cases, List,
}
use ecommerce_services.Common.Int.{ℤ, pos, ltb_ℤ, ◌+ℤ◌, ◌-ℤ◌, ◌≤ℤ◌}
use ecommerce_services.Common.Table.{find, update, find-update}
use ecommerce_services.Shared.{Result, ok, err}
use ecommerce_services.Catalog.Defs.{
  Product, id_of, ReserveRequest, ReserveResponse, Caches, Catalog, product_key,
}
use ecommerce_services.Catalog.Stock.{
  take_stock, put_stock, product_not_found, invalidate_product, insufficient_stock, reserve_stock,
  release_stock,
}

module _ {C : Caches} where
  -- The stock of a product, if it exists.
  abbrev pub stock_of : Catalog C → String → Option ℤ
  stock_of s j = Option.map (λ (p : Product). p.stock) (find id_of j s.products)

  -- A reservation that is granted.
  abbrev pub Granted : Result ReserveResponse × Catalog C → Type 0
  Granted (ok r, s') = Unit
  Granted (err e, s') = ⊥

  abbrev pub IsStocked : Catalog C → Type 0
  IsStocked s = (j : String) (p : Product) → find id_of j s.products ≡ some p → pos 0 ≤ℤ p.stock

  -- What `reserve_stock` has done to the catalog `s`, by how it ended.
  abbrev pub Reserved : ReserveRequest → Catalog C → Result ReserveResponse × Catalog C → Type 0
  Reserved body s (ok r, s') =
      (p : Product) × (find id_of body.product_id s.products ≡ some p)
      × (pos body.quantity ≤ℤ p.stock)
      × (r.remaining_stock ≡ p.stock -ℤ pos body.quantity)
      × (r.reserved ≡ true)
      × (s'.cache ≡ C.by_id.delete (product_key body.product_id) s.cache)
      × ((j : String)
          → find id_of j s'.products ≡ (
              if body.product_id == j
              then some (take_stock body.quantity p)
              else find id_of j s.products))
  Reserved body s (err e, s') =
      ((find id_of body.product_id s.products ≡ none)
        × (e ≡ product_not_found body.product_id)
        × (s' ≡ s))
      ⊎ ((p : Product) × (find id_of body.product_id s.products ≡ some p)
          × ¬ (pos body.quantity ≤ℤ p.stock)
          × (e ≡ insufficient_stock)
          × (s' ≡ record s { conflicts_total = s.conflicts_total + 1 }))

  -- What `release_stock` has done, by how it ended.
  abbrev pub Released : ReserveRequest → Catalog C → Result ReserveResponse × Catalog C → Type 0
  Released body s (ok r, s') =
      (p : Product) × (find id_of body.product_id s.products ≡ some p)
      × (r.remaining_stock ≡ p.stock +ℤ pos body.quantity)
      × (s'.cache ≡ C.by_id.delete (product_key body.product_id) s.cache)
      × ((j : String)
          → find id_of j s'.products ≡ (
              if body.product_id == j
              then some (put_stock body.quantity p)
              else find id_of j s.products))
  Released body s (err e, s') =
      (find id_of body.product_id s.products ≡ none)
      × (e ≡ product_not_found body.product_id)
      × (s' ≡ s)

-- An update of the row with a known id is seen by the queries of that id.
find-update_found :
    (k j : String) (f : Product → Product) (rows : List Product) (p : Product)
    → ((r : Product) → (f r).id ≡ r.id)
    → find id_of k rows ≡ some p
    → find id_of j (update id_of k f rows) ≡ (if k == j then some (f p) else find id_of j rows)
find-update_found k j f rows p same h = elim (Text-cases k j) [
  | inl (e, t) ↦ rw (find-update id_of k j f rows same, t, ← e, h)
  | inr (ne, t) ↦ rw (find-update id_of k j f rows same, t)
]

-- A reservation is granted exactly when the product exists and has the quantity in stock; it then
-- takes that quantity from that product and from no other, and answers with what remains. An
-- unknown product is answered 404 and changes nothing; too large a quantity is answered 409 and
-- only counted.
pub reserve_stock_lem :
    (C : Caches) (body : ReserveRequest) (s : Catalog C) → Reserved body s (reserve_stock C body s)
unfolding reserve_stock
reserve_stock_lem C body s = elim (Option-cases (find id_of body.product_id s.products)) [
  | inl missing ↦ rw missing (inl (missing, refl, refl))
  | inr (p, found) ↦ elim (Bool-cases (ltb_ℤ p.stock (pos body.quantity))) [
    | inl short ↦ rw (found, short) (inr (p, found, ground arith, refl, refl))
    | inr enough ↦
        rw (found, enough)
          (
            p,
            found,
            ground arith,
            refl,
            refl,
            unfold invalidate_product in refl,
            λ j.
                unfold invalidate_product in
                find-update_found body.product_id j (take_stock body.quantity) s.products p
                  (λ r. refl) found,
          )
  ]
]

-- A release of a known product adds the quantity to it and to no other; an unknown product is
-- answered 404 and changes nothing.
pub release_stock_lem :
    (C : Caches) (body : ReserveRequest) (s : Catalog C) → Released body s (release_stock C body s)
unfolding release_stock
release_stock_lem C body s = elim (Option-cases (find id_of body.product_id s.products)) [
  | inl missing ↦ rw missing (missing, refl, refl)
  | inr (p, found) ↦ rw found (
    p,
    found,
    refl,
    unfold invalidate_product in refl,
    λ j.
        unfold invalidate_product in
        find-update_found body.product_id j (put_stock body.quantity) s.products p (λ r. refl)
          found,
  )
]
