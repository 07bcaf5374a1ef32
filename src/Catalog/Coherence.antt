-- ===== src/Catalog/Coherence.antt =====
-- The product cache never drifts from the table, whatever the order of the requests.
use ecommerce_services.Common.{
  ℕ, String, ◌≡◌, refl, sym, ◌∙◌, ap, Option, none, some, List, [], ◌∷◌, arith, ◌==◌, ltb,
  if◌then◌else◌, Option-cases, inl, inr, ◌||◌, Bool-cases, ◌+◌, false, eq_iff,
}
use ecommerce_services.Common.Table.{find}
use ecommerce_services.Shared.{Result, ok, err}
use ecommerce_services.Catalog.Defs.{
  Product, id_of, ProductOut, ReserveRequest, ReserveResponse, Settings, Caches, Catalog, to_out,
  product_key, product_key-eq,
}
use ecommerce_services.Catalog.Stock.{reserve_stock, release_stock, product_not_found}
use ecommerce_services.Catalog.Reads.{get_product, list_products, get_cached_product}
use ecommerce_services.Catalog.Effect.{Reserved, Released, reserve_stock_lem, release_stock_lem}

module _ (C : Caches) where
  -- A product that the cache still holds is the row of the table.
  abbrev pub IsCoherent : Catalog C → Type 0
  IsCoherent s =
      (now : ℕ) (i : String) (v : ProductOut)
      → C.by_id.get now (product_key i) s.cache ≡ some v
      → (p : Product) × (find id_of i s.products ≡ some p) × (v ≡ to_out p)

  -- What a GET of the product should answer: the row, or 404.
  abbrev pub answer : String → Option Product → Result ProductOut
  answer i none = err (product_not_found i)
  answer i (some p) = ok (to_out p)

  -- A write of one row with the deletion of its cache entry keeps the cache coherent.
  invalidated-IsCoherent :
      (k : String) (s s' : Catalog C)
      → s'.cache ≡ C.by_id.delete (product_key k) s.cache
      → ((j : String) → (k == j) ≡ false → find id_of j s'.products ≡ find id_of j s.products)
      → IsCoherent s
      → IsCoherent s'
  invalidated-IsCoherent k s s' deleted others h now i v e = elim (Bool-cases (k == i)) [
    | inl t ↦
        let gone : C.by_id.get now (product_key i) s'.cache ≡ none =
          rw (deleted, C.by_id.get-delete, product_key-eq, t) in
        absurd (cc)
    | inr t ↦
        let kept : C.by_id.get now (product_key i) s'.cache
            ≡ C.by_id.get now (product_key i) s.cache =
          rw (deleted, C.by_id.get-delete, product_key-eq, t) in
        let (p, found, same) = h now i v (sym kept ∙ e) in (p, others i t ∙ found, same)
  ]

  -- Filling the cache from the row keeps it coherent.
  filled-IsCoherent :
      (settings : Settings) (t : ℕ) (k : String) (p : Product) (s s' : Catalog C)
      → find id_of k s.products ≡ some p
      → s'.products ≡ s.products
      → s'.cache
        ≡ C.by_id.set_ex t (product_key k) (to_out p) settings.product_cache_ttl_seconds s.cache
      → IsCoherent s
      → IsCoherent s'
  filled-IsCoherent settings t k p s s' found table filled h now i v e =
      elim (Bool-cases (k == i)) [
        | inl same ↦
            let read : C.by_id.get now (product_key i) s'.cache ≡ (
                if ltb now (t + settings.product_cache_ttl_seconds)
                then some (to_out p)
                else none) =
              rw (filled, C.by_id.get-set_ex, product_key-eq, same) in
            let k≡i : k ≡ i = (eq_iff k i).0 same in
            (p, rw (table, ← k≡i) found, ground (arith, read))
        | inr other ↦
            let kept : C.by_id.get now (product_key i) s'.cache
                ≡ C.by_id.get now (product_key i) s.cache =
              rw (filled, C.by_id.get-set_ex, product_key-eq, other) in
            let (p', found', v≡) = h now i v (sym kept ∙ e) in (p', rw table found', v≡)
      ]

  Reserved-IsCoherent :
      (body : ReserveRequest) (s : Catalog C) (r : Result ReserveResponse) (s' : Catalog C)
      → Reserved body s (r, s')
      → IsCoherent s
      → IsCoherent s'
  Reserved-IsCoherent body s (ok r) s' (p, found, _, _, _, gone, after) h =
      invalidated-IsCoherent body.product_id s s' gone (λ j t. rw (after j, t)) h
  Reserved-IsCoherent body s (err x) s' (inl (_, _, same)) h = rw same h
  Reserved-IsCoherent body s (err x) s' (inr (_, _, _, _, same)) h = rw same h

  Released-IsCoherent :
      (body : ReserveRequest) (s : Catalog C) (r : Result ReserveResponse) (s' : Catalog C)
      → Released body s (r, s')
      → IsCoherent s
      → IsCoherent s'
  Released-IsCoherent body s (ok r) s' (p, found, _, gone, after) h =
      invalidated-IsCoherent body.product_id s s' gone (λ j t. rw (after j, t)) h
  Released-IsCoherent body s (err x) s' (_, _, same) h = rw same h

  module _ (settings : Settings) where
    abbrev refilled : ℕ → String → Product → Catalog C → Catalog C
    refilled now i p s = record s {
      cache =
          C.by_id.set_ex now (product_key i) (to_out p) settings.product_cache_ttl_seconds s.cache;
      cache_misses_total = s.cache_misses_total + 1;
    }

    -- A coherent cache answers a GET of a product from the table's row, and stays coherent.
    pub get_product_lem :
        (now : ℕ) (i : String) (s : Catalog C)
        → IsCoherent s
        → ((get_product C settings now i s).0 ≡ answer i (find id_of i s.products))
          × ((get_product C settings now i s).1.products ≡ s.products)
          × IsCoherent (get_product C settings now i s).1
    unfolding get_product
    get_product_lem now i s h = elim (Option-cases (get_cached_product C settings now i s)) [
      | inr (v, hit) ↦
          let (p, found, same) = h now i v (unfold get_cached_product in hit) in
          (rw (hit, found) (ap (λ w. ok w) same), rw hit, rw hit h)
      | inl miss ↦ elim (Option-cases (find id_of i s.products)) [
        | inl missing ↦ (rw (miss, missing), rw (miss, missing), rw (miss, missing) h)
        | inr (p, found) ↦ (
          rw (miss, found),
          rw (miss, found),
          rw (miss, found)
              (filled-IsCoherent settings now i p s (refilled now i p s) found refl refl h),
        )
      ]
    ]

    list_products-IsCoherent :
        (order_by_id : List Product → List Product) (now limit offset : ℕ) (s : Catalog C)
        → IsCoherent s
        → IsCoherent (list_products C settings order_by_id now limit offset s).1
    unfolding list_products
    list_products-IsCoherent order_by_id now limit offset s h =
        elim (Bool-cases (ltb limit 1 || ltb 100 limit)) [
          | inl invalid ↦ rw invalid h
          | inr valid ↦ elim (Option-cases (C.get_page now limit offset s.pages)) [
            | inl miss ↦ rw (valid, miss) h
            | inr (v, hit) ↦ rw (valid, hit) h
          ]
        ]

    module _ (order_by_id : List Product → List Product) where
      -- One request to the service, at a time.
      pub data Request : Type 0 where
        reserve release : ReserveRequest → Request
        get : ℕ → String → Request
        list : ℕ → ℕ → ℕ → Request

      unfoldable pub serve : Request → Catalog C → Catalog C
      serve (reserve body) s = (reserve_stock C body s).1
      serve (release body) s = (release_stock C body s).1
      serve (get now i) s = (get_product C settings now i s).1
      serve (list now limit offset) s = (list_products C settings order_by_id now limit offset s).1

      unfoldable pub serve_all : List Request → Catalog C → Catalog C
      unfolding serve
      serve_all [] s = s
      serve_all (q ∷ qs) s = serve_all qs (serve q s)

      serve-IsCoherent : (q : Request) (s : Catalog C) → IsCoherent s → IsCoherent (serve q s)
      unfolding serve
      serve-IsCoherent (reserve body) s h =
          Reserved-IsCoherent body s (reserve_stock C body s).0 (reserve_stock C body s).1
            (reserve_stock_lem C body s) h
      serve-IsCoherent (release body) s h =
          Released-IsCoherent body s (release_stock C body s).0 (release_stock C body s).1
            (release_stock_lem C body s) h
      serve-IsCoherent (get now i) s h = (get_product_lem now i s h).2
      serve-IsCoherent (list now limit offset) s h =
          list_products-IsCoherent order_by_id now limit offset s h

      pub serve_all-IsCoherent :
          (qs : List Request) (s : Catalog C) → IsCoherent s → IsCoherent (serve_all qs s)
      unfolding serve_all
      serve_all-IsCoherent [] s h = h
      serve_all-IsCoherent (q ∷ qs) s h =
          serve_all-IsCoherent qs (serve q s) (serve-IsCoherent q s h)
