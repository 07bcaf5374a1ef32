-- ===== src/System/CatalogEndpoints.antt =====
-- The endpoints of services/catalog-service keep the promises that the checkout saga rests on.
use mathlib.Core.Option
use ecommerce_services.Common.{
  ℕ, String, Bool, true, false, not, Option, some, [], ◌∷◌, ◌≡◌, ◌≢◌, refl, sym, ap, ◌∙◌, ◌⊎◌, inl,
  inr, arith, ◌==◌, ltb, if◌then◌else◌, Text-cases, Option-cases,
}
use ecommerce_services.Common.Int.{ℤ}
use ecommerce_services.Common.Redis.{is_some}
use ecommerce_services.Common.Table.{find}
use ecommerce_services.Shared.{
  AppError, Result, ok, err, Response, respond, raise_if, lift, continue, ◌>>◌,
}
use ecommerce_services.Shared.InternalAuth.{require_internal_caller, require_internal_caller_lem}
use ecommerce_services.Catalog.{
  Product, id_of, ReserveRequest, ReserveResponse, Settings, Caches, Catalog, reserve_stock,
  release_stock, post_reserve, post_release, get_price, get_price_endpoint, invalid_quantity,
  take_stock, put_stock, PriceOut,
}
use ecommerce_services.Catalog.Effect.{Reserved, Released, reserve_stock_lem, release_stock_lem}
use ecommerce_services.Order.Services.{CatalogApi, Headers, less, more, share, less-zero, more-zero}

-- The check of the caller that both writes make.
abbrev allowed : Settings → Headers → Result String
allowed settings (request_id, token, caller) =
    require_internal_caller settings.internal_service_token ("order-service" ∷ []) token caller

allowed_error :
    (settings : Settings) (h : Headers) (e : AppError)
    → allowed settings h ≡ err e
    → e.status_code ≢ 200
allowed_error settings (r, t, c) e h =
    elim (require_internal_caller_lem settings.internal_service_token ("order-service" ∷ []) t c) [
      | inl (passed, _, _, _) ↦ absurd (cc)
      | inr (x, refused, forbidden, _) ↦ ground arith
    ]

module _ {C : Caches} where
  -- The endpoint of a write: the check of the caller, that of the quantity, and the handler.
  abbrev guarded :
      String
      → Result String
      → Bool
      → (Catalog C → Result ReserveResponse × Catalog C)
      → Catalog C
      → Response ReserveResponse × Catalog C
  guarded r auth positive handler s =
      let (x, s') = (do lift auth; raise_if (not positive) invalid_quantity; handler) s in
      (respond r 200 x, s')

  -- A write that is let through is the handler's; any other is refused and changes nothing.
  guarded-cases :
      (r : String) (auth : Result String) (positive : Bool)
      (handler : Catalog C → Result ReserveResponse × Catalog C) (s : Catalog C)
      → ((e : AppError) → auth ≡ err e → e.status_code ≢ 200)
      → ((x : String) × (auth ≡ ok x)
          × (positive ≡ true)
          × (guarded r auth positive handler s ≡ (respond r 200 (handler s).0, (handler s).1)))
        ⊎ (((guarded r auth positive handler s).0.status_code ≢ 200)
            × ((guarded r auth positive handler s).1 ≡ s))
  unfolding respond
  guarded-cases r (err e) positive handler s refused = inr (refused e refl, refl)
  guarded-cases r (ok x) false handler s refused = inr (ground arith, refl)
  guarded-cases r (ok x) true handler s refused = inl (x, refl, refl, refl)

module _ (C : Caches) (settings : Settings) where
  abbrev stock_at : Catalog C → String → Option ℤ
  stock_at s j = Option.map (λ (p : Product). p.stock) (find id_of j s.products)

  -- The stock of every product after an update of one.
  stock-updated :
      (k j : String) (q : ℕ) (move : ℕ → Option ℤ → Option ℤ) (p p' : Product) (s s' : Catalog C)
      → ((o : Option ℤ) → move 0 o ≡ o)
      → find id_of k s.products ≡ some p
      → find id_of j s'.products ≡ (if k == j then some p' else find id_of j s.products)
      → some p'.stock ≡ move q (some p.stock)
      → stock_at s' j ≡ move (share j k q) (stock_at s j)
  stock-updated k j q move p p' s s' none_moved found after moved = elim (Text-cases k j) [
    | inl (same, t) ↦ rw (after, t, ← same, found) moved
    | inr (ne, t) ↦ rw (after, t) (sym (none_moved (stock_at s j)))
  ]

  reserve_status :
      (r : String) (body : ReserveRequest) (s s' : Catalog C) (x : Result ReserveResponse)
      → Reserved body s (x, s')
      → ((respond r 200 x).status_code ≡ 200
          → (is_some (stock_at s body.product_id) ≡ true)
            × ((j : String)
                → stock_at s' j ≡ less (share j body.product_id body.quantity) (stock_at s j)))
        × ((respond r 200 x).status_code ≢ 200 → (j : String) → stock_at s' j ≡ stock_at s j)
  unfolding respond less
  reserve_status r body s s' (ok x) (p, found, enough, _, _, _, after) = (
    λ _. (
      rw found,
      λ j.
          stock-updated body.product_id j body.quantity less p (take_stock body.quantity p) s s'
            less-zero found (after j) refl,
    ),
    λ ne. absurd (ne refl),
  )
  reserve_status r body s s' (err e) (inl (missing, is_404, same)) =
      (λ h. absurd (ground arith), λ _ j. rw same)
  reserve_status r body s s' (err e) (inr (p, found, short, is_409, same)) =
      (λ h. absurd (ground arith), λ _ j. rw same)

  release_status :
      (r : String) (body : ReserveRequest) (s s' : Catalog C) (x : Result ReserveResponse)
      → Released body s (x, s')
      → is_some (stock_at s body.product_id) ≡ true
      → (j : String) → stock_at s' j ≡ more (share j body.product_id body.quantity) (stock_at s j)
  unfolding more
  release_status r body s s' (ok x) (p, found, _, _, after) there j =
      stock-updated body.product_id j body.quantity more p (put_stock body.quantity p) s s'
        more-zero found (after j) refl
  release_status r body s s' (err e) (missing, _, same) there j =
      let gone : is_some (stock_at s body.product_id) ≡ false = rw missing in absurd (cc)

  allowed_twice :
      (h : Headers) (body : ReserveRequest) (s : Catalog C)
      → (post_reserve C settings h.0 h.1 h.2 body s).0.status_code ≡ 200
      → (x : String) × (allowed settings h ≡ ok x)
        × (ltb 0 body.quantity ≡ true)
        × (post_reserve C settings h.0 h.1 h.2 body s
            ≡ (respond h.0 200 (reserve_stock C body s).0, (reserve_stock C body s).1))
  unfolding post_reserve
  allowed_twice h body s is_200 =
      elim (guarded-cases h.0 (allowed settings h) (ltb 0 body.quantity) (reserve_stock C body) s
        (allowed_error settings h)) [
          | inl passed ↦ passed
          | inr (refused, _) ↦ absurd (refused is_200)
        ]

  pub reserve_effect :
      (h : Headers) (body : ReserveRequest) (s : Catalog C)
      → (post_reserve C settings h.0 h.1 h.2 body s).0.status_code ≡ 200
      → (is_some (stock_at s body.product_id) ≡ true)
        × ((j : String)
            → stock_at (post_reserve C settings h.0 h.1 h.2 body s).1 j
              ≡ less (share j body.product_id body.quantity) (stock_at s j))
  reserve_effect h body s is_200 =
      let (x, auth, positive, same) = allowed_twice h body s is_200 in
      rw same (
        (reserve_status h.0 body s (reserve_stock C body s).1 (reserve_stock C body s).0
            (reserve_stock_lem C body s)).0
          (ap (λ y. y.0.status_code) (sym same) ∙ is_200))

  pub reserve_refusal :
      (h : Headers) (body : ReserveRequest) (s : Catalog C)
      → (post_reserve C settings h.0 h.1 h.2 body s).0.status_code ≢ 200
      → (j : String) → stock_at (post_reserve C settings h.0 h.1 h.2 body s).1 j ≡ stock_at s j
  unfolding post_reserve
  reserve_refusal h body s not_200 j =
      elim (guarded-cases h.0 (allowed settings h) (ltb 0 body.quantity) (reserve_stock C body) s
        (allowed_error settings h)) [
          | inl (x, auth, positive, same) ↦
              ap (λ y. stock_at y.1 j) same
              ∙ (reserve_status h.0 body s (reserve_stock C body s).1 (reserve_stock C body s).0
                    (reserve_stock_lem C body s)).1
                  (λ e. not_200 (ap (λ y. y.0.status_code) same ∙ e)) j
          | inr (_, same) ↦ ap (λ t. stock_at t j) same
        ]

  pub release_effect :
      (h : Headers) (r : String) (body : ReserveRequest) (s t : Catalog C)
      → (post_reserve C settings h.0 h.1 h.2 body s).0.status_code ≡ 200
      → is_some (stock_at t body.product_id) ≡ true
      → (j : String)
      → stock_at (post_release C settings r h.1 h.2 body t).1 j
        ≡ more (share j body.product_id body.quantity) (stock_at t j)
  unfolding post_release
  release_effect h r body s t is_200 there j =
      let (x, auth, positive, _) = allowed_twice h body s is_200 in
      rw (auth, positive)
        (release_status r body t (release_stock C body t).1 (release_stock C body t).0
          (release_stock_lem C body t) there j)

  -- A price is read and nothing is written.
  get_price-same : (i : String) (s : Catalog C) → (get_price C settings i s).1 ≡ s
  unfolding get_price
  get_price-same i s = elim (Option-cases (find id_of i s.products)) [
    | inl missing ↦ rw (missing, get_price)
    | inr (p, found) ↦ rw (found, get_price)
  ]

  checked_price-same :
      (auth : Result String) (i : String) (s : Catalog C)
      → (continue {B = PriceOut} auth (λ _. get_price C settings i) s).1 ≡ s
  checked_price-same (err e) i s = refl
  checked_price-same (ok x) i s = get_price-same i s

  pub price_keeps :
      (h : Headers) (i j : String) (s : Catalog C)
      → stock_at (get_price_endpoint C settings h.0 h.1 h.2 i s).1 j ≡ stock_at s j
  unfolding get_price_endpoint
  price_keeps h i j s =
      ap (λ t. stock_at t j)
        (checked_price-same
          (require_internal_caller settings.internal_service_token
            ("cart-service" ∷ "order-service" ∷ []) h.1 h.2)
          i s)

  -- The endpoints of catalog-service, as order-service calls them.
  abbrev pub catalog_api : CatalogApi
  catalog_api = record {
    State = Catalog C;
    get_price = λ (h : Headers). get_price_endpoint C settings h.0 h.1 h.2;
    reserve = λ (h : Headers). post_reserve C settings h.0 h.1 h.2;
    release = λ (h : Headers). post_release C settings h.0 h.1 h.2;
    stock = stock_at;
    get_price-stock = price_keeps;
    reserve_granted = λ h body s is_200. (reserve_effect h body s is_200).1;
    reserve_refused = reserve_refusal;
    release_granted = release_effect;
    reserve_exists = λ h body s is_200. (reserve_effect h body s is_200).0;
  }
