-- ===== src/Catalog/Seed.antt =====
-- app/seed.py and the startup of app/main.py of services/catalog-service: what a restart does to the stock.
use ecommerce_services.Common.{
  ℕ, ◌+◌, String, ◌≡◌, refl, sym, ap, subst, ◌∙◌, some, List, [], ◌∷◌, arith, eq_iff,
}
use ecommerce_services.Common.Int.{ℤ, pos, ◌+ℤ◌, ◌≤ℤ◌, int_laws}
use ecommerce_services.Common.Table.{find}
use ecommerce_services.Catalog.Defs.{Product, id_of, Caches, Catalog}
use ecommerce_services.Catalog.Effect.{IsStocked}
use ecommerce_services.Catalog.Overselling.{
  Write, run, granted, returned, apply-IsStocked, run-stock, granted_bound,
}

abbrev demo : String → String → ℕ → ℕ → Product
demo id name price stock = record { id = id; name = name; price_cents = price; stock = pos stock }

abbrev pub demo_mouse : Product
demo_mouse = demo "P001" "Wireless Mouse" 1999 100

-- `DEMO_PRODUCTS`
abbrev pub demo_products : List Product
demo_products =
    demo_mouse
    ∷ demo "P002" "Mechanical Keyboard" 6999 50
    ∷ demo "P003" "USB-C Hub" 2999 75
    ∷ demo "P004" "27in Monitor" 24999 20
    ∷ demo "P005" "Laptop Stand" 3499 60
    ∷ []

-- `seed_if_empty`, on the table.
unfoldable pub seed_if_empty : List Product → List Product
seed_if_empty [] = demo_products
seed_if_empty (p ∷ products) = p ∷ products

module _ (C : Caches) where
  -- A new process: `on_startup`, with the counters of its metrics at zero. The table and Redis are those
  -- of the process before.
  unfoldable pub on_startup : Catalog C → Catalog C
  on_startup s = record s {
    products = seed_if_empty s.products;
    conflicts_total = 0;
    cache_hits_total = 0;
    cache_misses_total = 0;
  }

-- What happens to the service.
pub data Happening : Type 0 where
  start : Happening
  write : Write → Happening

module _ (C : Caches) where
  unfoldable pub history : List Happening → Catalog C → Catalog C
  unfolding on_startup
  history [] s = s
  history (start ∷ hs) s = history hs (on_startup C s)
  history (write w ∷ hs) s = history hs (run C (w ∷ []) s)

  -- What is granted of product `j`, and what is given back.
  unfoldable pub granted_in : String → List Happening → Catalog C → ℕ
  granted_in j [] s = 0
  granted_in j (start ∷ hs) s = granted_in j hs (on_startup C s)
  granted_in j (write w ∷ hs) s = granted C j (w ∷ []) s + granted_in j hs (run C (w ∷ []) s)

  unfoldable pub returned_in : String → List Happening → Catalog C → ℕ
  returned_in j [] s = 0
  returned_in j (start ∷ hs) s = returned_in j hs (on_startup C s)
  returned_in j (write w ∷ hs) s = returned C j (w ∷ []) s + returned_in j hs (run C (w ∷ []) s)

  both_steps :
      (a b c : ℤ) (g r g' r' : ℕ)
      → b +ℤ pos g ≡ a +ℤ pos r
      → c +ℤ pos g' ≡ b +ℤ pos r'
      → c +ℤ pos (g + g') ≡ a +ℤ pos (r + r')
  both_steps a b c g r g' r' h k = grind int_laws

  -- A table with a product is not seeded again.
  find-seed_if_empty :
      (j : String) (rows : List Product) {p : Product}
      → find id_of j rows ≡ some p
      → seed_if_empty rows ≡ rows
  unfolding find seed_if_empty
  find-seed_if_empty j [] h = absurd (cc)
  find-seed_if_empty j (r ∷ rows) h = refl

  history-stock :
      (j : String) (hs : List Happening) (s : Catalog C) (p : Product)
      → find id_of j s.products ≡ some p
      → (p' : Product) × (find id_of j (history hs s).products ≡ some p')
        × (p'.stock +ℤ pos (granted_in j hs s) ≡ p.stock +ℤ pos (returned_in j hs s))
  unfolding history granted_in returned_in on_startup
  history-stock j [] s p e = (p, e, refl)
  history-stock j (start ∷ hs) s p e =
      history-stock j hs (on_startup C s) p
        (ap (find id_of j) (find-seed_if_empty j s.products e) ∙ e)
  history-stock j (write w ∷ hs) s p e =
      let (p₁, e₁, m₁) = run-stock C j (w ∷ []) s p e in
      let (p₂, e₂, m₂) = history-stock j hs (run C (w ∷ []) s) p₁ e₁ in
      (p₂, e₂, both_steps p.stock p₁.stock p₂.stock _ _ _ _ m₁ m₂)

  abbrev HasStocks : List Product → Type 0
  HasStocks rows = (j : String) (p : Product) → find id_of j rows ≡ some p → pos 0 ≤ℤ p.stock

  demo_products-HasStocks : HasStocks demo_products
  unfolding find
  demo_products-HasStocks j p e =
      ground
        (arith, eq_iff "P001" j, eq_iff "P002" j, eq_iff "P003" j, eq_iff "P004" j, eq_iff "P005" j)

  seed_if_empty-HasStocks : (rows : List Product) → HasStocks rows → HasStocks (seed_if_empty rows)
  unfolding seed_if_empty
  seed_if_empty-HasStocks [] h = demo_products-HasStocks
  seed_if_empty-HasStocks (r ∷ rows) h = h

  history-IsStocked : (hs : List Happening) (s : Catalog C) → IsStocked s → IsStocked (history hs s)
  unfolding history on_startup run
  history-IsStocked [] s h = h
  history-IsStocked (start ∷ hs) s h =
      history-IsStocked hs (on_startup C s) (seed_if_empty-HasStocks s.products h)
  history-IsStocked (write w ∷ hs) s h =
      history-IsStocked hs (run C (w ∷ []) s) (apply-IsStocked C w s h)

  -- A catalog starts on an empty table. Over any sequence of stock writes and further starts of the
  -- service, whatever the cache holds: no stock becomes negative; every demo product stays in the table,
  -- and what is left of it and what was granted make up its stock in the seed and what was given back;
  -- so what was granted never exceeds the seeded stock and what was given back, however often the service
  -- starts.
  pub restarts_keep_stock :
      (j : String) (hs : List Happening) (s : Catalog C) (p : Product)
      → s.products ≡ []
      → find id_of j demo_products ≡ some p
      → let s₀ = on_startup C s in
        let t = history hs s₀ in
        IsStocked t
        × ((p' : Product) × (find id_of j t.products ≡ some p')
            × (p'.stock +ℤ pos (granted_in j hs s₀) ≡ p.stock +ℤ pos (returned_in j hs s₀)))
        × (pos (granted_in j hs s₀) ≤ℤ p.stock +ℤ pos (returned_in j hs s₀))
  unfolding on_startup
  restarts_keep_stock j hs s p empty found =
      let s₀ : Catalog C = on_startup C s in
      let seeded : seed_if_empty s.products ≡ demo_products =
        ap seed_if_empty empty ∙ (unfold seed_if_empty in refl) in
      let stocked : IsStocked (history hs s₀) =
        history-IsStocked hs s₀ (subst HasStocks (sym seeded) demo_products-HasStocks) in
      let (p', e', m) = history-stock j hs s₀ p (ap (find id_of j) seeded ∙ found) in
      (stocked, (p', e', m), granted_bound p.stock p'.stock _ _ m (stocked j p' e'))
