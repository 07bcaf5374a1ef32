-- ===== src/Catalog/Tests.antt =====
-- Runs of the catalog on the demo products of app/seed.py, and the theorems at those inputs.
use ecommerce_services.Common.{ℕ, String, ◌≡◌, refl, List, [], ◌∷◌, arith, eq_iff, some}
use ecommerce_services.Common.Int.{pos, ◌≤ℤ◌, ◌+ℤ◌, ◌-ℤ◌}
use ecommerce_services.Common.Table.{find, update}
use ecommerce_services.Common.Dict
use ecommerce_services.Shared.{err}
use ecommerce_services.Catalog.Defs.{id_of, Product, Catalog, ReserveRequest}
use ecommerce_services.Catalog.Stock.{reserve_stock, insufficient_stock, invalidate_product}
use ecommerce_services.Catalog.Effect.{IsStocked}
use ecommerce_services.Catalog.Overselling.{
  Write, reserve, release, run, granted, returned, no_overselling,
}
use ecommerce_services.Catalog.Seed.{
  demo_products, demo_mouse, on_startup, Happening, start, write, history, granted_in, returned_in,
  restarts_keep_stock,
}
use ecommerce_services.Catalog.Demo.{caches, mouse, shop}

abbrev order : String → ℕ → ReserveRequest
order i q = record { product_id = i; quantity = q; order_id = "o-1" }

-- The second of two orders for the last mice is refused, and counted.
reserve_twice :
    let s = (reserve_stock caches (order "P001" 2) shop).1 in
    ((reserve_stock caches (order "P001" 1) s).0 ≡ err insufficient_stock)
    × ((reserve_stock caches (order "P001" 1) s).1.conflicts_total ≡ 1)
unfolding reserve_stock find update invalidate_product ◌-ℤ◌ Dict.erase
reserve_twice = (refl, refl)

shop-IsStocked : IsStocked shop
unfolding find
shop-IsStocked j p e = ground (arith, eq_iff "P001" j, eq_iff "P002" j)

abbrev rush : List Write
rush = reserve (order "P001" 2) ∷ reserve (order "P001" 1) ∷ release (order "P001" 1) ∷ []

no_overselling_example :
    IsStocked (run caches rush shop)
    × (pos (granted caches "P001" rush shop) ≤ℤ pos 2 +ℤ pos (returned caches "P001" rush shop))
unfolding find
no_overselling_example = no_overselling caches "P001" rush shop mouse shop-IsStocked refl

-- The first start, and a rush with a restart in between.
abbrev happenings : List Happening
happenings = write (reserve (order "P001" 2)) ∷ start ∷ write (release (order "P001" 1)) ∷ []

abbrev unseeded : Catalog caches
unseeded = record shop { products = [] }

demo_mouse-found : find id_of "P001" demo_products ≡ some demo_mouse
unfolding find
demo_mouse-found = refl

restarts_keep_stock_example :
    let s₀ = on_startup caches unseeded in
    let t = history caches happenings s₀ in
    IsStocked t
    × ((p' : Product) × (find id_of "P001" t.products ≡ some p')
        × (p'.stock +ℤ pos (granted_in caches "P001" happenings s₀)
            ≡ pos 100 +ℤ pos (returned_in caches "P001" happenings s₀)))
    × (pos (granted_in caches "P001" happenings s₀)
        ≤ℤ pos 100 +ℤ pos (returned_in caches "P001" happenings s₀))
restarts_keep_stock_example =
    restarts_keep_stock caches "P001" happenings unseeded demo_mouse refl demo_mouse-found
