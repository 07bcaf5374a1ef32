-- ===== src/Catalog/Defs.antt =====
-- app/models.py, app/schemas.py, app/config.py and app/cache.py of services/catalog-service.
use Prim.Native.String.{◌++◌ as append}
use text.Mathlib.TextLemmas.{append_cancel_left}
use ecommerce_services.Common.{
  ℕ, String, ◌≡◌, Bool, List, Option, ◌==◌, inl, inr, Text-cases, ==-ne, eq_refl,
}
use ecommerce_services.Common.Int.{ℤ}
use ecommerce_services.Common.Redis.{Redis}

-- `Product`, a row of the table `products`. The column `stock` is signed in the database.
pub record Product : Type 0 where
  pub id : String
  pub name : String
  pub price_cents : ℕ
  pub stock : ℤ

-- The primary key.
abbrev pub id_of : Product → String
id_of p = p.id

pub record ProductOut : Type 0 where
  pub id : String
  pub name : String
  pub price_cents : ℕ
  pub stock : ℤ

pub record ProductListOut : Type 0 where
  pub items : List ProductOut
  pub total : ℕ
  pub limit : ℕ
  pub offset : ℕ

pub record PriceOut : Type 0 where
  pub id : String
  pub price_cents : ℕ
  pub stock : ℤ

pub record ReserveRequest : Type 0 where
  pub product_id : String
  pub quantity : ℕ
  pub order_id : String

-- `ReleaseRequest` has the same fields.
abbrev pub ReleaseRequest : Type 0
ReleaseRequest = ReserveRequest

pub record ReserveResponse : Type 0 where
  pub product_id : String
  pub order_id : String
  pub reserved : Bool
  pub remaining_stock : ℤ

-- `Settings`, as far as the handlers read it.
pub record Settings : Type 0 where
  pub internal_service_token : String
  pub product_cache_ttl_seconds : ℕ

-- The cached pages go by the keys `products:list:{limit}:{offset}`, which the interface takes as the
-- pair of numbers, and the cached products by the keys of `product_key`: one database, two families
-- of keys with different prefixes.
pub record Caches : Type 1 where
  pub by_id : Redis ProductOut
  pub Pages : Type 0
  pub get_page : ℕ → ℕ → ℕ → Pages → Option ProductListOut
  pub set_page : ℕ → ℕ → ℕ → ProductListOut → ℕ → Pages → Pages

module _ (C : Caches) where
  -- What the service keeps: the table, the cache, and the counters of its metrics.
  pub record Catalog : Type 0 where
    pub products : List Product
    pub cache : C.by_id.Store
    pub pages : C.Pages
    pub conflicts_total : ℕ
    pub cache_hits_total : ℕ
    pub cache_misses_total : ℕ

-- `_product_key`
unfoldable pub product_key : String → String
product_key product_id = append "product:" product_id

-- `_to_out`
unfoldable pub to_out : Product → ProductOut
to_out p = record { id = p.id; name = p.name; price_cents = p.price_cents; stock = p.stock }

-- Two products share a cache key exactly when they share their id.
pub product_key-eq : (i j : String) → (product_key i == product_key j) ≡ (i == j)
unfolding product_key
product_key-eq i j = elim (Text-cases i j) [
  | inl (e, t) ↦ rw (e, eq_refl (append "product:" j), eq_refl j)
  | inr (ne, t) ↦
      rw t (==-ne (product_key i) (product_key j) (λ e. ne (append_cancel_left "product:" i j e)))
]
