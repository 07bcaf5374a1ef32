-- ===== src/Catalog/Demo.antt =====
-- A catalog with two of the products of app/seed.py, behind caches that are lists.
use ecommerce_services.Common.{
  ℕ, ◌+◌, Option, none, some, List, [], ◌∷◌, ltb, eqb, if◌then◌else◌, ◌&&◌,
}
use ecommerce_services.Common.Int.{pos}
use ecommerce_services.Common.Redis.{dict_redis}
use ecommerce_services.Catalog.Defs.{Product, ProductOut, ProductListOut, Settings, Caches, Catalog}

abbrev Page : Type 0
Page = ℕ × ℕ × ProductListOut × ℕ

abbrev find_page : ℕ → ℕ → ℕ → List Page → Option ProductListOut
find_page now limit offset [] = none
find_page now limit offset ((l, o, v, expires) ∷ ps) =
    if eqb l limit && eqb o offset && ltb now expires then some v else find_page now limit offset ps

abbrev pub caches : Caches
caches = record {
  by_id = dict_redis ProductOut;
  Pages = List Page;
  get_page = find_page;
  set_page = λ now limit offset v ttl ps. (limit, offset, v, now + ttl) ∷ ps;
}

abbrev pub settings : Settings
settings = record {
  internal_service_token = "dev-internal-token-change-me";
  product_cache_ttl_seconds = 60;
}

abbrev pub mouse : Product
mouse = record { id = "P001"; name = "Wireless Mouse"; price_cents = 1999; stock = pos 2 }

abbrev keyboard : Product
keyboard = record { id = "P002"; name = "Mechanical Keyboard"; price_cents = 6999; stock = pos 50 }

abbrev pub shop : Catalog caches
shop = record {
  products = mouse ∷ keyboard ∷ [];
  cache = [];
  pages = [];
  conflicts_total = 0;
  cache_hits_total = 0;
  cache_misses_total = 0;
}
