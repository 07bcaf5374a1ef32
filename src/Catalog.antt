-- ===== src/Catalog.antt =====
-- services/catalog-service: the products table, its Redis cache, and the endpoints over them.
mod Defs
mod Stock
mod Reads
pub mod Effect
pub mod Coherence
pub mod Overselling
pub mod Seed
pub mod Demo
mod Tests
unfoldable pub use Defs.*
unfoldable pub use Stock.*
unfoldable pub use Reads.*
