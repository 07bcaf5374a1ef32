-- ===== src/Cart.antt =====
-- services/cart-service: the carts in Redis, the endpoints over them, and the abandonment scan.
mod Defs
mod Items
mod Abandonment
mod Endpoints
pub mod View
pub mod Refinement
pub mod Counted
mod Tests
unfoldable pub use Defs.*
unfoldable pub use Items.*
unfoldable pub use Endpoints.*
unfoldable pub use Abandonment.*
