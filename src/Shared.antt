-- ===== src/Shared.antt =====
-- The library that the services share (shared/gestalt_shared).
mod Errors
pub mod InternalAuth
pub mod Requests
pub mod Metrics
pub mod Uncounted
pub mod Traces
pub mod Jwt
pub mod JwtDemo
pub mod Security
pub mod Authentic
mod Tests
unfoldable pub use Errors.*
