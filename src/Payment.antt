-- ===== src/Payment.antt =====
-- services/payment-service: charges behind an idempotency key, one request and many at once.
mod Defs
mod Charge
mod Endpoint
pub mod Concurrent
mod Access
mod Orderly
pub mod AtMostOnce
pub mod Race
pub mod Answers
pub mod Alone
mod Stages
mod Settling
pub mod Agreement
mod Tests
unfoldable pub use Defs.*
unfoldable pub use Charge.*
unfoldable pub use Endpoint.*
