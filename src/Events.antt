-- ===== src/Events.antt =====
-- The consumers of the order events, and the notifications that one of them sends.
mod Consumer
pub mod Reference
pub mod Progress
pub mod Quiet
pub mod Settled
pub mod Crashes
pub mod Notifications
mod Tests
unfoldable pub use Consumer.*
