-- ===== src/Auth.antt =====
-- services/auth-service: the accounts, their refresh tokens in the database, the blacklist in Redis, and
-- the endpoints over them.
mod Defs
mod Accounts
mod Keys
mod Tokens
mod Requests
mod Tests
mod Base64
pub mod KeyText
mod Spent
pub mod Race
pub mod Redemption
mod Users
pub mod Recognition
unfoldable pub use Defs.*
unfoldable pub use Accounts.*
unfoldable pub use Keys.*
unfoldable pub use Tokens.*
unfoldable pub use Requests.*
