-- ===== src/System.antt =====
-- How the services are wired together (docker-compose.yml): the catalog, the carts and the
-- payments behind the endpoints that order-service calls.
pub mod CatalogEndpoints
pub mod CartEndpoints
pub mod CartCheckout
pub mod PaidOrders
pub mod Purchases
pub mod Notified
mod Demo
mod Tests
mod OrderTests
mod CartTests
mod CrashTests
mod PaidTests
