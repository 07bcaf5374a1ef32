-- ===== src/Order.antt =====
-- services/order-service: the checkout saga, its clients, and the background jobs.
pub mod Reasons
pub mod Services
pub mod World
pub mod Clients
pub mod Saga
pub mod Checkout
pub mod Stock
pub mod Conservation
pub mod Clearing
pub mod Charging
pub mod Frame
pub mod Outcomes
pub mod Idempotency
pub mod Queries
pub mod Jobs
pub mod Sweep
pub mod Reconciliation
pub mod Delivery
pub mod Crash
pub mod Lifecycle
pub mod Unique
pub mod Acts
pub mod Follows
pub mod Passes
pub mod Refinement
pub mod Story
pub mod History
pub mod Deliveries
pub mod Final
pub mod Guarantees
pub mod PrimaryKey
