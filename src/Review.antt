-- ===== src/Review.antt =====
-- services/review-service: who may review which product, and the reviews.
mod Reviews
pub mod OneReview
pub mod Race
pub mod Bought
mod Tests
unfoldable pub use Reviews.*
