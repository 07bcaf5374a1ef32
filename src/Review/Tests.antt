-- ===== src/Review/Tests.antt =====
-- A delivery that is announced twice, and two reviews of what was delivered.
use ecommerce_services.Common.{◌≤◌, ◌+◌, false, refl, none, List, [], ◌∷◌, ◌≡◌}
use ecommerce_services.Common.Dict
use ecommerce_services.Order.World.{order_delivered}
use ecommerce_services.Events.Notifications.{json}
use ecommerce_services.Review.Reviews.{
  ReviewIn, ReviewOut, Eligibility, Database, eligibility_id, unreviewed, review_with, handle_event,
  make_eligible,
}
use ecommerce_services.Shared.{ok}
use ecommerce_services.Review.Race.{IsEligible, double_review}
use ecommerce_services.Review.OneReview.{
  Act, act, receive, post, run, reviews_for, used, no_documents, one_review,
}

abbrev praise : ReviewIn
praise = record { product_id = "P001"; order_id = none; rating = 5; comment = "Good" }

abbrev acts : List Act
acts =
    receive (json (order_delivered "o-1" "u-1" ("P001" ∷ []) 7))
    ∷ post praise "u-1" "r-1" 8
    ∷ receive (json (order_delivered "o-1" "u-1" ("P001" ∷ []) 7))
    ∷ post praise "u-1" "r-2" 9
    ∷ []

one_review_example :
    (reviews_for (eligibility_id "u-1" "P001") (run acts no_documents).reviews ≤ 1)
    × (reviews_for (eligibility_id "u-1" "P001") (run acts no_documents).reviews
        ≡ used (Dict.lookup (eligibility_id "u-1" "P001") (run acts no_documents).eligibility))
one_review_example = one_review "u-1" "P001" acts

-- The database after the delivery.
abbrev delivered : Database
delivered = run (receive (json (order_delivered "o-1" "u-1" ("P001" ∷ []) 7)) ∷ []) no_documents

abbrev document : Eligibility
document = record { order_id = "o-1"; delivered_at = 7; reviewed = false }

delivered-IsEligible : IsEligible "u-1" praise delivered document
unfolding run act handle_event make_eligible Dict.lookup Dict.insert
delivered-IsEligible = refl

double_review_example :
    let k = eligibility_id "u-1" "P001" in
    let found = unreviewed (Dict.lookup k delivered.eligibility) in
    let (r₁, db₁) = review_with praise "u-1" "r-1" 8 found delivered in
    let (r₂, db₂) = review_with praise "u-1" "r-2" 8 found db₁ in
    ((out : ReviewOut) × (r₁ ≡ ok out))
    × ((out : ReviewOut) × (r₂ ≡ ok out))
    × (reviews_for k db₂.reviews ≡ reviews_for k delivered.reviews + 2)
double_review_example =
    double_review praise praise "u-1" "r-1" "r-2" 8 8 delivered {e = document} refl
      delivered-IsEligible
