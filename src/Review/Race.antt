-- ===== src/Review/Race.antt =====
-- Two requests of one user at once, cut between the `find_one` of create_review and its first write.
use ecommerce_services.Common.{ℕ, ◌+◌, String, some, ◌≡◌, refl, ◌∙◌, sym, subst, arith, eq_refl}
use ecommerce_services.Common.Dict
use ecommerce_services.Shared.{ok}
use ecommerce_services.Review.Reviews.{
  Eligibility, ReviewIn, ReviewOut, Database, eligibility_id, unreviewed, review_with,
}
use ecommerce_services.Review.OneReview.{reviews_for, reviews_for-append}

-- What `find_one` answers a request.
abbrev pub IsEligible : String → ReviewIn → Database → Eligibility → Type 0
IsEligible user_id body db e =
    unreviewed (Dict.lookup (eligibility_id user_id body.product_id) db.eligibility) ≡ some e

-- The rest of a request that has found its document adds one review.
review_with_adds :
    (body : ReviewIn) (user_id new_id : String) (now : ℕ) (e : Eligibility) (db : Database)
    → reviews_for
        (eligibility_id user_id body.product_id)
        (review_with body user_id new_id now (some e) db).1.reviews
      ≡ reviews_for (eligibility_id user_id body.product_id) db.reviews + 1
unfolding review_with
review_with_adds body user_id new_id now e db =
    let k = eligibility_id user_id body.product_id in
    reviews_for-append k db.reviews _ ∙ rw (eq_refl k) refl

review_with_accepts :
    (body : ReviewIn) (user_id new_id : String) (now : ℕ) (e : Eligibility) (db : Database)
    → (out : ReviewOut) × ((review_with body user_id new_id now (some e) db).0 ≡ ok out)
unfolding review_with
review_with_accepts body user_id new_id now e db = (_, refl)

-- Two requests of a user for reviews of one product: if both look for the document of eligibility
-- before either has written, and find it, both are accepted, and the user has two reviews more of that
-- product.
pub double_review :
    (first second : ReviewIn) (user_id id₁ id₂ : String) (t₁ t₂ : ℕ) (db : Database)
    {e : Eligibility}
    → first.product_id ≡ second.product_id
    → IsEligible user_id first db e
    → let k = eligibility_id user_id first.product_id in
      let found = unreviewed (Dict.lookup k db.eligibility) in
      let (r₁, db₁) = review_with first user_id id₁ t₁ found db in
      let (r₂, db₂) = review_with second user_id id₂ t₂ found db₁ in
      ((out : ReviewOut) × (r₁ ≡ ok out))
      × ((out : ReviewOut) × (r₂ ≡ ok out))
      × (reviews_for k db₂.reviews ≡ reviews_for k db.reviews + 2)
double_review first second user_id id₁ id₂ t₁ t₂ db {e} same found =
    let k = eligibility_id user_id first.product_id in
    let db₁ = (review_with first user_id id₁ t₁ (some e) db).1 in
    let one = review_with_adds first user_id id₁ t₁ e db in
    let two : reviews_for k (review_with second user_id id₂ t₂ (some e) db₁).1.reviews
        ≡ reviews_for k db₁.reviews + 1 =
      subst
        (λ p.
          reviews_for (eligibility_id user_id p)
            (review_with second user_id id₂ t₂ (some e) db₁).1.reviews
          ≡ reviews_for (eligibility_id user_id p) db₁.reviews + 1)
        (sym same) (review_with_adds second user_id id₂ t₂ e db₁) in
    rw found (
      review_with_accepts first user_id id₁ t₁ e db,
      review_with_accepts second user_id id₂ t₂ e db₁,
      omega (arith, one, two),
    )
