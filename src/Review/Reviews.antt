-- ===== src/Review/Reviews.antt =====
-- `handle_event` of app/consumer.py and `create_review` of app/routers/reviews.py of
-- services/review-service. The collections of its database are a dictionary and a list; calls of the
-- database are assumed to succeed.
use Prim.Native.String.{◌++◌ as append}
use ecommerce_services.Common.{
  map, keep, ℕ, String, Bool, true, false, Option, none, some, List, [], ◌∷◌, ◌++◌, ◌==◌,
  if◌then◌else◌,
}
use ecommerce_services.Common.Dict
use ecommerce_services.Common.Dict.{Dict}
use ecommerce_services.Shared.{AppError, app_error, Result, ok, err}
use ecommerce_services.Order.World.{order_created, order_failed, order_paid, order_delivered}
use ecommerce_services.Events.Notifications.{Raw, json, malformed}

-- A document of `eligibility_collection`; its `_id` is the key of the dictionary.
pub record Eligibility : Type 0 where
  pub order_id : String
  pub delivered_at : ℕ
  pub reviewed : Bool

-- A document of `reviews_collection`.
pub record Review : Type 0 where
  pub id : String
  pub product_id : String
  pub user_id : String
  pub order_id : String
  pub rating : ℕ
  pub comment : String
  pub created_at : ℕ

-- `ReviewOut`; `_to_out` changes only the spelling of its fields and of the time.
pub record ReviewOut : Type 0 where
  pub id : String
  pub product_id : String
  pub user_id : String
  pub order_id : String
  pub rating : ℕ
  pub comment : String
  pub created_at : ℕ

-- `_to_out`
unfoldable pub review_out : Review → ReviewOut
review_out doc = record {
  id = doc.id;
  product_id = doc.product_id;
  user_id = doc.user_id;
  order_id = doc.order_id;
  rating = doc.rating;
  comment = doc.comment;
  created_at = doc.created_at;
}

-- `ReviewIn`
pub record ReviewIn : Type 0 where
  pub product_id : String
  pub order_id : Option String
  pub rating : ℕ
  pub comment : String

pub record Database : Type 0 where
  pub eligibility : Dict Eligibility
  pub reviews : List Review

abbrev pub eligibility_id : String → String → String
eligibility_id user_id product_id = append user_id (append ":" product_id)

-- `$set` and `$setOnInsert`.
abbrev pub upserted : String → ℕ → Option Eligibility → Eligibility
upserted order_id at none = record { order_id = order_id; delivered_at = at; reviewed = false }
upserted order_id at (some e) = record e { order_id = order_id; delivered_at = at }

-- `update_one` with `upsert`, for each product.
unfoldable pub make_eligible :
    String → String → ℕ → List String → Dict Eligibility → Dict Eligibility
make_eligible user_id order_id at [] docs = docs
make_eligible user_id order_id at (p ∷ ps) docs =
    let k : String = eligibility_id user_id p in
    make_eligible user_id order_id at ps
      (Dict.insert k (upserted order_id at (Dict.lookup k docs)) docs)

unfoldable pub handle_event : Raw → Database → Option String × Database
unfolding make_eligible
handle_event (malformed exc) db = (some exc, db)
handle_event (json (order_delivered order_id user_id product_ids at)) db =
    (none, record db { eligibility = make_eligible user_id order_id at product_ids db.eligibility })
handle_event (json (order_created order_id user_id items amount)) db = (none, db)
handle_event (json (order_paid order_id user_id amount at)) db = (none, db)
handle_event (json (order_failed order_id user_id reason)) db = (none, db)

abbrev pub not_eligible : AppError
not_eligible =
    app_error "NOT_ELIGIBLE" "You can only review products from your own delivered orders" 403

-- `body.orderId or eligibility["orderId"]`
abbrev chosen_order : Option String → String → String
chosen_order none other = other
chosen_order (some s) other = if s == "" then other else s

-- `find_one({"_id": …, "reviewed": False})`
abbrev pub unreviewed : Option Eligibility → Option Eligibility
unreviewed none = none
unreviewed (some e) = if e.reviewed then none else some e

-- `create_review` from the answer of `find_one` on; `new_id` is the id that the database draws.
unfoldable pub review_with :
    ReviewIn → String → String → ℕ → Option Eligibility → Database → Result ReviewOut × Database
review_with body user_id new_id now none db = (err not_eligible, db)
review_with body user_id new_id now (some e) db =
    let k : String = eligibility_id user_id body.product_id in
    let doc : Review = record {
      id = new_id;
      product_id = body.product_id;
      user_id = user_id;
      order_id = chosen_order body.order_id e.order_id;
      rating = body.rating;
      comment = body.comment;
      created_at = now;
    } in
    (
      ok (review_out doc),
      record {
        eligibility = Dict.insert k (record e { reviewed = true }) db.eligibility;
        reviews = db.reviews ++ doc ∷ [];
      },
    )

unfoldable pub create_review :
    ReviewIn → String → String → ℕ → Database → Result ReviewOut × Database
unfolding review_with
create_review body user_id new_id now db =
    review_with body user_id new_id now
      (unreviewed (Dict.lookup (eligibility_id user_id body.product_id) db.eligibility)) db

-- `list_reviews`, with the sort of the database, by `createdAt` from new to old.
unfoldable pub list_reviews : (List Review → List Review) → String → Database → List ReviewOut
list_reviews newest_first product_id db =
    map review_out (newest_first (keep (λ (r : Review). r.product_id == product_id) db.reviews))
