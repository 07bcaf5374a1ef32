-- ===== src/Review/OneReview.antt =====
-- A user reviews a product at most once, and only after a delivery, however often it is delivered.
use ecommerce_services.Common.{
  ℕ, ◌+◌, ◌≤◌, String, true, Option, none, some, List, [], ◌∷◌, ◌++◌, ◌≡◌, refl, sym, ap, ◌∙◌, ◌==◌,
  if◌then◌else◌, Option-cases, Text-cases, Bool-cases, inl, inr, arith,
}
use ecommerce_services.Common.Dict
use ecommerce_services.Common.Dict.{Dict, lookup-insert}
use ecommerce_services.Order.World.{order_created, order_failed, order_paid, order_delivered}
use ecommerce_services.Events.Notifications.{Raw, json, malformed}
use ecommerce_services.Review.Reviews.{
  Eligibility, Review, ReviewIn, Database, eligibility_id, upserted, make_eligible, handle_event,
  unreviewed, review_with, create_review,
}

-- The number of reviews whose user and product have an id.
unfoldable pub reviews_for : String → List Review → ℕ
reviews_for k [] = 0
reviews_for k (r ∷ rs) =
    (if eligibility_id r.user_id r.product_id == k then 1 else 0) + reviews_for k rs

abbrev pub used : Option Eligibility → ℕ
used none = 0
used (some e) = if e.reviewed then 1 else 0

-- What reaches the service: a message, or a request of a user.
pub data Act : Type 0 where
  receive : Raw → Act
  post : ReviewIn → String → String → ℕ → Act

unfoldable pub act : Act → Database → Database
act (receive raw) db = (handle_event raw db).1
act (post body user_id new_id now) db = (create_review body user_id new_id now db).1

unfoldable pub run : List Act → Database → Database
run [] db = db
run (a ∷ acts) db = run acts (act a db)

used-upserted :
    (o : String) (at : ℕ) (e : Option Eligibility) → used (some (upserted o at e)) ≡ used e
used-upserted o at none = refl
used-upserted o at (some e) = refl

-- A delivery never makes a reviewed product reviewable again.
make_eligible-used :
    (k u o : String) (at : ℕ) (ps : List String) (docs : Dict Eligibility)
    → used (Dict.lookup k (make_eligible u o at ps docs)) ≡ used (Dict.lookup k docs)
unfolding make_eligible
make_eligible-used k u o at [] docs = refl
make_eligible-used k u o at (p ∷ ps) docs =
    let i : String = eligibility_id u p in
    make_eligible-used k u o at ps _ ∙ (elim (Text-cases i k) [
      | inl (e, t) ↦
          rw (lookup-insert i k (upserted o at (Dict.lookup i docs)) docs, t)
            (used-upserted o at (Dict.lookup i docs) ∙ ap (λ j. used (Dict.lookup j docs)) e)
      | inr (ne, t) ↦ rw (lookup-insert i k (upserted o at (Dict.lookup i docs)) docs, t)
    ])

pub reviews_for-append :
    (k : String) (rs : List Review) (r : Review)
    → reviews_for k (rs ++ r ∷ [])
      ≡ reviews_for k rs + (if eligibility_id r.user_id r.product_id == k then 1 else 0)
unfolding reviews_for
reviews_for-append k [] r = omega arith
reviews_for-append k (x ∷ rs) r = omega (arith, reviews_for-append k rs r)

abbrev pub IsCounted : String → Database → Type 0
IsCounted k db = reviews_for k db.reviews ≡ used (Dict.lookup k db.eligibility)

handle_event-IsCounted :
    (k : String) (raw : Raw) (db : Database) → IsCounted k db → IsCounted k (handle_event raw db).1
unfolding handle_event
handle_event-IsCounted k (malformed exc) db h = h
handle_event-IsCounted k (json (order_delivered o u ps at)) db h =
    h ∙ sym (make_eligible-used k u o at ps db.eligibility)
handle_event-IsCounted k (json (order_created o u is a)) db h = h
handle_event-IsCounted k (json (order_paid o u a at)) db h = h
handle_event-IsCounted k (json (order_failed o u r)) db h = h

unreviewed-used : (o : Option Eligibility) {e : Eligibility} → unreviewed o ≡ some e → used o ≡ 0
unreviewed-used none {e} h = refl
unreviewed-used (some x) {e} h = elim (Bool-cases x.reviewed) [
  | inl t ↦ let gone : unreviewed (some x) ≡ none = rw t in absurd (cc)
  | inr f ↦ rw f
]

create_review-IsCounted :
    (k : String) (body : ReviewIn) (user_id new_id : String) (now : ℕ) (db : Database)
    → IsCounted k db
    → IsCounted k (create_review body user_id new_id now db).1
unfolding create_review
create_review-IsCounted k body user_id new_id now db h =
    let i : String = eligibility_id user_id body.product_id in
    elim (Option-cases (unreviewed (Dict.lookup i db.eligibility))) [
      | inl refused ↦ rw (refused, review_with) h
      | inr (e, found) ↦
          let unused = unreviewed-used (Dict.lookup i db.eligibility) found in
          let after = lookup-insert i k (record e { reviewed = true }) db.eligibility in
          rw (found, review_with, after, reviews_for-append)
            (elim (Text-cases i k) [
              | inl (same, t) ↦
                  rw t
                    (omega (arith, h, unused, ap (λ j. used (Dict.lookup j db.eligibility)) same))
              | inr (ne, t) ↦ rw t (omega (arith, h))
            ])
    ]

act-IsCounted : (k : String) (a : Act) (db : Database) → IsCounted k db → IsCounted k (act a db)
unfolding act
act-IsCounted k (receive raw) db h = handle_event-IsCounted k raw db h
act-IsCounted k (post body user_id new_id now) db h =
    create_review-IsCounted k body user_id new_id now db h

run-IsCounted :
    (k : String) (acts : List Act) (db : Database) → IsCounted k db → IsCounted k (run acts db)
unfolding run
run-IsCounted k [] db h = h
run-IsCounted k (a ∷ acts) db h = run-IsCounted k acts (act a db) (act-IsCounted k a db h)

used-le : (o : Option Eligibility) → used o ≤ 1
used-le none = omega arith
used-le (some e) = ground arith

abbrev pub no_documents : Database
no_documents = record { eligibility = []; reviews = [] }

-- Over any sequence of messages and requests, one after the other, from an empty database: a user has
-- at most one review of a product, however often its delivery is announced, and as many as the
-- document of eligibility says, so none without a delivery.
pub one_review :
    (user_id product_id : String) (acts : List Act)
    → let db = run acts no_documents in
      let k = eligibility_id user_id product_id in
      (reviews_for k db.reviews ≤ 1)
      × (reviews_for k db.reviews ≡ used (Dict.lookup k db.eligibility))
unfolding reviews_for Dict.lookup
one_review user_id product_id acts =
    let k = eligibility_id user_id product_id in
    let db = run acts no_documents in
    let counted = run-IsCounted k acts no_documents refl in
    (omega (arith, counted, used-le (Dict.lookup k db.eligibility)), counted)
