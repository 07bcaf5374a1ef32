-- ===== src/Review/Bought.antt =====
-- A review stands on a delivery that was announced: which user and which product it needs.
use mathlib.Core.Option.{some-injective}
use ecommerce_services.Common.{
  ℕ, String, true, Option, none, some, Option-cases, Bool-cases, Text-cases, List, [], ◌∷◌, All,
  All-append, ◌≡◌, refl, sym, subst, ◌∙◌, inl, inr, ◌==◌, eq_refl,
}
use ecommerce_services.Common.Dict
use ecommerce_services.Common.Dict.{Dict, contains, lookup-insert}
use ecommerce_services.Order.World.{order_created, order_failed, order_paid, order_delivered}
use ecommerce_services.Events.Notifications.{Raw, json, malformed}
use ecommerce_services.Review.Reviews.{
  Eligibility, Review, ReviewIn, Database, eligibility_id, upserted, make_eligible, handle_event,
  unreviewed, review_with, create_review,
}
use ecommerce_services.Review.OneReview.{Act, receive, post, act, run, no_documents}

contains-later :
    (q : String) (all ps : List String)
    → All (λ p. contains p all ≡ true) ps
    → All (λ p. contains p (q ∷ all) ≡ true) ps
unfolding contains
contains-later q all [] h = tt
contains-later q all (p ∷ ps) (first, h) =
    (elim (Bool-cases (q == p)) [ inl t ↦ rw t | inr f ↦ rw (f, first) ], contains-later q all ps h)

-- Each product of a list is in it.
contains-All : (ps : List String) → All (λ p. contains p ps ≡ true) ps
unfolding contains
contains-All [] = tt
contains-All (p ∷ ps) = (rw (eq_refl p), contains-later p ps ps (contains-All ps))

unreviewed-some : (o : Option Eligibility) {e : Eligibility} → unreviewed o ≡ some e → o ≡ some e
unreviewed-some none h = h
unreviewed-some (some x) {e} h = elim (Bool-cases x.reviewed) [
  | inl t ↦ let gone : unreviewed (some x) ≡ none = rw t in absurd (cc)
  | inr f ↦ sym (let same : unreviewed (some x) ≡ some x = rw f in same) ∙ h
]

-- What is known of the order, the user and the products of an announced delivery.
module _ (Known : String → String → List String → Type 0) where
  -- The order is known with a product that the id stands for.
  abbrev pub Covers : String → String → Type 0
  Covers k order_id =
      (u : String) × (products : List String) × (p : String) × Known order_id u products
      × (contains p products ≡ true)
      × (eligibility_id u p ≡ k)

  -- The messages announce what is known.
  abbrev pub IsHonest : Act → Type 0
  IsHonest (receive (malformed exc)) = Unit
  IsHonest (receive (json (order_created i u lines amount))) = Unit
  IsHonest (receive (json (order_failed i u reason))) = Unit
  IsHonest (receive (json (order_paid i u amount at))) = Unit
  IsHonest (receive (json (order_delivered i u products at))) = Known i u products
  IsHonest (post body user_id new_id now) = Unit

  abbrev HasOrders : Dict Eligibility → Type 0
  HasOrders docs =
      (k : String) (e : Eligibility) → Dict.lookup k docs ≡ some e → Covers k e.order_id

  -- A delivery covers the review.
  abbrev pub IsCovered : Review → Type 0
  IsCovered r = (i : String) × Covers (eligibility_id r.user_id r.product_id) i

  abbrev IsSound : Database → Type 0
  IsSound db = HasOrders db.eligibility × All IsCovered db.reviews

  insert-HasOrders :
      (k : String) (e : Eligibility) (docs : Dict Eligibility)
      → Covers k e.order_id
      → HasOrders docs
      → HasOrders (Dict.insert k e docs)
  insert-HasOrders k e docs new old j found h = elim (Text-cases k j) [
    | inl (same, t) ↦
        let this : e ≡ found = some-injective e found (sym (lookup-insert k j e docs ∙ rw t) ∙ h) in
        subst (λ (x : Eligibility). Covers j x.order_id) this
          (subst (λ i. Covers i e.order_id) same new)
    | inr (ne, t) ↦ old j found (sym (lookup-insert k j e docs ∙ rw t) ∙ h)
  ]

  order_id-upserted :
      (i : String) (at : ℕ) (e : Option Eligibility) → (upserted i at e).order_id ≡ i
  order_id-upserted i at none = refl
  order_id-upserted i at (some e) = refl

  make_eligible-HasOrders :
      (u i : String) (at : ℕ) (products ps : List String) (docs : Dict Eligibility)
      → Known i u products
      → All (λ p. contains p products ≡ true) ps
      → HasOrders docs
      → HasOrders (make_eligible u i at ps docs)
  unfolding make_eligible
  make_eligible-HasOrders u i at products [] docs known among h = h
  make_eligible-HasOrders u i at products (p ∷ ps) docs known (first, among) h =
      let k : String = eligibility_id u p in
      let e : Eligibility = upserted i at (Dict.lookup k docs) in
      make_eligible-HasOrders u i at products ps (Dict.insert k e docs) known among (
        insert-HasOrders k e docs
          (subst (Covers k) (sym (order_id-upserted i at (Dict.lookup k docs)))
            (u, products, p, known, first, refl))
          h)

  handle_event-IsSound :
      (raw : Raw) (db : Database)
      → IsHonest (receive raw)
      → IsSound db
      → IsSound (handle_event raw db).1
  unfolding handle_event
  handle_event-IsSound (malformed exc) db honest h = h
  handle_event-IsSound (json (order_created i u lines amount)) db honest h = h
  handle_event-IsSound (json (order_failed i u reason)) db honest h = h
  handle_event-IsSound (json (order_paid i u amount at)) db honest h = h
  handle_event-IsSound (json (order_delivered i u products at)) db honest (docs, reviews) = (
    make_eligible-HasOrders u i at products products db.eligibility honest (contains-All products)
        docs,
    reviews,
  )

  create_review-IsSound :
      (body : ReviewIn) (user_id new_id : String) (now : ℕ) (db : Database)
      → IsSound db
      → IsSound (create_review body user_id new_id now db).1
  unfolding create_review
  create_review-IsSound body user_id new_id now db (docs, reviews) =
      let k : String = eligibility_id user_id body.product_id in
      elim (Option-cases (unreviewed (Dict.lookup k db.eligibility))) [
        | inl refused ↦ rw (refused, review_with) (docs, reviews)
        | inr (e, found) ↦
            let covered : Covers k e.order_id =
              docs k e (unreviewed-some (Dict.lookup k db.eligibility) found) in
            rw (found, review_with)
              (
                insert-HasOrders k (record e { reviewed = true }) db.eligibility covered docs,
                All-append IsCovered db.reviews _ reviews ((e.order_id, covered), tt),
              )
      ]

  run-IsSound :
      (acts : List Act) (db : Database) → All IsHonest acts → IsSound db → IsSound (run acts db)
  unfolding run act
  run-IsSound [] db honest h = h
  run-IsSound (receive raw ∷ acts) db (first, honest) h =
      run-IsSound acts _ honest (handle_event-IsSound raw db first h)
  run-IsSound (post body user_id new_id now ∷ acts) db (first, honest) h =
      run-IsSound acts _ honest (create_review-IsSound body user_id new_id now db h)

  -- Every review that is stored is covered by a delivery that was announced.
  pub reviews-IsCovered :
      (acts : List Act) → All IsHonest acts → All IsCovered (run acts no_documents).reviews
  unfolding Dict.lookup
  reviews-IsCovered acts honest =
      (run-IsSound acts no_documents honest ((λ k e h. absurd (cc)), tt)).1
