-- ===== src/Shared/Uncounted.antt =====
-- What `http_requests_total` counts of the answers that clients get.
use ecommerce_services.Common.{
  ℕ, ◌+◌, String, Bool, true, false, some, List, [], ◌∷◌, ◌++◌, ◌≡◌, ◌⊎◌, inl, inr, refl, ap, ◌==◌,
  ◌&&◌, eqb, arith,
}
use ecommerce_services.Shared.Requests.{
  Request, Answer, Ended, raised, returned, incoming_id, dispatch, handle_unhandled,
}
use ecommerce_services.Shared.Metrics.{
  Labels, Meters, Call, path_of, after_call, measure, serve, completed,
}

abbrev one : Bool → ℕ
one true = 1
one false = 0

-- The value of `http_requests_total` for the labels.
unfoldable pub total : Labels → List Labels → ℕ
total l [] = 0
total l (x ∷ xs) =
    one
      (x.service == l.service && x.method == l.method && x.path == l.path && eqb x.status l.status)
    + total l xs

total-append :
    (l x : Labels) (xs : List Labels)
    → total l (xs ++ x ∷ [])
      ≡ total l xs
        + one (
            x.service == l.service
            && x.method == l.method
            && x.path == l.path
            && eqb x.status l.status)
unfolding total
total-append l x [] = omega arith
total-append l x (y ∷ xs) = omega (arith, total-append l x xs)

Ended-cases :
    {E A : Type 0} (r : Ended E A) → ((exc : E) × (r ≡ raised exc)) ⊎ ((a : A) × (r ≡ returned a))
Ended-cases (raised exc) = inl (exc, refl)
Ended-cases (returned a) = inr (a, refl)

module _ (E A : Type 0) where
  -- A request, the id that is drawn for it, and the application.
  pub record Exchange : Type 0 where
    pub minted : String
    pub call : Call
    pub app : Request → String → Ended E (Answer A)

module _ (E A : Type 0) (isoformat : ℕ → String) (service_name : String) where
  -- The status that the client gets; an exception that no handler behind the middlewares answers is
  -- answered outside of them, by `unhandled_exception_handler`.
  abbrev pub client_status : Request → Ended E (Answer A) → ℕ
  client_status request (raised exc) = (handle_unhandled {A = A} request).status_code
  client_status request (returned answer) = answer.response.status_code

  -- Whether an answer with the status belongs to the labels.
  abbrev pub belongs : Labels → Call → ℕ → ℕ
  belongs l c status = one (
      service_name == l.service
      && c.method == l.method
      && path_of c == l.path
      && eqb status l.status)

  abbrev pub lost : Labels → Call → Ended E (Answer A) → ℕ
  lost l c (raised exc) = belongs l c (handle_unhandled {A = A} c.request).status_code
  lost l c (returned answer) = 0

  abbrev pub ended_of : Exchange E A → Meters → Ended E (Answer A) × Meters
  ended_of x m = serve isoformat service_name x.minted x.call x.app m

  -- The service after the requests.
  unfoldable pub serve_all : List (Exchange E A) → Meters → Meters
  serve_all [] m = m
  serve_all (x ∷ xs) m = serve_all xs (ended_of x m).1

  -- The answers with the labels that clients have got, and those of them that are unhandled exceptions.
  unfoldable pub answered : Labels → List (Exchange E A) → Meters → ℕ
  answered l [] m = 0
  answered l (x ∷ xs) m =
      belongs l x.call (client_status x.call.request (ended_of x m).0)
      + answered l xs (ended_of x m).1

  unfoldable pub unhandled : Labels → List (Exchange E A) → Meters → ℕ
  unhandled l [] m = 0
  unhandled l (x ∷ xs) m = lost l x.call (ended_of x m).0 + unhandled l xs (ended_of x m).1

  -- What the application does with a request.
  abbrev app_of : Exchange E A → Ended E (Answer A)
  app_of x =
      let id : String = incoming_id x.minted x.call.request.headers in
      x.app (record x.call.request { state_request_id = some id }) id

  ended_of_lem :
      (x : Exchange E A) (m : Meters) (r : Ended E (Answer A))
      → app_of x ≡ r
      → let id = incoming_id x.minted x.call.request.headers in
        let (inner, m') = after_call isoformat service_name x.call id r m in
        ended_of x m ≡ (dispatch x.minted (λ q ctx. inner) x.call.request, m')
  unfolding serve measure dispatch
  ended_of_lem x m r e =
      let id : String = incoming_id x.minted x.call.request.headers in
      ap
        (λ r. (
          dispatch x.minted (λ q ctx. (after_call isoformat service_name x.call id r m).0)
              x.call.request,
          (after_call isoformat service_name x.call id r m).1,
        ))
        e

  -- One request, by what the application does with it.
  ended_of-total :
      (l : Labels) (x : Exchange E A) (m : Meters)
      → total l (ended_of x m).1.requests + lost l x.call (ended_of x m).0
        ≡ total l m.requests + belongs l x.call (client_status x.call.request (ended_of x m).0)
  unfolding after_call completed dispatch
  ended_of-total l x m = elim (Ended-cases (app_of x)) [
    | inl (exc, e) ↦ rw (ended_of_lem x m (raised exc) e) refl
    | inr (answer, e) ↦ rw (ended_of_lem x m (returned answer) e, total-append) (omega arith)
  ]

  -- Over any sequence of requests, one after the other: the growth of http_requests_total for a service,
  -- a method, a path and a status, with the unhandled exceptions of those requests that clients see under
  -- that status, is the number of answers with them that clients get. So an unhandled exception, which
  -- clients see as a 500, is counted under no status.
  pub counted_but_unhandled :
      (l : Labels) (xs : List (Exchange E A)) (m : Meters)
      → total l (serve_all xs m).requests + unhandled l xs m ≡ total l m.requests + answered l xs m
  unfolding serve_all answered unhandled
  counted_but_unhandled l [] m = refl
  counted_but_unhandled l (x ∷ xs) m =
      omega (arith, ended_of-total l x m, counted_but_unhandled l xs (ended_of x m).1)
