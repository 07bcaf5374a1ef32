-- ===== src/Shared/Traces.antt =====
-- One request id from the first service to the last.
use ecommerce_services.Common.{String, some, List, [], ◌∷◌, ◌≡◌}
use ecommerce_services.Common.Dict
use ecommerce_services.Common.Dict.{Dict}
use ecommerce_services.Shared.Errors.{Body, content, error}
use ecommerce_services.Shared.Requests.{
  Request, Answer, Ended, raised, returned, incoming_id, inject_request_id, Exception,
  handle_exception,
}

-- The ids that the services on a chain of calls take: each call has headers that its caller sets, and
-- the service that gets it has an id to mint; the caller's HTTP client adds the id it serves.
unfoldable pub ids_along : String → List (Dict String × String) → List String
ids_along request_id [] = []
ids_along request_id ((own, minted) ∷ calls) =
    let taken = incoming_id minted (inject_request_id request_id own) in
    taken ∷ ids_along taken calls

-- The envelope of an error names the id.
abbrev pub NamesIn : {A : Type 0} → String → Body A → Type 0
NamesIn id (content a) = Unit
NamesIn id (error e) = e.request_id ≡ id

abbrev pub Carries : {E A : Type 0} → String → Ended E (Answer A) → Type 0
Carries id (raised e) = ⊥
Carries id (returned a) =
    (Dict.lookup "x-request-id" a.response_headers ≡ some id) × NamesIn id a.response.body

-- An application that answers an exception.
abbrev pub failing :
    {E A : Type 0} → Exception → Dict String → Request → String → Ended E (Answer A)
failing e headers request ctx =
    returned (record { response = handle_exception request e; response_headers = headers })
