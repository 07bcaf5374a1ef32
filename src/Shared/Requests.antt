-- ===== src/Shared/Requests.antt =====
-- shared/gestalt_shared/middleware.py and http_client.py: the request id, and the exception handlers of
-- shared/gestalt_shared/errors.py, with the request they answer.
use Prim.Native.Char.{Char, code}
use ecommerce_services.Common.{ℕ, String, Option, none, some, ◌==◌, eqb, leb, if◌then◌else◌}
use ecommerce_services.Common.Dict
use ecommerce_services.Common.Dict.{Dict}
use ecommerce_services.Shared.Errors.{AppError, Response, error, envelope}

-- What the code reads of a request: its headers, whose names are in lower case, and
-- `request.state.request_id`.
pub record Request : Type 0 where
  pub headers : Dict String
  pub state_request_id : Option String

-- A response with its headers.
pub record Answer (A : Type 0) : Type 0 where
  pub response : Response A
  pub response_headers : Dict String

-- `_request_id`
abbrev pub or_unknown : Option String → String
or_unknown none = "unknown"
or_unknown (some id) = id

unfoldable pub request_id_of : Request → String
request_id_of request = elim request.state_request_id [
  | none ↦ or_unknown (Dict.lookup "x-request-id" request.headers)
  | some id ↦ id
]

-- `request.headers.get("x-request-id") or uuid.uuid4().hex[:8]`; `minted` is the drawn id.
abbrev pub or_minted : String → Option String → String
or_minted minted none = minted
or_minted minted (some id) = if id == "" then minted else id

unfoldable pub incoming_id : String → Dict String → String
incoming_id minted headers = or_minted minted (Dict.lookup "x-request-id" headers)

-- `RequestIdMiddleware.dispatch`. `call_next` is the application behind it, which reads the context
-- variable `_request_id_ctx`; it may raise, with a value of `E`.
pub data Ended (E A : Type 0) : Type 0 where
  raised : E → Ended E A
  returned : A → Ended E A

unfoldable pub dispatch :
    {E A : Type 0} → String → (Request → String → Ended E (Answer A)) → Request → Ended E (Answer A)
dispatch minted call_next request =
    let request_id = incoming_id minted request.headers in
    elim (call_next (record request { state_request_id = some request_id }) request_id) [
      | raised exc ↦ raised exc
      | returned answer ↦ returned (record answer {
        response_headers = Dict.insert "x-request-id" request_id answer.response_headers;
      })
    ]

-- `_inject_request_id`, for the context variable and the headers that the caller has set.
unfoldable pub inject_request_id : String → Dict String → Dict String
inject_request_id request_id headers =
    if request_id == "" then headers else Dict.insert "x-request-id" request_id headers

-- The first text with the characters of the second replaced by those of the third, one by one.
abbrev replaced : String → String → Char → Char
replaced String.[] to c = c
replaced (String.◌∷◌ a from) String.[] c = c
replaced (String.◌∷◌ a from) (String.◌∷◌ b to) c =
    let rest = replaced from to c in if eqb (code a) (code c) then b else rest

abbrev translate : String → String → String → String
translate from to String.[] = ""
translate from to (String.◌∷◌ c text) = String.◌∷◌ (replaced from to c) (translate from to text)

-- `text.upper()`, for ASCII.
abbrev upper : String → String
upper text = translate "abcdefghijklmnopqrstuvwxyz" "ABCDEFGHIJKLMNOPQRSTUVWXYZ" text

-- `exc.detail` of an HTTPException: a text, or another value with its `str`.
pub data Detail : Type 0 where
  text : String → Detail
  value : String → Detail

abbrev pub detail_code : Detail → String
detail_code (text s) = s
detail_code (value s) = "HTTP_ERROR"

abbrev pub detail_text : Detail → String
detail_text (text s) = s
detail_text (value s) = s

-- What the handlers behind the middleware are registered for.
pub data Exception : Type 0 where
  app_exception : AppError → Exception
  http_exception : ℕ → Detail → Exception
  -- with `str(exc.errors())`
  validation_exception : String → Exception

-- `app_error_handler`, `http_exception_handler` and `validation_exception_handler`.
unfoldable pub handle_exception : {A : Type 0} → Request → Exception → Response A
handle_exception request (app_exception e) = record {
  status_code = e.status_code;
  body = error (envelope e.code e.message (request_id_of request));
}
handle_exception request (http_exception status detail) =
    let code = detail_code detail in
    record {
      status_code = status;
      body = error (
          envelope (if leb 500 status then translate " " "_" (upper code) else code)
            (detail_text detail) (request_id_of request));
    }
handle_exception request (validation_exception errors) = record {
  status_code = 422;
  body = error (envelope "VALIDATION_ERROR" errors (request_id_of request));
}

-- `unhandled_exception_handler`, which the framework calls outside of the middleware.
unfoldable pub handle_unhandled : {A : Type 0} → Request → Response A
handle_unhandled request = record {
  status_code = 500;
  body = error (envelope "INTERNAL_ERROR" "An unexpected error occurred" (request_id_of request));
}
