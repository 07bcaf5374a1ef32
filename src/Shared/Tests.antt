-- ===== src/Shared/Tests.antt =====
-- A request with its id, through the middlewares, and a user's token.
use Prim.Native.String.{◌++◌ as append}
use ecommerce_services.Common.{
  ℕ, none, String, some, List, ◌+◌, [], ◌∷◌, ◌≡◌, ◌≢◌, refl, ap, ◌∙◌, eq_iff, arith,
}
use ecommerce_services.Common.Dict
use ecommerce_services.Shared.Errors.{ok, error, envelope, respond}
use ecommerce_services.Shared.Requests.{
  Request, raised, returned, text, http_exception, handle_exception, request_id_of,
}
use ecommerce_services.Shared.Metrics.{Call, Labels, Meters}
use ecommerce_services.Shared.Uncounted.{
  Exchange, total, serve_all, unhandled, answered, counted_but_unhandled,
}
use ecommerce_services.Shared.Jwt.{Claims}
use ecommerce_services.Shared.JwtDemo.{demo_jwt}
use ecommerce_services.Shared.Security.{
  JwksClient, TokenClaims, unavailable, bearer, verify_token, get_current_user, issuer,
}
use ecommerce_services.Shared.Authentic.{
  IsVerified, get_current_user-unavailable, get_current_user-IsVerified,
}

-- A request with the id of a gateway, which cart-service answers with an error after it has called
-- catalog-service, which calls another service with an id of its own.
abbrev incoming : Request
incoming = record { headers = ("x-request-id", "req-7") ∷ []; state_request_id = none }

-- An HTTPException that is the server's fault is named by a code.
spaced_code :
    (handle_exception {A = ℕ} incoming (http_exception 503 (text "Service Unavailable"))).body
    ≡ error (envelope "SERVICE_UNAVAILABLE" "Service Unavailable" "req-7")
unfolding handle_exception request_id_of Dict.lookup
spaced_code = refl

-- A client that fetched its one key long ago, and a token under that key.
abbrev client : JwksClient demo_jwt
client = record { ttl_seconds = 300; keys = ("a1b2", "key") ∷ []; fetched_at = 10 }

abbrev claims : Claims
claims = record {
  sub = "u-1";
  email = "ann@example.com";
  iss = issuer;
  iat = 1000;
  exp = 1900;
  jti = "j-1";
}

abbrev user_token : String
user_token = demo_jwt.encode claims "key" "a1b2"

abbrev user : TokenClaims
user = record { user_id = "u-1"; email = "ann@example.com" }

kid-ne-nil : ◌≢◌ {A = String} "a1b2" ""
kid-ne-nil = ground (arith, eq_iff "a1b2" "")

known : Dict.lookup "a1b2" client.keys ≡ some "key"
unfolding Dict.lookup
known = refl

get_current_user-unavailable_example :
    get_current_user demo_jwt 1500 unavailable (some (append "Bearer " user_token)) client
    ≡ (verify_token demo_jwt 1500 user_token (some "key"), client)
get_current_user-unavailable_example =
    get_current_user-unavailable demo_jwt 1500 "a1b2" user_token client
      (demo_jwt.header_kid-encode claims "key" "a1b2") kid-ne-nil known

verified : verify_token demo_jwt 1500 user_token (some "key") ≡ ok user
unfolding verify_token
verified =
    rw (demo_jwt.decode-encode claims "key" "a1b2" 1500 (omega arith) (omega arith), verify_token)
      refl

get_current_user-IsVerified_example :
    (token : String) × (authorization : String) × (some (append "Bearer " user_token)
      ≡ some authorization)
    × (bearer authorization ≡ some token)
    × IsVerified demo_jwt 1500 token client user
get_current_user-IsVerified_example =
    get_current_user-IsVerified demo_jwt 1500 unavailable (some (append "Bearer " user_token))
      client client (get_current_user-unavailable_example ∙ ap (λ r. (r, client)) verified)

-- A request whose exception nothing handles, and one that is answered.
abbrev call : Call
call = record {
  request = incoming;
  method = "POST";
  url_path = "/orders";
  route = some "/orders";
  started = 5;
  ended = 9;
  logged_at = 1000;
}

abbrev exchanges : List (Exchange String ℕ)
exchanges =
    record { minted = "0a1b2c3d"; call = call; app = λ q ctx. raised "KeyError" }
    ∷ record {
      minted = "4e5f6071";
      call = call;
      app = λ q ctx. returned (record { response = respond ctx 201 (ok 7); response_headers = [] });
    }
    ∷ []

abbrev no_meters : Meters
no_meters = record { requests = []; durations = []; lines = [] }

abbrev failures : Labels
failures = record { service = "order-service"; method = "POST"; path = "/orders"; status = 500 }

abbrev iso_text : ℕ → String
iso_text n = "2026-01-01T00:00:00.000Z"

counted_but_unhandled_example :
    total failures (serve_all String ℕ iso_text "order-service" exchanges no_meters).requests
      + unhandled String ℕ iso_text "order-service" failures exchanges no_meters
    ≡ 0 + answered String ℕ iso_text "order-service" failures exchanges no_meters
unfolding total
counted_but_unhandled_example =
    counted_but_unhandled String ℕ iso_text "order-service" failures exchanges no_meters
