-- ===== src/Shared/Security.antt =====
-- shared/gestalt_shared/security.py: the cache of the signing keys, and the check of a user's token.
use Prim.Native.Char.{code}
use Prim.Native.String.{◌++◌ as append}
use text.Mathlib.TextLemmas.{nil-append, cons-append}
use ecommerce_services.Common.{
  ℕ, ◌+◌, String, Bool, true, false, not, ◌&&◌, ◌||◌, ◌==◌, Option, none, some, List, [], ◌∷◌, ltb,
  leb, eqb, if◌then◌else◌, ◌≡◌, refl, arith,
}
use ecommerce_services.Common.Dict
use ecommerce_services.Common.Dict.{Dict}
use ecommerce_services.Common.Redis.{is_some}
use ecommerce_services.Shared.Errors.{AppError, app_error, Result, ok, err, Action, continue}
use ecommerce_services.Shared.Jwt.{valid, jwt_error, Jwt}

abbrev pub issuer : String
issuer = "gestalt-commerce-auth"

-- `TokenClaims`; nothing reads its `raw`.
pub record TokenClaims : Type 0 where
  pub user_id : String
  pub email : String

abbrev pub invalid_token : String → AppError
invalid_token message = app_error "INVALID_TOKEN" message 401

abbrev pub unauthenticated : AppError
unauthenticated = app_error "UNAUTHENTICATED" "Missing bearer token" 401

-- What an exception that no handler knows is answered with.
abbrev pub unhandled : AppError
unhandled = app_error "INTERNAL_ERROR" "An unexpected error occurred" 500

abbrev pub decode_error : String → AppError
decode_error exc = invalid_token (append "Token verification failed: " exc)

abbrev lower : ℕ → ℕ
lower c = if leb b'A' c && leb c b'Z' then c + 32 else c

-- `text.lower().startswith(prefix)`, for a prefix of ASCII letters and spaces.
unfoldable pub starts_lower : List ℕ → String → Bool
starts_lower [] s = true
starts_lower (p ∷ ps) String.[] = false
starts_lower (p ∷ ps) (String.◌∷◌ c s) = eqb (lower (code c)) p && starts_lower ps s

-- `text.split(" ", 1)[1]`
unfoldable pub after_space : String → Option String
after_space String.[] = none
after_space (String.◌∷◌ c s) =
    let rest = after_space s in if eqb (code c) b' ' then some s else rest

-- The token of a header that starts with "bearer ", in any case.
unfoldable pub bearer : String → Option String
unfolding starts_lower after_space
bearer authorization =
    if starts_lower (b'b' ∷ b'e' ∷ b'a' ∷ b'r' ∷ b'e' ∷ b'r' ∷ b' ' ∷ []) authorization
    then after_space authorization
    else none

-- A dictionary as a condition.
abbrev pub has_keys : {V : Type 0} → Dict V → Bool
has_keys [] = false
has_keys (k ∷ ks) = true

module _ (J : Jwt) where
  -- `JWKSClient`; `fetched_at` is 0 before the first fetch.
  pub record JwksClient : Type 0 where
    pub ttl_seconds : ℕ
    pub keys : Dict J.PublicKey
    pub fetched_at : ℕ

  -- What becomes of the fetch: the keys by their `kid`, an exception, or a key that `from_jwk` refuses
  -- with a `PyJWTError`, which `decode_token` turns into its error.
  pub data JwksAnswer : Type 0 where
    jwks : Dict J.PublicKey → JwksAnswer
    unavailable : JwksAnswer
    bad_jwk : String → JwksAnswer

  abbrev pub raised_by : JwksAnswer → AppError
  raised_by (bad_jwk exc) = decode_error exc
  raised_by _ = unhandled

  -- `_refresh`
  unfoldable pub refresh_keys : ℕ → JwksAnswer → Action JwksClient (Unit {0})
  refresh_keys now (jwks keys) c = (ok tt, record c { keys = keys; fetched_at = now })
  refresh_keys now answer c = ((if has_keys c.keys then ok tt else err (raised_by answer)), c)

  -- `get_key`; a key that is not known stays unknown.
  unfoldable pub get_key : ℕ → JwksAnswer → String → Action JwksClient (Option J.PublicKey)
  unfolding refresh_keys
  get_key now answer kid c =
      let stale = ltb (c.fetched_at + c.ttl_seconds) now in
      let (r, c') =
        if stale || not (is_some (Dict.lookup kid c.keys))
        then refresh_keys now answer c
        else (ok tt, c) in
      continue r (λ _ d. (ok (Dict.lookup kid d.keys), d)) c'

  -- The end of `decode_token`, with the key.
  unfoldable pub verify_token : ℕ → String → Option J.PublicKey → Result TokenClaims
  verify_token now token none = err (invalid_token "Unknown signing key")
  verify_token now token (some key) = elim (J.decode now token key issuer) [
    | valid claims ↦ ok (record { user_id = claims.sub; email = claims.email })
    | jwt_error exc ↦ err (decode_error exc)
  ]

  -- `jwks_client.get_key(kid) if kid else None`
  unfoldable pub key_for : ℕ → JwksAnswer → Option String → Action JwksClient (Option J.PublicKey)
  unfolding get_key
  key_for now answer none c = (ok none, c)
  key_for now answer (some kid) c = if kid == "" then (ok none, c) else get_key now answer kid c

  unfoldable pub decode_token : ℕ → JwksAnswer → String → Action JwksClient TokenClaims
  unfolding key_for verify_token
  decode_token now answer token c = elim (J.header_kid token) [
    | jwt_error exc ↦ (err (decode_error exc), c)
    | valid kid ↦
        let (r, c') = key_for now answer kid c in
        continue r (λ key d. (verify_token now token key, d)) c'
  ]

  -- The end of `get_current_user`, with the token of the header if it is one of a bearer.
  unfoldable pub decode_bearer : ℕ → JwksAnswer → Option String → Action JwksClient TokenClaims
  unfolding decode_token
  decode_bearer now answer none c = (err unauthenticated, c)
  decode_bearer now answer (some token) c = decode_token now answer token c

  -- `make_current_user_dependency`: the function that it returns.
  unfoldable pub get_current_user : ℕ → JwksAnswer → Option String → Action JwksClient TokenClaims
  get_current_user now answer none c = (err unauthenticated, c)
  get_current_user now answer (some authorization) c =
      decode_bearer now answer (bearer authorization) c

starts_lower-append :
    (ps : List ℕ) (s t : String) → starts_lower ps s ≡ true → starts_lower ps (append s t) ≡ true
unfolding starts_lower
starts_lower-append [] s t h = refl
starts_lower-append (p ∷ ps) String.[] t h = cc
starts_lower-append (p ∷ ps) (String.◌∷◌ c s) t h =
    rw cons-append (ground (arith, starts_lower-append ps s t))

after_space-append : (s t : String) → after_space s ≡ some "" → after_space (append s t) ≡ some t
unfolding after_space
after_space-append String.[] t h = cc
after_space-append (String.◌∷◌ c s) t h =
    rw cons-append (ground (arith, nil-append t, after_space-append s t))

pub bearer-append : (token : String) → bearer (append "Bearer " token) ≡ some token
unfolding bearer starts_lower after_space
bearer-append token =
    rw
      (starts_lower-append (b'b' ∷ b'e' ∷ b'a' ∷ b'r' ∷ b'e' ∷ b'r' ∷ b' ' ∷ []) "Bearer " token
        refl)
      (after_space-append "Bearer " token refl)
