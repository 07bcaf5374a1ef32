-- ===== src/Shared/Authentic.antt =====
-- Who `get_current_user` of shared/gestalt_shared/security.py takes a request for, and what it does
-- while auth-service does not answer.
use Prim.Native.String.{◌++◌ as append}
use ecommerce_services.Common.{
  ℕ, String, true, Option, none, some, [], ◌∷◌, ◌≡◌, ◌≢◌, refl, ap, ◌∙◌, ◌==◌, Bool-cases, arith,
  eq_iff, inl, inr, ◌⊎◌,
}
use ecommerce_services.Common.Dict
use ecommerce_services.Shared.Errors.{ok, Result-cases}
use ecommerce_services.Shared.Jwt.{Claims, valid, Jwt, Decoded-cases}
use ecommerce_services.Shared.Security.{
  TokenClaims, JwksClient, JwksAnswer, jwks, unavailable, bad_jwk, issuer, bearer, refresh_keys,
  get_key, key_for, verify_token, decode_token, decode_bearer, get_current_user, bearer-append,
  has_keys,
}

lookup-has_keys :
    {V : Type 0} (k : String) (d : Dict.Dict V) {v : V}
    → Dict.lookup k d ≡ some v
    → has_keys d ≡ true
unfolding Dict.lookup
lookup-has_keys k [] h = cc
lookup-has_keys k (e ∷ d) h = refl

module _ (J : Jwt) where
  -- The claims of a token that a key of the client verifies at a time.
  abbrev pub IsVerified : ℕ → String → JwksClient J → TokenClaims → Type 0
  IsVerified now token c user =
      (kid : String) × (key : J.PublicKey) × (claims : Claims) × (Dict.lookup kid c.keys ≡ some key)
      × (J.decode now token key issuer ≡ valid claims)
      × (user.user_id ≡ claims.sub)
      × (user.email ≡ claims.email)

  -- A key that is known is served while auth-service does not answer, and nothing changes.
  pub get_key-unavailable :
      (now : ℕ) (kid : String) (c : JwksClient J) {key : J.PublicKey}
      → Dict.lookup kid c.keys ≡ some key
      → get_key J now unavailable kid c ≡ (ok (some key), c)
  unfolding get_key refresh_keys
  get_key-unavailable now kid c {key} h = ground (arith, lookup-has_keys kid (c.keys) h)

  -- A key that is served is one of the keys that the client has then.
  get_key-known :
      (now : ℕ) (answer : JwksAnswer J) (kid : String) (c c' : JwksClient J)
      {o : Option J.PublicKey}
      → get_key J now answer kid c ≡ (ok o, c')
      → Dict.lookup kid c'.keys ≡ o
  unfolding get_key refresh_keys
  get_key-known now (jwks keys) kid c c' h = ground arith
  get_key-known now (unavailable) kid c c' h = ground arith
  get_key-known now (bad_jwk exc) kid c c' h = ground arith

  decode_token-unavailable :
      (now : ℕ) (kid token : String) (c : JwksClient J) {key : J.PublicKey}
      → J.header_kid token ≡ valid (some kid)
      → kid ≢ ""
      → Dict.lookup kid c.keys ≡ some key
      → decode_token J now unavailable token c ≡ (verify_token J now token (some key), c)
  unfolding decode_token key_for
  decode_token-unavailable now kid token c {key} h known k =
      rw (h, decode_token)
        (ground (arith, eq_iff kid "", get_key-unavailable now kid c {key = key} k))

  -- While auth-service does not answer, a bearer token whose key the client knows is judged by that key,
  -- however old the cache is, and the cache stays as it is.
  pub get_current_user-unavailable :
      (now : ℕ) (kid token : String) (c : JwksClient J) {key : J.PublicKey}
      → J.header_kid token ≡ valid (some kid)
      → kid ≢ ""
      → Dict.lookup kid c.keys ≡ some key
      → get_current_user J now unavailable (some (append "Bearer " token)) c
        ≡ (verify_token J now token (some key), c)
  unfolding get_current_user decode_bearer
  get_current_user-unavailable now kid token c h known k =
      ap (λ o. decode_bearer J now unavailable o c) (bearer-append token)
      ∙ decode_token-unavailable now kid token c h known k

  -- The keys that a client has after a fetch.
  abbrev pub fetched : JwksAnswer J → JwksClient J → Dict.Dict J.PublicKey
  fetched (jwks keys) c = keys
  fetched _ c = c.keys

  -- A key is there under its name after a fetch, and no other key is there under it before.
  abbrev pub Serves : JwksAnswer J → String → J.PublicKey → JwksClient J → Type 0
  Serves answer kid key c =
      (Dict.lookup kid (fetched answer c) ≡ some key)
      × ((Dict.lookup kid c.keys ≡ none) ⊎ (Dict.lookup kid c.keys ≡ some key))

  get_key-Serves :
      (now : ℕ) (answer : JwksAnswer J) (kid : String) (key : J.PublicKey) (c : JwksClient J)
      → Serves answer kid key c
      → (get_key J now answer kid c).0 ≡ ok (some key)
  unfolding get_key refresh_keys
  get_key-Serves now (jwks keys) kid key c h = ground arith
  get_key-Serves now (unavailable) kid key c h =
      ground (arith, h, lookup-has_keys kid c.keys {v = key})
  get_key-Serves now (bad_jwk exc) kid key c h =
      ground (arith, h, lookup-has_keys kid c.keys {v = key})

  decode_token-Serves :
      (now : ℕ) (answer : JwksAnswer J) (kid token : String) (key : J.PublicKey) (c : JwksClient J)
      → J.header_kid token ≡ valid (some kid)
      → kid ≢ ""
      → Serves answer kid key c
      → (decode_token J now answer token c).0 ≡ verify_token J now token (some key)
  unfolding decode_token key_for
  decode_token-Serves now answer kid token key c h known k =
      rw (h, decode_token) (ground (arith, eq_iff kid "", get_key-Serves now answer kid key c k))

  key_for-known :
      (now : ℕ) (answer : JwksAnswer J) (o : Option String) (c c' : JwksClient J)
      {key : J.PublicKey}
      → key_for J now answer o c ≡ (ok (some key), c')
      → (kid : String) × (Dict.lookup kid c'.keys ≡ some key)
  unfolding key_for
  key_for-known now answer none c c' h = cc
  key_for-known now answer (some kid) c c' h = elim (Bool-cases (kid == "")) [
    | inl t ↦ absurd (ground arith)
    | inr f ↦ (kid, get_key-known now answer kid c c' (ground arith))
  ]

  verify_token-IsVerified :
      (now : ℕ) (token : String) (o : Option J.PublicKey) (c : JwksClient J) {user : TokenClaims}
      → ((key : J.PublicKey) → o ≡ some key → (kid : String) × (Dict.lookup kid c.keys ≡ some key))
      → verify_token J now token o ≡ ok user
      → IsVerified now token c user
  unfolding verify_token
  verify_token-IsVerified now token none c known h = cc
  verify_token-IsVerified now token (some key) c known h =
      let (kid, there) = known key refl in
      elim (Decoded-cases (J.decode now token key issuer)) [
        | inl (claims, e) ↦ (kid, key, claims, there, e, ground arith, ground arith)
        | inr (exc, e) ↦ absurd (ground arith)
      ]

  decode_token-IsVerified :
      (now : ℕ) (answer : JwksAnswer J) (token : String) (c c' : JwksClient J) {user : TokenClaims}
      → decode_token J now answer token c ≡ (ok user, c')
      → IsVerified now token c' user
  unfolding decode_token
  decode_token-IsVerified now answer token c c' {user} h =
      elim (Decoded-cases (J.header_kid token)) [
        | inr (exc, e) ↦ absurd (ground arith)
        | inl (kid, e) ↦ elim (Result-cases (key_for J now answer kid c).0) [
          | inr (exc, f) ↦ absurd (ground arith)
          | inl (key, f) ↦
              let same : (key_for J now answer kid c).1 ≡ c' = ground arith in
              verify_token-IsVerified now token key c' {user = user}
                (λ k g. key_for-known now answer kid c c' {key = k} (ground arith)) (ground arith)
        ]
      ]

  decode_bearer-IsVerified :
      (now : ℕ) (answer : JwksAnswer J) (o : Option String) (c c' : JwksClient J)
      {user : TokenClaims}
      → decode_bearer J now answer o c ≡ (ok user, c')
      → (token : String) × (o ≡ some token) × IsVerified now token c' user
  unfolding decode_bearer
  decode_bearer-IsVerified now answer none c c' h = cc
  decode_bearer-IsVerified now answer (some token) c c' h =
      (token, refl, decode_token-IsVerified now answer token c c' h)

  -- A bearer token whose key is served is judged by that key.
  pub get_current_user-Serves :
      (now : ℕ) (answer : JwksAnswer J) (kid token : String) (key : J.PublicKey) (c : JwksClient J)
      → J.header_kid token ≡ valid (some kid)
      → kid ≢ ""
      → Serves answer kid key c
      → (get_current_user J now answer (some (append "Bearer " token)) c).0
        ≡ verify_token J now token (some key)
  unfolding get_current_user decode_bearer
  get_current_user-Serves now answer kid token key c h known k =
      ap (λ o. (decode_bearer J now answer o c).0) (bearer-append token)
      ∙ decode_token-Serves now answer kid token key c h known k

  -- Whatever auth-service answers, a request is taken for a user only when its bearer token is verified
  -- by a key that the client has then.
  pub get_current_user-IsVerified :
      (now : ℕ) (answer : JwksAnswer J) (header : Option String) (c c' : JwksClient J)
      {user : TokenClaims}
      → get_current_user J now answer header c ≡ (ok user, c')
      → (token : String) × (authorization : String) × (header ≡ some authorization)
        × (bearer authorization ≡ some token)
        × IsVerified now token c' user
  unfolding get_current_user
  get_current_user-IsVerified now answer none c c' h = cc
  get_current_user-IsVerified now answer (some authorization) c c' h =
      let (token, e, v) = decode_bearer-IsVerified now answer (bearer authorization) c c' h in
      (token, authorization, refl, e, v)
