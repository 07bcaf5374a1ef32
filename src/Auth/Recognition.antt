-- ===== src/Auth/Recognition.antt =====
-- Who has registered can log in, and every service takes the access token for that user.
use Prim.Native.String.{◌++◌ as append}
use ecommerce_services.Common.{
  ℕ, ◌+◌, ◌≤◌, ◌<◌, String, true, none, some, List, ◌≡◌, ◌≢◌, ◌∙◌, arith,
}
use ecommerce_services.Common.Redis.{Redis}
use ecommerce_services.Common.Table.{find}
use ecommerce_services.Shared.{Result, ok}
use ecommerce_services.Shared.Jwt.{Jwt, valid}
use ecommerce_services.Shared.Security.{
  JwksClient, JwksAnswer, get_current_user, verify_token, issuer,
}
use ecommerce_services.Shared.Authentic.{Serves, get_current_user-Serves}
use ecommerce_services.Auth.Defs.{
  User, Credentials, RegisterResponse, TokenResponse, Settings, Bcrypt, KeyMaterial, Auth,
  token_id_of, create_access_token, access_claims,
}
use ecommerce_services.Auth.Tokens.{issue_tokens}
use ecommerce_services.Auth.Accounts.{register, login, authenticate}
use ecommerce_services.Auth.Requests.{Request, serve_all}
use ecommerce_services.Auth.Users.{Has, new_user, registered, serve_all-Has}

module _ (J : Jwt) (R : Redis String) (B : Bcrypt) (keys : KeyMaterial J)
    (settings : Settings) where
  -- The login of a user whose password is right.
  login-grants :
      (body : Credentials) (user : User) (new_id jti : String) (s : Auth R)
      → Has body.email user s.users
      → B.checkpw body.password user.password_hash ≡ true
      → find token_id_of new_id s.refresh_tokens ≡ none
      → (login R J B keys settings body new_id jti s).0
        ≡ ok (record {
          access_token = create_access_token J keys settings s.now user.id user.email jti;
          refresh_token = new_id;
          token_type = "bearer";
          expires_in = settings.jwt_access_token_ttl_seconds;
        })
  unfolding login authenticate issue_tokens
  login-grants body user new_id jti s found right free = ground arith

  -- The answer of a login, as any service reads it: its access token is taken for the user.
  abbrev pub Recognises :
      ℕ → JwksAnswer J → JwksClient J → String → String → Result TokenResponse → Type 0
  Recognises now answer client user_id email r =
      (tokens : TokenResponse) × (r ≡ ok tokens)
      × ((get_current_user J now answer (some (append "Bearer " tokens.access_token)) client).0
          ≡ ok (record { user_id = user_id; email = email }))

  verified :
      (now at : ℕ) (user_id email jti : String)
      → settings.jwt_issuer ≡ issuer
      → at ≤ now
      → now < at + settings.jwt_access_token_ttl_seconds
      → verify_token J now
          (create_access_token J keys settings at user_id email jti)
          (some (J.public_key keys.private_key))
        ≡ ok (record { user_id = user_id; email = email })
  unfolding verify_token create_access_token
  verified now at user_id email jti same issued current =
      let c = access_claims J keys settings at user_id email jti in
      let reads : J.decode now (J.encode c keys.private_key keys.kid)
            (J.public_key keys.private_key) issuer
          ≡ valid c =
        rw (← same) (J.decode-encode c keys.private_key keys.kid now issued current) in
      rw (reads, verify_token)

  -- A user who has registered can log in after any requests, one after the other, and with any requests
  -- of others during the registration. Until it expires, the access token that the login returns is
  -- taken for that user by every service whose client holds the key of auth-service or fetches it now.
  -- The drawn id of the refresh token is one that is not in the table.
  pub register-login :
      (others : Auth R → Auth R) (body : Credentials) (new_id salt token_id jti : String)
      (qs : List Request) (s s' : Auth R) (now : ℕ) (answer : JwksAnswer J) (client : JwksClient J)
      {out : RegisterResponse}
      → settings.jwt_issuer ≡ issuer
      → keys.kid ≢ ""
      → register R B others body new_id salt s ≡ (ok out, s')
      → find token_id_of token_id (serve_all J R B keys settings qs s').refresh_tokens ≡ none
      → (serve_all J R B keys settings qs s').now ≤ now
      → now < (serve_all J R B keys settings qs s').now + settings.jwt_access_token_ttl_seconds
      → Serves J answer keys.kid (J.public_key keys.private_key) client
      → Recognises now answer client new_id body.email
          (login R J B keys settings body token_id jti (serve_all J R B keys settings qs s')).0
  register-login others body new_id salt token_id jti qs s s' now answer client same named done free
        issued current served =
      let user = new_user R B body new_id salt in
      let s'' = serve_all J R B keys settings qs s' in
      let here =
        serve_all-Has J R B keys settings body.email user qs s'
          (registered R B others body new_id salt s s' done) in
      let right : B.checkpw body.password user.password_hash ≡ true =
        unfold new_user in B.checkpw-hashpw body.password salt in
      (
        _,
        login-grants body user token_id jti s'' here right free,
        unfold new_user create_access_token in
            get_current_user-Serves J now answer keys.kid _ (J.public_key keys.private_key) client
              (J.header_kid-encode _ keys.private_key keys.kid) named served
            ∙ verified now s''.now new_id body.email jti same issued current,
      )
