-- ===== src/Auth/Defs.antt =====
-- app/models.py, app/schemas.py, app/config.py, app/redis_client.py and app/security.py of
-- services/auth-service.
use Prim.Native.String.{◌++◌ as append}
use ecommerce_services.Common.{ℕ, ◌+◌, String, Bool, List, ltb, if◌then◌else◌, ◌≡◌, true}
use ecommerce_services.Common.Redis.{Redis, is_some}
use ecommerce_services.Shared.{AppError, app_error}
use ecommerce_services.Shared.Jwt.{Jwt, Claims}

-- `User`, a row of `users`; nothing reads the time of its creation.
pub record User : Type 0 where
  pub id : String
  pub email : String
  pub password_hash : String

-- `RefreshToken`, a row of `refresh_tokens`; times are in seconds.
pub record RefreshToken : Type 0 where
  pub token_id : String
  pub user_id : String
  pub expires_at : ℕ
  pub revoked : Bool

-- The columns that queries select by.
abbrev pub id_of : User → String
id_of u = u.id

abbrev pub email_of : User → String
email_of u = u.email

abbrev pub token_id_of : RefreshToken → String
token_id_of t = t.token_id

-- `RegisterRequest` and `LoginRequest`, whose fields are the same.
pub record Credentials : Type 0 where
  pub email : String
  pub password : String

pub record RegisterResponse : Type 0 where
  pub id : String
  pub email : String

pub record TokenResponse : Type 0 where
  pub access_token : String
  pub refresh_token : String
  pub token_type : String
  pub expires_in : ℕ

-- `Settings`, as far as the handlers read it.
pub record Settings : Type 0 where
  pub jwt_issuer : String
  pub jwt_access_token_ttl_seconds : ℕ
  pub jwt_refresh_token_ttl_seconds : ℕ

-- The library bcrypt, which is no code of this repository; the salt is an input.
pub record Bcrypt : Type 0 where
  pub hashpw : String → String → String
  pub checkpw : String → String → Bool
  pub checkpw-hashpw : (password salt : String) → checkpw password (hashpw password salt) ≡ true

-- `KeyMaterial`: the key pair of the service and the name of it.
pub record KeyMaterial (J : Jwt) : Type 0 where
  pub private_key : J.PrivateKey
  pub kid : String

-- `blacklist_key`
unfoldable pub blacklist_key : String → String
blacklist_key token_id = append "blacklist:" token_id

module _ (R : Redis String) where
  -- The database, the blacklist and the clock.
  pub record Auth : Type 0 where
    pub users : List User
    pub refresh_tokens : List RefreshToken
    pub blacklist : R.Store
    pub now : ℕ

  unfoldable pub blacklist_add : String → ℕ → Auth → Auth
  blacklist_add token_id ttl_seconds s =
      if ltb 0 ttl_seconds
      then record s {
        blacklist = R.set_ex s.now (blacklist_key token_id) "1" ttl_seconds s.blacklist;
      }
      else s

  unfoldable pub is_blacklisted : String → Auth → Bool
  is_blacklisted token_id s = is_some (R.get s.now (blacklist_key token_id) s.blacklist)

-- The errors of the handlers.
abbrev pub invalid_request : AppError
invalid_request = app_error "VALIDATION_ERROR" "the body is not valid" 422

abbrev pub email_taken : AppError
email_taken = app_error "EMAIL_TAKEN" "An account with this email already exists" 409

abbrev pub invalid_credentials : AppError
invalid_credentials = app_error "INVALID_CREDENTIALS" "Email or password is incorrect" 401

abbrev pub token_revoked : AppError
token_revoked = app_error "INVALID_TOKEN" "Refresh token has been revoked" 401

abbrev pub token_expired : AppError
token_expired = app_error "INVALID_TOKEN" "Refresh token is invalid or expired" 401

module _ (J : Jwt) (keys : KeyMaterial J) (settings : Settings) where
  -- The claims of `create_access_token`; the `jti` is drawn by `uuid4`.
  abbrev pub access_claims : ℕ → String → String → String → Claims
  access_claims now user_id email jti = record {
    sub = user_id;
    email = email;
    iss = settings.jwt_issuer;
    iat = now;
    exp = now + settings.jwt_access_token_ttl_seconds;
    jti = jti;
  }

  unfoldable pub create_access_token : ℕ → String → String → String → String
  create_access_token now user_id email jti =
      J.encode (access_claims now user_id email jti) keys.private_key keys.kid
