-- ===== src/Auth/Requests.antt =====
-- What reaches services/auth-service, one request after the other, while time passes.
use ecommerce_services.Common.{
  ℕ, ◌+◌, String, Bool, true, false, ◌==◌, ◌&&◌, List, [], ◌∷◌, if◌then◌else◌,
}
use ecommerce_services.Common.Redis.{Redis}
use ecommerce_services.Shared.{Result, ok, err}
use ecommerce_services.Shared.Jwt.{Jwt}
use ecommerce_services.Auth.Defs.{Credentials, Settings, Bcrypt, KeyMaterial, Auth}
use ecommerce_services.Auth.Tokens.{refresh, logout}
use ecommerce_services.Auth.Accounts.{register, login}

-- The requests, with the ids, salts and `jti`s that they draw.
pub data Request : Type 0 where
  sign_up : Credentials → String → String → Request
  sign_in : Credentials → String → String → Request
  renew : String → String → String → Request
  sign_out : String → String → Request
  wait : ℕ → Request

abbrev pub is_ok : {A : Type 0} → Result A → Bool
is_ok (ok a) = true
is_ok (err e) = false

module _ (J : Jwt) (R : Redis String) (B : Bcrypt) (keys : KeyMaterial J)
    (settings : Settings) where
  unfoldable pub serve : Request → Auth R → Auth R
  serve (sign_up body new_id salt) s = (register R B (λ t. t) body new_id salt s).1
  serve (sign_in body new_id jti) s = (login R J B keys settings body new_id jti s).1
  serve (renew token_id new_id jti) s = (refresh J R keys settings token_id new_id jti s).1
  serve (sign_out token_id authorization) s = (logout J R keys settings token_id authorization s).1
  serve (wait d) s = record s { now = s.now + d }

  unfoldable pub serve_all : List Request → Auth R → Auth R
  serve_all [] s = s
  serve_all (q ∷ qs) s = serve_all qs (serve q s)

  -- Whether a request redeems a refresh token.
  unfoldable pub redeems : String → Request → Auth R → Bool
  redeems t (renew token_id new_id jti) s =
      token_id == t && is_ok (refresh J R keys settings token_id new_id jti s).0
  redeems t _ s = false

  -- How many requests redeem it.
  unfoldable pub redemptions : String → List Request → Auth R → ℕ
  redemptions t [] s = 0
  redemptions t (q ∷ qs) s = (if redeems t q s then 1 else 0) + redemptions t qs (serve q s)
