-- ===== src/Shared/Jwt.antt =====
-- What the services use of the library for JSON web tokens, which is no code of this repository: a token
-- is read by `get_unverified_header` and by `decode` with a key, and made by `encode`.
use ecommerce_services.Common.{ℕ, ◌≤◌, ◌<◌, String, Option, some, ◌≡◌, refl, ◌⊎◌, inl, inr}

-- The claims that the services write and read; times are in seconds.
pub record Claims : Type 0 where
  pub sub : String
  pub email : String
  pub iss : String
  pub iat : ℕ
  pub exp : ℕ
  pub jti : String

-- A value, or `jwt.PyJWTError` with its text.
pub data Decoded (A : Type 0) : Type 0 where
  valid : A → Decoded A
  jwt_error : String → Decoded A

pub Decoded-cases :
    {A : Type 0} (r : Decoded A)
    → ((a : A) × (r ≡ valid a)) ⊎ ((exc : String) × (r ≡ jwt_error exc))
Decoded-cases (valid a) = inl (a, refl)
Decoded-cases (jwt_error exc) = inr (exc, refl)

pub record Jwt : Type 1 where
  pub PrivateKey : Type 0
  pub PublicKey : Type 0
  pub public_key : PrivateKey → PublicKey
  -- `jwt.encode` with RS256, and the `kid` of the header.
  pub encode : Claims → PrivateKey → String → String
  -- `jwt.get_unverified_header(token).get("kid")`
  pub header_kid : String → Decoded (Option String)
  -- `jwt.decode` with a key and an issuer, at a time.
  pub decode : ℕ → String → PublicKey → String → Decoded Claims
  pub header_kid-encode :
      (c : Claims) (k : PrivateKey) (kid : String) → header_kid (encode c k kid) ≡ valid (some kid)
  -- A token is valid from its issue to its expiry, for its issuer and under the key of its pair.
  pub decode-encode :
      (c : Claims) (k : PrivateKey) (kid : String) (now : ℕ)
      → c.iat ≤ now
      → now < c.exp
      → decode now (encode c k kid) (public_key k) c.iss ≡ valid c
