-- ===== src/Auth/Tokens.antt =====
-- `_issue_tokens`, `refresh`, `logout` and `_current_user_id` of app/routers/auth.py.
use ecommerce_services.Common.{
  ℕ, ◌+◌, ◌-◌, String, true, false, not, ◌&&◌, ◌||◌, ◌==◌, none, some, [], ◌∷◌, ◌++◌, ltb,
  if◌then◌else◌,
}
use ecommerce_services.Common.Redis.{Redis, is_some}
use ecommerce_services.Common.Table.{find, update}
use ecommerce_services.Shared.{Result, ok, err, Action, continue}
use ecommerce_services.Shared.Jwt.{Jwt, valid, jwt_error}
use ecommerce_services.Shared.Security.{bearer, unauthenticated, decode_error, unhandled}
use ecommerce_services.Auth.Defs.{
  User, RefreshToken, TokenResponse, Settings, KeyMaterial, Auth, id_of, token_id_of, blacklist_add,
  is_blacklisted, token_revoked, token_expired, create_access_token,
}

-- `row.revoked = True`
abbrev pub revoke : RefreshToken → RefreshToken
revoke row = record row { revoked = true }

-- What `refresh` has read when it starts to write: the row, its user and the time.
abbrev pub Checked : Type 0
Checked = RefreshToken × User × ℕ

module _ (R : Redis String) where
  -- UPDATE … SET revoked = 1, of a token, and its entry on the blacklist.
  unfoldable pub revoke_token : String → ℕ → Auth R → Auth R
  revoke_token token_id remaining_ttl s =
      blacklist_add R token_id remaining_ttl
        (record s { refresh_tokens = update token_id_of token_id revoke s.refresh_tokens })

  -- The user of a row that may still be redeemed.
  unfoldable pub user_of_row : RefreshToken → Auth R → Result Checked
  user_of_row row s =
      if row.revoked || ltb row.expires_at s.now
      then err token_expired
      else elim (find id_of row.user_id s.users) [
        | none ↦ err token_expired
        | some user ↦ ok (row, user, s.now)
      ]

  -- `refresh` up to its first write.
  unfoldable pub check_refresh : String → Auth R → Result Checked
  check_refresh token_id s =
      if is_blacklisted R token_id s
      then err token_revoked
      else elim (find token_id_of token_id s.refresh_tokens) [
        | none ↦ err token_expired
        | some row ↦ user_of_row row s
      ]

  -- The end of `logout`, for the caller's id.
  unfoldable pub revoke_own : String → String → Auth R → Auth R
  revoke_own token_id user_id s = elim (find token_id_of token_id s.refresh_tokens) [
    | none ↦ s
    | some row ↦
        if row.user_id == user_id && not row.revoked
        then revoke_token token_id (row.expires_at - s.now) s
        else s
  ]

module _ (J : Jwt) (keys : KeyMaterial J) (settings : Settings) where
  -- `_current_user_id`
  unfoldable pub current_user_id : ℕ → String → Result String
  current_user_id now authorization = elim (bearer authorization) [
    | none ↦ err unauthenticated
    | some token ↦ elim (J.decode now token (J.public_key keys.private_key) settings.jwt_issuer) [
      | valid claims ↦ ok claims.sub
      | jwt_error exc ↦ err (decode_error exc)
    ]
  ]

module _ (J : Jwt) (R : Redis String) (keys : KeyMaterial J) (settings : Settings) where
  -- `_issue_tokens`; `new_id` and `jti` are drawn by `uuid4`. An id that is in the table is refused by
  -- the primary key.
  unfoldable pub issue_tokens : User → String → String → Action (Auth R) TokenResponse
  issue_tokens user new_id jti s =
      if is_some (find token_id_of new_id s.refresh_tokens) then (err unhandled, s) else (
        ok (record {
          access_token = create_access_token J keys settings s.now user.id user.email jti;
          refresh_token = new_id;
          token_type = "bearer";
          expires_in = settings.jwt_access_token_ttl_seconds;
        }),
        record s {
          refresh_tokens =
              s.refresh_tokens
              ++ (record {
                token_id = new_id;
                user_id = user.id;
                expires_at = s.now + settings.jwt_refresh_token_ttl_seconds;
                revoked = false;
              }
                  ∷ []);
        },
      )

  -- `refresh` from its first write on, for a row that no other transaction has changed since it was read.
  unfoldable pub rotate_token : String → Checked → String → String → Action (Auth R) TokenResponse
  rotate_token token_id (row, user, now) new_id jti s =
      issue_tokens user new_id jti (revoke_token R token_id (row.expires_at - now) s)

  unfoldable pub refresh : String → String → String → Action (Auth R) TokenResponse
  refresh token_id new_id jti s =
      continue (check_refresh R token_id s) (λ c. rotate_token token_id c new_id jti) s

  unfoldable pub logout : String → String → Action (Auth R) (Unit {0})
  logout token_id authorization s =
      continue (current_user_id J keys settings s.now authorization)
        (λ user_id t. (ok tt, revoke_own R token_id user_id t)) s
