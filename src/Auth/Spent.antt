-- ===== src/Auth/Spent.antt =====
-- A refresh token that the table holds as revoked stays so, and is refused.
use ecommerce_services.Common.{
  ℕ, ◌-◌, String, true, false, not, ◌&&◌, ◌==◌, some, List, ◌++◌, ◌≡◌, refl, sym, ap, ◌∙◌, inl, inr,
  arith, eq_refl, Bool-cases, Option-cases,
}
use ecommerce_services.Common.Redis.{Redis, is_some}
use ecommerce_services.Common.Table.{find, update, find-update, find-append}
use ecommerce_services.Shared.{ok, Result-cases}
use ecommerce_services.Shared.Jwt.{Jwt}
use ecommerce_services.Auth.Defs.{
  User, RefreshToken, Credentials, Settings, Bcrypt, KeyMaterial, Auth, token_id_of, id_of,
  blacklist_add,
}
use ecommerce_services.Auth.Tokens.{
  Checked, revoke, revoke_token, user_of_row, check_refresh, revoke_own, issue_tokens, rotate_token,
  refresh, current_user_id, logout,
}
use ecommerce_services.Auth.Accounts.{register, check_email, insert_user, login, authenticate}
use ecommerce_services.Auth.Requests.{is_ok}

-- The table holds the token as revoked.
abbrev pub Spent : String → List RefreshToken → Type 0
Spent t rows = (row : RefreshToken) × (find token_id_of t rows ≡ some row) × (row.revoked ≡ true)

Spent-append : (t : String) (rows more : List RefreshToken) → Spent t rows → Spent t (rows ++ more)
Spent-append t rows more (row, found, gone) = (row, find-append token_id_of t rows more found, gone)

Spent-update :
    (t k : String) (rows : List RefreshToken)
    → Spent t rows
    → Spent t (update token_id_of k revoke rows)
Spent-update t k rows (row, found, gone) = elim (Bool-cases (k == t)) [
  | inl e ↦
      (revoke row, rw (find-update token_id_of k t revoke rows (λ _. refl), e, found) refl, refl)
  | inr e ↦ (row, rw (find-update token_id_of k t revoke rows (λ _. refl), e) found, gone)
]

update-Spent :
    (t : String) (rows : List RefreshToken) (row : RefreshToken)
    → find token_id_of t rows ≡ some row
    → Spent t (update token_id_of t revoke rows)
update-Spent t rows row found = (
  revoke row,
  rw (find-update token_id_of t t revoke rows (λ _. refl), eq_refl t, found) refl,
  refl,
)

module _ (R : Redis String) where
  blacklist_add-rows :
      (t : String) (ttl : ℕ) (s : Auth R)
      → (blacklist_add R t ttl s).refresh_tokens ≡ s.refresh_tokens
  unfolding blacklist_add
  blacklist_add-rows t ttl s = ground arith

  pub revoke_token-rows :
      (t : String) (ttl : ℕ) (s : Auth R)
      → (revoke_token R t ttl s).refresh_tokens ≡ update token_id_of t revoke s.refresh_tokens
  unfolding revoke_token
  revoke_token-rows t ttl s =
      blacklist_add-rows t ttl
        (record s { refresh_tokens = update token_id_of t revoke s.refresh_tokens })

  revoke_token-Spent :
      (t k : String) (ttl : ℕ) (s : Auth R)
      → Spent t s.refresh_tokens
      → Spent t (revoke_token R k ttl s).refresh_tokens
  revoke_token-Spent t k ttl s h =
      rw (revoke_token-rows k ttl s) (Spent-update t k s.refresh_tokens h)

  revoke_token_spends :
      (t : String) (ttl : ℕ) (s : Auth R) (row : RefreshToken)
      → find token_id_of t s.refresh_tokens ≡ some row
      → Spent t (revoke_token R t ttl s).refresh_tokens
  revoke_token_spends t ttl s row found =
      rw (revoke_token-rows t ttl s) (update-Spent t s.refresh_tokens row found)

  revoke_own-Spent :
      (t k u : String) (s : Auth R)
      → Spent t s.refresh_tokens
      → Spent t (revoke_own R k u s).refresh_tokens
  unfolding revoke_own
  revoke_own-Spent t k u s h = elim (Option-cases (find token_id_of k s.refresh_tokens)) [
    | inl missing ↦ rw (missing, revoke_own) h
    | inr (row, found) ↦ elim (Bool-cases (row.user_id == u && not row.revoked)) [
      | inl own ↦ rw (found, revoke_own, own) (revoke_token-Spent t k (row.expires_at - s.now) s h)
      | inr other ↦ rw (found, revoke_own, other) h
    ]
  ]

  user_of_row-row :
      (row : RefreshToken) (s : Auth R) (c : Checked)
      → user_of_row R row s ≡ ok c
      → (c.0 ≡ row) × (row.revoked ≡ false)
  unfolding user_of_row
  user_of_row-row row s c h = elim (Option-cases (find id_of row.user_id s.users)) [
    | inl missing ↦ absurd (ground arith)
    | inr (user, found) ↦ (ground arith, ground arith)
  ]

  -- A token that may be redeemed is in the table and not revoked.
  pub check_refresh-row :
      (t : String) (s : Auth R) (c : Checked)
      → check_refresh R t s ≡ ok c
      → (find token_id_of t s.refresh_tokens ≡ some c.0) × (c.0.revoked ≡ false)
  unfolding check_refresh
  check_refresh-row t s c h = elim (Option-cases (find token_id_of t s.refresh_tokens)) [
    | inl missing ↦ absurd (ground arith)
    | inr (row, found) ↦
        let (same, fresh) = user_of_row-row row s c (ground arith) in
        (
          found ∙ ap (λ (r : RefreshToken). some r) (sym same),
          ap (λ (r : RefreshToken). r.revoked) same ∙ fresh,
        )
  ]

  check_refresh_refused :
      (t : String) (s : Auth R) → Spent t s.refresh_tokens → is_ok (check_refresh R t s) ≡ false
  check_refresh_refused t s (row, found, gone) = elim (Result-cases (check_refresh R t s)) [
    | inr (e, refused) ↦ rw refused
    | inl (c, passed) ↦ let (here, fresh) = check_refresh-row t s c passed in absurd (ground arith)
  ]

  revoke_own_spends :
      (t : String) (s : Auth R) {row : RefreshToken}
      → find token_id_of t s.refresh_tokens ≡ some row
      → Spent t (revoke_own R t row.user_id s).refresh_tokens
  unfolding revoke_own
  revoke_own_spends t s {row} found = elim (Bool-cases row.revoked) [
    | inl gone ↦ rw (found, revoke_own, eq_refl row.user_id, gone) (row, found, gone)
    | inr fresh ↦
        rw (found, revoke_own, eq_refl row.user_id, fresh)
          (revoke_token_spends t (row.expires_at - s.now) s row found)
  ]

module _ (J : Jwt) (R : Redis String) (keys : KeyMaterial J) (settings : Settings) where
  issue_tokens-Spent :
      (t : String) (user : User) (new_id jti : String) (s : Auth R)
      → Spent t s.refresh_tokens
      → Spent t (issue_tokens J R keys settings user new_id jti s).1.refresh_tokens
  unfolding issue_tokens
  issue_tokens-Spent t user new_id jti s h =
      elim (Bool-cases (is_some (find token_id_of new_id s.refresh_tokens))) [
        | inl taken ↦ rw taken h
        | inr free ↦ rw free (Spent-append t s.refresh_tokens _ h)
      ]

  rotate_token-Spent :
      (t k : String) (c : Checked) (new_id jti : String) (s : Auth R)
      → Spent t s.refresh_tokens
      → Spent t (rotate_token J R keys settings k c new_id jti s).1.refresh_tokens
  unfolding rotate_token
  rotate_token-Spent t k (row, user, now) new_id jti s h =
      issue_tokens-Spent t user new_id jti _ (revoke_token-Spent R t k (row.expires_at - now) s h)

  pub refresh-Spent :
      (t k new_id jti : String) (s : Auth R)
      → Spent t s.refresh_tokens
      → Spent t (refresh J R keys settings k new_id jti s).1.refresh_tokens
  unfolding refresh
  refresh-Spent t k new_id jti s h = elim (Result-cases (check_refresh R k s)) [
    | inr (e, refused) ↦ rw refused h
    | inl (c, passed) ↦ rw passed (rotate_token-Spent t k c new_id jti s h)
  ]

  -- A refresh that is answered with tokens has spent the one presented.
  pub refresh_spends :
      (t new_id jti : String) (s : Auth R)
      → is_ok (refresh J R keys settings t new_id jti s).0 ≡ true
      → Spent t (refresh J R keys settings t new_id jti s).1.refresh_tokens
  unfolding refresh rotate_token
  refresh_spends t new_id jti s done = elim (Result-cases (check_refresh R t s)) [
    | inr (e, refused) ↦ absurd (ground arith)
    | inl ((row, user, now), passed) ↦ rw passed (
        issue_tokens-Spent t user new_id jti _ (
          revoke_token_spends R t (row.expires_at - now) s row
            (check_refresh-row R t s (row, user, now) passed).0))
  ]

  pub refresh_refused :
      (t new_id jti : String) (s : Auth R)
      → Spent t s.refresh_tokens
      → is_ok (refresh J R keys settings t new_id jti s).0 ≡ false
  unfolding refresh
  refresh_refused t new_id jti s h = elim (Result-cases (check_refresh R t s)) [
    | inr (e, refused) ↦ rw refused
    | inl (c, passed) ↦ let no_pass = check_refresh_refused R t s h in absurd (ground arith)
  ]

  pub logout-Spent :
      (t k authorization : String) (s : Auth R)
      → Spent t s.refresh_tokens
      → Spent t (logout J R keys settings k authorization s).1.refresh_tokens
  unfolding logout
  logout-Spent t k authorization s h =
      elim (Result-cases (current_user_id J keys settings s.now authorization)) [
        | inr (e, refused) ↦ rw refused h
        | inl (u, known) ↦ rw known (revoke_own-Spent R t k u s h)
      ]

  pub logout_spends :
      (t authorization : String) (s : Auth R) {row : RefreshToken}
      → find token_id_of t s.refresh_tokens ≡ some row
      → current_user_id J keys settings s.now authorization ≡ ok row.user_id
      → Spent t (logout J R keys settings t authorization s).1.refresh_tokens
  unfolding logout
  logout_spends t authorization s found caller = rw (caller, logout) (revoke_own_spends R t s found)

  pub login-Spent :
      (B : Bcrypt) (t : String) (body : Credentials) (new_id jti : String) (s : Auth R)
      → Spent t s.refresh_tokens
      → Spent t (login R J B keys settings body new_id jti s).1.refresh_tokens
  unfolding login
  login-Spent B t body new_id jti s h = elim (Result-cases (authenticate R B body s)) [
    | inr (e, refused) ↦ rw refused h
    | inl (user, known) ↦ rw known (issue_tokens-Spent t user new_id jti s h)
  ]

pub register-rows :
    (R : Redis String) (B : Bcrypt) (body : Credentials) (new_id salt : String) (s : Auth R)
    → (register R B (λ t. t) body new_id salt s).1.refresh_tokens ≡ s.refresh_tokens
unfolding register check_email insert_user
register-rows R B body new_id salt s = ground arith
