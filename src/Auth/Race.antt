-- ===== src/Auth/Race.antt =====
-- Two refreshes with one token at the same time.
use ecommerce_services.Common.{
  ℕ, ◌+◌, ◌-◌, String, true, false, none, some, List, [], ◌∷◌, ◌++◌, ◌≡◌, ◌≢◌, ◌⊎◌, inl, inr, Bool,
  refl, ap, ◌∙◌, arith, eq_refl, eq_iff,
}
use ecommerce_services.Common.Redis.{Redis}
use ecommerce_services.Common.Table.{find, update, find-update, find-append, find-append_none}
use ecommerce_services.Shared.{ok, err, Action}
use ecommerce_services.Shared.Security.{unhandled}
use ecommerce_services.Shared.Jwt.{Jwt}
use ecommerce_services.Auth.Defs.{
  RefreshToken, Settings, KeyMaterial, Auth, token_id_of, TokenResponse, blacklist_add,
}
use ecommerce_services.Auth.Tokens.{
  Checked, revoke, revoke_token, check_refresh, issue_tokens, rotate_token,
}
use ecommerce_services.Auth.Requests.{is_ok}
use ecommerce_services.Auth.Spent.{revoke_token-rows, check_refresh-row}

-- The table holds the token as one that is not revoked.
abbrev pub Fresh : String → List RefreshToken → Type 0
Fresh t rows = (row : RefreshToken) × (find token_id_of t rows ≡ some row) × (row.revoked ≡ false)

find-update_other :
    (k t : String) (rows : List RefreshToken)
    → k ≢ t
    → find token_id_of t (update token_id_of k revoke rows) ≡ find token_id_of t rows
find-update_other k t rows ne =
    find-update token_id_of k t revoke rows (λ _. refl) ∙ ground (arith, eq_iff k t)

found-last :
    (rows : List RefreshToken) (row : RefreshToken)
    → find token_id_of row.token_id rows ≡ none
    → find token_id_of row.token_id (rows ++ row ∷ []) ≡ some row
found-last rows row free =
    find-append_none token_id_of row.token_id rows (row ∷ []) free
    ∙ (unfold find in rw (eq_refl row.token_id))

missed-last :
    (k : String) (rows : List RefreshToken) (row : RefreshToken)
    → row.token_id ≢ k
    → find token_id_of k rows ≡ none
    → find token_id_of k (rows ++ row ∷ []) ≡ none
missed-last k rows row ne free =
    find-append_none token_id_of k rows (row ∷ []) free
    ∙ (unfold find in ground (arith, eq_iff row.token_id k))

module _ (J : Jwt) (R : Redis String) (keys : KeyMaterial J) (settings : Settings) where
  -- The row that a rotation inserts.
  abbrev new_row : Checked → String → Auth R → RefreshToken
  new_row c new_id s = record {
    token_id = new_id;
    user_id = c.1.id;
    expires_at = s.now + settings.jwt_refresh_token_ttl_seconds;
    revoked = false;
  }

  revoke_token-now : (t : String) (ttl : ℕ) (s : Auth R) → (revoke_token R t ttl s).now ≡ s.now
  unfolding revoke_token blacklist_add
  revoke_token-now t ttl s = ground arith

  -- With a new id a rotation revokes the token and appends a new one, whatever the table says by now.
  rotated :
      (t new_id jti : String) (c : Checked) (s : Auth R)
      → find token_id_of new_id (update token_id_of t revoke s.refresh_tokens) ≡ none
      → (is_ok (rotate_token J R keys settings t c new_id jti s).0 ≡ true)
        × ((rotate_token J R keys settings t c new_id jti s).1.refresh_tokens
            ≡ update token_id_of t revoke s.refresh_tokens ++ new_row c new_id s ∷ [])
  unfolding rotate_token issue_tokens
  rotated t new_id jti (row, user, now) s free =
      let rows = revoke_token-rows R t (row.expires_at - now) s in
      rw (rows, free) (refl, rw (revoke_token-now t (row.expires_at - now) s))

  blacklist_add-rows :
      (t : String) (ttl : ℕ) (s : Auth R)
      → (blacklist_add R t ttl s).refresh_tokens ≡ s.refresh_tokens
  unfolding blacklist_add
  blacklist_add-rows t ttl s = ground arith

  -- One rotation.
  once :
      (t id₁ jti₁ : String) (c : Checked) (s : Auth R)
      → check_refresh R t s ≡ ok c
      → find token_id_of id₁ s.refresh_tokens ≡ none
      → let (r₁, s₁) = rotate_token J R keys settings t c id₁ jti₁ s in
        (is_ok r₁ ≡ true) × Fresh id₁ s₁.refresh_tokens
  once t id₁ jti₁ c s passed free₁ =
      let (here, _) = check_refresh-row R t s c passed in
      let other : t ≢ id₁ = λ e. absurd (cc (ap (λ i. find token_id_of i s.refresh_tokens) e)) in
      let kept₁ = find-update_other t id₁ s.refresh_tokens other ∙ free₁ in
      let (done₁, rows₁) = rotated t id₁ jti₁ c s kept₁ in
      (
        done₁,
        (
          new_row c id₁ s,
          ap (find token_id_of id₁) rows₁
              ∙ found-last (update token_id_of t revoke s.refresh_tokens) (new_row c id₁ s) kept₁,
          refl,
        ),
      )

  -- Two rotations that are both accepted.
  twice :
      (t id₁ id₂ jti₁ jti₂ : String) (c : Checked) (s : Auth R)
      → check_refresh R t s ≡ ok c
      → find token_id_of id₁ s.refresh_tokens ≡ none
      → find token_id_of id₂ s.refresh_tokens ≡ none
      → id₁ ≢ id₂
      → let (r₁, s₁) = rotate_token J R keys settings t c id₁ jti₁ s in
        let (r₂, s₂) = rotate_token J R keys settings t c id₂ jti₂ s₁ in
        (is_ok r₁ ≡ true)
        × (is_ok r₂ ≡ true)
        × Fresh id₁ s₂.refresh_tokens
        × Fresh id₂ s₂.refresh_tokens
  twice t id₁ id₂ jti₁ jti₂ c s passed free₁ free₂ ne =
      let (r₁, s₁) = rotate_token J R keys settings t c id₁ jti₁ s in
      let (here, _) = check_refresh-row R t s c passed in
      let other : (k : String) → find token_id_of k s.refresh_tokens ≡ none → t ≢ k =
        λ k free e. absurd (cc (ap (λ i. find token_id_of i s.refresh_tokens) e)) in
      let ours = update token_id_of t revoke s.refresh_tokens in
      let row₁ = new_row c id₁ s in
      let kept₁ = find-update_other t id₁ s.refresh_tokens (other id₁ free₁) ∙ free₁ in
      let kept₂ = find-update_other t id₂ s.refresh_tokens (other id₂ free₂) ∙ free₂ in
      let (done₁, rows₁) = rotated t id₁ jti₁ c s kept₁ in
      let found₁ = ap (find token_id_of id₁) rows₁ ∙ found-last ours row₁ kept₁ in
      let still₁ = find-update_other t id₁ s₁.refresh_tokens (other id₁ free₁) ∙ found₁ in
      let missing₂ = ap (find token_id_of id₂) rows₁ ∙ missed-last id₂ ours row₁ ne kept₂ in
      let still₂ = find-update_other t id₂ s₁.refresh_tokens (other id₂ free₂) ∙ missing₂ in
      let (done₂, rows₂) = rotated t id₂ jti₂ c s₁ still₂ in
      let ours₁ = update token_id_of t revoke s₁.refresh_tokens in
      let row₂ = new_row c id₂ s₁ in
      (
        done₁,
        done₂,
        (
          row₁,
          ap (find token_id_of id₁) rows₂ ∙ find-append token_id_of id₁ ours₁ (row₂ ∷ []) still₁,
          refl,
        ),
        (row₂, ap (find token_id_of id₂) rows₂ ∙ found-last ours₁ row₂ still₂, refl),
      )

  -- The same, for a row that another transaction has changed since it was read. Whether the database
  -- accepts the UPDATE then is its own affair: MariaDB refuses it with error 1020 if
  -- innodb_snapshot_isolation is on, which raises out of `db.commit`, after the entry on the blacklist.
  unfoldable pub rotate_stale :
      Bool → String → Checked → String → String → Action (Auth R) TokenResponse
  unfolding rotate_token
  rotate_stale true token_id c new_id jti s = rotate_token J R keys settings token_id c new_id jti s
  rotate_stale false token_id (row, user, now) new_id jti s =
      (err unhandled, blacklist_add R token_id (row.expires_at - now) s)

  -- Two requests have both read a refresh token as valid before either has written, and the drawn ids are
  -- new and differ. The first is answered with tokens, and its new refresh token is in the table, not
  -- revoked, in the end. The second is answered with tokens of its own exactly when the database
  -- accepts its UPDATE of a row that has changed since it was read: then its new refresh token is in the
  -- table too, not revoked, so that the token has been redeemed twice; otherwise it ends in an
  -- unhandled exception and leaves the table as the first has left it.
  pub double_refresh :
      (accepted : Bool) (t id₁ id₂ jti₁ jti₂ : String) (c : Checked) (s : Auth R)
      → check_refresh R t s ≡ ok c
      → find token_id_of id₁ s.refresh_tokens ≡ none
      → find token_id_of id₂ s.refresh_tokens ≡ none
      → id₁ ≢ id₂
      → let (r₁, s₁) = rotate_token J R keys settings t c id₁ jti₁ s in
        let (r₂, s₂) = rotate_stale accepted t c id₂ jti₂ s₁ in
        (is_ok r₁ ≡ true)
        × Fresh id₁ s₂.refresh_tokens
        × (is_ok r₂ ≡ accepted)
        × (((accepted ≡ true) × Fresh id₂ s₂.refresh_tokens)
            ⊎ ((accepted ≡ false) × (r₂ ≡ err unhandled) × (s₂.refresh_tokens ≡ s₁.refresh_tokens)))
  unfolding rotate_stale
  double_refresh false t id₁ id₂ jti₁ jti₂ (row, user, now) s passed free₁ free₂ ne =
      let (done₁, (row₁, found₁, live₁)) = once t id₁ jti₁ (row, user, now) s passed free₁ in
      let s₁ = (rotate_token J R keys settings t (row, user, now) id₁ jti₁ s).1 in
      let same = blacklist_add-rows t (row.expires_at - now) s₁ in
      (done₁, (row₁, ap (find token_id_of id₁) same ∙ found₁, live₁), refl, inr (refl, refl, same))
  double_refresh true t id₁ id₂ jti₁ jti₂ c s passed free₁ free₂ ne =
      let (done₁, done₂, fresh₁, fresh₂) = twice t id₁ id₂ jti₁ jti₂ c s passed free₁ free₂ ne in
      (done₁, fresh₁, done₂, inl (refl, fresh₂))
