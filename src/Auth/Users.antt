-- ===== src/Auth/Users.antt =====
-- A user who is in the table stays there.
use ecommerce_services.Common.{
  ℕ, ◌-◌, String, ◌||◌, some, List, [], ◌∷◌, ◌++◌, ◌≡◌, ◌∙◌, inl, inr, arith, eq_refl, Bool-cases,
  Option-cases,
}
use ecommerce_services.Common.Redis.{Redis, is_some}
use ecommerce_services.Common.Table.{find, find-append, find-append_none}
use ecommerce_services.Shared.{ok, Result-cases}
use ecommerce_services.Shared.Jwt.{Jwt}
use ecommerce_services.Auth.Defs.{
  User, Credentials, RegisterResponse, Settings, Bcrypt, KeyMaterial, Auth, email_of, id_of,
  token_id_of, blacklist_add,
}
use ecommerce_services.Auth.Tokens.{
  issue_tokens, refresh, logout, check_refresh, rotate_token, revoke_token, revoke_own,
  current_user_id,
}
use ecommerce_services.Auth.Accounts.{register, check_email, insert_user, login, authenticate}
use ecommerce_services.Auth.Requests.{
  Request, sign_up, sign_in, renew, sign_out, wait, serve, serve_all,
}

abbrev pub Has : String → User → List User → Type 0
Has email user users = find email_of email users ≡ some user

module _ (R : Redis String) where
  revoke_token-users :
      (t : String) (ttl : ℕ) (s : Auth R) → (revoke_token R t ttl s).users ≡ s.users
  unfolding revoke_token blacklist_add
  revoke_token-users t ttl s = ground arith

  revoke_own-users : (t u : String) (s : Auth R) → (revoke_own R t u s).users ≡ s.users
  unfolding revoke_own
  revoke_own-users t u s = elim (Option-cases (find token_id_of t s.refresh_tokens)) [
    | inl missing ↦ rw (missing, revoke_own)
    | inr (row, found) ↦
        rw (found, revoke_own) (ground (arith, revoke_token-users t (row.expires_at - s.now) s))
  ]

  insert_user-Has :
      (e : String) (u user : User) (s : Auth R)
      → Has e u s.users
      → Has e u (insert_user R user s).1.users
  unfolding insert_user
  insert_user-Has e u user s h =
      elim (Bool-cases
        (is_some (find id_of user.id s.users) || is_some (find email_of user.email s.users))) [
          | inl taken ↦ rw taken h
          | inr free ↦ rw free (find-append email_of e s.users (user ∷ []) h)
        ]

  -- A user that has been inserted is found by the email.
  inserted :
      (user : User) (s s' : Auth R) {out : RegisterResponse}
      → insert_user R user s ≡ (ok out, s')
      → Has user.email user s'.users
  unfolding insert_user
  inserted user s s' h = elim (Option-cases (find email_of user.email s.users)) [
    | inr (other, found) ↦ absurd (ground arith)
    | inl missing ↦
        let rows : s'.users ≡ s.users ++ user ∷ [] = ground arith in
        rw rows (
          find-append_none email_of user.email s.users (user ∷ []) missing
          ∙ (unfold find in rw (eq_refl user.email)))
  ]

  unfoldable pub new_user : Bcrypt → Credentials → String → String → User
  new_user B body new_id salt = record {
    id = new_id;
    email = body.email;
    password_hash = B.hashpw body.password salt;
  }

  pub registered :
      (B : Bcrypt) (others : Auth R → Auth R) (body : Credentials) (new_id salt : String)
      (s s' : Auth R) {out : RegisterResponse}
      → register R B others body new_id salt s ≡ (ok out, s')
      → Has body.email (new_user B body new_id salt) s'.users
  unfolding register check_email new_user
  registered B others body new_id salt s s' {out} h =
      ground (arith, inserted (new_user B body new_id salt) (others s) s' {out = out})

  register-Has :
      (B : Bcrypt) (e : String) (u : User) (body : Credentials) (new_id salt : String) (s : Auth R)
      → Has e u s.users
      → Has e u (register R B (λ t. t) body new_id salt s).1.users
  unfolding register check_email new_user
  register-Has B e u body new_id salt s h =
      ground (arith, insert_user-Has e u (new_user B body new_id salt) s h)

module _ (J : Jwt) (R : Redis String) (keys : KeyMaterial J) (settings : Settings) where
  issue_tokens-users :
      (user : User) (new_id jti : String) (s : Auth R)
      → (issue_tokens J R keys settings user new_id jti s).1.users ≡ s.users
  unfolding issue_tokens
  issue_tokens-users user new_id jti s = ground arith

  refresh-users :
      (t new_id jti : String) (s : Auth R)
      → (refresh J R keys settings t new_id jti s).1.users ≡ s.users
  unfolding refresh rotate_token
  refresh-users t new_id jti s = elim (Result-cases (check_refresh R t s)) [
    | inr (e, refused) ↦ rw refused
    | inl ((row, user, now), passed) ↦ rw passed (
        issue_tokens-users user new_id jti (revoke_token R t (row.expires_at - now) s)
        ∙ revoke_token-users R t (row.expires_at - now) s)
  ]

  logout-users :
      (t authorization : String) (s : Auth R)
      → (logout J R keys settings t authorization s).1.users ≡ s.users
  unfolding logout
  logout-users t authorization s =
      elim (Result-cases (current_user_id J keys settings s.now authorization)) [
        | inr (e, refused) ↦ rw refused
        | inl (u, known) ↦ rw known (revoke_own-users R t u s)
      ]

  login-users :
      (B : Bcrypt) (body : Credentials) (new_id jti : String) (s : Auth R)
      → (login R J B keys settings body new_id jti s).1.users ≡ s.users
  unfolding login
  login-users B body new_id jti s = elim (Result-cases (authenticate R B body s)) [
    | inr (e, refused) ↦ rw refused
    | inl (user, known) ↦ rw known (issue_tokens-users user new_id jti s)
  ]

module _ (J : Jwt) (R : Redis String) (B : Bcrypt) (keys : KeyMaterial J)
    (settings : Settings) where
  serve-Has :
      (e : String) (u : User) (q : Request) (s : Auth R)
      → Has e u s.users
      → Has e u (serve J R B keys settings q s).users
  unfolding serve
  serve-Has e u (sign_up body new_id salt) s h = register-Has R B e u body new_id salt s h
  serve-Has e u (sign_in body new_id jti) s h =
      rw (login-users J R keys settings B body new_id jti s) h
  serve-Has e u (renew t new_id jti) s h = rw (refresh-users J R keys settings t new_id jti s) h
  serve-Has e u (sign_out t authorization) s h =
      rw (logout-users J R keys settings t authorization s) h
  serve-Has e u (wait d) s h = h

  pub serve_all-Has :
      (e : String) (u : User) (qs : List Request) (s : Auth R)
      → Has e u s.users
      → Has e u (serve_all J R B keys settings qs s).users
  unfolding serve_all
  serve_all-Has e u [] s h = h
  serve_all-Has e u (q ∷ qs) s h =
      serve_all-Has e u qs (serve J R B keys settings q s) (serve-Has e u q s h)
