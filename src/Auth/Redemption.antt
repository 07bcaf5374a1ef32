-- ===== src/Auth/Redemption.antt =====
-- A refresh token is redeemed at most once, and not after its owner has logged out.
use ecommerce_services.Common.{
  ◌≤◌, String, true, false, some, List, [], ◌∷◌, ◌≡◌, refl, sym, ap, ◌∙◌, inl, inr, arith, eq_refl,
  Bool-cases, Text-cases,
}
use ecommerce_services.Common.Redis.{Redis}
use ecommerce_services.Common.Table.{find}
use ecommerce_services.Shared.{ok}
use ecommerce_services.Shared.Jwt.{Jwt}
use ecommerce_services.Auth.Defs.{RefreshToken, Settings, Bcrypt, KeyMaterial, Auth, token_id_of}
use ecommerce_services.Auth.Tokens.{refresh, current_user_id, logout}
use ecommerce_services.Auth.Requests.{
  Request, sign_up, sign_in, renew, sign_out, wait, is_ok, serve, redeems, redemptions,
}
use ecommerce_services.Auth.Spent.{
  Spent, login-Spent, logout-Spent, refresh-Spent, refresh_spends, refresh_refused, register-rows,
  logout_spends,
}

module _ (J : Jwt) (R : Redis String) (B : Bcrypt) (keys : KeyMaterial J)
    (settings : Settings) where
  serve-Spent :
      (t : String) (q : Request) (s : Auth R)
      → Spent t s.refresh_tokens
      → Spent t (serve J R B keys settings q s).refresh_tokens
  unfolding serve
  serve-Spent t (sign_up body new_id salt) s h = rw (register-rows R B body new_id salt s) h
  serve-Spent t (sign_in body new_id jti) s h =
      login-Spent J R keys settings B t body new_id jti s h
  serve-Spent t (renew k new_id jti) s h = refresh-Spent J R keys settings t k new_id jti s h
  serve-Spent t (sign_out k authorization) s h =
      logout-Spent J R keys settings t k authorization s h
  serve-Spent t (wait d) s h = h

  redeems-Spent :
      (t : String) (q : Request) (s : Auth R)
      → redeems J R B keys settings t q s ≡ true
      → Spent t (serve J R B keys settings q s).refresh_tokens
  unfolding redeems serve
  redeems-Spent t (renew k new_id jti) s done = elim (Text-cases k t) [
    | inr (ne, e) ↦ absurd (ground arith)
    | inl (same, e) ↦ rw same (
        refresh_spends J R keys settings t new_id jti s
          (ap (λ i. is_ok (refresh J R keys settings i new_id jti s).0) (sym same) ∙ ground arith))
  ]
  redeems-Spent t (sign_up body new_id salt) s done = cc
  redeems-Spent t (sign_in body new_id jti) s done = cc
  redeems-Spent t (sign_out k authorization) s done = cc
  redeems-Spent t (wait d) s done = cc

  redeems_refused :
      (t : String) (q : Request) (s : Auth R)
      → Spent t s.refresh_tokens
      → redeems J R B keys settings t q s ≡ false
  unfolding redeems
  redeems_refused t (renew k new_id jti) s h = elim (Text-cases k t) [
    | inr (ne, e) ↦ rw e
    | inl (same, e) ↦ rw (same, eq_refl t) (refresh_refused J R keys settings t new_id jti s h)
  ]
  redeems_refused t _ s h = refl

  redemptions_refused :
      (t : String) (qs : List Request) (s : Auth R)
      → Spent t s.refresh_tokens
      → redemptions J R B keys settings t qs s ≡ 0
  unfolding redemptions
  redemptions_refused t [] s h = refl
  redemptions_refused t (q ∷ qs) s h = rw (redeems_refused t q s h) (
      omega (arith, redemptions_refused t qs (serve J R B keys settings q s) (serve-Spent t q s h)))

  -- Over any sequence of requests, one after the other, and from any state, a refresh token is redeemed
  -- at most once.
  pub redeemed_at_most_once :
      (t : String) (qs : List Request) (s : Auth R) → redemptions J R B keys settings t qs s ≤ 1
  unfolding redemptions
  redeemed_at_most_once t [] s = omega arith
  redeemed_at_most_once t (q ∷ qs) s = elim (Bool-cases (redeems J R B keys settings t q s)) [
    | inl done ↦ rw done (
        omega (
          arith,
          redemptions_refused t qs (serve J R B keys settings q s) (redeems-Spent t q s done),
        ))
    | inr other ↦
        rw other (omega (arith, redeemed_at_most_once t qs (serve J R B keys settings q s)))
  ]

  -- Once the user that a refresh token belongs to has logged out with it, no request redeems it, whatever
  -- the requests are. The caller is the one that the access token of the logout names.
  pub no_redemption_after_logout :
      (t authorization : String) (qs : List Request) (s : Auth R) {row : RefreshToken}
      → find token_id_of t s.refresh_tokens ≡ some row
      → current_user_id J keys settings s.now authorization ≡ ok row.user_id
      → redemptions J R B keys settings t qs (logout J R keys settings t authorization s).1 ≡ 0
  no_redemption_after_logout t authorization qs s found caller =
      redemptions_refused t qs _ (logout_spends J R keys settings t authorization s found caller)
