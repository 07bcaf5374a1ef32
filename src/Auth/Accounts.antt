-- ===== src/Auth/Accounts.antt =====
-- `register` and `login` of app/routers/auth.py, with app/security.py's passwords.
use Prim.Native.String.{count}
use ecommerce_services.Common.{
  String, Bool, not, ◌&&◌, ◌||◌, none, some, [], ◌∷◌, ◌++◌, leb, if◌then◌else◌,
}
use ecommerce_services.Common.Redis.{Redis, is_some}
use ecommerce_services.Common.Table.{find}
use ecommerce_services.Shared.{Result, ok, err, Action, continue, raise_if, ◌>>◌}
use ecommerce_services.Shared.Jwt.{Jwt}
use ecommerce_services.Shared.Security.{unhandled}
use ecommerce_services.Auth.Defs.{
  User, Credentials, RegisterResponse, TokenResponse, Settings, Bcrypt, KeyMaterial, Auth, id_of,
  email_of, invalid_request, email_taken, invalid_credentials,
}
use ecommerce_services.Auth.Tokens.{issue_tokens}

-- `Field(min_length=8, max_length=128)`; that the email is one is checked by a library.
unfoldable pub is_password : String → Bool
is_password password = leb 8 (count password) && leb (count password) 128

module _ (R : Redis String) where
  -- The first query of `register`.
  unfoldable pub check_email : String → Action (Auth R) (Unit {0})
  check_email email s =
      ((if is_some (find email_of email s.users) then err email_taken else ok tt), s)

  -- INSERT of a user: the primary key and the unique index on the email refuse what is there.
  unfoldable pub insert_user : User → Action (Auth R) RegisterResponse
  insert_user user s =
      if is_some (find id_of user.id s.users) || is_some (find email_of user.email s.users)
      then (err unhandled, s)
      else (
        ok (record { id = user.id; email = user.email }),
        record s { users = s.users ++ user ∷ [] },
      )

  -- `register`, with the id that `uuid4` draws and the salt. What other requests do between the query
  -- and the insertion is the function `others`.
  unfoldable pub register :
      Bcrypt → (Auth R → Auth R) → Credentials → String → String → Action (Auth R) RegisterResponse
  register B others body new_id salt = do
    raise_if (not (is_password body.password)) invalid_request
    check_email body.email
    λ s.
        insert_user
          (record { id = new_id; email = body.email; password_hash = B.hashpw body.password salt })
          (others s)

  -- The user that the credentials name.
  unfoldable pub authenticate : Bcrypt → Credentials → Auth R → Result User
  authenticate B body s = elim (find email_of body.email s.users) [
    | none ↦ err invalid_credentials
    | some user ↦
        if B.checkpw body.password user.password_hash then ok user else err invalid_credentials
  ]

  unfoldable pub login :
      (J : Jwt)
      → Bcrypt
      → KeyMaterial J
      → Settings
      → Credentials
      → String
      → String
      → Action (Auth R) TokenResponse
  login J B keys settings body new_id jti s =
      continue (authenticate B body s) (λ user. issue_tokens J R keys settings user new_id jti) s
