-- ===== src/Auth/Tests.antt =====
-- A user who registers, logs in, refreshes and logs out, and the theorems at such inputs.
use Prim.Native.String.{◌++◌ as append}
use ecommerce_services.Common.{
  Option, Bool, ◌⊎◌, ◌≤◌, ◌<◌, String, ◌+◌, true, false, ◌==◌, none, some, List, [], ◌∷◌, ◌≡◌, ◌≢◌,
  refl, inl, arith, eq_refl, eq_iff,
}
use ecommerce_services.Common.Dict
use ecommerce_services.Common.Redis.{dict_redis}
use ecommerce_services.Common.Table.{find, update}
use ecommerce_services.Shared.{err, ok, Result}
use ecommerce_services.Shared.JwtDemo.{demo_jwt, fields}
use ecommerce_services.Shared.Security.{
  unhandled, JwksClient, JwksAnswer, jwks, issuer, bearer, starts_lower, after_space,
}
use ecommerce_services.Shared.Authentic.{Serves}
use ecommerce_services.Auth.Defs.{
  User, Credentials, TokenResponse, Settings, Bcrypt, KeyMaterial, Auth, RefreshToken, token_id_of,
  is_blacklisted, blacklist_add, blacklist_key, access_claims,
}
use ecommerce_services.Auth.Keys.{KeyLib, Files, Jwk, jwk}
use ecommerce_services.Auth.Tokens.{
  logout, current_user_id, refresh, check_refresh, rotate_token, user_of_row, revoke_token,
  issue_tokens,
}
use ecommerce_services.Auth.Accounts.{
  register, login, check_email, insert_user, is_password, authenticate,
}
use ecommerce_services.Auth.Requests.{
  Request, sign_in, renew, wait, serve, serve_all, redeems, redemptions, is_ok,
}
use ecommerce_services.Auth.Redemption.{redeemed_at_most_once, no_redemption_after_logout}
use ecommerce_services.Auth.Recognition.{Recognises, register-login}
use ecommerce_services.Auth.Race.{rotate_stale, Fresh, double_refresh}
use ecommerce_services.Auth.KeyText.{read_number, jwk-read, Restarts, key_material-Restarts}

checkpw_self : (password salt : String) → (password == password) ≡ true
checkpw_self password salt = eq_refl password

abbrev plain : Bcrypt
plain = record {
  hashpw = λ password salt. password;
  checkpw = λ password hash. password == hash;
  checkpw-hashpw = checkpw_self;
}

abbrev keys : KeyMaterial demo_jwt
keys = record { private_key = "key"; kid = "a1b2" }

abbrev settings : Settings
settings = record {
  jwt_issuer = issuer;
  jwt_access_token_ttl_seconds = 900;
  jwt_refresh_token_ttl_seconds = 1209600;
}

abbrev Service : Type 0
Service = Auth (dict_redis String)

abbrev nobody : Service
nobody = record { users = []; refresh_tokens = []; blacklist = []; now = 1000 }

abbrev ann : Credentials
ann = record { email = "ann@example.com"; password = "correct horse" }

abbrev signed_up : Service
signed_up = record nobody {
  users = record { id = "u-1"; email = ann.email; password_hash = ann.password } ∷ [];
}

signs_up :
    register (dict_redis String) plain (λ s. s) ann "u-1" "salt" nobody
    ≡ (ok (record { id = "u-1"; email = "ann@example.com" }), signed_up)
unfolding register is_password check_email insert_user find
signs_up = refl

abbrev later : List Request
later = sign_in ann "r-1" "j-1" ∷ wait 60 ∷ renew "r-1" "r-2" "j-2" ∷ renew "r-1" "r-3" "j-3" ∷ []

redeemed_at_most_once_example :
    redemptions demo_jwt (dict_redis String) plain keys settings "r-1" later signed_up ≤ 1
redeemed_at_most_once_example =
    redeemed_at_most_once demo_jwt (dict_redis String) plain keys settings "r-1" later signed_up

-- The token is redeemed once there.
redeemed_once :
    redemptions demo_jwt (dict_redis String) plain keys settings "r-1" later signed_up ≡ 1
unfolding redemptions redeems serve refresh check_refresh user_of_row rotate_token revoke_token
    issue_tokens login authenticate is_blacklisted blacklist_add blacklist_key find update
    Dict.lookup Dict.insert
redeemed_once = refl

-- The access token that a login at 1000 gives, and the header that shows it.
abbrev access : String
access =
    demo_jwt.encode (access_claims demo_jwt keys settings 1000 "u-1" ann.email "j-1") "key" "a1b2"

abbrev header : String
header = append "Bearer " access

abbrev row_1 : RefreshToken
row_1 = record { token_id = "r-1"; user_id = "u-1"; expires_at = 1210600; revoked = false }

abbrev logged_in : Service
logged_in = record signed_up { refresh_tokens = row_1 ∷ [] }

row_1-found : find token_id_of "r-1" logged_in.refresh_tokens ≡ some row_1
unfolding find
row_1-found = refl

ann_calls : current_user_id demo_jwt keys settings 1000 header ≡ ok "u-1"
unfolding current_user_id bearer starts_lower after_space fields
ann_calls = refl

no_redemption_after_logout_example :
    redemptions demo_jwt
      (dict_redis String)
      plain
      keys
      settings
      "r-1"
      later
      (logout demo_jwt (dict_redis String) keys settings "r-1" header logged_in).1
    ≡ 0
no_redemption_after_logout_example =
    no_redemption_after_logout demo_jwt (dict_redis String) plain keys settings "r-1" header later
      logged_in row_1-found ann_calls

-- A service that has fetched no keys yet, and fetches them.
abbrev new_client : JwksClient demo_jwt
new_client = record { ttl_seconds = 300; keys = []; fetched_at = 0 }

abbrev published : JwksAnswer demo_jwt
published = jwks (("a1b2", "key") ∷ [])

key-Serves : Serves demo_jwt published "a1b2" "key" new_client
unfolding Dict.lookup
key-Serves = (refl, inl refl)

kid-ne-nil : ◌≢◌ {A = String} "a1b2" ""
kid-ne-nil = ground (arith, eq_iff "a1b2" "")

abbrev between : List Request
between = sign_in ann "r-1" "j-1" ∷ wait 60 ∷ []

abbrev at_login : Service
at_login = serve_all demo_jwt (dict_redis String) plain keys settings between signed_up

r_2-free : find token_id_of "r-2" at_login.refresh_tokens ≡ none
unfolding serve_all serve login authenticate issue_tokens find
r_2-free = refl

after_login : at_login.now ≤ 1500
unfolding serve_all serve login authenticate issue_tokens find
after_login = omega arith

still_current : 1500 < at_login.now + 900
unfolding serve_all serve login authenticate issue_tokens find
still_current = omega arith

register-login_example :
    Recognises demo_jwt
      (dict_redis String)
      plain
      keys
      settings
      1500
      published
      new_client
      "u-1"
      "ann@example.com"
      (login (dict_redis String) demo_jwt plain keys settings ann "r-2" "j-2" at_login).0
register-login_example =
    register-login demo_jwt (dict_redis String) plain keys settings (λ s. s) ann "u-1" "salt" "r-2"
      "j-2" between nobody signed_up 1500 published new_client refl kid-ne-nil signs_up r_2-free
      after_login still_current key-Serves

abbrev ann_row : User
ann_row = record { id = "u-1"; email = ann.email; password_hash = ann.password }

r_1-passes : check_refresh (dict_redis String) "r-1" logged_in ≡ ok (row_1, ann_row, 1000)
unfolding check_refresh user_of_row is_blacklisted blacklist_key find Dict.lookup
r_1-passes = refl

r_a-free : find token_id_of "r-a" logged_in.refresh_tokens ≡ none
unfolding find
r_a-free = refl

r_b-free : find token_id_of "r-b" logged_in.refresh_tokens ≡ none
unfolding find
r_b-free = refl

abbrev first_rotation : Result TokenResponse × Service
first_rotation =
    rotate_token demo_jwt (dict_redis String) keys settings "r-1" (row_1, ann_row, 1000) "r-a" "j-a"
      logged_in

abbrev second_rotation : Bool → Result TokenResponse × Service
second_rotation accepted =
    rotate_stale demo_jwt (dict_redis String) keys settings accepted "r-1" (row_1, ann_row, 1000)
      "r-b" "j-b" first_rotation.1

double_refresh_example :
    (is_ok first_rotation.0 ≡ true)
    × Fresh "r-a" (second_rotation true).1.refresh_tokens
    × (is_ok (second_rotation true).0 ≡ true)
    × (((true ≡ true) × Fresh "r-b" (second_rotation true).1.refresh_tokens)
        ⊎ ((true ≡ false)
            × ((second_rotation true).0 ≡ err unhandled)
            × ((second_rotation true).1.refresh_tokens ≡ first_rotation.1.refresh_tokens)))
double_refresh_example =
    double_refresh demo_jwt (dict_redis String) keys settings true "r-1" "r-a" "r-b" "j-a" "j-b"
      (row_1, ann_row, 1000) logged_in r_1-passes r_a-free r_b-free
      (ground (arith, eq_iff "r-a" "r-b"))

-- A small key pair; a file that is no key is `none`.
abbrev key_lib : KeyLib demo_jwt
key_lib = record {
  Pem = Option String;
  private_bytes = λ k. some k;
  public_bytes = λ k. some k;
  load_pem_private_key = λ p. p;
  load-private_bytes = λ k. refl;
  sha256_hex = λ p. "c775e7b757ede630cd0aa1113bd102661ab38829ca52a6422ab782862f268646";
  modulus = λ k. 3233;
  exponent = λ k. 65537;
}

jwk-read_example :
    (doc : Jwk) × (jwk demo_jwt key_lib keys ≡ some doc)
    × (doc.kid ≡ "a1b2")
    × (read_number doc.n ≡ some 3233)
    × (read_number doc.e ≡ some 65537)
jwk-read_example = jwk-read demo_jwt key_lib keys

-- The public file is lost.
abbrev half : Files demo_jwt key_lib
half = record { private_file = some (some "old key"); public_file = none }

key_material-Restarts_example :
    Restarts demo_jwt key_lib "key" ("other key" ∷ "third key" ∷ []) "last key" half
key_material-Restarts_example =
    key_material-Restarts demo_jwt key_lib "key" ("other key" ∷ "third key" ∷ []) "last key" half
