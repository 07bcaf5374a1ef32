-- ===== src/Shared/JwtDemo.antt =====
-- A token library that meets the interface of Jwt: a token spells its fields, with the key in the open.
use Prim.Native.Char.{Char, code}
use Prim.Native.String.{◌++◌ as append}
use text.Mathlib.TextLemmas.{nil-append, cons-append}
use ecommerce_services.Common.{
  ℕ, zero, suc, ◌≤◌, ◌<◌, String, ◌==◌, ◌&&◌, Option, none, some, ◌≡◌, refl, ap, Bool, ltb, leb,
  eqb, if◌then◌else◌, arith, eq_refl,
}
use ecommerce_services.Shared.Jwt.{Claims, Decoded, valid, jwt_error, Jwt}

abbrev mark : Char
mark = "'"

abbrev stop : Char
stop = "."

-- A text with a mark before each of its characters and a stop at its end.
abbrev quote : String → String
quote String.[] = String.◌∷◌ stop String.[]
quote (String.◌∷◌ c s) = String.◌∷◌ mark (String.◌∷◌ c (quote s))

-- The text up to the stop, and what follows.
abbrev with_char : Char → Option (String × String) → Option (String × String)
with_char c none = none
with_char c (some (s, rest)) = some (String.◌∷◌ c s, rest)

abbrev unquote : String → Option (String × String)
unquote String.[] = none
unquote (String.◌∷◌ m String.[]) = if eqb (code m) b'.' then some ("", "") else none
unquote (String.◌∷◌ m (String.◌∷◌ c s)) =
    let rest = unquote s in
    if eqb (code m) b'.' then some ("", String.◌∷◌ c s) else with_char c rest

abbrev tally : ℕ → String
tally zero = String.◌∷◌ stop String.[]
tally (suc n) = String.◌∷◌ mark (tally n)

abbrev one_more : Option (ℕ × String) → Option (ℕ × String)
one_more none = none
one_more (some (n, rest)) = some (suc n, rest)

abbrev untally : String → Option (ℕ × String)
untally String.[] = none
untally (String.◌∷◌ m s) =
    let rest = untally s in if eqb (code m) b'.' then some (0, s) else one_more rest

unquote-quote : (s rest : String) → unquote (append (quote s) rest) ≡ some (s, rest)
unquote-quote String.[] String.[] = refl
unquote-quote String.[] (String.◌∷◌ c r) = rw (cons-append, nil-append)
unquote-quote (String.◌∷◌ c s) rest = rw (cons-append, cons-append) (rw (unquote-quote s rest))

untally-tally : (n : ℕ) (rest : String) → untally (append (tally n) rest) ≡ some (n, rest)
untally-tally zero rest = rw (cons-append, nil-append)
untally-tally (suc n) rest = rw cons-append (rw (untally-tally n rest))

infixl 5 ◌>>=◌
abbrev ◌>>=◌ : {A B : Type 0} → Option A → (A → Option B) → Option B
none >>= f = none
some a >>= f = f a

abbrev Fields : Type 0
Fields = String × String × Claims

-- The `kid`, the key and the claims.
unfoldable pub fields : String → Option Fields
fields t = do
  (kid, t₁) ← unquote t
  (key, t₂) ← unquote t₁
  (sub, t₃) ← unquote t₂
  (email, t₄) ← unquote t₃
  (iss, t₅) ← unquote t₄
  (iat, t₆) ← untally t₅
  (exp, t₇) ← untally t₆
  (jti, t₈) ← unquote t₇
  some (kid, key, record { sub = sub; email = email; iss = iss; iat = iat; exp = exp; jti = jti })

abbrev token : Claims → String → String → String
token c key kid = append (quote kid) (
    append (quote key) (
      append (quote c.sub) (
        append (quote c.email) (
          append (quote c.iss)
            (append (tally c.iat) (append (tally c.exp) (append (quote c.jti) "")))))))

pub fields-token : (c : Claims) (key kid : String) → fields (token c key kid) ≡ some (kid, key, c)
unfolding fields
fields-token c key kid = simp (unquote-quote, untally-tally)

abbrev is_current : ℕ → String → String → String → Claims → Bool
is_current now key secret iss c = secret == key && c.iss == iss && leb c.iat now && ltb now c.exp

abbrev kid_of : Option Fields → Decoded (Option String)
kid_of none = jwt_error "Invalid header"
kid_of (some (kid, key, c)) = valid (some kid)

abbrev checked : ℕ → String → String → Option Fields → Decoded Claims
checked now key iss none = jwt_error "Not enough segments"
checked now key iss (some (kid, secret, c)) =
    if is_current now key secret iss c then valid c else jwt_error "Signature has expired"

pub decode-token :
    (c : Claims) (key kid : String) (now : ℕ)
    → c.iat ≤ now
    → now < c.exp
    → checked now key c.iss (fields (token c key kid)) ≡ valid c
decode-token c key kid now h k =
    rw (fields-token c key kid) (ground (arith, eq_refl key, eq_refl c.iss))

abbrev pub demo_jwt : Jwt
demo_jwt = record {
  PrivateKey = String;
  PublicKey = String;
  public_key = λ k. k;
  encode = token;
  header_kid = λ t. kid_of (fields t);
  decode = λ now t k iss. checked now k iss (fields t);
  header_kid-encode = λ c k kid. ap kid_of (fields-token c k kid);
  decode-encode = decode-token;
}
