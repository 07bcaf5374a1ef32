-- ===== src/Auth/Base64.antt =====
-- What `_b64url` of app/keys.py writes is read back as RFC 4648 says.
use ecommerce_services.Common.{
  ℕ, ◌+◌, ◌-◌, ◌*◌, ◌/◌, ◌%◌, ◌<◌, false, ◌&&◌, Option, none, some, List, [], ◌∷◌, eqb, leb,
  if◌then◌else◌, ◌≡◌, refl, ap, arith, All,
}
use mathlib.Core.Path.{ap₂}
use ecommerce_services.Auth.Keys.{sextet_code, urlsafe_b64encode, rstrip, rstrip_cons, b64url}

-- The meaning of a character of base64url.
abbrev pub sextet_of : ℕ → Option ℕ
sextet_of c =
    if leb b'A' c && leb c b'Z'
    then some (c - 65)
    else if leb b'a' c && leb c b'z'
    then some (c - 71)
    else if leb b'0' c && leb c b'9'
    then some (c + 4)
    else if eqb c b'-'
    then some 62
    else if eqb c b'_'
    then some 63
    else none

infixl 5 ◌>>=◌
abbrev pub ◌>>=◌ : {A B : Type 0} → Option A → (A → Option B) → Option B
none >>= f = none
some a >>= f = f a

-- Base64url without padding, read as RFC 4648 says.
unfoldable pub b64url_decode : List ℕ → Option (List ℕ)
b64url_decode [] = some []
b64url_decode (p ∷ []) = none
b64url_decode (p ∷ q ∷ []) = do x ← sextet_of p; y ← sextet_of q; some ((x * 4 + y / 16) ∷ [])
b64url_decode (p ∷ q ∷ r ∷ []) = do
  x ← sextet_of p
  y ← sextet_of q
  z ← sextet_of r
  some ((x * 4 + y / 16) ∷ (y % 16 * 16 + z / 4) ∷ [])
b64url_decode (p ∷ q ∷ r ∷ s ∷ text) = do
  x ← sextet_of p
  y ← sextet_of q
  z ← sextet_of r
  w ← sextet_of s
  bytes ← b64url_decode text
  some ((x * 4 + y / 16) ∷ (y % 16 * 16 + z / 4) ∷ (z % 4 * 64 + w) ∷ bytes)

sextet_of-sextet_code : (v : ℕ) → v < 64 → sextet_of (sextet_code v) ≡ some v
unfolding sextet_code
sextet_of-sextet_code v h = ground arith

sextet_code-ne : (v : ℕ) → v < 64 → eqb (sextet_code v) b'=' ≡ false
unfolding sextet_code
sextet_code-ne v h = ground arith

rstrip_cons-ne : (c : ℕ) (cs : List ℕ) → eqb c b'=' ≡ false → rstrip_cons c cs ≡ c ∷ cs
rstrip_cons-ne c [] h = rw h
rstrip_cons-ne c (d ∷ ds) h = refl

-- A character that is written stays at the end of a text.
kept : (v : ℕ) (cs : List ℕ) → v < 64 → rstrip_cons (sextet_code v) cs ≡ sextet_code v ∷ cs
kept v cs h = rstrip_cons-ne (sextet_code v) cs (sextet_code-ne v h)

abbrev pub IsByte : ℕ → Type 0
IsByte b = b < 256

-- Bytes that are written are read back.
pub decode-b64url : (bytes : List ℕ) → All IsByte bytes → b64url_decode (b64url bytes) ≡ some bytes
unfolding b64url_decode b64url
decode-b64url [] h = refl
decode-b64url (a ∷ []) h =
    let x = a / 4 in
    let y = a % 4 * 16 in
    let hx : x < 64 = omega arith in
    let hy : y < 64 = omega arith in
    rw (kept y [] hy, sextet_of-sextet_code x hx, sextet_of-sextet_code y hy)
      (ap (λ (v : ℕ). some (v ∷ [])) (omega arith))
decode-b64url (a ∷ b ∷ []) h =
    let x = a / 4 in
    let y = a % 4 * 16 + b / 16 in
    let z = b % 16 * 4 in
    let hx : x < 64 = omega arith in
    let hy : y < 64 = omega arith in
    let hz : z < 64 = omega arith in
    rw
      (
        kept z [] hz,
        sextet_of-sextet_code x hx,
        sextet_of-sextet_code y hy,
        sextet_of-sextet_code z hz,
      )
      (ap₂ (λ (v w : ℕ). some (v ∷ w ∷ [])) (omega arith) (omega arith))
decode-b64url (a ∷ b ∷ c ∷ bs) h =
    let x = a / 4 in
    let y = a % 4 * 16 + b / 16 in
    let z = b % 16 * 4 + c / 64 in
    let w = c % 64 in
    let hx : x < 64 = omega arith in
    let hy : y < 64 = omega arith in
    let hz : z < 64 = omega arith in
    let hw : w < 64 = omega arith in
    let rest = rstrip (urlsafe_b64encode bs) in
    rw
      (
        kept w rest hw,
        sextet_of-sextet_code x hx,
        sextet_of-sextet_code y hy,
        sextet_of-sextet_code z hz,
        sextet_of-sextet_code w hw,
        decode-b64url bs h.1.1.1,
      )
      (ground arith)
