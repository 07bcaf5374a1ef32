-- ===== src/Auth/Keys.antt =====
-- app/keys.py of services/auth-service: the key pair in its two files, and the document that publishes
-- the public key. Bytes are numbers below 256, and ASCII text is the list of its codes.
use Prim.Native.String.{slice}
use mathlib.Core.Option
use ecommerce_services.Common.{
  ℕ, zero, suc, ◌+◌, ◌-◌, ◌*◌, ◌/◌, ◌%◌, String, ◌&&◌, Option, none, some, List, [], ◌∷◌, ◌++◌, eqb,
  ltb, if◌then◌else◌, ◌≡◌,
}
use ecommerce_services.Common.Redis.{is_some}
use ecommerce_services.Shared.Jwt.{Jwt}
use ecommerce_services.Auth.Defs.{KeyMaterial}

-- What keys.py uses of the libraries cryptography and hashlib, which are no code of this repository.
pub record KeyLib (J : Jwt) : Type 1 where
  pub Pem : Type 0
  pub private_bytes : J.PrivateKey → Pem
  pub public_bytes : J.PublicKey → Pem
  -- `none` is ValueError, of a file that is not such a key.
  pub load_pem_private_key : Pem → Option J.PrivateKey
  pub load-private_bytes : (k : J.PrivateKey) → load_pem_private_key (private_bytes k) ≡ some k
  -- `hashlib.sha256(pem).hexdigest()`
  pub sha256_hex : Pem → String
  -- `public_numbers()`
  pub modulus : J.PublicKey → ℕ
  pub exponent : J.PublicKey → ℕ

-- `int.bit_length`; a number has no more bits than its value.
unfoldable pub bits : ℕ → ℕ → ℕ
bits zero n = 0
bits (suc fuel) n = let more = bits fuel (n / 2) in if eqb n 0 then 0 else suc more

unfoldable pub bit_length : ℕ → ℕ
unfolding bits
bit_length n = bits n n

-- `int.to_bytes(length, "big")`; `none` is OverflowError.
unfoldable pub to_bytes : ℕ → ℕ → Option (List ℕ)
to_bytes zero n = if eqb n 0 then some [] else none
to_bytes (suc length) n = Option.map (λ front. front ++ (n % 256) ∷ []) (to_bytes length (n / 256))

-- The alphabet of base64url.
unfoldable pub sextet_code : ℕ → ℕ
sextet_code v =
    if ltb v 26
    then v + b'A'
    else if ltb v 52
    then v + 71
    else if ltb v 62
    then v - 4
    else if eqb v 62
    then b'-'
    else b'_'

-- `base64.urlsafe_b64encode`
unfoldable pub urlsafe_b64encode : List ℕ → List ℕ
unfolding sextet_code
urlsafe_b64encode [] = []
urlsafe_b64encode (a ∷ []) = sextet_code (a / 4) ∷ sextet_code (a % 4 * 16) ∷ b'=' ∷ b'=' ∷ []
urlsafe_b64encode (a ∷ b ∷ []) =
    sextet_code (a / 4) ∷ sextet_code (a % 4 * 16 + b / 16) ∷ sextet_code (b % 16 * 4) ∷ b'=' ∷ []
urlsafe_b64encode (a ∷ b ∷ c ∷ bs) =
    sextet_code (a / 4)
    ∷ sextet_code (a % 4 * 16 + b / 16)
    ∷ sextet_code (b % 16 * 4 + c / 64)
    ∷ sextet_code (c % 64)
    ∷ urlsafe_b64encode bs

-- `rstrip(b"=")`
abbrev pub rstrip_cons : ℕ → List ℕ → List ℕ
rstrip_cons c [] = if eqb c b'=' then [] else c ∷ []
rstrip_cons c (d ∷ ds) = c ∷ d ∷ ds

unfoldable pub rstrip : List ℕ → List ℕ
rstrip [] = []
rstrip (c ∷ cs) = rstrip_cons c (rstrip cs)

-- `_b64url`
unfoldable pub b64url : List ℕ → List ℕ
unfolding urlsafe_b64encode rstrip
b64url bytes = rstrip (urlsafe_b64encode bytes)

-- The bytes of a number in `KeyMaterial.jwks`.
unfoldable pub number_bytes : ℕ → Option (List ℕ)
unfolding bit_length to_bytes
number_bytes n = to_bytes ((bit_length n + 7) / 8) n

-- The entry of the document that `jwks` returns.
pub record Jwk : Type 0 where
  pub kty : String
  pub key_use : String
  pub alg : String
  pub kid : String
  pub n : List ℕ
  pub e : List ℕ

module _ (J : Jwt) (L : KeyLib J) where
  -- The two files of the keys' directory.
  pub record Files : Type 0 where
    pub private_file : Option L.Pem
    pub public_file : Option L.Pem

  -- `_generate`, with the key that the library draws.
  unfoldable pub generate : J.PrivateKey → Files → Files
  generate drawn files = record {
    private_file = some (L.private_bytes drawn);
    public_file = some (L.public_bytes (J.public_key drawn));
  }

  -- `KeyMaterial.__init__` once both files are there; `none` where it raises.
  unfoldable pub read_keys : L.Pem → L.Pem → Option (KeyMaterial J)
  read_keys private_pem public_pem =
      Option.map
        (λ (key : J.PrivateKey). record {
          private_key = key;
          kid = slice (L.sha256_hex public_pem) 0 16;
        })
        (L.load_pem_private_key private_pem)

  unfoldable pub read_files : Option L.Pem → Option L.Pem → Option (KeyMaterial J)
  unfolding read_keys
  read_files (some private_pem) (some public_pem) = read_keys private_pem public_pem
  read_files _ _ = none

  -- `KeyMaterial.__init__`: the material, or `none` where it raises, and the files that it leaves.
  unfoldable pub key_material : J.PrivateKey → Files → Option (KeyMaterial J) × Files
  unfolding generate read_files
  key_material drawn files =
      let files' =
        if is_some files.private_file && is_some files.public_file
        then files
        else generate drawn files in
      (read_files files'.private_file files'.public_file, files')

  -- `KeyMaterial.jwks`
  unfoldable pub jwk : KeyMaterial J → Option Jwk
  unfolding number_bytes b64url
  jwk keys =
      let public_key = J.public_key keys.private_key in
      elim (number_bytes (L.modulus public_key)) [
        | none ↦ none
        | some n ↦ elim (number_bytes (L.exponent public_key)) [
          | none ↦ none
          | some e ↦ some (record {
            kty = "RSA";
            key_use = "sig";
            alg = "RS256";
            kid = keys.kid;
            n = b64url n;
            e = b64url e;
          })
        ]
      ]
