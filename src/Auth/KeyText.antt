-- ===== src/Auth/KeyText.antt =====
-- The document that publishes the public key can be read back.
use mathlib.Core.Option
use native.Mathlib.Nat.{pow-suc, pow-zero, pow-le-pow_right}
use native.Mathlib.Numerals.{towards_suc}
use ecommerce_services.Common.{
  ℕ, zero, suc, ◌+◌, ◌*◌, ◌/◌, ◌%◌, ◌≤◌, ◌<◌, Option, none, some, List, [], ◌∷◌, ◌++◌, ◌≡◌, refl,
  ap, ◌∙◌, arith, All, All-append,
}
use Prim.Native.Nat.{◌^◌}
use Prim.Native.String.{slice}
use ecommerce_services.Shared.Jwt.{Jwt}
use ecommerce_services.Auth.Defs.{KeyMaterial}
use ecommerce_services.Auth.Keys.{
  KeyLib, Jwk, bits, bit_length, to_bytes, b64url, number_bytes, jwk, Files, key_material,
  read_files, read_keys, generate,
}
use ecommerce_services.Auth.Base64.{IsByte, b64url_decode, decode-b64url}

-- The number that bytes spell, the first the most significant.
abbrev pub value_of : ℕ → List ℕ → ℕ
value_of n [] = n
value_of n (b ∷ bs) = value_of (n * 256 + b) bs

lt-pow-bits : (fuel n : ℕ) → n ≤ fuel → n < 2 ^ bits fuel n
unfolding bits
lt-pow-bits zero n h = omega arith
lt-pow-bits (suc fuel) n h = ground (arith, lt-pow-bits fuel (n / 2), pow-suc 2 (bits fuel (n / 2)))

pow_256 : (q : ℕ) → 2 ^ (8 * q) ≡ 256 ^ q
pow_256 zero = refl
pow_256 (suc q) =
    ap (λ m. 2 ^ m) {x = 8 * suc q} {y = 8 * q + 8} (omega arith)
    ∙ (simp towards_suc (omega (arith, pow_256 q, pow-suc 256 q)))

-- As many bytes as the bits fill are enough.
lt-pow-bytes : (n : ℕ) → n < 256 ^ ((bit_length n + 7) / 8)
unfolding bit_length
lt-pow-bytes n =
    let q = (bits n n + 7) / 8 in
    omega (
      arith,
      lt-pow-bits n n (omega arith),
      pow_256 q,
      pow-le-pow_right {n = 2} (omega arith) {i = bits n n} {j = 8 * q} (omega arith),
    )

value_of-append :
    (m : ℕ) (bs : List ℕ) (b : ℕ) → value_of m (bs ++ b ∷ []) ≡ value_of m bs * 256 + b
value_of-append m [] b = refl
value_of-append m (a ∷ bs) b = value_of-append (m * 256 + a) bs b

-- Enough bytes spell the number.
to_bytes-value :
    (length n : ℕ)
    → n < 256 ^ length
    → (bs : List ℕ) × (to_bytes length n ≡ some bs) × (value_of 0 bs ≡ n) × All IsByte bs
unfolding to_bytes
to_bytes-value zero n h = ([], ground (arith, pow-zero 256), omega (arith, pow-zero 256), tt)
to_bytes-value (suc length) n h =
    let (front, made, spells, small) =
      to_bytes-value length (n / 256) (omega (arith, pow-suc 256 length)) in
    (
      front ++ (n % 256) ∷ [],
      rw made,
      value_of-append 0 front (n % 256) ∙ omega arith,
      All-append IsByte front ((n % 256) ∷ []) small (omega arith, tt),
    )

-- The number that a text of the document stands for.
unfoldable pub read_number : List ℕ → Option ℕ
read_number text = Option.map (value_of 0) (b64url_decode text)

number_bytes-read :
    (n : ℕ) → (bs : List ℕ) × (number_bytes n ≡ some bs) × (read_number (b64url bs) ≡ some n)
unfolding number_bytes read_number
number_bytes-read n =
    let (bs, made, spells, small) = to_bytes-value ((bit_length n + 7) / 8) n (lt-pow-bytes n) in
    (bs, made, rw (decode-b64url bs small) (ap (λ (m : ℕ). some m) spells))

module _ (J : Jwt) (L : KeyLib J) where
  -- The document is always made, it names the key pair by its `kid`, and who decodes its two texts as
  -- RFC 7518 says gets the numbers of the public key.
  pub jwk-read :
      (keys : KeyMaterial J)
      → (doc : Jwk) × (jwk J L keys ≡ some doc)
        × (doc.kid ≡ keys.kid)
        × (read_number doc.n ≡ some (L.modulus (J.public_key keys.private_key)))
        × (read_number doc.e ≡ some (L.exponent (J.public_key keys.private_key)))
  unfolding jwk
  jwk-read keys =
      let public_key = J.public_key keys.private_key in
      let (n, made_n, reads_n) = number_bytes-read (L.modulus public_key) in
      let (e, made_e, reads_e) = number_bytes-read (L.exponent public_key) in
      (
        record {
          kty = "RSA";
          key_use = "sig";
          alg = "RS256";
          kid = keys.kid;
          n = b64url n;
          e = b64url e;
        },
        rw (made_n, jwk, made_e),
        refl,
        reads_n,
        reads_e,
      )

  -- The material of a key, as `__init__` reads it from the files that `_generate` writes.
  abbrev pub material : J.PrivateKey → KeyMaterial J
  material key = record {
    private_key = key;
    kid = slice (L.sha256_hex (L.public_bytes (J.public_key key))) 0 16;
  }

  generated :
      (key : J.PrivateKey)
      → read_keys J L (L.private_bytes key) (L.public_bytes (J.public_key key))
        ≡ some (material key)
  unfolding read_keys
  generated key = rw (L.load-private_bytes key)

  -- Any number of starts, with what the library would draw at each.
  unfoldable pub restarted : List J.PrivateKey → Files J L → Files J L
  restarted [] files = files
  restarted (drawn ∷ draws) files = restarted draws (key_material J L drawn files).1

  -- By the files that the first start finds, what it makes of them.
  abbrev pub Found :
      J.PrivateKey → Option L.Pem → Option L.Pem → Option (KeyMaterial J) × Files J L → Type 0
  Found drawn (some p) (some q) (keys, files') =
      (keys
        ≡ Option.map
            (λ (key : J.PrivateKey). record {
              private_key = key;
              kid = slice (L.sha256_hex q) 0 16;
            })
            (L.load_pem_private_key p))
      × (files' ≡ record { private_file = some p; public_file = some q })
  Found drawn p q (keys, files') = keys ≡ some (material drawn)

  -- What a start of the service has made of the files, and what another start makes after any others.
  abbrev pub Restarts : J.PrivateKey → List J.PrivateKey → J.PrivateKey → Files J L → Type 0
  Restarts drawn draws drawn' files =
      let (keys, files') = key_material J L drawn files in
      Found drawn files.private_file files.public_file (keys, files')
      × (restarted draws files' ≡ files')
      × (key_material J L drawn' (restarted draws files') ≡ (keys, files'))

  -- A start finds what a start before it has left.
  key_material-again :
      (drawn drawn' : J.PrivateKey) (p q : Option L.Pem)
      → let (keys, files') =
          key_material J L drawn (record { private_file = p; public_file = q }) in
        key_material J L drawn' files' ≡ (keys, files')
  unfolding key_material generate
  key_material-again drawn drawn' (some p) (some q) = refl
  key_material-again drawn drawn' (some p) none = refl
  key_material-again drawn drawn' none q = refl

  restarted-same :
      (drawn : J.PrivateKey) (draws : List J.PrivateKey) (files : Files J L)
      → restarted draws (key_material J L drawn files).1 ≡ (key_material J L drawn files).1
  unfolding restarted
  restarted-same drawn [] files = refl
  restarted-same drawn (d ∷ draws) files =
      ap (λ (r : Option (KeyMaterial J) × Files J L). restarted draws r.1)
        (key_material-again drawn d files.private_file files.public_file)
      ∙ restarted-same drawn draws files

  key_material-Found :
      (drawn : J.PrivateKey) (p q : Option L.Pem)
      → Found drawn p q (key_material J L drawn (record { private_file = p; public_file = q }))
  unfolding key_material generate read_files read_keys
  key_material-Found drawn (some p) (some q) = (refl, refl)
  key_material-Found drawn (some p) none = generated drawn
  key_material-Found drawn none (some q) = generated drawn
  key_material-Found drawn none none = generated drawn

  -- A start of the service: if both files are there, they stay as they are, and the pair is the one that
  -- the private file loads as, with a `kid` from the digest of the public file; a private file that does
  -- not load makes the start raise. If one of them is missing, the pair is the one drawn, with a `kid`
  -- from the digest of its public key, and is written so that it loads. Any number of starts after that
  -- leave the files as they are, and each finds the same pair with the same `kid`, or raises as the first
  -- did, whatever is drawn then.
  pub key_material-Restarts :
      (drawn : J.PrivateKey) (draws : List J.PrivateKey) (drawn' : J.PrivateKey) (files : Files J L)
      → Restarts drawn draws drawn' files
  key_material-Restarts drawn draws drawn' files =
      let same = restarted-same drawn draws files in
      (
        key_material-Found drawn files.private_file files.public_file,
        same,
        ap (key_material J L drawn') same
            ∙ key_material-again drawn drawn' files.private_file files.public_file,
      )
