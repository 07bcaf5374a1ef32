-- ===== src/Shared/Errors.antt =====
-- shared/gestalt_shared/errors.py: the application error, its envelope, and handlers that raise.
use ecommerce_services.Common.{ℕ, String, Bool, true, false, ◌≡◌, refl, ◌⊎◌, inl, inr}

-- `AppError`: raised anywhere in a service.
pub record AppError : Type 0 where
  pub code : String
  pub message : String
  pub status_code : ℕ

abbrev pub app_error : String → String → ℕ → AppError
app_error c m n = record { code = c; message = m; status_code = n }

-- A computation that returns or raises.
pub data Result {ℓ} (A : Type ℓ) : Type ℓ where
  ok : A → Result A
  err : AppError → Result A

-- The JSON error body, `_envelope`.
pub record Envelope : Type 0 where
  pub code : String
  pub message : String
  pub request_id : String

pub data Body (A : Type 0) : Type 0 where
  content : A → Body A
  error : Envelope → Body A

pub record Response (A : Type 0) : Type 0 where
  pub status_code : ℕ
  pub body : Body A

abbrev pub envelope : String → String → String → Envelope
envelope c m r = record { code = c; message = m; request_id = r }

-- The response of an endpoint: its value with the route's status, or `app_error_handler`'s answer.
unfoldable pub respond : {A : Type 0} → String → ℕ → Result A → Response A
respond request_id status (ok a) = record { status_code = status; body = content a }
respond request_id status (err e) = record {
  status_code = e.status_code;
  body = error (envelope e.code e.message request_id);
}

-- A handler over a state `S`: what was written before a raise stays written.
abbrev pub Action : Type 0 → Type 0 → Type 0
Action S A = S → Result A × S

module _ {S A : Type 0} where
  abbrev pub pure : A → Action S A
  pure a s = (ok a, s)

  abbrev pub raise : AppError → Action S A
  raise e s = (err e, s)

  abbrev pub lift : Result A → Action S A
  lift r s = (r, s)

module _ {S A B : Type 0} where
  abbrev pub continue : Result A → (A → Action S B) → Action S B
  continue (ok a) f s = f a s
  continue (err e) f s = (err e, s)

  infixl 5 ◌>>=◌ ◌>>◌
  abbrev pub ◌>>=◌ : Action S A → (A → Action S B) → Action S B
  ◌>>=◌ m f s = let (r, s') = m s in continue r f s'

  abbrev pub ◌>>◌ : Action S A → Action S B → Action S B
  m >> k = m >>= λ _. k

abbrev pub raise_if : {S : Type 0} → Bool → AppError → Action S (Unit {0})
raise_if c e s = (elim c [ true ↦ err e | false ↦ ok tt ], s)

pub Result-cases :
    {A : Type 0} (r : Result A) → ((a : A) × (r ≡ ok a)) ⊎ ((e : AppError) × (r ≡ err e))
Result-cases (ok a) = inl (a, refl)
Result-cases (err e) = inr (e, refl)
