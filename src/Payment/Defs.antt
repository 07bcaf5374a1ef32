-- ===== src/Payment/Defs.antt =====
-- app/schemas.py and app/config.py of services/payment-service, and what its Redis stores.
use Prim.Native.String.{◌++◌ as append}
use text.Mathlib.TextLemmas.{append_cancel_left}
use ecommerce_services.Common.{
  ℕ, String, Bool, List, ◌≡◌, ◌==◌, inl, inr, Text-cases, ==-ne, eq_refl,
}
use ecommerce_services.Common.Redis.{Redis}

pub record ChargeRequest : Type 0 where
  pub order_id : String
  pub amount : ℕ
  pub currency : String
  pub idempotency_key : String

pub record ChargeResponse : Type 0 where
  pub order_id : String
  pub amount : ℕ
  pub currency : String
  pub idempotency_key : String
  pub status : String
  pub charged_at : ℕ

-- The dicts that are stored as JSON under a key: the claim, and the two results of
-- `_process_charge`.
pub data Stored : Type 0 where
  in_progress : Stored
  success : String → ℕ → String → ℕ → Stored
  declined : String → String → Stored

-- `Settings`, as far as the handlers read it; the draws of `random` are inputs of the steps.
pub record Settings : Type 0 where
  pub idempotency_ttl_seconds : ℕ
  pub unsafe_idempotency_mode : Bool
  pub internal_service_token : String

module _ (R : Redis Stored) where
  -- What all requests share: Redis, the clock, the two counters, and the keys for which
  -- `_process_charge` has run, newest first.
  pub record Service : Type 0 where
    pub store : R.Store
    pub now : ℕ
    pub failures_total : ℕ
    pub replays_total : ℕ
    pub processed : List String

-- `_key`
unfoldable pub redis_key : String → String
redis_key idempotency_key = append "idempotency:" idempotency_key

pub redis_key-eq : (i j : String) → (redis_key i == redis_key j) ≡ (i == j)
unfolding redis_key
redis_key-eq i j = elim (Text-cases i j) [
  | inl (e, t) ↦ rw (e, eq_refl (append "idempotency:" j), eq_refl j)
  | inr (ne, t) ↦
      rw t (==-ne (redis_key i) (redis_key j) (λ e. ne (append_cancel_left "idempotency:" i j e)))
]
