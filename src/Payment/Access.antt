-- ===== src/Payment/Access.antt =====
-- What one step of a charge request writes, in safe mode, under its own key and under others.
use ecommerce_services.Common.{
  ℕ, zero, suc, String, Bool, true, false, Option, none, some, ◌≡◌, refl, ap, inl, inr, arith, ◌==◌,
  if◌then◌else◌, Bool-cases,
}
use ecommerce_services.Common.Redis.{Redis, is_some}
use ecommerce_services.Payment.Defs.{
  ChargeRequest, Stored, in_progress, success, declined, Settings, Service, redis_key, redis_key-eq,
}
use ecommerce_services.Payment.Charge.{
  Phase, arrived, processing, storing, waiting, answered, advance, peek, claim, poll, attempts,
}
use ecommerce_services.Payment.Concurrent.{times}

module _ (R : Redis Stored) (settings : Settings)
    (safe : settings.unsafe_idempotency_mode ≡ false) where
  -- The claim, by what Redis holds.
  pub claim-taken :
      (b : ChargeRequest) (s : Service R)
      → is_some (R.get s.now (redis_key b.idempotency_key) s.store) ≡ true
      → claim R settings b s ≡ (waiting attempts, s)
  unfolding claim
  claim-taken b s e = rw (R.set_nx-eq, e)

  abbrev pub claimed : ChargeRequest → Service R → Service R
  claimed b s = record s {
    store =
        R.set_ex s.now (redis_key b.idempotency_key) in_progress settings.idempotency_ttl_seconds
          s.store;
  }

  pub claim-free :
      (b : ChargeRequest) (s : Service R)
      → is_some (R.get s.now (redis_key b.idempotency_key) s.store) ≡ false
      → claim R settings b s ≡ (processing, claimed b s)
  unfolding claim
  claim-free b s e = rw (R.set_nx-eq, e)

  pub advance-arrived :
      (declines : Bool) (b : ChargeRequest) (s : Service R)
      → advance R settings declines b arrived s ≡ claim R settings b s
  unfolding advance
  advance-arrived declines b s =
      ap (λ u. if u then peek R settings b s else claim R settings b s) safe

  pub poll-service :
      (n : ℕ) (b : ChargeRequest) (o : Option Stored) (s : Service R)
      → ((poll R settings n b o s).1.store ≡ s.store)
        × ((poll R settings n b o s).1.processed ≡ s.processed)
  unfolding poll
  poll-service n b none s = (refl, refl)
  poll-service n b (some in_progress) s = (refl, refl)
  poll-service n b (some (success o a c t)) s = (refl, refl)
  poll-service n b (some (declined c m)) s = (refl, refl)

  module _ (k : String) where
    abbrev pub read : ℕ → Service R → Option Stored
    read n s = R.get n (redis_key k) s.store

    set_ex-other :
        (b : ChargeRequest) (v : Stored) (n t ttl : ℕ) (s : R.Store)
        → (b.idempotency_key == k) ≡ false
        → R.get n (redis_key k) (R.set_ex t (redis_key b.idempotency_key) v ttl s)
          ≡ R.get n (redis_key k) s
    set_ex-other b v n t ttl s e = rw (R.get-set_ex, redis_key-eq, e)

    arrived-other :
        (declines : Bool) (b : ChargeRequest) (s : Service R)
        → (b.idempotency_key == k) ≡ false
        → let s' = (advance R settings declines b arrived s).1 in
          ((n : ℕ) → read n s' ≡ read n s) × (times k s'.processed ≡ times k s.processed)
    arrived-other declines b s e =
        elim (Bool-cases (is_some (R.get s.now (redis_key b.idempotency_key) s.store))) [
          | inl taken ↦ rw (advance-arrived declines b s, claim-taken b s taken) (λ n. refl, refl)
          | inr free ↦
              rw (advance-arrived declines b s, claim-free b s free)
                (
                  λ n.
                      set_ex-other b in_progress n s.now settings.idempotency_ttl_seconds s.store e,
                  refl,
                )
        ]

    -- A step of a request with another key changes nothing for the key.
    pub advance-other :
        (declines : Bool) (b : ChargeRequest) (p : Phase) (s : Service R)
        → (b.idempotency_key == k) ≡ false
        → let s' = (advance R settings declines b p s).1 in
          ((n : ℕ) → read n s' ≡ read n s) × (times k s'.processed ≡ times k s.processed)
    unfolding advance times
    advance-other declines b arrived s e = arrived-other declines b s e
    advance-other true b processing s e = (λ n. refl, rw e (omega arith))
    advance-other false b processing s e = (λ n. refl, rw e (omega arith))
    advance-other declines b (storing v) s e =
        (λ n. set_ex-other b v n s.now settings.idempotency_ttl_seconds s.store e, refl)
    advance-other declines b (waiting zero) s e = (λ n. refl, refl)
    advance-other declines b (waiting (suc m)) s e =
        let o = R.get s.now (redis_key b.idempotency_key) s.store in
        let (stores, keys) = poll-service m b o s in
        (λ n. ap (λ st. R.get n (redis_key k) st) stores, ap (times k) keys)
    advance-other declines b (answered r) s e = (λ n. refl, refl)
