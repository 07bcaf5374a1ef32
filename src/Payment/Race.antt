-- ===== src/Payment/Race.antt =====
-- The race that UNSAFE_IDEMPOTENCY_MODE reintroduces on purpose.
use ecommerce_services.Common.{
  ℕ, String, true, false, none, [], ◌∷◌, ◌≡◌, ◌≢◌, refl, ap, ◌∙◌, arith, eqb, if◌then◌else◌,
  eq_refl,
}
use ecommerce_services.Common.Redis.{Redis}
use ecommerce_services.Payment.Defs.{ChargeRequest, Stored, Settings, Service, redis_key}
use ecommerce_services.Payment.Charge.{Phase, arrived, processing, advance, peek, claim}
use ecommerce_services.Payment.Concurrent.{
  times, System, moved, turn, go, Reach, here, next, initial,
}

module _ (R : Redis Stored) (settings : Settings) (body : ℕ → ChargeRequest)
    (risky : settings.unsafe_idempotency_mode ≡ true) where
  -- A first access that finds nothing lets the request process.
  peek_miss :
      (b : ChargeRequest) (v : Service R)
      → R.get v.now (redis_key b.idempotency_key) v.store ≡ none
      → advance R settings false b arrived v ≡ (processing, v)
  unfolding advance
  peek_miss b v miss =
      ap (λ u. if u then peek R settings b v else claim R settings b v) risky
      ∙ (unfold peek in rw (miss, peek))

  turn-at :
      (i : ℕ) (p : Phase) (s : System R)
      → s.phase i ≡ p
      → turn R settings body i false s ≡ record {
        service = (advance R settings false (body i) p s.service).1;
        phase = moved R s.phase i (advance R settings false (body i) p s.service).0;
      }
  unfolding turn
  turn-at i p s e = rw e

  abbrev stepped : System R → ℕ → Phase × Service R → System R
  stepped s i (p, v) = record { service = v; phase = moved R s.phase i p }

  abbrev go_on : ℕ → System R → System R
  go_on i s = turn R settings body i false s

  -- Both requests look before either has stored its result.
  abbrev raced : ℕ → ℕ → ℕ → System R
  raced start i j = go_on j (go_on i (go_on j (go_on i (initial R settings body start))))

  raced-Reach :
      (start i j : ℕ) → Reach R settings body (initial R settings body start) (raced start i j)
  raced-Reach start i j = next (next (next (next here (go _ _ _)) (go _ _ _)) (go _ _ _)) (go _ _ _)

  abbrev both : ℕ → ℕ → ℕ → System R
  both start i j = record {
    service = (initial R settings body start).service;
    phase = moved R (moved R (λ _. arrived) i processing) j processing;
  }

  peeked :
      (i : ℕ) (s : System R)
      → s.phase i ≡ arrived
      → R.get s.service.now (redis_key (body i).idempotency_key) s.service.store ≡ none
      → go_on i s ≡ record { service = s.service; phase = moved R s.phase i processing }
  peeked i s e miss =
      turn-at i arrived s e
      ∙ ap (λ (x : Phase × Service R). stepped s i x) (peek_miss (body i) s.service miss)

  looked :
      (start i j : ℕ)
      → eqb i j ≡ false
      → go_on j (go_on i (initial R settings body start)) ≡ both start i j
  looked start i j ne =
      let s = initial R settings body start in
      let first = peeked i s refl (R.get-empty start (redis_key (body i).idempotency_key)) in
      rw first (
        peeked j (record { service = s.service; phase = moved R s.phase i processing }) (rw ne)
          (R.get-empty start (redis_key (body j).idempotency_key)))

  charged :
      (i : ℕ) (s : System R)
      → s.phase i ≡ processing
      → (go_on i s).service.processed ≡ (body i).idempotency_key ∷ s.service.processed
  charged i s e = rw (turn-at i processing s e) (unfold advance in refl)

  untouched : (i j : ℕ) (s : System R) → eqb i j ≡ false → (go_on i s).phase j ≡ s.phase j
  unfolding turn
  untouched i j s ne = rw ne

  raced-processed :
      (start i j : ℕ)
      → eqb i j ≡ false
      → (raced start i j).service.processed
        ≡ (body j).idempotency_key ∷ (body i).idempotency_key ∷ []
  raced-processed start i j ne =
      let s = both start i j in
      let ready_i : s.phase i ≡ processing = ground arith in
      let ready_j : (go_on i s).phase j ≡ processing = untouched i j s ne ∙ ground arith in
      rw (looked start i j ne) (
        charged j (go_on i s) ready_j
        ∙ ap (λ keys. (body j).idempotency_key ∷ keys) (charged i s ready_i))

-- In unsafe mode any two requests with one key can be processed both.
pub unsafe_double_charge :
    (R : Redis Stored) (settings : Settings) (body : ℕ → ChargeRequest) (start i j : ℕ) (k : String)
    → settings.unsafe_idempotency_mode ≡ true
    → i ≢ j
    → (body i).idempotency_key ≡ k
    → (body j).idempotency_key ≡ k
    → (s : System R) × Reach R settings body (initial R settings body start) s
      × (times k s.service.processed ≡ 2)
unfolding times
unsafe_double_charge R settings body start i j k risky ne ours_i ours_j = (
  raced R settings body risky start i j,
  raced-Reach R settings body risky start i j,
  rw (raced-processed R settings body risky start i j (ground arith), ours_i, ours_j, eq_refl k),
)
