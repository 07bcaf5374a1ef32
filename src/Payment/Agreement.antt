-- ===== src/Payment/Agreement.antt =====
-- In safe mode all requests with one key are answered alike.
use ecommerce_services.Common.{
  ℕ, ◌+◌, ◌≤◌, ◌<◌, String, Bool, false, some, ◌≡◌, refl, sym, ap, subst, ◌∙◌, ◌⊎◌, inl, inr, arith,
  eqb, Bool-cases, Text-cases,
}
use ecommerce_services.Common.Redis.{Redis}
use ecommerce_services.Shared.{Result, err}
use ecommerce_services.Payment.Defs.{
  ChargeRequest, ChargeResponse, Stored, in_progress, success, declined, Settings, Service,
  redis_key,
}
use ecommerce_services.Payment.Charge.{arrived, answered, respond, charge_in_progress, get_result}
use ecommerce_services.Payment.Concurrent.{
  System, turn, later, go, tick, Reach, here, next, initial,
}
use ecommerce_services.Payment.AtMostOnce.{advance-now}
use ecommerce_services.Payment.Settling.{ours-step, others-step}
use ecommerce_services.Payment.Stages.{IsResult, IsAtRest, IsBusy, InStage}

module _ (R : Redis Stored) (settings : Settings)
    (safe : settings.unsafe_idempotency_mode ≡ false) where
  module _ (k : String) (body : ℕ → ChargeRequest) (limit : ℕ) where
    abbrev Stage : System R → Type 0
    Stage = InStage R settings safe k body limit

    turn-Stage :
        (i : ℕ) (declines : Bool) (s : System R)
        → s.service.now < limit
        → limit ≤ s.service.now + settings.idempotency_ttl_seconds
        → Stage s
        → Stage (turn R settings body i declines s)
    unfolding turn
    turn-Stage i declines s below reach stage = elim (Text-cases (body i).idempotency_key k) [
      | inl (ours, t) ↦ ours-step R settings safe k body limit i declines s ours below reach stage
      | inr (ne, t) ↦ others-step R settings safe k body limit i declines s t stage
    ]

    later-Stage : (d : ℕ) (s : System R) → Stage s → Stage (later R settings body d s)
    later-Stage d s (inl un) = inl (record { unset = un.unset; all_arrived = un.all_arrived })
    later-Stage d s (inr (inl (h, held))) = inr (
        inl (
          h,
          record { ours = held.ours; reads = held.reads; busy = held.busy; others = held.others },
        ))
    later-Stage d s (inr (inr (c, settled))) =
        inr (inr (c, record { result = settled.result; reads = settled.reads; all = settled.all }))

    -- While the limit has not passed, the key is in one of its stages.
    Reach-Stage :
        (start : ℕ)
        → limit ≡ start + settings.idempotency_ttl_seconds
        → {s : System R} → Reach R settings body (initial R settings body start) s
        → s.service.now < limit
        → Stage s × (start ≤ s.service.now)
    Reach-Stage start e here below = (
      inl (record { unset = λ n. R.get-empty n (redis_key k); all_arrived = λ j ours. refl }),
      omega arith,
    )
    Reach-Stage start e (next r (go i declines s)) below =
        let same : (turn R settings body i declines s).service.now ≡ s.service.now =
          unfold turn in
          advance-now R settings safe k body limit declines (body i) (s.phase i) s.service in
        let before : s.service.now < limit = omega (arith, same) in
        let (stage, since) = Reach-Stage start e r before in
        (turn-Stage i declines s before (omega arith) stage, omega (arith, same))
    Reach-Stage start e (next r (tick d s)) below =
        let before : s.service.now < limit = omega arith in
        let (stage, since) = Reach-Stage start e r before in (later-Stage d s stage, omega arith)

    get_result-settled :
        (c : Stored) (v : Service R)
        → IsResult c
        → R.get v.now (redis_key k) v.store ≡ some c
        → get_result R settings k v ≡ respond k c
    unfolding get_result
    get_result-settled in_progress v never e = absurd never
    get_result-settled (success o a cu t) v result e = rw (e, get_result)
    get_result-settled (declined co m) v result e = rw (e, get_result)

    answer-Stage :
        (i : ℕ) (r : Result ChargeResponse) (s : System R)
        → Stage s
        → (body i).idempotency_key ≡ k
        → s.service.now < limit
        → s.phase i ≡ answered r
        → (r ≡ err charge_in_progress) ⊎ (get_result R settings k s.service ≡ r)
    answer-Stage i r s (inl un) ours below e =
        let clash : arrived ≡ answered r = sym (un.all_arrived i ours) ∙ e in absurd (cc)
    answer-Stage i r s (inr (inl (h, held))) ours below e = elim (Bool-cases (eqb h i)) [
      | inl same ↦
          let h≡i : h ≡ i = ground arith in absurd (subst IsBusy (ap s.phase h≡i ∙ e) held.busy)
      | inr ne ↦ elim (subst (IsAtRest k in_progress) e (held.others i ours ne)) [
        | inl late ↦ inl late
        | inr (never, x) ↦ absurd never
      ]
    ]
    answer-Stage i r s (inr (inr (c, settled))) ours below e =
        elim (subst (IsAtRest k c) e (settled.all i ours)) [
          | inl late ↦ inl late
          | inr (result, x) ↦ inr (
              get_result-settled c s.service settled.result (settled.reads s.service.now below)
              ∙ sym x)
        ]

-- In safe mode, in every state that charge requests and the clock reach in any order from an empty
-- store, until the time to live has passed since the start: the answer that a charge request has got is
-- CHARGE_IN_PROGRESS, or it is what get_result answers for its key in that state.
pub one_answer :
    (R : Redis Stored) (settings : Settings) (body : ℕ → ChargeRequest) (start i : ℕ)
    (r : Result ChargeResponse) {s : System R}
    → settings.unsafe_idempotency_mode ≡ false
    → Reach R settings body (initial R settings body start) s
    → s.service.now < start + settings.idempotency_ttl_seconds
    → s.phase i ≡ answered r
    → (r ≡ err charge_in_progress) ⊎ (get_result R settings (body i).idempotency_key s.service ≡ r)
one_answer R settings body start i r {s} safe reached below e =
    let k = (body i).idempotency_key in
    let limit = start + settings.idempotency_ttl_seconds in
    answer-Stage R settings safe k body limit i r s
      (Reach-Stage R settings safe k body limit start refl reached below).0 refl below e
