-- ===== src/Payment/Alone.antt =====
-- A charge for a new key, in safe mode, that no other request comes between.
use ecommerce_services.Common.{
  ℕ, zero, suc, ◌+◌, ◌<◌, String, Bool, true, false, none, some, ◌∷◌, ◌≡◌, ◌≢◌, ◌⊎◌, refl, sym, ap,
  subst, ◌∙◌, inl, inr, arith, ltb, Bool-cases, eq_refl, ==-ne, lt→ltb,
}
use ecommerce_services.Common.Dict.{contains}
use ecommerce_services.Common.Redis.{Redis, is_some}
use ecommerce_services.Shared
use ecommerce_services.Shared.{AppError, app_error, Result, ok, err, Response}
use ecommerce_services.Shared.InternalAuth.{require_internal_caller}
use ecommerce_services.Payment.Defs.{
  ChargeRequest, ChargeResponse, Stored, success, declined, Settings, Service, redis_key,
}
use ecommerce_services.Payment.Charge.{
  Phase, arrived, processing, answered, advance, process_charge, store_result, respond, get_result,
}
use ecommerce_services.Payment.Endpoint.{
  invalid_amount, answer_of, advance_all, charge_alone, post_charge,
}
use ecommerce_services.Payment.Access.{claim-free, claimed, advance-arrived}

-- What a buyer gets for a charge.
abbrev pub receipt : ChargeRequest → ℕ → ChargeResponse
receipt body now = record {
  order_id = body.order_id;
  amount = body.amount;
  currency = body.currency;
  idempotency_key = body.idempotency_key;
  status = "CHARGED";
  charged_at = now;
}

abbrev pub payment_declined : AppError
payment_declined = app_error "PAYMENT_DECLINED" "Synthetic payment failure (chaos testing)" 402

module _ (R : Redis Stored) (settings : Settings)
    (safe : settings.unsafe_idempotency_mode ≡ false) where
  advance_all-answered :
      (n : ℕ) (d : Bool) (b : ChargeRequest) (r : Result ChargeResponse) (s : Service R)
      → advance_all R settings n d b (answered r, s) ≡ (answered r, s)
  unfolding advance_all advance
  advance_all-answered zero d b r s = refl
  advance_all-answered (suc n) d b r s = advance_all-answered n d b r s

  -- The service after its three accesses.
  abbrev settled_service : Bool → ChargeRequest → Service R → Service R
  settled_service d b s =
      let (r, v) = process_charge R d b (claimed R settings safe b s) in
      (store_result R settings b r v).1

  from_processing :
      (d : Bool) (b : ChargeRequest) (v : Service R)
      → let (r, v') = process_charge R d b v in
        advance_all R settings 11 d b (processing, v)
        ≡ (answered (respond b.idempotency_key r), (store_result R settings b r v').1)
  unfolding advance_all advance store_result
  from_processing d b v = advance_all-answered 9 d b _ _

  charge_alone-fresh :
      (d : Bool) (b : ChargeRequest) (s : Service R)
      → R.get s.now (redis_key b.idempotency_key) s.store ≡ none
      → charge_alone R settings d b s ≡ (
        respond b.idempotency_key (process_charge R d b (claimed R settings safe b s)).0,
        settled_service d b s,
      )
  unfolding charge_alone
  charge_alone-fresh d b s fresh =
      let first : advance R settings d b arrived s ≡ (processing, claimed R settings safe b s) =
        advance-arrived R settings safe d b s ∙ claim-free R settings safe b s (ap is_some fresh) in
      let steps =
        ap (advance_all R settings 11 d b) first
        ∙ from_processing d b (claimed R settings safe b s) in
      ap (λ (x : Phase × Service R). (answer_of x.0, x.1)) steps

  -- What a result that has just been stored is answered with.
  get_result-stored :
      (b : ChargeRequest) (r : Stored) (v : Service R) (x : Result ChargeResponse)
      → 0 < settings.idempotency_ttl_seconds
      → ((w : Service R)
          → R.get w.now (redis_key b.idempotency_key) w.store ≡ some r
          → get_result R settings b.idempotency_key w ≡ x)
      → get_result R settings b.idempotency_key (store_result R settings b r v).1 ≡ x
  unfolding store_result
  get_result-stored b r v x positive answers =
      answers
        (record v {
          store =
              R.set_ex v.now (redis_key b.idempotency_key) r settings.idempotency_ttl_seconds
                v.store;
        })
        (rw (
          R.get-set_ex,
          eq_refl (redis_key b.idempotency_key),
          lt→ltb v.now (v.now + settings.idempotency_ttl_seconds) (omega arith),
        ))

  get_result-success :
      (k o : String) (a : ℕ) (c : String) (t : ℕ) (w : Service R)
      → R.get w.now (redis_key k) w.store ≡ some (success o a c t)
      → get_result R settings k w ≡ respond k (success o a c t)
  unfolding get_result
  get_result-success k o a c t w e = rw (e, get_result)

  get_result-declined :
      (k c m : String) (w : Service R)
      → R.get w.now (redis_key k) w.store ≡ some (declined c m)
      → get_result R settings k w ≡ respond k (declined c m)
  unfolding get_result
  get_result-declined k c m w e = rw (e, get_result)

  -- How a charge request has ended: it is refused and nothing is written, it is declined and that is
  -- stored, or it is charged, once, and the receipt is stored.
  abbrev pub Posted : ChargeRequest → Service R → Response ChargeResponse × Service R → Type 0
  Posted b s (r, s') =
      ((r.status_code ≢ 200) × (s' ≡ s))
      ⊎ ((r.status_code ≢ 200)
          × (get_result R settings b.idempotency_key s' ≡ err payment_declined))
      ⊎ ((r.status_code ≡ 200)
          × (get_result R settings b.idempotency_key s' ≡ ok (receipt b s.now))
          × (s'.processed ≡ b.idempotency_key ∷ s.processed))

  settled_service-declined :
      (b : ChargeRequest) (s : Service R)
      → 0 < settings.idempotency_ttl_seconds
      → get_result R settings b.idempotency_key (settled_service true b s) ≡ err payment_declined
  unfolding process_charge respond
  settled_service-declined b s positive =
      get_result-stored b _ _ (err payment_declined) positive
        (λ w e. get_result-declined b.idempotency_key _ _ w e)

  settled_service-charged :
      (b : ChargeRequest) (s : Service R)
      → 0 < settings.idempotency_ttl_seconds
      → (get_result R settings b.idempotency_key (settled_service false b s) ≡ ok (receipt b s.now))
        × ((settled_service false b s).processed ≡ b.idempotency_key ∷ s.processed)
  unfolding process_charge respond store_result
  settled_service-charged b s positive = (
    get_result-stored b _ _ (ok (receipt b s.now)) positive
        (λ w e. get_result-success b.idempotency_key _ _ _ _ w e),
    refl,
  )

  abbrev answering :
      String → Result ChargeResponse × Service R → Response ChargeResponse × Service R
  answering id (r, s) = (Shared.respond id 200 r, s)

  charge_alone-Posted :
      (d : Bool) (id : String) (b : ChargeRequest) (s : Service R)
      → 0 < settings.idempotency_ttl_seconds
      → R.get s.now (redis_key b.idempotency_key) s.store ≡ none
      → Posted b s (answering id (charge_alone R settings d b s))
  charge_alone-Posted true id b s positive fresh =
      let done = charge_alone-fresh true b s fresh in
      subst (λ x. Posted b s (answering id x)) (sym done)
        (inr (
          inl (
            unfold process_charge respond Shared.respond in λ e. absurd (omega arith),
            settled_service-declined b s positive,
          )))
  charge_alone-Posted false id b s positive fresh =
      let done = charge_alone-fresh false b s fresh in
      subst (λ x. Posted b s (answering id x)) (sym done)
        (let (receipt_there, once) = settled_service-charged b s positive in
          inr (inr (unfold process_charge respond Shared.respond in refl, receipt_there, once)))

  post_charge-passed :
      (d : Bool) (id : String) (b : ChargeRequest) (s : Service R)
      → settings.internal_service_token ≢ ""
      → ltb 0 b.amount ≡ true
      → post_charge R settings d id settings.internal_service_token "order-service" b s
        ≡ answering id (charge_alone R settings d b s)
  unfolding post_charge require_internal_caller contains
  post_charge-passed d id b s named enough = rw (
    ==-ne settings.internal_service_token "" named,
    eq_refl settings.internal_service_token,
    enough,
  )

  post_charge-refused :
      (d : Bool) (id : String) (b : ChargeRequest) (s : Service R)
      → settings.internal_service_token ≢ ""
      → ltb 0 b.amount ≡ false
      → post_charge R settings d id settings.internal_service_token "order-service" b s
        ≡ answering id (err invalid_amount, s)
  unfolding post_charge require_internal_caller contains
  post_charge-refused d id b s named small = rw (
    ==-ne settings.internal_service_token "" named,
    eq_refl settings.internal_service_token,
    small,
  )

  pub post_charge-Posted :
      (d : Bool) (id : String) (b : ChargeRequest) (s : Service R)
      → settings.internal_service_token ≢ ""
      → 0 < settings.idempotency_ttl_seconds
      → R.get s.now (redis_key b.idempotency_key) s.store ≡ none
      → Posted b s (post_charge R settings d id settings.internal_service_token "order-service" b s)
  post_charge-Posted d id b s named positive fresh = elim (Bool-cases (ltb 0 b.amount)) [
    | inl enough ↦
        subst (Posted b s) (sym (post_charge-passed d id b s named enough))
          (charge_alone-Posted d id b s positive fresh)
    | inr small ↦
        subst (Posted b s) (sym (post_charge-refused d id b s named small))
          (inl (unfold Shared.respond in λ e. absurd (omega arith), refl))
  ]
