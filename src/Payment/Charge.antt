-- ===== src/Payment/Charge.antt =====
-- app/routers/payments.py of services/payment-service: `charge`, cut at its accesses of Redis, since
-- other requests run between those.
use ecommerce_services.Common.{
  ℕ, zero, suc, ◌+◌, String, Bool, Option, none, some, ◌∷◌, if◌then◌else◌,
}
use ecommerce_services.Common.Redis.{Redis}
use ecommerce_services.Shared.{AppError, app_error, Result, ok, err}
use ecommerce_services.Payment.Defs.{
  ChargeRequest, ChargeResponse, Stored, in_progress, success, declined, Settings, Service,
  redis_key,
}

abbrev pub charge_in_progress : AppError
charge_in_progress =
    app_error "CHARGE_IN_PROGRESS" "Charge for this idempotency key is still processing" 409

-- `_respond`; a dict with no `success`, as the claim has none, raises with the defaults.
unfoldable pub respond : String → Stored → Result ChargeResponse
respond key (success order_id amount currency charged_at) = ok (record {
  order_id = order_id;
  amount = amount;
  currency = currency;
  idempotency_key = key;
  status = "CHARGED";
  charged_at = charged_at;
})
respond key (declined code message) = err (app_error code message 402)
respond key in_progress = err (app_error "PAYMENT_DECLINED" "Payment declined" 402)

-- Where a request stands.
pub data Phase : Type 0 where
  -- before its first access
  arrived : Phase
  -- free to process: it holds the claim, or in unsafe mode it found nothing
  processing : Phase
  -- processed, the result not yet stored
  storing : Stored → Phase
  -- in the loop of `_wait_for_result`, with the attempts that are left
  waiting : ℕ → Phase
  answered : Result ChargeResponse → Phase

-- The default `attempts` of `_wait_for_result`.
abbrev pub attempts : ℕ
attempts = 10

module _ (R : Redis Stored) where
  -- `_process_charge`; `declines` is whether the draw falls below the failure rate.
  unfoldable pub process_charge : Bool → ChargeRequest → Service R → Stored × Service R
  process_charge declines body s =
      let s' : Service R = record s { processed = body.idempotency_key ∷ s.processed } in
      if declines
      then (
        declined "PAYMENT_DECLINED" "Synthetic payment failure (chaos testing)",
        record s' { failures_total = s.failures_total + 1 },
      )
      else (success body.order_id body.amount body.currency s.now, s')

  abbrev pub count_replay : Service R → Service R
  count_replay s = record s { replays_total = s.replays_total + 1 }

  module _ (settings : Settings) where
    -- The safe first access: SET NX claims the key.
    unfoldable pub claim : ChargeRequest → Service R → Phase × Service R
    claim body s =
        let (claimed, store) =
          R.set_nx s.now (redis_key body.idempotency_key) in_progress
            settings.idempotency_ttl_seconds s.store in
        (if claimed then processing else waiting attempts, record s { store = store })

    -- The unsafe first access: GET.
    unfoldable pub peek : ChargeRequest → Service R → Phase × Service R
    peek body s = elim (R.get s.now (redis_key body.idempotency_key) s.store) [
      | some existing ↦ (answered (respond body.idempotency_key existing), count_replay s)
      | none ↦ (processing, s)
    ]

    -- One round of `_wait_for_result`.
    unfoldable pub poll : ℕ → ChargeRequest → Option Stored → Service R → Phase × Service R
    poll n body none s = (waiting n, s)
    poll n body (some in_progress) s = (waiting n, s)
    poll n body (some stored) s = (answered (respond body.idempotency_key stored), count_replay s)

    -- SET key result EX ttl, and the answer.
    unfoldable pub store_result : ChargeRequest → Stored → Service R → Phase × Service R
    store_result body result s = (
      answered (respond body.idempotency_key result),
      record s {
        store =
            R.set_ex s.now (redis_key body.idempotency_key) result settings.idempotency_ttl_seconds
              s.store;
      },
    )

    -- `charge`, from one access to the next.
    unfoldable pub advance : Bool → ChargeRequest → Phase → Service R → Phase × Service R
    unfolding process_charge claim peek poll store_result
    advance declines body arrived s =
        if settings.unsafe_idempotency_mode then peek body s else claim body s
    advance declines body processing s =
        let (result, s') = process_charge declines body s in (storing result, s')
    advance declines body (storing result) s = store_result body result s
    advance declines body (waiting zero) s = (answered (err charge_in_progress), s)
    advance declines body (waiting (suc n)) s =
        poll n body (R.get s.now (redis_key body.idempotency_key) s.store) s
    advance declines body (answered r) s = (answered r, s)

    abbrev not_found : AppError
    not_found = app_error "NOT_FOUND" "No charge found for this idempotency key" 404

    -- `get_result`
    unfoldable pub get_result : String → Service R → Result ChargeResponse
    get_result key s = elim (R.get s.now (redis_key key) s.store) [
      | none ↦ err not_found
      | some in_progress ↦ err charge_in_progress
      | some stored ↦ respond key stored
    ]
