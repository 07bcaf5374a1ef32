-- ===== src/Payment/Endpoint.antt =====
-- POST /payments/charge of app/routers/payments.py for a request that no other request comes between.
use ecommerce_services.Common.{ℕ, zero, suc, String, Bool, not, ltb, [], ◌∷◌}
use ecommerce_services.Common.Redis.{Redis}
use ecommerce_services.Shared.{
  AppError, app_error, Result, err, Action, Response, respond, lift, raise_if, ◌>>◌,
}
use ecommerce_services.Shared.InternalAuth.{require_internal_caller}
use ecommerce_services.Payment.Defs.{ChargeRequest, ChargeResponse, Stored, Settings, Service}
use ecommerce_services.Payment.Charge.{Phase, arrived, answered, advance, charge_in_progress}

-- `Field(gt=0)` on the amount; the text of the message is the validation library's.
abbrev pub invalid_amount : AppError
invalid_amount = app_error "VALIDATION_ERROR" "amount: Input should be greater than 0" 422

-- A request is answered after twelve accesses at most.
abbrev pub answer_of : Phase → Result ChargeResponse
answer_of (answered r) = r
answer_of _ = err charge_in_progress

module _ (R : Redis Stored) (settings : Settings) where
  -- The accesses of one request, without a pause; `declines` is its draw.
  unfoldable pub advance_all : ℕ → Bool → ChargeRequest → Phase × Service R → Phase × Service R
  advance_all zero declines body x = x
  advance_all (suc n) declines body (p, s) =
      advance_all n declines body (advance R settings declines body p s)

  -- `charge`
  unfoldable pub charge_alone : Bool → ChargeRequest → Action (Service R) ChargeResponse
  unfolding advance_all
  charge_alone declines body s =
      let (p, s') = advance_all 12 declines body (arrived, s) in (answer_of p, s')

  -- With the dependency `require_order_service` and the validation of the body.
  unfoldable pub post_charge :
      Bool
      → String
      → String
      → String
      → ChargeRequest
      → Service R
      → Response ChargeResponse × Service R
  post_charge declines request_id x_internal_token x_internal_caller body s =
      let (r, s') =
        (do
          lift (
              require_internal_caller settings.internal_service_token ("order-service" ∷ [])
                x_internal_token x_internal_caller)
          raise_if (not (ltb 0 body.amount)) invalid_amount
          charge_alone declines body)
          s in
      (respond request_id 200 r, s')
