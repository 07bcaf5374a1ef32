-- ===== src/Order/Reasons.antt =====
-- app/metrics.py of services/order-service: the closed set of failure reasons.
use ecommerce_services.Common.{
  String, ◌||◌, starts_with, none, some, ◌≡◌, ◌⊎◌, inl, inr, if◌then◌else◌, [], ◌∷◌, arith, sym,
  Text-cases,
}
use ecommerce_services.Common.Dict
use ecommerce_services.Common.Dict.{Dict}

-- `_EXACT_REASONS`
abbrev pub exact_reasons : Dict String
exact_reasons =
    ("insufficient_stock", "INSUFFICIENT_STOCK")
    ∷ ("product_not_found", "PRODUCT_NOT_FOUND")
    ∷ ("PAYMENT_DECLINED", "PAYMENT_DECLINED")
    ∷ ("payment_declined", "PAYMENT_DECLINED")
    ∷ ("reconciliation_timeout", "RECONCILIATION_TIMEOUT")
    ∷ []

unfoldable pub normalize_failure_reason : String → String
unfolding Dict.lookup
normalize_failure_reason raw = elim (Dict.lookup raw exact_reasons) [
  | some reason ↦ reason
  | none ↦
      if starts_with raw "transport_error" || starts_with raw "upstream_error_"
      then "TRANSPORT_ERROR"
      else "TRANSPORT_ERROR"
]

-- What a raw reason may be, with the label that it then has.
abbrev pub Normalizes : String → Type 0
Normalizes raw =
    ((raw ≡ "insufficient_stock") × (normalize_failure_reason raw ≡ "INSUFFICIENT_STOCK"))
    ⊎ ((raw ≡ "product_not_found") × (normalize_failure_reason raw ≡ "PRODUCT_NOT_FOUND"))
    ⊎ (((raw ≡ "PAYMENT_DECLINED") ⊎ (raw ≡ "payment_declined"))
        × (normalize_failure_reason raw ≡ "PAYMENT_DECLINED"))
    ⊎ ((raw ≡ "reconciliation_timeout") × (normalize_failure_reason raw ≡ "RECONCILIATION_TIMEOUT"))
    ⊎ ((Dict.lookup raw exact_reasons ≡ none) × (normalize_failure_reason raw ≡ "TRANSPORT_ERROR"))

-- The label of a raw reason is one of five, and the four that are no transport error stand for
-- exactly the raw reasons of the table: a declined payment is never reported as a stock failure.
pub normalize_failure_reason_lem : (raw : String) → Normalizes raw
unfolding normalize_failure_reason
normalize_failure_reason_lem raw = elim (Text-cases "insufficient_stock" raw) [
  | inl (e, t) ↦ inl (sym e, rw (← e))
  | inr (_, t₁) ↦ elim (Text-cases "product_not_found" raw) [
    | inl (e, t) ↦ inr (inl (sym e, rw (← e)))
    | inr (_, t₂) ↦ elim (Text-cases "PAYMENT_DECLINED" raw) [
      | inl (e, t) ↦ inr (inr (inl (inl (sym e), rw (← e))))
      | inr (_, t₃) ↦ elim (Text-cases "payment_declined" raw) [
        | inl (e, t) ↦ inr (inr (inl (inr (sym e), rw (← e))))
        | inr (_, t₄) ↦ elim (Text-cases "reconciliation_timeout" raw) [
          | inl (e, t) ↦ inr (inr (inr (inl (sym e, rw (← e)))))
          | inr (_, t₅) ↦ inr (inr (inr (inr (ground arith, ground arith))))
        ]
      ]
    ]
  ]
]
