-- ===== src/Payment/Tests.antt =====
-- Runs of charge requests, and the theorems at those inputs.
use ecommerce_services.Common.{
  ℕ, ◌+◌, ◌≤◌, ◌⊎◌, String, Bool, true, false, Option, none, some, List, [], ◌∷◌, ◌≡◌, ◌≢◌, refl,
  arith,
}
use ecommerce_services.Common.Redis.{Redis, dict_redis}
use ecommerce_services.Shared.{Result, err}
use ecommerce_services.Payment.Defs.{ChargeRequest, ChargeResponse, Stored, success, Settings}
use ecommerce_services.Payment.Concurrent.{
  times, System, turn, go, tick, Reach, here, next, initial, later,
}
use ecommerce_services.Payment.AtMostOnce.{processed_at_most_once}
use ecommerce_services.Payment.Race.{unsafe_double_charge}
use ecommerce_services.Payment.Answers.{Event, goes, passes, turns_of, run, every_request_answered}
use ecommerce_services.Payment.Agreement.{one_answer}
use ecommerce_services.Payment.Charge.{answered, respond, get_result, charge_in_progress}

abbrev redis : Redis Stored
redis = dict_redis Stored

abbrev safe_settings : Settings
safe_settings = record {
  idempotency_ttl_seconds = 86400;
  unsafe_idempotency_mode = false;
  internal_service_token = "dev-internal-token-change-me";
}

abbrev unsafe_settings : Settings
unsafe_settings = record {
  idempotency_ttl_seconds = 86400;
  unsafe_idempotency_mode = true;
  internal_service_token = "dev-internal-token-change-me";
}

-- Every request carries the same key, as the retries of a client do.
abbrev retries : ℕ → ChargeRequest
retries i = record { order_id = "o-1"; amount = 4998; currency = "INR"; idempotency_key = "k-1" }

abbrev start_state : System redis
start_state = initial redis safe_settings retries 0

-- The first request claims the key, the second arrives, a second passes, the first is processed.
abbrev interleaved : System redis
interleaved = turn redis safe_settings retries 0 false (
    later redis safe_settings retries 1 (
      turn redis safe_settings retries 1 false
        (turn redis safe_settings retries 0 false start_state)))

interleaved-Reach : Reach redis safe_settings retries start_state interleaved
interleaved-Reach =
    next (next (next (next here (go 0 false start_state)) (go 1 false _)) (tick 1 _)) (go 0 false _)

processed_at_most_once_example : times "k-1" interleaved.service.processed ≤ 1
unfolding turn ecommerce_services.Payment.Charge.advance ecommerce_services.Common.Dict.lookup
processed_at_most_once_example =
    processed_at_most_once redis safe_settings retries 0 "k-1" refl interleaved-Reach (omega arith)

-- The first request stores its result, and the waiting one polls it.
abbrev replayed : System redis
replayed =
    turn redis safe_settings retries 1 false (turn redis safe_settings retries 0 false interleaved)

replayed-Reach : Reach redis safe_settings retries start_state replayed
replayed-Reach = next (next interleaved-Reach (go 0 false _)) (go 1 false _)

abbrev charged_once : Result ChargeResponse
charged_once = respond "k-1" (success "o-1" 4998 "INR" 1)

one_answer_example :
    (charged_once ≡ err charge_in_progress)
    ⊎ (get_result redis safe_settings "k-1" replayed.service ≡ charged_once)
unfolding turn ecommerce_services.Payment.Charge.advance ecommerce_services.Common.Dict.lookup
    ecommerce_services.Common.Dict.insert ecommerce_services.Payment.Defs.redis_key
one_answer_example =
    one_answer redis safe_settings retries 0 1 charged_once refl replayed-Reach (omega arith) refl

-- Twelve polls of a request while another one holds the claim and never goes on.
abbrev stuck : List Event
stuck =
    goes 0 false
    ∷ goes 1 false
    ∷ goes 1 false
    ∷ goes 1 false
    ∷ goes 1 false
    ∷ passes 1
    ∷ goes 1 false
    ∷ goes 1 false
    ∷ goes 1 false
    ∷ goes 1 false
    ∷ goes 1 false
    ∷ goes 1 false
    ∷ goes 1 false
    ∷ goes 1 false
    ∷ []

every_request_answered_example :
    (r : Result ChargeResponse) × ((run redis safe_settings retries stuck start_state).phase 1
      ≡ answered r)
unfolding turns_of
every_request_answered_example =
    every_request_answered redis safe_settings retries 1 stuck start_state refl (omega arith)

one_is_not_two : ◌≢◌ {A = ℕ} 1 2
one_is_not_two = λ e. absurd (omega arith)

unsafe_double_charge_example :
    (s : System redis) × Reach redis unsafe_settings retries
      (initial redis unsafe_settings retries 0)
      s
    × (times "k-1" s.service.processed ≡ 2)
unsafe_double_charge_example =
    unsafe_double_charge redis unsafe_settings retries 0 1 2 "k-1" refl one_is_not_two refl refl
