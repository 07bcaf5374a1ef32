-- ===== src/Payment/Answers.antt =====
-- A charge request that is given its turns is answered, in both modes, whatever the others do.
use ecommerce_services.Common.{
  ℕ, zero, suc, ◌+◌, ◌-◌, ◌≤◌, Bool, true, false, Option, Option-cases, none, some, subst, List, [],
  ◌∷◌, ◌≡◌, refl, arith, eqb, if◌then◌else◌, Bool-cases, inl, inr,
}
use ecommerce_services.Common.Redis.{Redis, is_some}
use ecommerce_services.Shared.{Result}
use ecommerce_services.Payment.Defs.{
  ChargeRequest, ChargeResponse, Stored, in_progress, success, declined, Settings, Service,
  redis_key,
}
use ecommerce_services.Payment.Charge.{
  Phase, arrived, processing, storing, waiting, answered, advance, claim, peek, poll,
}
use ecommerce_services.Payment.Concurrent.{System, turn, later}

-- What may happen next: a request goes on, with a draw, or time passes.
pub data Event : Type 0 where
  goes : ℕ → Bool → Event
  passes : ℕ → Event

-- How many turns a request gets.
unfoldable pub turns_of : ℕ → List Event → ℕ
turns_of i [] = 0
turns_of i (goes j declines ∷ es) = (if eqb j i then 1 else 0) + turns_of i es
turns_of i (passes d ∷ es) = turns_of i es

-- The accesses that a request may still need.
abbrev accesses_left : Phase → ℕ
accesses_left arrived = 12
accesses_left processing = 2
accesses_left (storing v) = 1
accesses_left (waiting n) = n + 1
accesses_left (answered r) = 0

module _ (R : Redis Stored) (settings : Settings) (body : ℕ → ChargeRequest) where
  unfoldable pub run : List Event → System R → System R
  unfolding turn
  run [] s = s
  run (goes i declines ∷ es) s = run es (turn R settings body i declines s)
  run (passes d ∷ es) s = run es (later R settings body d s)

  poll-accesses_left :
      (n : ℕ) (b : ChargeRequest) (o : Option Stored) (v : Service R)
      → accesses_left (poll R settings n b o v).0 ≤ n + 1
  unfolding poll
  poll-accesses_left n b none v = omega arith
  poll-accesses_left n b (some in_progress) v = omega arith
  poll-accesses_left n b (some (success o a c t)) v = omega arith
  poll-accesses_left n b (some (declined c m)) v = omega arith

  claim-accesses_left :
      (b : ChargeRequest) (v : Service R) → accesses_left (claim R settings b v).0 ≤ 11
  unfolding claim
  claim-accesses_left b v =
      elim (Bool-cases (is_some (R.get v.now (redis_key b.idempotency_key) v.store))) [
        | inl taken ↦ rw (R.set_nx-eq, taken) (omega arith)
        | inr free ↦ rw (R.set_nx-eq, free) (omega arith)
      ]

  peek-accesses_left :
      (b : ChargeRequest) (v : Service R) → accesses_left (peek R settings b v).0 ≤ 11
  unfolding peek
  peek-accesses_left b v = elim (Option-cases (R.get v.now (redis_key b.idempotency_key) v.store)) [
    | inl miss ↦ rw (miss, accesses_left) (omega arith)
    | inr (x, hit) ↦ rw (hit, accesses_left) (omega arith)
  ]

  advance-accesses_left :
      (declines : Bool) (b : ChargeRequest) (p : Phase) (v : Service R)
      → accesses_left (advance R settings declines b p v).0 ≤ accesses_left p - 1
  unfolding advance
  advance-accesses_left declines b arrived v = elim (Bool-cases settings.unsafe_idempotency_mode) [
    | inl risky ↦ rw risky (peek-accesses_left b v)
    | inr safe ↦ rw safe (claim-accesses_left b v)
  ]
  advance-accesses_left true b processing v = omega arith
  advance-accesses_left false b processing v = omega arith
  advance-accesses_left declines b (storing r) v = omega arith
  advance-accesses_left declines b (waiting zero) v = omega arith
  advance-accesses_left declines b (waiting (suc n)) v =
      omega (arith, poll-accesses_left n b (R.get v.now (redis_key b.idempotency_key) v.store) v)
  advance-accesses_left declines b (answered r) v = omega arith

  turn-accesses_left :
      (i j : ℕ) (declines : Bool) (s : System R)
      → accesses_left ((turn R settings body j declines s).phase i)
        ≤ accesses_left (s.phase i) - (if eqb j i then 1 else 0)
  unfolding turn
  turn-accesses_left i j declines s = elim (Bool-cases (eqb j i)) [
    | inr ne ↦ rw ne (omega arith)
    | inl same ↦
        let j≡i : j ≡ i = ground arith in
        rw same (
          subst
            (λ n.
              accesses_left (advance R settings declines (body j) (s.phase j) s.service).0
              ≤ accesses_left (s.phase n) - 1)
            j≡i (advance-accesses_left declines (body j) (s.phase j) s.service))
  ]

  run-accesses_left :
      (i : ℕ) (es : List Event) (s : System R)
      → accesses_left ((run es s).phase i) ≤ accesses_left (s.phase i) - turns_of i es
  unfolding run turns_of
  run-accesses_left i [] s = omega arith
  run-accesses_left i (passes d ∷ es) s = run-accesses_left i es (later R settings body d s)
  run-accesses_left i (goes j declines ∷ es) s =
      let rest = run-accesses_left i es (turn R settings body j declines s) in
      let first = turn-accesses_left i j declines s in omega (arith, rest, first)

  answered_at : (p : Phase) → accesses_left p ≤ 0 → (r : Result ChargeResponse) × (p ≡ answered r)
  answered_at arrived h = absurd (omega arith)
  answered_at processing h = absurd (omega arith)
  answered_at (storing v) h = absurd (omega arith)
  answered_at (waiting n) h = absurd (omega arith)
  answered_at (answered r) h = (r, refl)

  -- Every request is answered: whatever the mode and the draws, whatever Redis holds, and however its
  -- turns mix with those of others and with time, a request that has arrived has an answer after twelve
  -- turns of its own.
  pub every_request_answered :
      (i : ℕ) (es : List Event) (s : System R)
      → s.phase i ≡ arrived
      → 12 ≤ turns_of i es
      → (r : Result ChargeResponse) × ((run es s).phase i ≡ answered r)
  every_request_answered i es s start enough =
      let bound = run-accesses_left i es s in
      answered_at ((run es s).phase i) (omega (arith, rw start at bound))
