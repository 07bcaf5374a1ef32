-- ===== src/Payment/Stages.antt =====
-- The three stages of a key in safe mode: unclaimed, held by one request, settled with a result.
use ecommerce_services.Common.{
  ℕ, zero, suc, ◌<◌, String, Bool, true, false, none, some, ◌≡◌, refl, ap, ◌∙◌, ◌⊎◌, inl, inr,
  arith, eqb, Bool-cases,
}
use ecommerce_services.Common.Redis.{Redis, is_some}
use ecommerce_services.Shared.{err}
use ecommerce_services.Payment.Defs.{
  ChargeRequest, Stored, in_progress, success, declined, Settings, Service, redis_key,
}
use ecommerce_services.Payment.Charge.{
  Phase, arrived, processing, storing, waiting, answered, advance, poll, respond,
  charge_in_progress,
}
use ecommerce_services.Payment.Concurrent.{System, moved}
use ecommerce_services.Payment.Access.{claim-taken, advance-arrived, poll-service, read}

abbrev pub IsResult : Stored → Type 0
IsResult in_progress = ⊥
IsResult _ = Unit

-- A request that does not hold the claim, while Redis holds `c` under its key.
abbrev pub IsAtRest : String → Stored → Phase → Type 0
IsAtRest k c arrived = Unit
IsAtRest k c processing = ⊥
IsAtRest k c (storing r) = ⊥
IsAtRest k c (waiting n) = Unit
IsAtRest k c (answered r) = (r ≡ err charge_in_progress) ⊎ (IsResult c × (r ≡ respond k c))

abbrev pub IsBusy : Phase → Type 0
IsBusy processing = Unit
IsBusy (storing r) = IsResult r
IsBusy _ = ⊥

module _ (R : Redis Stored) (settings : Settings)
    (safe : settings.unsafe_idempotency_mode ≡ false) where
  poll-IsAtRest :
      (n : ℕ) (b : ChargeRequest) (c : Stored) (v : Service R)
      → IsAtRest b.idempotency_key c (poll R settings n b (some c) v).0
  unfolding poll
  poll-IsAtRest n b in_progress v = tt
  poll-IsAtRest n b (success o a cu t) v = inr (tt, refl)
  poll-IsAtRest n b (declined co m) v = inr (tt, refl)

  -- A request at rest stays at rest, and writes nothing.
  pub advance-IsAtRest :
      (declines : Bool) (b : ChargeRequest) (c : Stored) (p : Phase) (v : Service R)
      → R.get v.now (redis_key b.idempotency_key) v.store ≡ some c
      → IsAtRest b.idempotency_key c p
      → IsAtRest b.idempotency_key c (advance R settings declines b p v).0
        × ((advance R settings declines b p v).1.store ≡ v.store)
  advance-IsAtRest declines b c arrived v held h =
      let taken = claim-taken R settings safe b v (ap is_some held) in
      rw (advance-arrived R settings safe declines b v, taken) (tt, refl)
  advance-IsAtRest declines b c (waiting zero) v held h = unfold advance in (inl refl, refl)
  advance-IsAtRest declines b c (waiting (suc n)) v held h =
      unfold advance in
      rw held (poll-IsAtRest n b c v, (poll-service R settings safe n b (some c) v).0)
  advance-IsAtRest declines b c (answered r) v held h = unfold advance in (h, refl)
  advance-IsAtRest declines b c processing v held h = absurd h
  advance-IsAtRest declines b c (storing r) v held h = absurd h

  module _ (k : String) (body : ℕ → ChargeRequest) (limit : ℕ) where
    abbrev pub IsOurs : ℕ → Type 0
    IsOurs i = (body i).idempotency_key ≡ k

    -- Until the limit, Redis answers with `c`.
    abbrev pub Reads : Stored → Service R → Type 0
    Reads c v = (n : ℕ) → n < limit → read R settings safe k n v ≡ some c

    pub record IsUnclaimed (s : System R) : Type 0 where
      pub unset : (n : ℕ) → read R settings safe k n s.service ≡ none
      pub all_arrived : (j : ℕ) → IsOurs j → s.phase j ≡ arrived

    pub record IsHeld (h : ℕ) (s : System R) : Type 0 where
      pub ours : IsOurs h
      pub reads : Reads in_progress s.service
      pub busy : IsBusy (s.phase h)
      pub others : (j : ℕ) → IsOurs j → eqb h j ≡ false → IsAtRest k in_progress (s.phase j)

    pub record IsSettled (c : Stored) (s : System R) : Type 0 where
      pub result : IsResult c
      pub reads : Reads c s.service
      pub all : (j : ℕ) → IsOurs j → IsAtRest k c (s.phase j)

    abbrev pub InStage : System R → Type 0
    InStage s = IsUnclaimed s ⊎ ((h : ℕ) × IsHeld h s) ⊎ ((c : Stored) × IsSettled c s)

    abbrev pub put : System R → ℕ → Phase × Service R → System R
    put s i (p, v) = record { service = v; phase = moved R s.phase i p }

    -- A request that comes to rest, with the others.
    pub rest-moved :
        (c : Stored) (f : ℕ → Phase) (i j : ℕ) (p : Phase)
        → IsAtRest k c p
        → (eqb i j ≡ false → IsAtRest k c (f j))
        → IsAtRest k c (moved R f i p j)
    rest-moved c f i j p mine theirs = elim (Bool-cases (eqb i j)) [
      | inl same ↦ rw same mine
      | inr ne ↦ rw ne (theirs ne)
    ]

    -- A request at rest goes on, while another one holds the claim.
    pub IsHeld-step :
        (h i : ℕ) (s : System R) (x : Phase × Service R)
        → eqb i h ≡ false
        → IsAtRest k in_progress x.0
        → x.1.store ≡ s.service.store
        → IsHeld h s
        → IsHeld h (put s i x)
    IsHeld-step h i s (p, v) ne mine same s_held = record {
      ours = s_held.ours;
      reads = λ n lt. ap (λ st. R.get n (redis_key k) st) same ∙ s_held.reads n lt;
      busy = rw ne s_held.busy;
      others = λ j ours_j ne_j.
          rest-moved in_progress s.phase i j p mine (λ _. s_held.others j ours_j ne_j);
    }

    pub IsSettled-step :
        (c : Stored) (i : ℕ) (s : System R) (x : Phase × Service R)
        → IsAtRest k c x.0
        → x.1.store ≡ s.service.store
        → IsSettled c s
        → IsSettled c (put s i x)
    IsSettled-step c i s (p, v) mine same settled = record {
      result = settled.result;
      reads = λ n lt. ap (λ st. R.get n (redis_key k) st) same ∙ settled.reads n lt;
      all = λ j ours_j. rest-moved c s.phase i j p mine (λ _. settled.all j ours_j);
    }

    -- The holder has processed its charge.
    pub processed-step :
        (h : ℕ) (r : Stored) (s : System R) (v : Service R)
        → IsResult r
        → v.store ≡ s.service.store
        → IsHeld h s
        → IsHeld h (put s h (storing r, v))
    processed-step h r s v result same s_held = record {
      ours = s_held.ours;
      reads = λ n lt. ap (λ st. R.get n (redis_key k) st) same ∙ s_held.reads n lt;
      busy = let here : eqb h h ≡ true = ground arith in rw here result;
      others = λ j ours_j ne_j. rw ne_j (s_held.others j ours_j ne_j);
    }
