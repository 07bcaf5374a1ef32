-- ===== src/Payment/AtMostOnce.antt =====
-- In safe mode a key is processed at most once, whatever the interleaving of its requests.
use ecommerce_services.Common.{
  ℕ, zero, suc, ◌+◌, ◌≤◌, ◌<◌, String, Bool, true, false, Option, none, some, ◌∷◌, ◌≡◌, refl, sym,
  ap, subst, ◌∙◌, inl, inr, arith, eqb, Bool-cases, Text-cases, eq_refl,
}
use ecommerce_services.Common.Redis.{Redis, is_some}
use ecommerce_services.Payment.Defs.{
  ChargeRequest, Stored, in_progress, success, declined, Settings, Service, redis_key,
}
use ecommerce_services.Payment.Charge.{
  Phase, arrived, processing, storing, waiting, answered, advance, claim, poll, attempts,
}
use ecommerce_services.Payment.Concurrent.{
  times, System, moved, turn, later, go, tick, Reach, here, next, initial,
}
use ecommerce_services.Payment.Access.{claim-taken, claim-free, advance-arrived, poll-service}
use ecommerce_services.Payment.Orderly.{
  IsOurs, IsIdle, IsOrderly, turn-other, after, still, keep-IsClaimed, quiet-IsOrderly, until,
  written,
}

module _ (R : Redis Stored) (settings : Settings)
    (safe : settings.unsafe_idempotency_mode ≡ false) where
  module _ (k : String) where
    module _ (body : ℕ → ChargeRequest) (limit : ℕ) where
      -- The first access of a request about the key.
      arrived-IsOrderly :
          (s : System R) (i : ℕ) (declines : Bool)
          → IsOurs R settings safe k body limit i
          → s.service.now < limit
          → limit ≤ until R settings safe k body limit s.service
          → IsOrderly R settings safe k body limit s
          → let (p, v) = advance R settings declines (body i) arrived s.service in
            IsOrderly R settings safe k body limit (after R settings safe k body limit s i p v)
      arrived-IsOrderly s i declines ours below reach (inl fresh) =
          let free : is_some
                (R.get s.service.now (redis_key (body i).idempotency_key) s.service.store)
              ≡ false =
            rw (ours, fresh.unset s.service.now) in
          rw
            (
              advance-arrived R settings safe declines (body i) s.service,
              claim-free R settings safe (body i) s.service free,
            )
            (inr (record {
              set = λ n lt.
                  written R settings safe k body limit (body i) in_progress n s.service.now
                    s.service.store ours lt reach;
              once = omega (arith, fresh.unprocessed);
              free = λ j ours_j e. fresh.unprocessed;
              single = λ j l ours_j ours_l e f. sym (first j ours_j e) ∙ first l ours_l f;
            }))
        where
          first :
              (j : ℕ)
              → IsOurs R settings safe k body limit j
              → moved R s.phase i processing j ≡ processing
              → i ≡ j
          first j ours_j e = elim (Bool-cases (eqb i j)) [
            | inl same ↦ ground arith
            | inr ne ↦
                absurd
                  (subst (IsIdle R settings safe k body limit) (rw ne at e) (fresh.idle j ours_j))
          ]
      arrived-IsOrderly s i declines ours below reach (inr c) =
          let taken : is_some
                (R.get s.service.now (redis_key (body i).idempotency_key) s.service.store)
              ≡ true =
            rw ours (c.set s.service.now below) in
          rw
            (
              advance-arrived R settings safe declines (body i) s.service,
              claim-taken R settings safe (body i) s.service taken,
            )
            (quiet-IsOrderly R settings safe k body limit s i (waiting attempts) s.service tt refl
              refl (inr c))

      -- The claim is processed, and no other request is free to process it again.
      process-IsOrderly :
          (s : System R) (i : ℕ) (v : Service R) (r : Stored)
          → IsOurs R settings safe k body limit i
          → s.phase i ≡ processing
          → v.store ≡ s.service.store
          → v.processed ≡ (body i).idempotency_key ∷ s.service.processed
          → IsOrderly R settings safe k body limit s
          → IsOrderly R settings safe k body limit
              (after R settings safe k body limit s i (storing r) v)
      process-IsOrderly s i v r ours e store keys (inl fresh) =
          absurd (subst (IsIdle R settings safe k body limit) e (fresh.idle i ours))
      process-IsOrderly s i v r ours e store keys (inr c) = inr (record {
        set = λ n lt. ap (λ x. is_some (R.get n (redis_key k) x)) store ∙ c.set n lt;
        once = rw (keys, ours) (unfold times in rw (eq_refl k) (omega (arith, c.free i ours e)));
        free = λ j ours_j f. absurd (alone j ours_j f);
        single = λ j l ours_j ours_l f g. absurd (alone j ours_j f);
      })
        where
          alone :
              (j : ℕ)
              → IsOurs R settings safe k body limit j
              → ¬ (moved R s.phase i (storing r) j ≡ processing)
          alone j ours_j f =
              let (theirs, ne) =
                still R settings safe k body limit s i j (storing r) (inr (r, refl)) f in
              let same : i ≡ j = c.single i j ours ours_j e theirs in ground arith

      poll-IsIdle :
          (n : ℕ) (b : ChargeRequest) (o : Option Stored) (v : Service R)
          → IsIdle R settings safe k body limit (poll R settings n b o v).0
      unfolding poll
      poll-IsIdle n b none v = tt
      poll-IsIdle n b (some in_progress) v = tt
      poll-IsIdle n b (some (success o a c t)) v = tt
      poll-IsIdle n b (some (declined c m)) v = tt

      -- A request about the key goes on from its phase `p`.
      advance-IsOrderly :
          (s : System R) (i : ℕ) (declines : Bool) (p : Phase)
          → s.phase i ≡ p
          → IsOurs R settings safe k body limit i
          → s.service.now < limit
          → limit ≤ until R settings safe k body limit s.service
          → IsOrderly R settings safe k body limit s
          → let (q, v) = advance R settings declines (body i) p s.service in
            IsOrderly R settings safe k body limit (after R settings safe k body limit s i q v)
      advance-IsOrderly s i declines arrived e ours below reach h =
          arrived-IsOrderly s i declines ours below reach h
      advance-IsOrderly s i true processing e ours below reach h =
          unfold advance in process-IsOrderly s i _ _ ours e refl refl h
      advance-IsOrderly s i false processing e ours below reach h =
          unfold advance in process-IsOrderly s i _ _ ours e refl refl h
      advance-IsOrderly s i declines (storing r) e ours below reach (inl fresh) =
          absurd (subst (IsIdle R settings safe k body limit) e (fresh.idle i ours))
      advance-IsOrderly s i declines (storing r) e ours below reach (inr c) =
          unfold advance in
          inr (
            keep-IsClaimed R settings safe k body limit s i _ _ (inl tt)
              (λ n lt.
                written R settings safe k body limit (body i) r n s.service.now s.service.store ours
                  lt reach)
              refl c)
      advance-IsOrderly s i declines (waiting zero) e ours below reach h =
          unfold advance in quiet-IsOrderly R settings safe k body limit s i _ _ tt refl refl h
      advance-IsOrderly s i declines (waiting (suc m)) e ours below reach h =
          let o = R.get s.service.now (redis_key (body i).idempotency_key) s.service.store in
          let (stores, keys) = poll-service R settings safe m (body i) o s.service in
          unfold advance in
          quiet-IsOrderly R settings safe k body limit s i _ _ (poll-IsIdle m (body i) o s.service)
            stores keys h
      advance-IsOrderly s i declines (answered r) e ours below reach h =
          unfold advance in quiet-IsOrderly R settings safe k body limit s i _ _ tt refl refl h

      poll-now :
          (n : ℕ) (b : ChargeRequest) (o : Option Stored) (v : Service R)
          → (poll R settings n b o v).1.now ≡ v.now
      unfolding poll
      poll-now n b none v = refl
      poll-now n b (some in_progress) v = refl
      poll-now n b (some (success o a c t)) v = refl
      poll-now n b (some (declined c m)) v = refl

      claim-now : (b : ChargeRequest) (v : Service R) → (claim R settings b v).1.now ≡ v.now
      unfolding claim
      claim-now b v = refl

      pub advance-now :
          (declines : Bool) (b : ChargeRequest) (p : Phase) (v : Service R)
          → (advance R settings declines b p v).1.now ≡ v.now
      advance-now declines b arrived v =
          rw (advance-arrived R settings safe declines b v) (claim-now b v)
      advance-now true b processing v = unfold advance in refl
      advance-now false b processing v = unfold advance in refl
      advance-now declines b (storing r) v = unfold advance in refl
      advance-now declines b (waiting zero) v = unfold advance in refl
      advance-now declines b (waiting (suc n)) v =
          unfold advance in poll-now n b (R.get v.now (redis_key b.idempotency_key) v.store) v
      advance-now declines b (answered r) v = unfold advance in refl

      turn-IsOrderly :
          (s : System R) (i : ℕ) (declines : Bool)
          → s.service.now < limit
          → limit ≤ until R settings safe k body limit s.service
          → IsOrderly R settings safe k body limit s
          → IsOrderly R settings safe k body limit (turn R settings body i declines s)
      turn-IsOrderly s i declines below reach h = elim (Text-cases (body i).idempotency_key k) [
        | inl (ours, t) ↦
            unfold turn in advance-IsOrderly s i declines (s.phase i) refl ours below reach h
        | inr (ne, t) ↦ turn-other R settings safe k body limit i declines s t h
      ]

      IsOrderly-initial :
          (start : ℕ) → IsOrderly R settings safe k body limit (initial R settings body start)
      IsOrderly-initial start = inl (record {
        unset = λ n. R.get-empty n (redis_key k);
        unprocessed = unfold times in refl;
        idle = λ i ours. tt;
      })

      -- While the limit has not passed, the system is orderly and its clock has not gone back.
      Reach-IsOrderly :
          (start : ℕ)
          → limit ≡ start + settings.idempotency_ttl_seconds
          → {s : System R} → Reach R settings body (initial R settings body start) s
          → s.service.now < limit
          → IsOrderly R settings safe k body limit s × (start ≤ s.service.now)
      Reach-IsOrderly start e here below = (IsOrderly-initial start, omega arith)
      Reach-IsOrderly start e (next r (go i declines s)) below =
          let same : (turn R settings body i declines s).service.now ≡ s.service.now =
            unfold turn in advance-now declines (body i) (s.phase i) s.service in
          let before : s.service.now < limit = omega (arith, same) in
          let (orderly, since) = Reach-IsOrderly start e r before in
          (turn-IsOrderly s i declines before (omega arith) orderly, omega (arith, same))
      Reach-IsOrderly start e (next r (tick d s)) below =
          let before : s.service.now < limit = omega arith in
          let (orderly, since) = Reach-IsOrderly start e r before in
          (ticked d s orderly, omega arith)
        where
          ticked :
              (d : ℕ) (s : System R)
              → IsOrderly R settings safe k body limit s
              → IsOrderly R settings safe k body limit (later R settings body d s)
          ticked d s (inl f) =
              inl (record { unset = f.unset; unprocessed = f.unprocessed; idle = f.idle })
          ticked d s (inr c) =
              inr (record { set = c.set; once = c.once; free = c.free; single = c.single })

      IsOrderly-once :
          (s : System R)
          → IsOrderly R settings safe k body limit s
          → times k s.service.processed ≤ 1
      IsOrderly-once s (inl fresh) = omega (arith, fresh.unprocessed)
      IsOrderly-once s (inr c) = c.once

-- In safe mode, however many requests come with a key, in whatever order they and the clock go on,
-- `_process_charge` runs at most once for that key until the claim's time to live has passed since the
-- service started with an empty store: nobody is charged twice.
pub processed_at_most_once :
    (R : Redis Stored) (settings : Settings) (body : ℕ → ChargeRequest) (start : ℕ) {s : System R}
    (k : String)
    → settings.unsafe_idempotency_mode ≡ false
    → Reach R settings body (initial R settings body start) s
    → s.service.now < start + settings.idempotency_ttl_seconds
    → times k s.service.processed ≤ 1
processed_at_most_once R settings body start {s} k safe r below =
    let limit = start + settings.idempotency_ttl_seconds in
    IsOrderly-once R settings safe k body limit s
      (Reach-IsOrderly R settings safe k body limit start refl r below).0
