-- ===== src/Payment/Settling.antt =====
-- One step of a charge request, by the stage of a key in safe mode.
use ecommerce_services.Common.{
  ℕ, ◌+◌, ◌≤◌, ◌<◌, String, Bool, true, false, some, ◌≡◌, refl, sym, ap, subst, ◌∙◌, inl, inr,
  arith, ◌==◌, eqb, Bool-cases, eq_refl, lt→ltb,
}
use ecommerce_services.Common.Redis.{Redis, is_some}
use ecommerce_services.Payment.Defs.{
  ChargeRequest, Stored, in_progress, Settings, Service, redis_key,
}
use ecommerce_services.Payment.Charge.{
  Phase, arrived, processing, storing, waiting, answered, advance, store_result, respond,
}
use ecommerce_services.Payment.Concurrent.{System, moved}
use ecommerce_services.Payment.Access.{claim-free, claimed, advance-arrived, advance-other}
use ecommerce_services.Payment.Orderly.{other}
use ecommerce_services.Payment.Stages.{
  IsResult, IsAtRest, IsBusy, advance-IsAtRest, IsOurs, IsUnclaimed, IsHeld, IsSettled, InStage,
  put, rest-moved, IsHeld-step, IsSettled-step, processed-step,
}

module _ (R : Redis Stored) (settings : Settings)
    (safe : settings.unsafe_idempotency_mode ≡ false) where
  module _ (k : String) (body : ℕ → ChargeRequest) (limit : ℕ) where
    abbrev Ours : ℕ → Type 0
    Ours = IsOurs R settings safe k body limit

    abbrev Held : ℕ → System R → Type 0
    Held = IsHeld R settings safe k body limit

    abbrev Settled : Stored → System R → Type 0
    Settled = IsSettled R settings safe k body limit

    abbrev pub Stage : System R → Type 0
    Stage = InStage R settings safe k body limit

    abbrev set : System R → ℕ → Phase × Service R → System R
    set = put R settings safe k body limit

    -- What a write under the key leaves there, as long as its time to live reaches the limit.
    reads_written :
        (b : ChargeRequest) (c : Stored) (n t : ℕ) (s : R.Store)
        → b.idempotency_key ≡ k
        → n < limit
        → limit ≤ t + settings.idempotency_ttl_seconds
        → R.get n
            (redis_key k)
            (R.set_ex t (redis_key b.idempotency_key) c settings.idempotency_ttl_seconds s)
          ≡ some c
    reads_written b c n t s ours below reach = rw (
      ours,
      R.get-set_ex,
      eq_refl (redis_key k),
      lt→ltb n (t + settings.idempotency_ttl_seconds) (omega arith),
    )

    -- Who is at rest before the result is there stays at rest when it is.
    resting : (c : Stored) (p : Phase) → IsAtRest k in_progress p → IsAtRest k c p
    resting c arrived h = tt
    resting c processing h = absurd h
    resting c (storing r) h = absurd h
    resting c (waiting n) h = tt
    resting c (answered r) (inl e) = inl e
    resting c (answered r) (inr (never, e)) = absurd never

    claim-step :
        (i : ℕ) (s : System R)
        → (body i).idempotency_key ≡ k
        → limit ≤ s.service.now + settings.idempotency_ttl_seconds
        → IsUnclaimed R settings safe k body limit s
        → Held i (set s i (processing, claimed R settings safe (body i) s.service))
    claim-step i s ours reach un = record {
      ours = ours;
      reads =
          λ n lt. reads_written (body i) in_progress n s.service.now s.service.store ours lt reach;
      busy = let same : eqb i i ≡ true = ground arith in rw same tt;
      others = λ j ours_j ne. rw (ne, un.all_arrived j ours_j) tt;
    }

    store-step :
        (h : ℕ) (r : Stored) (s : System R)
        → IsResult r
        → limit ≤ s.service.now + settings.idempotency_ttl_seconds
        → Held h s
        → Settled r (set s h (store_result R settings (body h) r s.service))
    unfolding store_result
    store-step h r s result reach held = record {
      result = result;
      reads = λ n lt. reads_written (body h) r n s.service.now s.service.store held.ours lt reach;
      all = λ j ours_j.
          rest-moved R settings safe k body limit r s.phase h j
            (answered (respond (body h).idempotency_key r))
            (inr (result, ap (λ i. respond i r) held.ours))
            (λ ne. resting r (s.phase j) (held.others j ours_j ne));
    }

    -- The next step of the request with phase `p`.
    abbrev pub step : System R → ℕ → Bool → Phase → System R
    step s i declines p = set s i (advance R settings declines (body i) p s.service)

    unclaimed-step :
        (i : ℕ) (declines : Bool) (s : System R)
        → (body i).idempotency_key ≡ k
        → limit ≤ s.service.now + settings.idempotency_ttl_seconds
        → IsUnclaimed R settings safe k body limit s
        → Stage (step s i declines arrived)
    unclaimed-step i declines s ours reach un =
        let unset : is_some
              (R.get s.service.now (redis_key (body i).idempotency_key) s.service.store)
            ≡ false =
          rw (ours, un.unset s.service.now) in
        rw
          (
            advance-arrived R settings safe declines (body i) s.service,
            claim-free R settings safe (body i) s.service unset,
          )
          (inr (inl (i, claim-step i s ours reach un)))

    holder-step :
        (h : ℕ) (declines : Bool) (p : Phase) (s : System R)
        → s.phase h ≡ p
        → IsBusy p
        → limit ≤ s.service.now + settings.idempotency_ttl_seconds
        → Held h s
        → Stage (step s h declines p)
    holder-step h true processing s e busy reach held =
        unfold advance in
        inr (inl (h, processed-step R settings safe k body limit h _ s _ tt refl held))
    holder-step h false processing s e busy reach held =
        unfold advance in
        inr (inl (h, processed-step R settings safe k body limit h _ s _ tt refl held))
    holder-step h declines (storing r) s e busy reach held =
        unfold advance in inr (inr (r, store-step h r s busy reach held))
    holder-step h declines arrived s e busy reach held = absurd busy
    holder-step h declines (waiting n) s e busy reach held = absurd busy
    holder-step h declines (answered r) s e busy reach held = absurd busy

    -- A request about the key goes on.
    pub ours-step :
        (i : ℕ) (declines : Bool) (s : System R)
        → (body i).idempotency_key ≡ k
        → s.service.now < limit
        → limit ≤ s.service.now + settings.idempotency_ttl_seconds
        → Stage s
        → Stage (step s i declines (s.phase i))
    ours-step i declines s ours below reach (inl un) =
        rw (un.all_arrived i ours) (unclaimed-step i declines s ours reach un)
    ours-step i declines s ours below reach (inr (inl (h, held))) = elim (Bool-cases (eqb h i)) [
      | inl same ↦
          let h≡i : h ≡ i = ground arith in
          subst (λ n. Stage (step s n declines (s.phase n))) h≡i
            (holder-step h declines (s.phase h) s refl held.busy reach held)
      | inr ne ↦
          let (rest, store) =
            advance-IsAtRest R settings safe declines (body i) in_progress (s.phase i) s.service
              (rw ours (held.reads s.service.now below))
              (subst (λ j. IsAtRest j in_progress (s.phase i)) (sym ours)
                (held.others i ours ne)) in
          inr (
            inl (
              h,
              IsHeld-step R settings safe k body limit h i s _ (ground arith)
                  (subst
                    (λ j.
                      IsAtRest j in_progress
                        (advance R settings declines (body i) (s.phase i) s.service).0)
                    ours rest)
                  store held,
            ))
    ]
    ours-step i declines s ours below reach (inr (inr (c, settled))) =
        let (rest, store) =
          advance-IsAtRest R settings safe declines (body i) c (s.phase i) s.service
            (rw ours (settled.reads s.service.now below))
            (subst (λ j. IsAtRest j c (s.phase i)) (sym ours) (settled.all i ours)) in
        inr (
          inr (
            c,
            IsSettled-step R settings safe k body limit c i s _
                (subst
                  (λ j. IsAtRest j c (advance R settings declines (body i) (s.phase i) s.service).0)
                  ours rest)
                store settled,
          ))

    -- A request about another key goes on.
    pub others-step :
        (i : ℕ) (declines : Bool) (s : System R)
        → ((body i).idempotency_key == k) ≡ false
        → Stage s
        → Stage (step s i declines (s.phase i))
    others-step i declines s e stage =
        let (p, v) = advance R settings declines (body i) (s.phase i) s.service in
        let (reads, keys) =
          advance-other R settings safe k declines (body i) (s.phase i) s.service e in
        let away : (j : ℕ) → Ours j → moved R s.phase i p j ≡ s.phase j =
          λ j ours. rw (other R settings safe k body limit i j e ours) in
        elim stage [
          | inl un ↦ inl (record {
            unset = λ n. reads n ∙ un.unset n;
            all_arrived = λ j ours. away j ours ∙ un.all_arrived j ours;
          })
          | inr (inl (h, held)) ↦ inr (
              inl (
                h,
                record {
                  ours = held.ours;
                  reads = λ n lt. reads n ∙ held.reads n lt;
                  busy = subst IsBusy (sym (away h held.ours)) held.busy;
                  others = λ j ours ne.
                      subst (IsAtRest k in_progress) (sym (away j ours)) (held.others j ours ne);
                },
              ))
          | inr (inr (c, settled)) ↦ inr (
              inr (
                c,
                record {
                  result = settled.result;
                  reads = λ n lt. reads n ∙ settled.reads n lt;
                  all = λ j ours. subst (IsAtRest k c) (sym (away j ours)) (settled.all j ours);
                },
              ))
        ]
