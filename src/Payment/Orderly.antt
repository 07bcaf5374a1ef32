-- ===== src/Payment/Orderly.antt =====
-- The invariant of one key in safe mode: nobody has claimed it, or it is claimed and one request at
-- most is free to process it.
use ecommerce_services.Common.{
  ℕ, ◌+◌, ◌≤◌, ◌<◌, String, Bool, true, false, none, ◌≡◌, sym, ap, subst, ◌∙◌, ◌⊎◌, inl, inr, arith,
  ◌==◌, eqb, Bool-cases, eq_iff, eq_refl, lt→ltb,
}
use ecommerce_services.Common.Redis.{Redis, is_some}
use ecommerce_services.Payment.Defs.{ChargeRequest, Stored, Settings, Service, redis_key}
use ecommerce_services.Payment.Charge.{Phase, processing, storing}
use ecommerce_services.Payment.Concurrent.{times, System, moved, turn}
use ecommerce_services.Payment.Access.{read, advance-other}

module _ (R : Redis Stored) (settings : Settings)
    (safe : settings.unsafe_idempotency_mode ≡ false) where
  module _ (k : String) where
    module _ (body : ℕ → ChargeRequest) (limit : ℕ) where
      -- Request `i` is about the key.
      abbrev pub IsOurs : ℕ → Type 0
      IsOurs i = (body i).idempotency_key ≡ k

      abbrev pub IsIdle : Phase → Type 0
      IsIdle processing = ⊥
      IsIdle (storing v) = ⊥
      IsIdle _ = Unit

      -- Nobody has claimed the key yet.
      pub record IsFresh (s : System R) : Type 0 where
        pub unset : (n : ℕ) → read R settings safe k n s.service ≡ none
        pub unprocessed : times k s.service.processed ≡ 0
        pub idle : (i : ℕ) → IsOurs i → IsIdle (s.phase i)

      -- The key is claimed until `limit`, and one request at most is free to process it.
      pub record IsClaimed (s : System R) : Type 0 where
        pub set : (n : ℕ) → n < limit → is_some (read R settings safe k n s.service) ≡ true
        pub once : times k s.service.processed ≤ 1
        pub free : (i : ℕ) → IsOurs i → s.phase i ≡ processing → times k s.service.processed ≡ 0
        pub single :
            (i j : ℕ)
            → IsOurs i
            → IsOurs j
            → s.phase i ≡ processing
            → s.phase j ≡ processing
            → i ≡ j

      abbrev pub IsOrderly : System R → Type 0
      IsOrderly s = IsFresh s ⊎ IsClaimed s

      pub other : (i j : ℕ) → ((body i).idempotency_key == k) ≡ false → IsOurs j → eqb i j ≡ false
      other i j e ours = elim (Bool-cases (eqb i j)) [
        | inr ne ↦ ne
        | inl same ↦
            let i≡j : i ≡ j = ground arith in
            let mine : (body i).idempotency_key ≡ k =
              ap (λ n. (body n).idempotency_key) i≡j ∙ ours in
            absurd (ground (arith, eq_iff (body i).idempotency_key k))
      ]

      unmoved :
          (f : ℕ → Phase) (i j : ℕ) (p : Phase) {q : Phase}
          → eqb i j ≡ false
          → moved R f i p j ≡ q
          → f j ≡ q
      unmoved f i j p ne e = rw ne at e

      -- A step of a request about another key.
      pub turn-other :
          (i : ℕ) (declines : Bool) (s : System R)
          → ((body i).idempotency_key == k) ≡ false
          → IsOrderly s
          → IsOrderly (turn R settings body i declines s)
      unfolding turn
      turn-other i declines s e (inl fresh) =
          let (reads, keys) =
            advance-other R settings safe k declines (body i) (s.phase i) s.service e in
          inl (record {
            unset = λ n. reads n ∙ fresh.unset n;
            unprocessed = keys ∙ fresh.unprocessed;
            idle = λ j ours. rw (other i j e ours) (fresh.idle j ours);
          })
      turn-other i declines s e (inr c) =
          let (reads, keys) =
            advance-other R settings safe k declines (body i) (s.phase i) s.service e in
          inr (record {
            set = λ n lt. ap is_some (reads n) ∙ c.set n lt;
            once = rw keys c.once;
            free = λ j ours p. keys ∙ c.free j ours (unmoved s.phase i j _ (other i j e ours) p);
            single = λ j l ours_j ours_l p q.
                c.single j l ours_j ours_l (unmoved s.phase i j _ (other i j e ours_j) p)
                  (unmoved s.phase i l _ (other i l e ours_l) q);
          })

      abbrev pub after : System R → ℕ → Phase → Service R → System R
      after s i p v = record { service = v; phase = moved R s.phase i p }

      -- A request that is processing after a step to another phase is not the one that stepped.
      pub still :
          (s : System R) (i j : ℕ) (p : Phase)
          → IsIdle p ⊎ ((v : Stored) × (p ≡ storing v))
          → moved R s.phase i p j ≡ processing
          → (s.phase j ≡ processing) × (eqb i j ≡ false)
      still s i j p not_processing e = elim (Bool-cases (eqb i j)) [
        | inr ne ↦ (rw ne at e, ne)
        | inl same ↦
            let e' : p ≡ processing = rw same at e in
            elim not_processing [
              | inl idle ↦ absurd (subst IsIdle e' idle)
              | inr (v, stored) ↦
                  let clash : storing v ≡ processing = sym stored ∙ e' in absurd (cc)
            ]
      ]

      IsIdle-after :
          (s : System R) (i j : ℕ) (p : Phase)
          → IsIdle p
          → IsIdle (s.phase j)
          → IsIdle (moved R s.phase i p j)
      IsIdle-after s i j p mine theirs = elim (Bool-cases (eqb i j)) [
        | inl same ↦ rw same mine
        | inr ne ↦ rw ne theirs
      ]

      -- The claimed key stays claimed under a step that ends in no `processing`.
      pub keep-IsClaimed :
          (s : System R) (i : ℕ) (p : Phase) (v : Service R)
          → IsIdle p ⊎ ((r : Stored) × (p ≡ storing r))
          → ((n : ℕ) → n < limit → is_some (read R settings safe k n v) ≡ true)
          → times k v.processed ≡ times k s.service.processed
          → IsClaimed s
          → IsClaimed (after s i p v)
      keep-IsClaimed s i p v phase there keys c = record {
        set = there;
        once = rw keys c.once;
        free = λ j ours e. keys ∙ c.free j ours (still s i j p phase e).0;
        single = λ j l ours_j ours_l e f.
            c.single j l ours_j ours_l (still s i j p phase e).0 (still s i l p phase f).0;
      }

      -- A step that writes nothing.
      pub quiet-IsOrderly :
          (s : System R) (i : ℕ) (p : Phase) (v : Service R)
          → IsIdle p
          → v.store ≡ s.service.store
          → v.processed ≡ s.service.processed
          → IsOrderly s
          → IsOrderly (after s i p v)
      quiet-IsOrderly s i p v phase store keys (inl fresh) = inl (record {
        unset = λ n. ap (λ x. R.get n (redis_key k) x) store ∙ fresh.unset n;
        unprocessed = ap (times k) keys ∙ fresh.unprocessed;
        idle = λ j ours. IsIdle-after s i j p phase (fresh.idle j ours);
      })
      quiet-IsOrderly s i p v phase store keys (inr c) = inr (
          keep-IsClaimed s i p v (inl phase)
            (λ n lt. ap (λ x. is_some (R.get n (redis_key k) x)) store ∙ c.set n lt)
            (ap (times k) keys) c)

      abbrev pub until : Service R → ℕ
      until s = s.now + settings.idempotency_ttl_seconds

      -- What a write under the key leaves there, as long as its time to live reaches the limit.
      pub written :
          (b : ChargeRequest) (v : Stored) (n t : ℕ) (s : R.Store)
          → b.idempotency_key ≡ k
          → n < limit
          → limit ≤ t + settings.idempotency_ttl_seconds
          → is_some (
              R.get n
                (redis_key k)
                (R.set_ex t (redis_key b.idempotency_key) v settings.idempotency_ttl_seconds s))
            ≡ true
      written b v n t s ours below reach = rw (
        ours,
        R.get-set_ex,
        eq_refl (redis_key k),
        lt→ltb n (t + settings.idempotency_ttl_seconds) (omega arith),
      )
