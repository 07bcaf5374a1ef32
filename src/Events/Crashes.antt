-- ===== src/Events/Crashes.antt =====
-- run_consumer with crashes at any point of its loop: what a committed offset says of its message.
use ecommerce_services.Common.{
  ℕ, zero, suc, ◌+◌, ◌-◌, ◌*◌, ◌≤◌, ◌<◌, String, Option, none, some, List, [], ◌∷◌, ◌++◌, length,
  ◌≡◌, refl, sym, ap, subst, ◌∙◌, arith, leb, Bool-cases, inl, inr, Option-cases, eqb, take, drop,
  take-append-drop, length-take, length-drop,
}
use ecommerce_services.Events.Consumer.{
  message_at, Consumer, Point, polling, received, handled, sent, commit, fail, advance, advances,
  restart, retried,
}
use ecommerce_services.Events.Progress.{started, drain}
use ecommerce_services.Events.Settled.{
  Calls, watched, Has, HasFailed, IsSettled, HasFailed-more, HasFailed-fewer, IsSettled-call,
  IsSettled-queue,
}

-- One step of the loop, or a crash and the restart of the service.
pub data Turn : Type 0 where
  step crash : Turn

message_at_lt : {M : Type 0} (p : ℕ) (l : List M) (m : M) → message_at p l ≡ some m → p < length l
unfolding message_at
message_at_lt p [] m found = absurd (cc)
message_at_lt zero (x ∷ l) m found = omega arith
message_at_lt (suc p) (x ∷ l) m found = omega (arith, message_at_lt p l m found)

module _ {M D : Type 0} (max_attempts : ℕ) (handle : M → D → Option String × D) (log : List M) where
  abbrev State : Type 0
  State = Point M × Consumer M (D × Calls M)

  unfoldable pub take_turns : List Turn → State → State
  take_turns [] s = s
  take_turns (step ∷ ts) s = take_turns ts (advance max_attempts (watched handle) log s)
  take_turns (crash ∷ ts) s = take_turns ts (restart s)

  abbrev IsDone : Consumer M (D × Calls M) → Type 0
  IsDone c =
      (p : ℕ) (m : M)
      → p < c.committed
      → message_at p log ≡ some m
      → IsSettled max_attempts c.kept.1 c.dlq m

  abbrev IsCounted : Consumer M (D × Calls M) → Type 0
  IsCounted c =
      (q : ℕ) (m : M) → message_at q log ≡ some m → HasFailed (c.retry_counts q) m c.kept.1

  -- A message has been read, and its offset is the next to be committed.
  abbrev IsAt : ℕ → M → Consumer M (D × Calls M) → Type 0
  IsAt offset m c =
      (c.committed ≡ offset) × (message_at offset log ≡ some m) × (c.position ≡ offset + 1)

  abbrev IsWhere : State → Type 0
  IsWhere (polling, c) = c.position ≡ c.committed
  IsWhere (received o m, c) = IsAt o m c
  IsWhere (handled o m none, c) = IsAt o m c × Has (m, none) c.kept.1
  IsWhere (handled o m (some exc), c) =
      IsAt o m c × HasFailed (c.retry_counts o + 1) m c.kept.1 × Has (m, some exc) c.kept.1
  IsWhere (sent o m, c) = IsAt o m c × IsSettled max_attempts c.kept.1 c.dlq m

  abbrev IsSafe : State → Type 0
  IsSafe s = IsDone s.1 × IsCounted s.1 × (s.1.committed ≤ length log) × IsWhere s

  same : (o : ℕ) (m m' : M) → message_at o log ≡ some m → message_at o log ≡ some m' → m ≡ m'
  same o m m' found found' = cc

  -- The count of one offset is written.
  counted_at :
      (o n : ℕ) (m : M) (c : Consumer M (D × Calls M))
      → IsCounted c
      → message_at o log ≡ some m
      → HasFailed n m c.kept.1
      → (q : ℕ) (m' : M) → message_at q log ≡ some m'
      → HasFailed (retried o n c.retry_counts q) m' c.kept.1
  counted_at o n m c counted found tries q m' found' = elim (Bool-cases (eqb q o)) [
    | inl t ↦
        let e : q ≡ o = ground (arith, t) in
        rw t (
          subst (λ x. HasFailed n x c.kept.1)
            (same o m m' found (ap (λ p. message_at p log) (sym e) ∙ found')) tries)
    | inr f ↦ rw f (counted q m' found')
  ]

  commit-IsSafe :
      (o : ℕ) (m : M) (c : Consumer M (D × Calls M))
      → IsDone c
      → IsCounted c
      → IsAt o m c
      → IsSettled max_attempts c.kept.1 c.dlq m
      → IsSafe (polling, commit o c)
  commit-IsSafe o m c done counted (next, found, after) settled = (
    λ p m' lt found'. elim (Bool-cases (eqb p o)) [
      | inl t ↦
          let e : p ≡ o = ground (arith, t) in
          subst (IsSettled max_attempts c.kept.1 c.dlq)
            (same o m m' found (ap (λ p. message_at p log) (sym e) ∙ found')) settled
      | inr f ↦ done p m' (ground (arith, f, lt, next)) found'
    ],
    counted_at o 0 m c counted found tt,
    omega (arith, message_at_lt o log m found),
    after,
  )

  received-IsWhere :
      (o : ℕ) (m : M) (c : Consumer M (D × Calls M))
      → IsCounted c
      → IsAt o m c
      → (d : D) (error : Option String)
      → IsWhere (handled o m error, record c { kept = (d, c.kept.1 ++ (m, error) ∷ []) })
  received-IsWhere o m c counted at d none = (at, (c.kept.1, [], refl))
  received-IsWhere o m c counted at d (some exc) = (
    at,
    subst (λ k. HasFailed k m (c.kept.1 ++ (m, some exc) ∷ [])) {x = suc (c.retry_counts o)}
        (omega arith) (exc, c.kept.1, [], refl, counted o m at.1),
    (c.kept.1, [], refl),
  )

  advance-IsSafe : (s : State) → IsSafe s → IsSafe (advance max_attempts (watched handle) log s)
  unfolding advance fail
  advance-IsSafe (polling, c) (done, counted, within, at) =
      elim (Option-cases (message_at c.position log)) [
        | inl gone ↦ rw gone (done, counted, within, at)
        | inr (m, found) ↦ rw found (done, counted, within, (sym at, found, refl))
      ]
  advance-IsSafe (received o m, c) (done, counted, within, at) =
      let error = (handle m c.kept.0).0 in
      (
        λ p m' lt found.
            IsSettled-call max_attempts c.kept.1 c.dlq (m, error) m' (done p m' lt found),
        λ q m' found. HasFailed-more (c.retry_counts q) m' (m, error) c.kept.1 (counted q m' found),
        within,
        received-IsWhere o m c counted at (handle m c.kept.0).1 error,
      )
  advance-IsSafe (handled o m none, c) (done, counted, within, (at, has)) =
      commit-IsSafe o m c done counted at (inl has)
  advance-IsSafe (handled o m (some exc), c) (done, counted, within, (at, tries, has)) =
      let full = leb max_attempts (c.retry_counts o + 1) in
      elim (Bool-cases full) [
        | inl t ↦ rw t (
          λ p m' lt found.
              IsSettled-queue max_attempts c.kept.1 c.dlq (m, exc) m' (done p m' lt found),
          counted_at o (c.retry_counts o + 1) m c counted at.1 tries,
          within,
          (
            at,
            inr (
              exc,
              (c.dlq, [], refl),
              has,
              HasFailed-fewer max_attempts (c.retry_counts o + 1) m c.kept.1 (ground (arith, t))
                  tries,
            ),
          ),
        )
        | inr f ↦
            rw f
              (done, counted_at o (c.retry_counts o + 1) m c counted at.1 tries, within, sym at.0)
      ]
  advance-IsSafe (sent o m, c) (done, counted, within, (at, settled)) =
      commit-IsSafe o m c done counted at settled

  restart-IsSafe : (s : State) → IsSafe s → IsSafe (restart s)
  unfolding restart
  restart-IsSafe (point, c) (done, counted, within, at) = (done, λ q m found. tt, within, refl)

  take_turns-IsSafe : (ts : List Turn) (s : State) → IsSafe s → IsSafe (take_turns ts s)
  unfolding take_turns
  take_turns-IsSafe [] s h = h
  take_turns-IsSafe (step ∷ ts) s h =
      take_turns-IsSafe ts (advance max_attempts (watched handle) log s) (advance-IsSafe s h)
  take_turns-IsSafe (crash ∷ ts) s h = take_turns-IsSafe ts (restart s) (restart-IsSafe s h)

  advances-IsSafe :
      (n : ℕ) (s : State) → IsSafe s → IsSafe (advances max_attempts (watched handle) log n s)
  unfolding advances
  advances-IsSafe zero s h = h
  advances-IsSafe (suc n) s h =
      advances-IsSafe n (advance max_attempts (watched handle) log s) (advance-IsSafe s h)

  started-IsSafe : (d : D) → IsSafe (started (d, []))
  started-IsSafe d =
      (λ p m lt found. absurd (omega (arith, lt)), λ q m found. tt, omega arith, refl)

  -- Where at least one attempt is allowed, whatever the handler does, over any sequence of steps of the
  -- loop and of crashes, each between any two steps, from the beginning of the log: a message whose
  -- offset is committed is settled. That is, a call of the handler for it has returned; or the message
  -- is in the dead-letter queue, with the text that a call for it has raised, and at least as many
  -- calls for it as are allowed have raised. And after a restart some number of steps, at most three for each
  -- allowed attempt and one for each message that is not committed, commit the whole log, so that every
  -- message of it is settled: a crash loses none.
  pub crashes_lose_nothing :
      (ts : List Turn) (d : D)
      → 1 ≤ max_attempts
      → let s = take_turns ts (started (d, [])) in
        ((p : ℕ) (m : M)
          → p < s.1.committed
          → message_at p log ≡ some m
          → IsSettled max_attempts s.1.kept.1 s.1.dlq m)
        × (n : ℕ) × (n ≤ (length log - s.1.committed) * (3 * max_attempts + 1))
        × (let (point, c) = advances max_attempts (watched handle) log n (restart s) in
            (c.committed ≡ length log)
            × ((p : ℕ) (m : M)
                → message_at p log ≡ some m
                → IsSettled max_attempts c.kept.1 c.dlq m))
  unfolding restart
  crashes_lose_nothing ts d allowed =
      let s = take_turns ts (started (d, [])) in
      let safe = take_turns-IsSafe ts (started (d, [])) (started-IsSafe d) in
      let p = s.1.committed in
      let (n, le, (polls, on, (all, later), fresh, kept, dlq)) =
        drain max_attempts (watched handle) log (max_attempts - 1) (take p log) (drop p log)
          (restart s).1 (sym (take-append-drop p log)) (omega (arith, allowed))
          (omega (arith, length-take p log, safe.2)) (refl, λ q lt. refl) refl in
      let end = advances-IsSafe n (restart s) (restart-IsSafe s safe) in
      (
        safe.0,
        n,
        subst (λ k. n ≤ k * (3 * max_attempts + 1)) (length-drop p log) le,
        (
          all ∙ on,
          λ q m found. end.0 q m (omega (arith, all, on, message_at_lt q log m found)) found,
        ),
      )
