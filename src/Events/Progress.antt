-- ===== src/Events/Progress.antt =====
-- No message blocks the partition: every one is handled, or tried as often as allowed and set aside.
use ecommerce_services.Common.{
  ℕ, zero, suc, ◌+◌, ◌-◌, ◌*◌, ◌≤◌, ◌<◌, String, Option, none, some, List, [], ◌∷◌, ◌++◌, length,
  ◌≡◌, refl, sym, ap, subst, ◌∙◌, arith, leb, true, false, Option-cases, inl, inr, append_assoc,
  append-nil, length-append,
}
use native.Mathlib.Nat.{suc-add, zero-add, suc-mul}
use ecommerce_services.Events.Reference.{
  aside, tried, tried-zero, tried-returns, tried-raises, reference,
}
use ecommerce_services.Events.Consumer.{
  message_at, Consumer, Point, polling, handled, poll, fail, advance, advances, retried,
}

pub message_at-append :
    {M : Type 0} (past : List M) (m : M) (ms : List M)
    → message_at (length past) (past ++ m ∷ ms) ≡ some m
unfolding message_at
message_at-append [] m ms = refl
message_at-append (x ∷ past) m ms = message_at-append past m ms

abbrev pub started : {M D : Type 0} → D → Point M × Consumer M D
started d =
    (polling, record { position = 0; committed = 0; retry_counts = λ _. 0; dlq = []; kept = d })

module _ {M D : Type 0} (max_attempts : ℕ) (handle : M → D → Option String × D) (log : List M) where
  abbrev Run : ℕ → Point M × Consumer M D → Point M × Consumer M D
  Run = advances max_attempts handle log

  pub advances-add : (a b : ℕ) (s : Point M × Consumer M D) → Run (a + b) s ≡ Run b (Run a s)
  unfolding advances
  advances-add zero b s = rw zero-add
  advances-add (suc a) b s = rw suc-add (advances-add a b (advance max_attempts handle log s))

  -- Before a poll, with nothing counted for later offsets.
  abbrev pub IsReady : Consumer M D → Type 0
  IsReady c = (c.committed ≡ c.position) × ((q : ℕ) → c.position < q → c.retry_counts q ≡ 0)

  -- Before the poll of an offset, with nothing counted for it, and with these data and this queue.
  abbrev pub IsPast : ℕ → D × List (M × String) → Point M × Consumer M D → Type 0
  IsPast p (d, dlq) (point, c) =
      (point ≡ polling)
      × (c.position ≡ p)
      × IsReady c
      × (c.retry_counts p ≡ 0)
      × (c.kept ≡ d)
      × (c.dlq ≡ dlq)

  -- The poll and the call of the handler.
  Run-handled :
      (n : ℕ) (m : M) (c : Consumer M D)
      → message_at c.position log ≡ some m
      → Run (suc (suc n)) (polling, c)
        ≡ Run n (
          handled c.position m (handle m c.kept).0,
          record c { position = c.position + 1; kept = (handle m c.kept).1 },
        )
  unfolding advances advance
  Run-handled n m c found = ap (λ x. Run n (advance max_attempts handle log (poll x c))) found

  -- A call that returns, and the commit.
  Run-commit :
      (m : M) (c : Consumer M D) (d : D)
      → message_at c.position log ≡ some m
      → IsReady c
      → handle m c.kept ≡ (none, d)
      → IsPast (suc c.position) (d, c.dlq) (Run 3 (polling, c))
  unfolding advances advance
  Run-commit m c d found (done, later) h =
      rw (Run-handled 1 m c found, h)
        (
          refl,
          omega arith,
          (refl, λ q lt. ground (arith, later q (omega arith))),
          ground (arith, later (suc c.position) (omega arith)),
          refl,
          refl,
        )

  -- A call that raises for the last time, the dead-letter queue, and the commit.
  Run-aside :
      (m : M) (c : Consumer M D) (exc : String) (d : D)
      → message_at c.position log ≡ some m
      → IsReady c
      → handle m c.kept ≡ (some exc, d)
      → max_attempts ≤ c.retry_counts c.position + 1
      → IsPast (suc c.position) (d, c.dlq ++ (m, exc) ∷ []) (Run 4 (polling, c))
  unfolding advances advance fail
  Run-aside m c exc d found (done, later) h full =
      let t : leb max_attempts (c.retry_counts c.position + 1) ≡ true = ground (arith, full) in
      rw (Run-handled 2 m c found, h, t)
        (
          refl,
          omega arith,
          (refl, λ q lt. ground (arith, later q (omega arith))),
          ground (arith, later (suc c.position) (omega arith)),
          refl,
          refl,
        )

  -- A call that raises and leaves attempts, and the seek back.
  abbrev failed_once : Consumer M D → D → Consumer M D
  failed_once c d = record c {
    retry_counts = retried c.position (c.retry_counts c.position + 1) c.retry_counts;
    kept = d;
  }

  Run-seek :
      (n : ℕ) (m : M) (c : Consumer M D) (exc : String) (d : D)
      → message_at c.position log ≡ some m
      → handle m c.kept ≡ (some exc, d)
      → c.retry_counts c.position + 1 < max_attempts
      → Run (suc (suc (suc n))) (polling, c) ≡ Run n (polling, failed_once c d)
  unfolding advances advance fail
  Run-seek n m c exc d found h more =
      let f : leb max_attempts (c.retry_counts c.position + 1) ≡ false = ground (arith, more) in
      Run-handled (suc n) m c found ∙ rw (h, f) refl

  -- Some number of steps, with a bound on it, commits a message with what the reference makes of it.
  abbrev Handles : ℕ → M → Consumer M D → Option String × D → Type 0
  Handles bound m c (error, d) =
      (n : ℕ) × (n ≤ bound) × IsPast (suc c.position) (d, aside m error c.dlq) (Run n (polling, c))

  -- A message, with the attempts that it has left.
  one_message :
      (retries : ℕ) (m : M) (c : Consumer M D)
      → message_at c.position log ≡ some m
      → IsReady c
      → c.retry_counts c.position + suc retries ≡ max_attempts
      → Handles (3 * suc retries + 1) m c (tried handle retries m c.kept)
  one_message zero m c found ready left =
      let (error, d) = handle m c.kept in
      elim (Option-cases error) [
        | inl e ↦
            let h : handle m c.kept ≡ (none, d) = ap (λ x. (x, d)) e in
            subst (Handles 4 m c) (sym (tried-zero handle m c.kept ∙ h))
              (3, omega arith, Run-commit m c d found ready h)
        | inr (exc, e) ↦
            let h : handle m c.kept ≡ (some exc, d) = ap (λ x. (x, d)) e in
            subst (Handles 4 m c) (sym (tried-zero handle m c.kept ∙ h))
              (4, omega arith, Run-aside m c exc d found ready h (omega (arith, left)))
      ]
  one_message (suc retries) m c found (done, later) left =
      let (error, d) = handle m c.kept in
      let bound = 3 * suc (suc retries) + 1 in
      elim (Option-cases error) [
        | inl e ↦
            let h : handle m c.kept ≡ (none, d) = ap (λ x. (x, d)) e in
            subst (Handles bound m c) (sym (tried-returns handle retries m c.kept d h))
              (3, omega arith, Run-commit m c d found (done, later) h)
        | inr (exc, e) ↦
            let h : handle m c.kept ≡ (some exc, d) = ap (λ x. (x, d)) e in
            let (n, le, past) =
              one_message retries m (failed_once c d) found
                (done, λ q lt. ground (arith, later q lt)) (ground (arith, left)) in
            let (error', d') = tried handle retries m d in
            subst (Handles bound m c) (sym (tried-raises handle retries m c.kept d exc h)) (
              suc (suc (suc n)),
              omega (arith, le),
              subst (IsPast (suc c.position) (d', aside m error' c.dlq))
                  (sym (Run-seek n m c exc d found h (omega (arith, left)))) past,
            )
      ]

  -- The rest of the log, message by message.
  pub drain :
      (retries : ℕ) (past rest : List M) (c : Consumer M D)
      → log ≡ past ++ rest
      → suc retries ≡ max_attempts
      → c.position ≡ length past
      → IsReady c
      → c.retry_counts c.position ≡ 0
      → (n : ℕ) × (n ≤ length rest * (3 * max_attempts + 1))
        × IsPast (length log) (reference handle retries rest c.kept c.dlq) (Run n (polling, c))
  unfolding advances reference
  drain retries past [] c all allowed at ready fresh =
      let end : c.position ≡ length log = at ∙ ap length {x = past} (sym (all ∙ append-nil past)) in
      (0, omega arith, (refl, end, ready, ap c.retry_counts (sym end) ∙ fresh, refl, refl))
  drain retries past (m ∷ ms) c all allowed at ready fresh =
      let found : message_at c.position log ≡ some m =
        ap (λ p. message_at p log) at
        ∙ ap (message_at (length past)) all
        ∙ message_at-append past m ms in
      let (error, d) = tried handle retries m c.kept in
      let (n, le, first) = one_message retries m c found ready (omega (arith, fresh, allowed)) in
      let (polls, on, ready', fresh', kept, dlq) = first in
      let c' : Consumer M D = (Run n (polling, c)).1 in
      let (n', le', end) =
        drain retries (past ++ m ∷ []) ms c' (all ∙ sym (append_assoc past (m ∷ []) ms)) allowed
          (omega (arith, on, at, length-append past (m ∷ []))) ready'
          (ap c'.retry_counts on ∙ fresh') in
      (
        n + n',
        omega (arith, le, le', suc-mul (length ms) (3 * max_attempts + 1), allowed),
        subst (IsPast (length log) (reference handle retries ms d (aside m error c.dlq)))
            (sym (advances-add n n' (polling, c) ∙ ap (λ point. Run n' (point, c')) polls))
            (subst
              (λ (x : D × List (M × String)).
                IsPast (length log) (reference handle retries ms x.0 x.1) (Run n' (polling, c')))
              (λ i. (kept i, dlq i)) end),
      )

  -- Where at least one attempt is allowed, whatever the handler does, a consumer that starts at the
  -- beginning of the log is, some number of steps later, at its end: it has committed every offset, and
  -- its data and its dead-letter queue are those of the reference, which takes the messages in order,
  -- calls the handler for each until it returns, at most as often as is allowed, and puts a message
  -- whose last call has raised, with the text of that error, into the queue. The steps are at most three
  -- for each allowed attempt and one, for each message.
  pub advances-Drains :
      (d : D)
      → 1 ≤ max_attempts
      → (n : ℕ) × (n ≤ length log * (3 * max_attempts + 1))
        × (let (point, c) = advances max_attempts handle log n (started d) in
            (point ≡ polling)
            × (c.committed ≡ length log)
            × ((c.kept, c.dlq) ≡ reference handle (max_attempts - 1) log d []))
  advances-Drains d allowed =
      let (n, le, (polls, on, (done, later), fresh, kept, dlq)) =
        drain (max_attempts - 1) [] log (started d).1 refl (omega (arith, allowed)) refl
          (refl, λ q lt. refl) refl in
      (n, le, (polls, done ∙ on, λ i. (kept i, dlq i)))
