-- ===== src/Events/Consumer.antt =====
-- `run_consumer`, the same loop in app/consumer.py of services/notification-service and of
-- services/review-service, over one partition: its messages, in order, are `log`. `handle_event` is a
-- parameter: it changes the service's data and returns, or raises with a text. The loop is cut where a
-- crash can come: after the poll, after handle_event, and after the message is in the dead-letter queue.
use ecommerce_services.Common.{
  ℕ, zero, suc, ◌+◌, String, Option, none, some, List, [], ◌∷◌, ◌++◌, eqb, leb, if◌then◌else◌,
}

-- The message at an offset, if it has been produced.
unfoldable pub message_at {ℓ} : {A : Type ℓ} → ℕ → List A → Option A
message_at n [] = none
message_at zero (m ∷ log) = some m
message_at (suc n) (m ∷ log) = message_at n log

module _ (M D : Type 0) where
  pub record Consumer : Type 0 where
    -- The offset that the next poll reads, and the one that a restart would read.
    pub position : ℕ
    pub committed : ℕ
    -- `retry_counts`, by offset; an offset that is not in the dict counts 0.
    pub retry_counts : ℕ → ℕ
    -- The dead-letter queue: messages with the texts of their errors.
    pub dlq : List (M × String)
    pub kept : D

-- Where the loop is: before a poll; with a message and its offset, before handle_event; after it, with
-- the error that it has raised; after the message has been sent to the dead-letter queue.
pub data Point (M : Type 0) : Type 0 where
  polling : Point M
  received : ℕ → M → Point M
  handled : ℕ → M → Option String → Point M
  sent : ℕ → M → Point M

abbrev pub retried : ℕ → ℕ → (ℕ → ℕ) → ℕ → ℕ
retried offset n counts q = if eqb q offset then n else counts q

module _ {M D : Type 0} where
  -- `consumer.commit` of the message at an offset, and `retry_counts.pop`.
  abbrev pub commit : ℕ → Consumer M D → Consumer M D
  commit offset c = record c {
    committed = offset + 1;
    retry_counts = retried offset 0 c.retry_counts;
  }

  -- `consumer.poll`: a poll that returns nothing, or an error, changes nothing.
  abbrev pub poll : Option M → Consumer M D → Point M × Consumer M D
  poll none c = (polling, c)
  poll (some m) c = (received c.position m, record c { position = c.position + 1 })

  -- `_send_to_dlq`: the header of the message holds the first 1000 bytes of the text.
  abbrev pub send_to_dlq : M → String → Consumer M D → Consumer M D
  send_to_dlq m exc c = record c { dlq = c.dlq ++ (m, exc) ∷ [] }

  -- A crash and a restart: what was not committed is read again, the counts are lost.
  unfoldable pub restart : Point M × Consumer M D → Point M × Consumer M D
  restart (point, c) = (polling, record c { position = c.committed; retry_counts = λ _. 0 })

  module _ (max_processing_attempts : ℕ) where
    -- The `except` branch, up to the commit of a message that is set aside, or up to the seek back.
    unfoldable pub fail : ℕ → M → String → Consumer M D → Point M × Consumer M D
    fail offset m exc c =
        let attempts = c.retry_counts offset + 1 in
        let counts = retried offset attempts c.retry_counts in
        if leb max_processing_attempts attempts
        then (sent offset m, send_to_dlq m exc (record c { retry_counts = counts }))
        else (polling, record c { retry_counts = counts; position = offset })

    module _ (handle_event : M → D → Option String × D) (log : List M) where
      -- The loop up to the next point.
      unfoldable pub advance : Point M × Consumer M D → Point M × Consumer M D
      unfolding fail
      advance (polling, c) = poll (message_at c.position log) c
      advance (received offset m, c) =
          let (error, kept) = handle_event m c.kept in
          (handled offset m error, record c { kept = kept })
      advance (handled offset m none, c) = (polling, commit offset c)
      advance (handled offset m (some exc), c) = fail offset m exc c
      advance (sent offset m, c) = (polling, commit offset c)

      unfoldable pub advances : ℕ → Point M × Consumer M D → Point M × Consumer M D
      advances zero s = s
      advances (suc n) s = advances n (advance s)
