-- ===== src/Payment/Concurrent.antt =====
-- Any number of charge requests at once, in any interleaving, with time passing in between.
use ecommerce_services.Common.{ℕ, ◌+◌, String, Bool, List, [], ◌∷◌, ◌==◌, eqb, if◌then◌else◌}
use ecommerce_services.Common.Redis.{Redis}
use ecommerce_services.Payment.Defs.{ChargeRequest, Stored, Settings, Service}
use ecommerce_services.Payment.Charge.{Phase, arrived, advance}

-- How often `_process_charge` has run for a key.
unfoldable pub times : String → List String → ℕ
times k [] = 0
times k (j ∷ keys) = (if j == k then 1 else 0) + times k keys

module _ (R : Redis Stored) where
  pub record System : Type 0 where
    pub service : Service R
    pub phase : ℕ → Phase

  abbrev pub moved : (ℕ → Phase) → ℕ → Phase → ℕ → Phase
  moved f i p j = if eqb i j then p else f j

  module _ (settings : Settings) (body : ℕ → ChargeRequest) where
    -- Request `i` goes on to its next access, with a draw.
    unfoldable pub turn : ℕ → Bool → System → System
    turn i declines s =
        let (p, service) = advance R settings declines (body i) (s.phase i) s.service in
        record { service = service; phase = moved s.phase i p }

    abbrev pub later : ℕ → System → System
    later d s = record s { service = record s.service { now = s.service.now + d } }

    -- A step of the whole: one request goes on, or time passes.
    pub data Step : System → System → Type 0 where
      go : (i : ℕ) (declines : Bool) (s : System) → Step s (turn i declines s)
      tick : (d : ℕ) (s : System) → Step s (later d s)

    pub data Reach (s : System) : System → Type 0 where
      here : Reach s s
      next : {t u : System} → Reach s t → Step t u → Reach s u

    -- All requests arrive at a service that stores nothing yet.
    abbrev pub initial : ℕ → System
    initial start = record {
      service = record {
        store = R.empty;
        now = start;
        failures_total = 0;
        replays_total = 0;
        processed = [];
      };
      phase = λ _. arrived;
    }
