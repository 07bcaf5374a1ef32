-- ===== src/Events/Settled.antt =====
-- The calls of handle_event, written down beside the service's data, and what they say of a message.
use ecommerce_services.Common.{
  ℕ, zero, suc, ◌≤◌, String, Option, none, some, List, [], ◌∷◌, ◌++◌, ◌≡◌, ap, ◌∙◌, arith, inl, inr,
  ◌⊎◌, append_assoc,
}

-- The calls of the handler, in order, with the error that each has raised.
abbrev pub Calls : Type 0 → Type 0
Calls M = List (M × Option String)

abbrev pub watched :
    {M D : Type 0} → (M → D → Option String × D) → M → D × Calls M → Option String × (D × Calls M)
watched handle m (d, calls) =
    let (error, d') = handle m d in (error, (d', calls ++ (m, error) ∷ []))

abbrev pub Has : {A : Type 0} → A → List A → Type 0
Has {A} x l = (before : List A) × (after : List A) × (l ≡ before ++ x ∷ after)

-- That many calls for a message have raised.
abbrev pub HasFailed : {M : Type 0} → ℕ → M → Calls M → Type 0
HasFailed zero m calls = Unit
HasFailed {M} (suc k) m calls =
    (exc : String) × (before : Calls M) × (after : Calls M) × (calls
      ≡ before ++ (m, some exc) ∷ after)
    × HasFailed k m before

-- A call for the message has returned; or it is in the dead-letter queue, with the text that a call has
-- raised, and at least as many calls as are allowed have raised.
abbrev pub IsSettled : {M : Type 0} → ℕ → Calls M → List (M × String) → M → Type 0
IsSettled max_attempts calls dlq m =
    Has (m, none) calls
    ⊎ ((exc : String) × Has (m, exc) dlq × Has (m, some exc) calls × HasFailed max_attempts m calls)

pub Has-more : {A : Type 0} (x y : A) (l : List A) → Has x l → Has x (l ++ y ∷ [])
Has-more x y l (before, after, e) =
    (before, after ++ y ∷ [], ap (λ l. l ++ y ∷ []) e ∙ append_assoc before (x ∷ after) (y ∷ []))

pub HasFailed-more :
    {M : Type 0} (k : ℕ) (m : M) (y : M × Option String) (calls : Calls M)
    → HasFailed k m calls
    → HasFailed k m (calls ++ y ∷ [])
unfolding Has-more
HasFailed-more zero m y calls h = tt
HasFailed-more (suc k) m y calls (exc, before, after, e, h) =
    let (b, a, e') = Has-more (m, some exc) y calls (before, after, e) in (exc, b, a, e', h)

pub HasFailed-fewer :
    {M : Type 0} (j k : ℕ) (m : M) (calls : Calls M)
    → j ≤ k
    → HasFailed k m calls
    → HasFailed j m calls
HasFailed-fewer zero k m calls le h = tt
HasFailed-fewer (suc j) zero m calls le h = absurd (omega (arith, le))
HasFailed-fewer (suc j) (suc k) m calls le (exc, before, after, e, h) =
    (exc, before, after, e, HasFailed-fewer j k m before (omega (arith, le)) h)

pub IsSettled-call :
    {M : Type 0} (n : ℕ) (calls : Calls M) (dlq : List (M × String)) (y : M × Option String) (m : M)
    → IsSettled n calls dlq m
    → IsSettled n (calls ++ y ∷ []) dlq m
IsSettled-call n calls dlq y m (inl h) = inl (Has-more (m, none) y calls h)
IsSettled-call n calls dlq y m (inr (exc, queued, raised, tries)) =
    inr (exc, queued, Has-more (m, some exc) y calls raised, HasFailed-more n m y calls tries)

pub IsSettled-queue :
    {M : Type 0} (n : ℕ) (calls : Calls M) (dlq : List (M × String)) (y : M × String) (m : M)
    → IsSettled n calls dlq m
    → IsSettled n calls (dlq ++ y ∷ []) m
IsSettled-queue n calls dlq y m (inl h) = inl h
IsSettled-queue n calls dlq y m (inr (exc, queued, raised, tries)) =
    inr (exc, Has-more (m, exc) y dlq queued, raised, tries)
