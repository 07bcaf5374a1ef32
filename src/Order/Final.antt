-- ===== src/Order/Final.antt =====
-- What stays of an order in every run of the machine.
use mathlib.Core.Option
use mathlib.Core.Option.{some-injective}
use ecommerce_services.Common.{
  String, true, some, List, [], ◌∷◌, ◌≡◌, ◌≢◌, refl, sym, ap, subst, ◌∙◌, inl, inr, ◌==◌,
  Text-cases, if◌then◌else◌,
}
use ecommerce_services.Common.Table.{find, update, find-append}
use ecommerce_services.Order.World.{Order, pending, id_of}
use ecommerce_services.Order.Sweep.{find-set}
use ecommerce_services.Order.Lifecycle.{
  Db, set_row, Step, place, reserve, pay, fail, deliver, wait, Runs, here, next,
}

-- A later version of a row: what the request has set stays, PAID and FAILED stay with their reason, and
-- what has been reserved or delivered stays so.
abbrev pub Continues : Order → Order → Type 0
Continues o o' =
    (o'.id ≡ o.id)
    × (o'.user_id ≡ o.user_id)
    × (o'.amount_cents ≡ o.amount_cents)
    × (o'.idempotency_key ≡ o.idempotency_key)
    × (o'.created_at ≡ o.created_at)
    × (o.status ≢ pending → (o'.status ≡ o.status) × (o'.failure_reason ≡ o.failure_reason))
    × (o.stock_reserved ≡ true → o'.stock_reserved ≡ true)
    × (o.delivered ≡ true → o'.delivered ≡ true)

Continues-refl : (o : Order) → Continues o o
Continues-refl o = (refl, refl, refl, refl, refl, λ ne. (refl, refl), λ r. r, λ d. d)

Continues-trans : (a b c : Order) → Continues a b → Continues b c → Continues a c
Continues-trans a b c (i, u, m, k, t, final, r, d) (i', u', m', k', t', final', r', d') = (
  i' ∙ i,
  u' ∙ u,
  m' ∙ m,
  k' ∙ k,
  t' ∙ t,
  λ ne.
      let (status, reason) = final ne in
      let (status', reason') = final' (λ e. ne (sym status ∙ e)) in
      (status' ∙ status, reason' ∙ reason),
  λ h. r' (r h),
  λ h. d' (d h),
)

-- The order with the id is there, in a later version.
abbrev pub IsKept : String → Order → List Order → Type 0
IsKept j o rows = (o' : Order) × (find id_of j rows ≡ some o') × Continues o o'

set-IsKept :
    (j : String) (o x : Order) (rows : List Order) {found : Order}
    → find id_of o.id rows ≡ some o
    → x.id ≡ o.id
    → Continues o x
    → find id_of j rows ≡ some found
    → IsKept j found (set_row x rows)
set-IsKept j o x rows {found} at same later h =
    let after : find id_of j (set_row x rows)
        ≡ (if o.id == j then Option.map (λ _. x) (find id_of j rows) else find id_of j rows) =
      ap (λ i. find id_of j (update id_of i (λ _. x) rows)) same ∙ find-set o.id j x rows same in
    elim (Text-cases o.id j) [
      | inl (e, t) ↦
          let this : o ≡ found =
            some-injective o found (sym at ∙ ap (λ k. find id_of k rows) e ∙ h) in
          (x, after ∙ rw (t, h), subst (λ y. Continues y x) this later)
      | inr (ne, t) ↦ (found, after ∙ rw (t, h), Continues-refl found)
    ]

Step-IsKept :
    {s t : Db} (j : String) {o : Order}
    → Step s t
    → find id_of j s.orders ≡ some o
    → IsKept j o t.orders
Step-IsKept j {o} (place s x lines free status undelivered) h =
    (o, find-append id_of j s.orders (x ∷ []) h, Continues-refl o)
Step-IsKept j (reserve s x found status) h =
    set-IsKept j x _ s.orders found refl
      (refl, refl, refl, refl, refl, λ ne. absurd (ne status), λ r. refl, λ d. d) h
Step-IsKept j (pay s x found status reserved) h =
    set-IsKept j x _ s.orders found refl
      (refl, refl, refl, refl, refl, λ ne. absurd (ne status), λ r. r, λ d. d) h
Step-IsKept j (fail s x reason found status) h =
    set-IsKept j x _ s.orders found refl
      (refl, refl, refl, refl, refl, λ ne. absurd (ne status), λ r. r, λ d. d) h
Step-IsKept j (deliver s x found status undelivered) h =
    set-IsKept j x _ s.orders found refl
      (refl, refl, refl, refl, refl, λ ne. (refl, refl), λ r. r, λ d. refl) h
Step-IsKept j {o} (wait s d) h = (o, h, Continues-refl o)

pub Runs-IsKept :
    {s t : Db} (j : String) {o : Order}
    → Runs s t
    → find id_of j s.orders ≡ some o
    → IsKept j o t.orders
Runs-IsKept j {o} here h = (o, h, Continues-refl o)
Runs-IsKept j {o} (next r step) h =
    let (o₁, h₁, c₁) = Runs-IsKept j r h in
    let (o₂, h₂, c₂) = Step-IsKept j step h₁ in (o₂, h₂, Continues-trans o o₁ o₂ c₁ c₂)
