-- ===== src/Order/Sweep.antt =====
-- Loops that save a new version of each selected row: what the table and the events are after them.
use mathlib.Core.Option
use ecommerce_services.Common.{
  ℕ, String, Bool, Option, none, some, List, [], ◌∷◌, ◌++◌, map, keep, ◌≡◌, refl, sym, ap, ◌∙◌, inl,
  inr, arith, ◌==◌, eq_iff, if◌then◌else◌, Bool-cases, Text-cases, append-nil, append_assoc,
}
use ecommerce_services.Common.Table.{find, update}
use ecommerce_services.Order.Services.{Services}
use ecommerce_services.Order.World.{Order, OrderItem, World, id_of}
use ecommerce_services.Order.Jobs.{for_each}

-- No two rows have the same id, as the primary key demands.
abbrev pub IsUnique : List Order → Type 0
IsUnique [] = Unit
IsUnique (o ∷ os) = (find id_of o.id os ≡ none) × IsUnique os

-- A row that is replaced by one with the same id.
pub find-set :
    (k j : String) (x : Order) (rows : List Order)
    → x.id ≡ k
    → find id_of j (update id_of k (λ _. x) rows)
      ≡ (if k == j then Option.map (λ _. x) (find id_of j rows) else find id_of j rows)
unfolding find update
find-set k j x [] same = ground arith
find-set k j x (r ∷ rows) same =
    ground
      (arith, eq_iff k j, eq_iff r.id k, eq_iff r.id j, eq_iff x.id j, find-set k j x rows same)

module _ (p : Order → Bool) where
  pub find-keep-none :
      (j : String) (rows : List Order)
      → find id_of j rows ≡ none
      → find id_of j (keep p rows) ≡ none
  unfolding find
  find-keep-none j [] h = refl
  find-keep-none j (r ∷ rows) h = ground (arith, find-keep-none j rows)

  keep-IsUnique : (rows : List Order) → IsUnique rows → IsUnique (keep p rows)
  keep-IsUnique [] u = tt
  keep-IsUnique (r ∷ rows) (fresh, u) = elim (Bool-cases (p r)) [
    | inl t ↦ rw (t, IsUnique) (find-keep-none r.id rows fresh, keep-IsUnique rows u)
    | inr f ↦ rw (f, IsUnique) (keep-IsUnique rows u)
  ]

  abbrev chosen : Option Order → Option Order
  chosen none = none
  chosen (some o) = if p o then some o else none

  find-keep :
      (j : String) (rows : List Order)
      → IsUnique rows
      → find id_of j (keep p rows) ≡ chosen (find id_of j rows)
  unfolding find
  find-keep j [] u = refl
  find-keep j (r ∷ rows) (fresh, u) = elim (Bool-cases (p r)) [
    | inl t ↦ elim (Text-cases r.id j) [
      | inl (e, s) ↦ ground (arith, t, s)
      | inr (ne, s) ↦ rw (keep, t, s) (find-keep j rows u)
    ]
    | inr f ↦ elim (Text-cases r.id j) [
      | inl (e, s) ↦
          rw (keep, f, s, f) (find-keep-none j rows (ap (λ k. find id_of k rows) (sym e) ∙ fresh))
      | inr (ne, s) ↦ rw (keep, f, s) (find-keep j rows u)
    ]
  ]

module _ (g : Order → Order) (same : (o : Order) → (g o).id ≡ o.id) where
  unfoldable pub swept : List Order → List Order → List Order
  swept [] rows = rows
  swept (d ∷ ds) rows = swept ds (update id_of d.id (λ _. g d) rows)

  abbrev replaced : Option Order → Option Order → Option Order
  replaced none found = found
  replaced (some d) found = Option.map (λ _. g d) found

  find-swept :
      (j : String) (ds rows : List Order)
      → IsUnique ds
      → find id_of j (swept ds rows) ≡ replaced (find id_of j ds) (find id_of j rows)
  unfolding find swept
  find-swept j [] rows u = refl
  find-swept j (d ∷ ds) rows (fresh, u) = elim (Text-cases d.id j) [
    | inl (e, s) ↦
        let gone : find id_of j ds ≡ none = ap (λ k. find id_of k ds) (sym e) ∙ fresh in
        find-swept j ds _ u ∙ rw (find-set d.id j (g d) rows (same d), s, gone)
    | inr (ne, s) ↦ find-swept j ds _ u ∙ rw (find-set d.id j (g d) rows (same d), s)
  ]

  -- The query of an id after a loop over the rows that pass the test.
  pub find-swept-keep :
      (p : Order → Bool) (j : String) (rows : List Order)
      → IsUnique rows
      → find id_of j (swept (keep p rows) rows)
        ≡ Option.map (λ o. if p o then g o else o) (find id_of j rows)
  find-swept-keep p j rows u =
      find-swept j (keep p rows) rows (keep-IsUnique p rows u)
      ∙ ap (λ d. replaced d (find id_of j rows)) (find-keep p j rows u)
      ∙ go (find id_of j rows)
    where
      go : (o : Option Order) → replaced (chosen p o) o ≡ Option.map (λ o. if p o then g o else o) o
      go none = refl
      go (some o) = elim (Bool-cases (p o)) [ inl t ↦ rw t | inr f ↦ rw f ]

module _ {S : Services} (n : ℕ) (items : List OrderItem) where
  -- The clock and the items, which the loops read and never change.
  abbrev pub IsSteady : World S → Type 0
  IsSteady w = (w.now ≡ n) × (w.order_items ≡ items)

  module _ (body : Order → World S → World S)
      (steady : (o : Order) (w : World S) → IsSteady w → IsSteady (body o w)) where
    pub for_each-rows :
        (g : Order → Order) (same : (o : Order) → (g o).id ≡ o.id)
        → ((o : Order) (w : World S)
            → IsSteady w
            → (body o w).orders ≡ update id_of o.id (λ _. g o) w.orders)
        → (ds : List Order) (w : World S) → IsSteady w
        → (for_each body ds w).orders ≡ swept g same ds w.orders
    unfolding for_each swept
    for_each-rows g same step [] w s = refl
    for_each-rows g same step (d ∷ ds) w s =
        for_each-rows g same step ds (body d w) (steady d w s) ∙ ap (swept g same ds) (step d w s)

    pub for_each-log :
        {B : Type 0} (log : World S → List B) (e : Order → B)
        → ((o : Order) (w : World S) → IsSteady w → log (body o w) ≡ log w ++ e o ∷ [])
        → (ds : List Order) (w : World S) → IsSteady w
        → log (for_each body ds w) ≡ log w ++ map e ds
    unfolding for_each
    for_each-log log e step [] w s = sym (append-nil (log w))
    for_each-log log e step (d ∷ ds) w s =
        for_each-log log e step ds (body d w) (steady d w s)
        ∙ ap (λ l. l ++ map e ds) (step d w s)
        ∙ append_assoc (log w) (e d ∷ []) (map e ds)
