-- ===== src/Order/Unique.antt =====
-- The ids in the table of the orders are unique in every run of the machine.
use ecommerce_services.Common.{
  String, false, none, some, List, [], ◌∷◌, ◌++◌, ◌≡◌, refl, sym, ap, ◌∙◌, inl, inr, arith, ◌==◌,
  eq_iff, Text-cases,
}
use ecommerce_services.Common.Table.{find, update, find-append_miss}
use ecommerce_services.Order.World.{Order, id_of}
use ecommerce_services.Order.Sweep.{IsUnique, find-set}
use ecommerce_services.Order.Lifecycle.{
  Db, Step, place, reserve, pay, fail, deliver, wait, Runs, here, next,
}

find-append :
    (j : String) (o : Order) (rows : List Order)
    → find id_of j rows ≡ none
    → (o.id == j) ≡ false
    → find id_of j (rows ++ o ∷ []) ≡ none
find-append j o rows h ne = find-append_miss id_of j rows (o ∷ []) (unfold find in rw ne) ∙ h

IsUnique-append :
    (o : Order) (rows : List Order)
    → find id_of o.id rows ≡ none
    → IsUnique rows
    → IsUnique (rows ++ o ∷ [])
unfolding find
IsUnique-append o [] h u = (refl, tt)
IsUnique-append o (r ∷ rows) h (fresh, u) = elim (Text-cases r.id o.id) [
  | inl (e, t) ↦ let clash : some r ≡ none = rw t at h in absurd (cc)
  | inr (ne, t) ↦ (
    find-append r.id o rows fresh (ground (arith, eq_iff r.id o.id, eq_iff o.id r.id)),
    IsUnique-append o rows (rw t at h) u,
  )
]

-- What is not there is not there after a row has been set.
find-set_none :
    (x : Order) (j : String) (rows : List Order)
    → find id_of j rows ≡ none
    → find id_of j (update id_of x.id (λ _. x) rows) ≡ none
find-set_none x j rows h = find-set x.id j x rows refl ∙ ground (arith, h)

IsUnique-set :
    (x : Order) (rows : List Order) → IsUnique rows → IsUnique (update id_of x.id (λ _. x) rows)
unfolding update
IsUnique-set x [] u = tt
IsUnique-set x (r ∷ rows) (fresh, u) = elim (Text-cases r.id x.id) [
  | inl (e, t) ↦ rw t (
    find-set_none x x.id rows (ap (λ k. find id_of k rows) (sym e) ∙ fresh),
    IsUnique-set x rows u,
  )
  | inr (ne, t) ↦ rw t (find-set_none x r.id rows fresh, IsUnique-set x rows u)
]

Step-IsUnique : {s t : Db} → Step s t → IsUnique s.orders → IsUnique t.orders
Step-IsUnique (place s o lines free h k) u = IsUnique-append o s.orders free u
Step-IsUnique (reserve s o h k) u = IsUnique-set _ s.orders u
Step-IsUnique (pay s o h k r) u = IsUnique-set _ s.orders u
Step-IsUnique (fail s o reason h k) u = IsUnique-set _ s.orders u
Step-IsUnique (deliver s o h k d) u = IsUnique-set _ s.orders u
Step-IsUnique (wait s d) u = u

pub Runs-IsUnique : {s t : Db} → Runs s t → IsUnique s.orders → IsUnique t.orders
Runs-IsUnique here u = u
Runs-IsUnique (next r step) u = Step-IsUnique step (Runs-IsUnique r u)
