-- ===== src/Common/Table.antt =====
-- A database table as the list of its rows, with a text column that queries select by.
use Prim.Native.String.{String}
use mathlib.Core.Path.{◌≡◌, refl}
use mathlib.Core.Option
use mathlib.Core.Option.{Option, none, some}
use mathlib.Core.List.{List, [], ◌∷◌, ◌++◌}
use native.Mathlib.Omega.{arith}
use text.Mathlib.Text.{◌==◌}
use text.Mathlib.TextEquality.{eq_iff}
use ecommerce_services.Common.Tests.{if◌then◌else◌}

module _ {A : Type 0} (column : A → String) where
  -- SELECT … WHERE column = k, the first row or none.
  unfoldable pub find : String → List A → Option A
  find k [] = none
  find k (r ∷ rows) = if column r == k then some r else find k rows

  -- UPDATE … WHERE column = k.
  unfoldable pub update : String → (A → A) → List A → List A
  update k f [] = []
  update k f (r ∷ rows) = (if column r == k then f r else r) ∷ update k f rows

  -- An update that keeps the column is seen by a query of its key, and by no other query.
  pub find-update :
      (k j : String) (f : A → A) (rows : List A)
      → ((r : A) → column (f r) ≡ column r)
      → find j (update k f rows) ≡ (if k == j then Option.map f (find j rows) else find j rows)
  unfolding find update
  find-update k j f [] same = ground arith
  find-update k j f (r ∷ rows) same = ground (
    arith,
    eq_iff k j,
    eq_iff (column r) k,
    eq_iff (column r) j,
    eq_iff (column (f r)) j,
    same r,
    find-update k j f rows same,
  )

  -- The row that a query finds has the key.
  pub column-find : (k : String) (rows : List A) {x : A} → find k rows ≡ some x → column x ≡ k
  unfolding find
  column-find k [] h = cc
  column-find k (r ∷ rows) {x} h = ground (arith, eq_iff (column r) k, column-find k rows {x = x})

  pub find-append :
      (k : String) (rows more : List A) {x : A}
      → find k rows ≡ some x
      → find k (rows ++ more) ≡ some x
  unfolding find
  find-append k [] more h = cc
  find-append k (r ∷ rows) more {x} h = ground (arith, find-append k rows more {x = x})

  pub find-append_none :
      (k : String) (rows more : List A) → find k rows ≡ none → find k (rows ++ more) ≡ find k more
  unfolding find
  find-append_none k [] more h = refl
  find-append_none k (r ∷ rows) more h = ground (arith, find-append_none k rows more)

  -- Rows that a query does not find.
  pub find-append_miss :
      (k : String) (rows more : List A) → find k more ≡ none → find k (rows ++ more) ≡ find k rows
  unfolding find
  find-append_miss k [] more h = h
  find-append_miss k (r ∷ rows) more h = ground (arith, find-append_miss k rows more)

-- Replacing the row that one column finds, selected by another column: the new row is found then.
pub find-replaced :
    {A : Type 0} (column selected : A → String) (k i : String) (x x' : A) (rows : List A)
    → find column k rows ≡ some x
    → selected x ≡ i
    → column x' ≡ k
    → find column k (update selected i (λ _. x') rows) ≡ some x'
unfolding find update
find-replaced column selected k i x x' [] h s c = cc
find-replaced column selected k i x x' (r ∷ rows) h s c = ground (
  arith,
  eq_iff (column r) k,
  eq_iff (selected r) i,
  eq_iff (column x') k,
  find-replaced column selected k i x x' rows,
)
