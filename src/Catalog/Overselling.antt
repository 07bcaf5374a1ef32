-- ===== src/Catalog/Overselling.antt =====
-- No overselling: a history of requests never grants more of a product than there was.
use mathlib.Core.Option
use ecommerce_services.Common.{
  ℕ, ◌+◌, String, ◌≡◌, refl, sym, ap, ◌∙◌, some, List, [], ◌∷◌, arith, ◌==◌, if◌then◌else◌,
  Text-cases, inl, inr,
}
use ecommerce_services.Common.Int.{ℤ, pos, ◌+ℤ◌, ◌≤ℤ◌, +ℤ_parts, -ℤ_parts, int_laws}
use ecommerce_services.Common.Table.{find}
use ecommerce_services.Shared.{Result, ok, err}
use ecommerce_services.Catalog.Defs.{
  Product, id_of, ReserveRequest, ReserveResponse, Caches, Catalog,
}
use ecommerce_services.Catalog.Stock.{reserve_stock, release_stock, take_stock, put_stock}
use ecommerce_services.Catalog.Effect.{
  IsStocked, Reserved, Released, reserve_stock_lem, release_stock_lem,
}

-- The writes that reach the table, in the order in which the row lock lets them through.
pub data Write : Type 0 where
  reserve release : ReserveRequest → Write

-- The quantity of product `j` that a request has moved, if it succeeded.
abbrev pub moved : String → ReserveRequest → Result ReserveResponse → ℕ
moved j body (ok r) = if body.product_id == j then body.quantity else 0
moved j body (err e) = 0

take_step :
    (a b c : ℤ) (x g r : ℕ)
    → b +ℤ pos x ≡ a
    → c +ℤ pos g ≡ b +ℤ pos r
    → c +ℤ pos (x + g) ≡ a +ℤ pos r
take_step a b c x g r h k = grind int_laws

put_step :
    (a b c : ℤ) (x g r : ℕ)
    → b ≡ a +ℤ pos x
    → c +ℤ pos g ≡ b +ℤ pos r
    → c +ℤ pos g ≡ a +ℤ pos (x + r)
put_step a b c x g r h k = grind int_laws

pub granted_bound : (a c : ℤ) (g r : ℕ) → c +ℤ pos g ≡ a +ℤ pos r → pos 0 ≤ℤ c → pos g ≤ℤ a +ℤ pos r
granted_bound a c g r h k = rw (← h) (omega int_laws)

module _ (C : Caches) where
  unfoldable pub apply : Write → Catalog C → Result ReserveResponse × Catalog C
  apply (reserve body) s = reserve_stock C body s
  apply (release body) s = release_stock C body s

  unfoldable pub run : List Write → Catalog C → Catalog C
  run [] s = s
  run (w ∷ ws) s = run ws (apply w s).1

  -- What a history grants of product `j`, and what it gives back.
  unfoldable pub granted : String → List Write → Catalog C → ℕ
  unfolding apply
  granted j [] s = 0
  granted j (reserve body ∷ ws) s =
      moved j body (reserve_stock C body s).0 + granted j ws (reserve_stock C body s).1
  granted j (release body ∷ ws) s = granted j ws (release_stock C body s).1

  unfoldable pub returned : String → List Write → Catalog C → ℕ
  unfolding apply
  returned j [] s = 0
  returned j (reserve body ∷ ws) s = returned j ws (reserve_stock C body s).1
  returned j (release body ∷ ws) s =
      moved j body (release_stock C body s).0 + returned j ws (release_stock C body s).1

  -- Every product that a table holds has a stock of zero or more, and so it is after a write.
  Reserved-IsStocked :
      (body : ReserveRequest) (s : Catalog C) (r : Result ReserveResponse) (s' : Catalog C)
      → Reserved body s (r, s')
      → IsStocked s
      → IsStocked s'
  Reserved-IsStocked body s (ok r) s' (p, found, enough, _, _, _, after) h j q e =
      elim (Text-cases body.product_id j) [
        | inl (same, t) ↦ ground (arith, after j, -ℤ_parts p.stock (pos body.quantity))
        | inr (ne, t) ↦ ground (arith, after j, h j q)
      ]
  Reserved-IsStocked body s (err x) s' (inl (_, _, same)) h j q e = h j q (rw same at e)
  Reserved-IsStocked body s (err x) s' (inr (_, _, _, _, same)) h j q e = h j q (rw same at e)

  Released-IsStocked :
      (body : ReserveRequest) (s : Catalog C) (r : Result ReserveResponse) (s' : Catalog C)
      → Released body s (r, s')
      → IsStocked s
      → IsStocked s'
  Released-IsStocked body s (ok r) s' (p, found, _, _, after) h j q e =
      elim (Text-cases body.product_id j) [
        | inl (same, t) ↦
            ground (arith, after j, h body.product_id p found, +ℤ_parts p.stock (pos body.quantity))
        | inr (ne, t) ↦ ground (arith, after j, h j q)
      ]
  Released-IsStocked body s (err x) s' (_, _, same) h j q e = h j q (rw same at e)

  pub apply-IsStocked : (w : Write) (s : Catalog C) → IsStocked s → IsStocked (apply w s).1
  unfolding apply
  apply-IsStocked (reserve body) s h =
      Reserved-IsStocked body s (reserve_stock C body s).0 (reserve_stock C body s).1
        (reserve_stock_lem C body s) h
  apply-IsStocked (release body) s h =
      Released-IsStocked body s (release_stock C body s).0 (release_stock C body s).1
        (release_stock_lem C body s) h

  pub run-IsStocked : (ws : List Write) (s : Catalog C) → IsStocked s → IsStocked (run ws s)
  unfolding run
  run-IsStocked [] s h = h
  run-IsStocked (w ∷ ws) s h = run-IsStocked ws (apply w s).1 (apply-IsStocked w s h)

  -- One reservation lowers the stock of product `j` by what it grants of it.
  Reserved-stock :
      (j : String) (body : ReserveRequest) (s : Catalog C) (p : Product)
      (r : Result ReserveResponse) (s' : Catalog C)
      → Reserved body s (r, s')
      → find id_of j s.products ≡ some p
      → (p' : Product) × (find id_of j s'.products ≡ some p')
        × (p'.stock +ℤ pos (moved j body r) ≡ p.stock)
  Reserved-stock j body s p (ok r) s' (p₀, found, enough, _, _, _, after) e =
      elim (Text-cases body.product_id j) [
        | inl (same, t) ↦
            let e' : some p₀ ≡ some p = sym found ∙ (rw same e) in
            (
              take_stock body.quantity p,
              rw (after j, t) (ap (λ o. Option.map (take_stock body.quantity) o) e'),
              rw t (omega int_laws),
            )
        | inr (ne, t) ↦ (p, rw (after j, t) e, rw t (omega int_laws))
      ]
  Reserved-stock j body s p (err x) s' (inl (_, _, same)) e = (p, rw same e, omega int_laws)
  Reserved-stock j body s p (err x) s' (inr (_, _, _, _, same)) e = (p, rw same e, omega int_laws)

  Released-stock :
      (j : String) (body : ReserveRequest) (s : Catalog C) (p : Product)
      (r : Result ReserveResponse) (s' : Catalog C)
      → Released body s (r, s')
      → find id_of j s.products ≡ some p
      → (p' : Product) × (find id_of j s'.products ≡ some p')
        × (p'.stock ≡ p.stock +ℤ pos (moved j body r))
  Released-stock j body s p (ok r) s' (p₀, found, _, _, after) e =
      elim (Text-cases body.product_id j) [
        | inl (same, t) ↦
            let e' : some p₀ ≡ some p = sym found ∙ (rw same e) in
            (
              put_stock body.quantity p,
              rw (after j, t) (ap (λ o. Option.map (put_stock body.quantity) o) e'),
              rw t refl,
            )
        | inr (ne, t) ↦ (p, rw (after j, t) e, rw t (omega int_laws))
      ]
  Released-stock j body s p (err x) s' (_, _, same) e = (p, rw same e, omega int_laws)

  -- Over any history of reservations and releases, what is left of a product and what was granted of
  -- it make up what there was at the start and what was given back.
  pub run-stock :
      (j : String) (ws : List Write) (s : Catalog C) (p : Product)
      → find id_of j s.products ≡ some p
      → (p' : Product) × (find id_of j (run ws s).products ≡ some p')
        × (p'.stock +ℤ pos (granted j ws s) ≡ p.stock +ℤ pos (returned j ws s))
  unfolding run granted returned
  run-stock j [] s p e = (p, e, refl)
  run-stock j (reserve body ∷ ws) s p e =
      let (p₁, e₁, m₁) =
        Reserved-stock j body s p (reserve_stock C body s).0 (reserve_stock C body s).1
          (reserve_stock_lem C body s) e in
      let (p₂, e₂, m₂) = run-stock j ws (reserve_stock C body s).1 p₁ e₁ in
      (p₂, e₂, take_step p.stock p₁.stock p₂.stock _ _ _ m₁ m₂)
  run-stock j (release body ∷ ws) s p e =
      let (p₁, e₁, m₁) =
        Released-stock j body s p (release_stock C body s).0 (release_stock C body s).1
          (release_stock_lem C body s) e in
      let (p₂, e₂, m₂) = run-stock j ws (release_stock C body s).1 p₁ e₁ in
      (p₂, e₂, put_step p.stock p₁.stock p₂.stock _ _ _ m₁ m₂)

  -- From a table with no negative stock, every history leaves it so, and grants of a product at most
  -- what there was of it and what was given back in between.
  pub no_overselling :
      (j : String) (ws : List Write) (s : Catalog C) (p : Product)
      → IsStocked s
      → find id_of j s.products ≡ some p
      → IsStocked (run ws s) × (pos (granted j ws s) ≤ℤ p.stock +ℤ pos (returned j ws s))
  no_overselling j ws s p h e =
      let (p', e', m) = run-stock j ws s p e in
      let left : pos 0 ≤ℤ p'.stock = run-IsStocked ws s h j p' e' in
      (run-IsStocked ws s h, granted_bound p.stock p'.stock _ _ m left)
