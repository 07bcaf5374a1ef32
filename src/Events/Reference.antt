-- ===== src/Events/Reference.antt =====
-- What a consumer would do without offsets and counts: each message in turn.
use ecommerce_services.Common.{
  ℕ, zero, suc, String, Option, none, some, List, [], ◌∷◌, ◌++◌, ◌≡◌, refl, ap,
}

-- A message that has failed is set aside.
abbrev pub aside : {M : Type 0} → M → Option String → List (M × String) → List (M × String)
aside m none dlq = dlq
aside m (some exc) dlq = dlq ++ (m, exc) ∷ []

module _ {M D : Type 0} (handle : M → D → Option String × D) where
  -- The handler is called until it returns, and again at most the given number of times: the error of the
  -- last call.
  unfoldable pub tried : ℕ → M → D → Option String × D
  tried zero m d = handle m d
  tried (suc retries) m d = elim (handle m d).0 [
    | none ↦ handle m d
    | some exc ↦ tried retries m (handle m d).1
  ]

  pub tried-zero : (m : M) (d : D) → tried 0 m d ≡ handle m d
  unfolding tried
  tried-zero m d = refl

  pub tried-returns :
      (r : ℕ) (m : M) (d d' : D) → handle m d ≡ (none, d') → tried (suc r) m d ≡ (none, d')
  unfolding tried
  tried-returns r m d d' h = rw (h, tried) h

  pub tried-raises :
      (r : ℕ) (m : M) (d d' : D) (exc : String)
      → handle m d ≡ (some exc, d')
      → tried (suc r) m d ≡ tried r m d'
  unfolding tried
  tried-raises r m d d' exc h = rw (h, tried) (ap (λ (x : Option String × D). tried r m x.1) h)

  -- What a loop without offsets and counts would do: each message in turn.
  unfoldable pub reference : ℕ → List M → D → List (M × String) → D × List (M × String)
  unfolding tried
  reference retries [] d dlq = (d, dlq)
  reference retries (m ∷ ms) d dlq =
      let (error, d') = tried retries m d in reference retries ms d' (aside m error dlq)
