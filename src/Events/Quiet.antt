-- ===== src/Events/Quiet.antt =====
-- run_consumer on messages that its handler does not raise on.
use ecommerce_services.Common.{
  ℕ, zero, suc, String, Option, none, List, [], ◌∷◌, All, ◌≡◌, refl, ap, ◌∙◌,
}
use ecommerce_services.Events.Reference.{aside, tried, tried-zero, tried-returns, reference}

-- What the messages do, one after the other.
abbrev pub all_effects : {M D : Type 0} → (M → D → D) → List M → D → D
all_effects effect [] d = d
all_effects effect (m ∷ ms) d = all_effects effect ms (effect m d)

module _ {M D : Type 0} (handle : M → D → Option String × D) (effect : M → D → D)
    (Fine : M → Type 0) (quiet : (m : M) (d : D) → Fine m → handle m d ≡ (none, effect m d)) where
  tried-quiet :
      (retries : ℕ) (m : M) (d : D) → Fine m → tried handle retries m d ≡ (none, effect m d)
  tried-quiet zero m d fine = tried-zero handle m d ∙ quiet m d fine
  tried-quiet (suc retries) m d fine =
      tried-returns handle retries m d (effect m d) (quiet m d fine)

  pub reference-quiet :
      (retries : ℕ) (ms : List M) (d : D) (dlq : List (M × String))
      → All Fine ms
      → reference handle retries ms d dlq ≡ (all_effects effect ms d, dlq)
  unfolding reference
  reference-quiet retries [] d dlq fine = refl
  reference-quiet retries (m ∷ ms) d dlq (first, fine) =
      ap (λ (x : Option String × D). reference handle retries ms x.1 (aside m x.0 dlq))
        (tried-quiet retries m d first)
      ∙ reference-quiet retries ms (effect m d) dlq fine
