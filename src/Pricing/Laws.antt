-- ===== src/Pricing/Laws.antt =====
-- Sums of costs, for pricing.py.
use agentanvil.Prelude.{ℕ, ◌+◌, ◌*◌, ◌≡◌, refl, String, Option, none, some, arith}
use native.Mathlib.Nat.{add-mul}
use agentanvil.Pricing.{price_of, prices, compute_cost}

-- Two calls cost what one call with all their tokens costs.
pub compute_cost-add :
    (model : String) (i j o p : ℕ)
    → compute_cost model (i + j) (o + p) ≡ compute_cost model i o + compute_cost model j p
unfolding compute_cost
compute_cost-add model i j o p = go (price_of model prices)
  where
    go :
        (price : Option (ℕ × ℕ))
        → (elim price [ none ↦ 0 | some (a, b) ↦ (i + j) * a + (o + p) * b ])
          ≡ (elim price [ none ↦ 0 | some (a, b) ↦ i * a + o * b ])
            + (elim price [ none ↦ 0 | some (a, b) ↦ j * a + p * b ])
    go none = refl
    go (some (a, b)) = omega (arith, add-mul i j a, add-mul o p b)

-- No tokens cost nothing.
pub compute_cost-zero : (model : String) → compute_cost model 0 0 ≡ 0
unfolding compute_cost
compute_cost-zero model = go (price_of model prices)
  where
    go :
        (price : Option (ℕ × ℕ))
        → ◌≡◌ {A = ℕ} (elim price [ none ↦ 0 | some (a, b) ↦ 0 * a + 0 * b ]) 0
    go none = refl
    go (some (a, b)) = omega arith
