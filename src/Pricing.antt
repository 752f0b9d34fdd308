-- ===== src/Pricing.antt =====
-- pricing.py. Prices are cents per million tokens, so a cost is a whole number of 1e-8 USD.
pub mod Laws
use agentanvil.Prelude.{
  ℕ, ◌+◌, ◌-◌, ◌*◌, ◌/◌, ◌%◌, ◌≡◌, refl, String, Bool, ◌&&◌, ◌||◌, Option, none, some, List, [],
  ◌∷◌, ltb, ◌==◌, str_eq, if◌then◌else◌,
}

abbrev pub prices : List (String × (ℕ × ℕ))
prices =
    ("claude-opus-4-7", (1500, 7500))
    ∷ ("claude-opus-4-6", (1500, 7500))
    ∷ ("claude-sonnet-4-6", (300, 1500))
    ∷ ("claude-sonnet-4-5", (300, 1500))
    ∷ ("claude-haiku-4-5", (80, 400))
    ∷ ("scripted", (0, 0))
    ∷ ("echo", (0, 0))
    ∷ []

unfoldable pub price_of : String → List (String × (ℕ × ℕ)) → Option (ℕ × ℕ)
price_of model [] = none
price_of model ((name, p) ∷ rest) =
    let later = price_of model rest in if str_eq name model then some p else later

-- In units of 1e-8 USD: cents per million tokens, times tokens, need no division.
unfoldable pub compute_cost : String → ℕ → ℕ → ℕ
unfolding price_of
compute_cost model input_tokens output_tokens = elim (price_of model prices) [
  | none ↦ 0
  | some (in_price, out_price) ↦ input_tokens * in_price + output_tokens * out_price
]

-- Rounding to a multiple of `unit`, in that unit; a tie goes to the even neighbour, as in `round`.
unfoldable pub round_half_even : ℕ → ℕ → ℕ
round_half_even unit n =
    let q = n / unit in
    let r = n % unit in if ltb (2 * r) unit || (2 * r == unit && q % 2 == 0) then q else q + 1

-- `round(cost, 6)` as a number of 1e-6 USD.
abbrev pub round_cost : ℕ → ℕ
round_cost = round_half_even 100
