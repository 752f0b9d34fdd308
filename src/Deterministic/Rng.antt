-- ===== src/Deterministic/Rng.antt =====
-- `SystemRNG` and `ReplayRNG` of deterministic.py.
pub mod Laws
use agentanvil.Prelude.{Option, List, [], ◌∷◌}
use agentanvil.Prelude.Int.{ℤ}
use agentanvil.Python.Text.{lit}
use agentanvil.Python.Action.{Exn, Result, ok, raised, Action, on}

-- A recorded value: an `int`, or a float that the parameter `F` stands for.
pub data Value (F : Type 0) : Type 0 where
  whole : ℤ → Value F
  real : F → Value F

-- What is left of the iterator over the recorded values.
pub record ReplayRng (F : Type 0) : Type 0 where
  pub iter : List (Value F)

abbrev pub rng_exhausted : Exn
rng_exhausted = record { name = "RuntimeError"; message = lit "ReplayRNG exhausted" }

-- Python's conversions between its two number types.
module _ {F : Type 0} (float_of : ℤ → F) (int_of : F → ℤ) where
  abbrev pub as_float : Value F → F
  as_float (whole n) = float_of n
  as_float (real x) = x

  abbrev pub as_whole : Value F → ℤ
  as_whole (whole n) = n
  as_whole (real x) = int_of x

  random_from : List (Value F) → Result F × List (Value F)
  random_from [] = (raised rng_exhausted, [])
  random_from (v ∷ vs) = (ok (as_float v), vs)

  unfoldable pub random : Action (ReplayRng F) F
  unfolding random_from
  random g = let (r, vs) = random_from g.iter in (r, record { iter = vs })

  randint_from : List (Value F) → Result ℤ × List (Value F)
  randint_from [] = (raised rng_exhausted, [])
  randint_from (v ∷ vs) = (ok (as_whole v), vs)

  -- The bounds of `randint(a, b)` are not looked at.
  unfoldable pub randint : ℤ → ℤ → Action (ReplayRng F) ℤ
  unfolding randint_from
  randint a b g = let (r, vs) = randint_from g.iter in (r, record { iter = vs })

-- `random.Random`, which the standard library has.
pub record Random (F : Type 0) : Type 1 where
  pub State : Type 0
  pub seeded : Option ℤ → State
  pub random : Action State F
  pub randint : ℤ → ℤ → Action State ℤ

module _ {F : Type 0} (R : Random F) where
  -- `self._r`
  pub record SystemRng : Type 0 where
    pub r : R.State

  unfoldable pub system_rng : Option ℤ → SystemRng
  system_rng seed = record { r = R.seeded seed }

  on_r : {A : Type 0} → Action R.State A → Action SystemRng A
  unfolding on
  on_r = on (λ g. g.r) (λ r g. record { r = r })

  unfoldable pub system_random : Action SystemRng F
  unfolding on_r
  system_random = on_r R.random

  unfoldable pub system_randint : ℤ → ℤ → Action SystemRng ℤ
  unfolding on_r
  system_randint a b = on_r (R.randint a b)

-- The `RNG` protocol over its two implementations.
pub data Rng {F : Type 0} (R : Random F) : Type 0 where
  system : SystemRng R → Rng R
  replay : ReplayRng F → Rng R

module _ {F : Type 0} (float_of : ℤ → F) (int_of : F → ℤ) (R : Random F) where
  unfoldable pub rng_random : Action (Rng R) F
  unfolding system_random random
  rng_random (system g) = let (x, g') = system_random R g in (x, system g')
  rng_random (replay g) = let (x, g') = random float_of int_of g in (x, replay g')

  unfoldable pub rng_randint : ℤ → ℤ → Action (Rng R) ℤ
  unfolding system_randint randint
  rng_randint a b (system g) = let (x, g') = system_randint R a b g in (x, system g')
  rng_randint a b (replay g) = let (x, g') = randint float_of int_of a b g in (x, replay g')
