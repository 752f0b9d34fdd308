-- ===== src/Deterministic/Rng/Laws.antt =====
-- What the random sources of deterministic.py give to a sequence of draws.
use agentanvil.Prelude.{◌≡◌, refl, ap, List, [], ◌∷◌}
use agentanvil.Prelude.Int.{ℤ}
use agentanvil.Python.Action.{Result, ok, raised}
use agentanvil.Deterministic.Rng.{
  Value, rng_exhausted, as_float, as_whole, Random, Rng, replay, rng_random, rng_randint,
}

-- The calls of the protocol.
pub data Draw : Type 0 where
  random_call : Draw
  randint_call : ℤ → ℤ → Draw

-- What a call gives: a float or an integer.
pub data Drawn (F : Type 0) : Type 0 where
  float : Result F → Drawn F
  integer : Result ℤ → Drawn F

module _ {F : Type 0} (float_of : ℤ → F) (int_of : F → ℤ) (R : Random F) where
  draw : Draw → Rng R → Drawn F × Rng R
  draw random_call g = let (x, g') = rng_random float_of int_of R g in (float x, g')
  draw (randint_call a b) g = let (n, g') = rng_randint float_of int_of R a b g in (integer n, g')

  -- One call after the other; a caller goes on behind an exception.
  unfoldable pub draws : List Draw → Rng R → List (Drawn F)
  unfolding draw
  draws [] g = []
  draws (d ∷ ds) g = let (x, g') = draw d g in x ∷ draws ds g'

  -- A recorded value as the call wants it.
  abbrev pub converted : Draw → Value F → Drawn F
  converted random_call v = float (ok (as_float float_of int_of v))
  converted (randint_call a b) v = integer (ok (as_whole float_of int_of v))

  abbrev pub ran_out : Draw → Drawn F
  ran_out random_call = float (raised rng_exhausted)
  ran_out (randint_call a b) = integer (raised rng_exhausted)

  -- The values in order, one for each call, and then the exception.
  unfoldable pub recorded : List Draw → List (Value F) → List (Drawn F)
  recorded [] vs = []
  recorded (d ∷ ds) [] = ran_out d ∷ recorded ds []
  recorded (d ∷ ds) (v ∷ vs) = converted d v ∷ recorded ds vs

  -- A `ReplayRNG` gives its values in order, one to each call, converted to the type that the call
  -- wants; the bounds of `randint` play no part. Every call after that raises `RuntimeError`.
  pub draws-recorded :
      (ds : List Draw) (values : List (Value F))
      → draws ds (replay (record { iter = values })) ≡ recorded ds values
  unfolding draws recorded rng_random rng_randint
  draws-recorded [] values = refl
  draws-recorded (random_call ∷ ds) [] = ap (λ xs. ran_out random_call ∷ xs) (draws-recorded ds [])
  draws-recorded (randint_call a b ∷ ds) [] =
      ap (λ xs. ran_out (randint_call a b) ∷ xs) (draws-recorded ds [])
  draws-recorded (random_call ∷ ds) (v ∷ vs) =
      ap (λ xs. converted random_call v ∷ xs) (draws-recorded ds vs)
  draws-recorded (randint_call a b ∷ ds) (v ∷ vs) =
      ap (λ xs. converted (randint_call a b) v ∷ xs) (draws-recorded ds vs)
