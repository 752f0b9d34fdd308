-- ===== src/Python/Action.antt =====
-- Methods that mutate an object and may raise. What was written before a raise stays written, so
-- the state comes back beside the exception too.
pub mod Rules
use agentanvil.Prelude.{String}
use agentanvil.Python.Text.{Text}

-- `type(exc).__name__` and `str(exc)`.
pub record Exn : Type 0 where
  pub name : String
  pub message : Text

pub data Result {ℓ} (A : Type ℓ) : Type ℓ where
  ok : A → Result A
  raised : Exn → Result A

abbrev pub finally_result {ℓ} : {A : Type ℓ} → Result A → Result (Unit {0}) → Result A
finally_result r (ok u) = r
finally_result r (raised e) = raised e

abbrev pub Action {ℓ κ} : Type ℓ → Type κ → Type (ℓ ⊔ κ)
Action S A = S → Result A × S

module _ {ℓ κ} {S : Type ℓ} {A : Type κ} where
  unfoldable pub pure : A → Action S A
  pure a s = (ok a, s)

  unfoldable pub raise : Exn → Action S A
  raise e s = (raised e, s)

  -- A computation that may raise and leaves the state alone.
  unfoldable pub lift : Result A → Action S A
  lift r s = (r, s)

  -- A read of the state.
  unfoldable pub gets : (S → A) → Action S A
  gets f s = (ok (f s), s)

  abbrev pub catch_result : Result A → (Exn → Action S A) → Action S A
  catch_result (ok a) handler s = (ok a, s)
  catch_result (raised e) handler s = handler e s

  -- `try: m` with `except Exception as e: handler(e)`.
  unfoldable pub try_except : Action S A → (Exn → Action S A) → Action S A
  try_except m handler s = let (r, s') = m s in catch_result r handler s'

  -- `try: m` with `finally: f`; an exception of `f` takes the place of how `m` ended.
  unfoldable pub try_finally : Action S A → Action S (Unit {0}) → Action S A
  try_finally m f s = let (r, s') = m s in let (q, s'') = f s' in (finally_result r q, s'')

unfoldable pub modify {ℓ} : {S : Type ℓ} → (S → S) → Action S (Unit {0})
modify f s = (ok tt, f s)

module _ {ℓ κ μ} {S : Type ℓ} {A : Type κ} {B : Type μ} where
  abbrev pub continue : Result A → (A → Action S B) → Action S B
  continue (ok a) f s = f a s
  continue (raised e) f s = (raised e, s)

  infixl 10 ◌>>=◌ ◌>>◌
  unfoldable pub ◌>>=◌ : Action S A → (A → Action S B) → Action S B
  unfolding pure raise lift gets modify try_except
  ◌>>=◌ m f s = let (r, s') = m s in continue r f s'

  abbrev pub ◌>>◌ : Action S A → Action S B → Action S B
  m >> n = m >>= λ _. n

  -- A method of an attribute of the object: `get` reads the attribute and `put` stores it.
  unfoldable pub on : (B → S) → (S → B → B) → Action S A → Action B A
  on get put m b = let (r, s') = m (get b) in (r, put s' b)
