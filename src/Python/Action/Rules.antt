-- ===== src/Python/Action/Rules.antt =====
-- Triples for actions: what holds after a return and after a raise, with a rule for each way to
-- build an action.
use agentanvil.Prelude.{◌≡◌, refl, Bool, true, false, subst, sym, ◌⊎◌, inl, inr, if◌then◌else◌}
use agentanvil.Python.Action.{
  Exn, Result, ok, raised, Action, pure, lift, try_except, catch_result, on, continue, ◌>>=◌,
}

pub Result-cases {ℓ} :
    {A : Type ℓ} (r : Result A) → ((a : A) × (r ≡ ok a)) ⊎ ((e : Exn) × (r ≡ raised e))
Result-cases (ok a) = inl (a, refl)
Result-cases (raised e) = inr (e, refl)

-- `Q` of the value and the state after a return, `E` of the state after a raise.
abbrev pub After {ℓ κ} :
    {S : Type ℓ} {A : Type κ} → (A → S → Type ℓ) → (S → Type ℓ) → Result A × S → Type ℓ
After Q E (ok a, s) = Q a s
After Q E (raised e, s) = E s

pub record Triple {ℓ κ} {S : Type ℓ} {A : Type κ} (Pre : S → Type ℓ) (m : Action S A)
    (Q : A → S → Type ℓ) (E : S → Type ℓ) : Type ℓ where
  pub at : (s : S) → Pre s → After Q E (m s)

-- `I` is kept, whether `m` returns or raises.
abbrev pub Keeps {ℓ κ} : {S : Type ℓ} {A : Type κ} → (S → Type ℓ) → Action S A → Type ℓ
Keeps I m = Triple I m (λ a s. I s) I

module _ {ℓ κ} {S : Type ℓ} {A : Type κ} where
  pub Triple-pure : (Q : A → S → Type ℓ) (E : S → Type ℓ) (a : A) → Triple (Q a) (pure a) Q E
  unfolding pure
  Triple-pure Q E a = record { at = λ s h. h }

  pub Triple-lift : (I : S → Type ℓ) (r : Result A) → Keeps I (lift r)
  unfolding lift
  Triple-lift I (ok a) = record { at = λ s h. h }
  Triple-lift I (raised e) = record { at = λ s h. h }

  -- A computation that returned had this value.
  pub lift-Triple :
      (I : S → Type ℓ) (r : Result A)
      → (Q : A → S → Type ℓ) → ((a : A) (s : S) → r ≡ ok a → I s → Q a s)
      → Triple I (lift r) Q I
  unfolding lift
  lift-Triple I (ok a) Q f = record { at = λ s h. f a s refl h }
  lift-Triple I (raised e) Q f = record { at = λ s h. h }

  pub Triple-weaken :
      {Pre Pre' : S → Type ℓ} {m : Action S A} {Q Q' : A → S → Type ℓ} {E E' : S → Type ℓ}
      → Triple Pre m Q E
      → ((s : S) → Pre' s → Pre s)
      → ((a : A) (s : S) → Q a s → Q' a s)
      → ((s : S) → E s → E' s)
      → Triple Pre' m Q' E'
  Triple-weaken {m = m} {Q} {Q'} {E} {E'} t before after failed = record {
    at = λ s h. map_after (m s) (t.at s (before s h));
  }
    where
      map_after : (o : Result A × S) → After Q E o → After Q' E' o
      map_after (ok a, s) h = after a s h
      map_after (raised e, s) h = failed s h

  pub Triple-if :
      {Pre : S → Type ℓ} {Q : A → S → Type ℓ} {E : S → Type ℓ} (b : Bool) {m n : Action S A}
      → Triple Pre m Q E
      → Triple Pre n Q E
      → Triple Pre (if b then m else n) Q E
  Triple-if true t u = t
  Triple-if false t u = u

  pub Triple-split :
      {Pre : S → Type ℓ} {Q : A → S → Type ℓ} {E : S → Type ℓ} (b : Bool) {m n : Action S A}
      → (b ≡ true → Triple Pre m Q E)
      → (b ≡ false → Triple Pre n Q E)
      → Triple Pre (if b then m else n) Q E
  Triple-split true t u = t refl
  Triple-split false t u = u refl

  pub Triple-try :
      {Pre : S → Type ℓ} {m : Action S A} {h : Exn → Action S A} {Q : A → S → Type ℓ}
      {E E' : S → Type ℓ}
      → Triple Pre m Q E
      → ((e : Exn) → Triple E (h e) Q E')
      → Triple Pre (try_except m h) Q E'
  unfolding try_except
  Triple-try {m = m} {h} {Q} {E} {E'} t handled = record { at = λ s p. go (m s) (t.at s p) }
    where
      go : (o : Result A × S) → After Q E o → After Q E' (catch_result o.0 h o.1)
      go (ok a, s) p = p
      go (raised e, s) p = (handled e).at s p

module _ {ℓ κ μ} {S : Type ℓ} {A : Type κ} {B : Type μ} where
  pub Triple-bind :
      {Pre : S → Type ℓ} {m : Action S A} {f : A → Action S B} {R : A → S → Type ℓ}
      {Q : B → S → Type ℓ} {E : S → Type ℓ}
      → Triple Pre m R E
      → ((a : A) → Triple (R a) (f a) Q E)
      → Triple Pre (m >>= f) Q E
  unfolding ◌>>=◌
  Triple-bind {m = m} {f} {R} {Q} {E} t rest = record { at = λ s p. go (m s) (t.at s p) }
    where
      go : (o : Result A × S) → After R E o → After Q E (continue o.0 f o.1)
      go (ok a, s) p = (rest a).at s p
      go (raised e, s) p = p

  -- A method of an attribute that satisfies the lens law.
  pub Triple-on :
      {Pre : S → Type ℓ} {m : Action S A} {Q : A → S → Type ℓ} {E : S → Type ℓ} (get : B → S)
      (put : S → B → B)
      → ((s : S) (b : B) → get (put s b) ≡ s)
      → Triple Pre m Q E
      → (b : B) → Pre (get b)
      → After Q E ((on get put m b).0, get (on get put m b).1)
  unfolding on
  Triple-on {m = m} {Q} {E} get put law t b p =
      subst (λ x. After Q E ((m (get b)).0, x)) (sym (law (m (get b)).1 b)) (t.at (get b) p)

module _ {ℓ κ} {S : Type ℓ} {A : Type κ} {I : S → Type ℓ} where
  -- An invariant holds in the final state, whichever way the action ended.
  pub Keeps-state : {m : Action S A} → Keeps I m → (s : S) → I s → I (m s).1
  Keeps-state {m} k s h = go (m s) (k.at s h)
    where
      go : (o : Result A × S) → After (λ a t. I t) I o → I o.1
      go (ok a, t) x = x
      go (raised e, t) x = x

  -- An action that always leaves a state with the invariant keeps it.
  pub Keeps-intro : {m : Action S A} → ((s : S) → I s → I (m s).1) → Keeps I m
  Keeps-intro {m} f = record { at = λ s h. go (m s) (f s h) }
    where
      go : (o : Result A × S) → I o.1 → After (λ a t. I t) I o
      go (ok a, t) x = x
      go (raised e, t) x = x

  pub Keeps-pure : (a : A) → Keeps I (pure a)
  Keeps-pure a = Triple-pure (λ a s. I s) I a
  -- Two invariants are kept together.

module _ {ℓ κ} {S : Type ℓ} {A : Type κ} {I K : S → Type ℓ} where
  pub Keeps-both : {m : Action S A} → Keeps I m → Keeps K m → Keeps (λ s. I s × K s) m
  Keeps-both {m} i k = Keeps-intro λ s h. (Keeps-state i s h.0, Keeps-state k s h.1)

-- An action on an attribute keeps what depends on that attribute alone.
module _ {ℓ κ} {S B : Type ℓ} {A : Type κ} {I : S → Type ℓ} where
  pub Keeps-on :
      (get : B → S) (put : S → B → B)
      → ((s : S) (b : B) → get (put s b) ≡ s)
      → {m : Action S A} → Keeps I m
      → Keeps (λ b. I (get b)) (on get put m)
  unfolding on
  Keeps-on get put law {m} k =
      Keeps-intro λ b h. subst I (sym (law (m (get b)).1 b)) (Keeps-state k (get b) h)

module _ {ℓ κ} {S : Type ℓ} {A : Type ℓ} {B : Type κ} where
  -- A step behind a value that is known.
  pub Triple-known :
      {Pre : S → Type ℓ} {Q : B → S → Type ℓ} {E : S → Type ℓ} (f : A → Action S B) (known : A)
      → Triple Pre (f known) Q E
      → (a : A) → Triple (λ s. (a ≡ known) × Pre s) (f a) Q E
  Triple-known {Pre} {Q} {E} f known t a = record {
    at = λ s h. (subst (λ b. Triple Pre (f b) Q E) (sym h.0) t).at s h.1;
  }

-- What cannot raise has returned.
pub returned :
    {S A : Type 0} {Q : A → S → Type 0} (o : Result A × S)
    → After Q (λ s. ⊥) o
    → (a : A) × (t : S) × (o ≡ (ok a, t)) × Q a t
returned (ok a, t) h = (a, t, refl, h)
returned (raised e, t) h = absurd h
