-- ===== src/Loop/Numbering/Rounds.antt =====
-- The steps of the events of the loop and its handler.
use agentanvil.Prelude.{ℕ, zero, suc, ◌≤◌, ◌≡◌, refl, ◌⊎◌, inl, inr, Bool, true, false, arith}
use agentanvil.Python.Action.{Exn, pure}
use agentanvil.Python.Action.Rules.{Triple, Triple-pure, Triple-bind, Triple-weaken, Triple-try}
use agentanvil.Events.Schema.{agent_error, failed}
use agentanvil.Events.Writer.{EventWriter}
use agentanvil.Client.Base.{LlmClient}
use agentanvil.Platform.{Platform}
use agentanvil.Loop.State.{Locals, LoopState, LoopAction}
use agentanvil.Loop.Lift.{assign-Triple, gets-Triple}
use agentanvil.Loop.Step.{Setup, body}
use agentanvil.Loop.Run.{set_outcome, again, round, while_steps, fuel_of, crash, guarded_loop}
use agentanvil.Loop.Numbering.{InOrder, Stage, emit-Stage, IsLoose, Loose, loosely, body-Stage}

-- Between two rounds: no step was made, or the writer is at the last one.
pub record IsBetween (w : EventWriter) (l : Locals) : Type 0 where
  pub k : ℕ
  pub n : ℕ
  pub low : k ≤ n
  pub settled : (n ≡ 0) ⊎ (n ≡ suc k)
  pub ordered : InOrder k w
  pub step : l.step ≡ n

pub high_of : (k n : ℕ) → (n ≡ 0) ⊎ (n ≡ suc k) → n ≤ suc k
high_of k n (inl e) = omega arith
high_of k n (inr e) = omega arith

pub IsBetween-IsLoose : {w : EventWriter} {l : Locals} → IsBetween w l → IsLoose w l
IsBetween-IsLoose h = record {
  k = h.k;
  n = h.n;
  low = h.low;
  high = high_of h.k h.n h.settled;
  ordered = h.ordered;
  step = h.step;
}

module _ (P : Platform) (C : LlmClient) where
  abbrev pub Between : LoopState P C → Type 0
  Between s = IsBetween s.events s.locals

  abbrev Rounds : LoopAction P C Bool → Type 0
  Rounds m = Triple Between m (λ b. Between) (Loose P C)

  body-Rounds : (u : Setup) → Rounds (body P C u)
  body-Rounds u = record {
    at = λ s h.
        (Triple-weaken (body-Stage P C h.k h.n h.low (high_of h.k h.n h.settled) u) (λ s h. h)
            (λ b s g. record {
              k = h.n;
              n = suc h.n;
              low = omega arith;
              settled = inr refl;
              ordered = g.0;
              step = g.1;
            })
            (λ s h. h)).at
          s (h.ordered, h.step);
  }

  done-Rounds : (b : Bool) → Rounds (pure b)
  done-Rounds b = Triple-pure (λ b. Between) (Loose P C) b

  again-Rounds :
      (rest : LoopAction P C Bool) → Rounds rest → (more : Bool) → Rounds (again P C rest more)
  unfolding again
  again-Rounds rest t true = t
  again-Rounds rest t false = done-Rounds true

  round-Rounds :
      (rest : LoopAction P C Bool) (u : Setup)
      → Rounds rest
      → (b : Bool) → Rounds (round P C rest u b)
  unfolding round set_outcome
  round-Rounds rest u t true = Triple-bind (body-Rounds u) (again-Rounds rest t)
  round-Rounds rest u t false =
      Triple-bind
        (assign-Triple P C {Q = Between} (Loose P C) _ λ s h. record {
          k = h.k;
          n = h.n;
          low = h.low;
          settled = h.settled;
          ordered = h.ordered;
          step = h.step;
        })
        λ a. done-Rounds true

  while_steps-Rounds : (fuel : ℕ) (u : Setup) → Rounds (while_steps P C fuel u)
  unfolding while_steps
  while_steps-Rounds zero u = done-Rounds false
  while_steps-Rounds (suc fuel) u =
      Triple-bind
        (Triple-weaken (gets-Triple P C (Loose P C) _) (λ s h. h) (λ n s h. h.1) (λ s h. h))
        λ n. round-Rounds (while_steps P C fuel u) u (while_steps-Rounds fuel u) _

  -- Behind the loop and its handler.
  abbrev pub IsSettled : EventWriter → Locals → Type 0
  IsSettled w l = IsLoose w l × (IsBetween w l ⊎ (l.outcome ≡ failed))

  abbrev pub Settled : LoopState P C → Type 0
  Settled s = IsSettled s.events s.locals

  crash-Settled : (x : Exn) → Triple (Loose P C) (crash P C x) (λ b. Settled) (Loose P C)
  unfolding crash set_outcome
  crash-Settled x = record { at = λ s h. (from h.k h.n h.low h.high).at s (h.ordered, h.step) }
    where
      from :
          (k n : ℕ)
          → k ≤ n
          → n ≤ suc k
          → Triple (Stage P C k n) (crash P C x) (λ b. Settled) (Loose P C)
      from k n low high =
          Triple-bind (loosely P C k n low high (emit-Stage P C k n agent_error _)) λ e.
            Triple-bind
              (assign-Triple P C {Q = Settled} (Loose P C) _ λ s h. (
                record { k = k; n = n; low = low; high = high; ordered = h.0; step = h.1 },
                inr refl,
              ))
              λ a. Triple-pure (λ b. Settled) (Loose P C) true

  pub guarded_loop-Settled :
      (u : Setup) → Triple Between (guarded_loop P C u) (λ b. Settled) (Loose P C)
  unfolding guarded_loop
  guarded_loop-Settled u =
      Triple-try
        (Triple-weaken (while_steps-Rounds (fuel_of P C u) u) (λ s h. h)
          (λ b s h. (IsBetween-IsLoose h, inl h)) (λ s h. h))
        crash-Settled
