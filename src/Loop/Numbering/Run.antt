-- ===== src/Loop/Numbering/Run.antt =====
-- The steps of a whole run, and those of a trace of it.
use agentanvil.Prelude.{
  ℕ, suc, ◌≤◌, ◌≡◌, refl, sym, ◌∙◌, ap, subst, ◌⊎◌, inl, inr, String, some, List, [], ◌∷◌, ◌++◌,
  arith,
}
use agentanvil.Python.FilePath.{FilePath}
use agentanvil.Python.Action.{Result, ok, raised, pure, gets, ◌>>=◌, ◌>>◌}
use agentanvil.Python.Action.Rules.{
  After, Triple, Triple-pure, Triple-bind, Triple-weaken, Keeps, Keeps-intro,
}
use agentanvil.Events.Schema.{agent_start, agent_done, done, failed, EventEnvelope, AgentDone}
use agentanvil.Events.Writer as Writer
use agentanvil.Events.Writer.{EventWriter, set_step}
use agentanvil.Events.Writer.Laws.{Emitted, Unwritten, emit-cases}
use agentanvil.Client.Base.{LlmClient}
use agentanvil.Config.{AgentTaskSpec}
use agentanvil.Platform.{Platform}
use agentanvil.Tools.Base.{on_machine}
use agentanvil.Loop.State.{LoopState, LoopAction, on_sandbox, on_writer, emit}
use agentanvil.Loop.Lift.{on_writer-Triple, assign-Triple, gets-Triple}
use agentanvil.Loop.Run.{setup, time, done_data, run}
use agentanvil.Loop.Numbering.{Ascending, AllUpTo, InOrder, emit-InOrder, Loose}
use agentanvil.Trace.{last_step, total_steps}
use agentanvil.Loop.Numbering.Rounds.{
  high_of, IsBetween-IsLoose, Between, Settled, guarded_loop-Settled,
}

-- `total_steps` of a trace of these events.
abbrev pub steps_of : List EventEnvelope → ℕ
steps_of es = total_steps (record { task_id = ""; events = es })

last_step-snoc :
    (es : List EventEnvelope) (e : EventEnvelope) (k : ℕ)
    → AllUpTo k es
    → e.step ≡ k
    → last_step (es ++ e ∷ []) ≡ k
unfolding last_step
last_step-snoc [] e k h at = ground arith
last_step-snoc (x ∷ es) e k (h, hs) at = ground (arith, last_step-snoc es e k hs at)

steps_of-snoc :
    (es : List EventEnvelope) (e : EventEnvelope) (k : ℕ)
    → AllUpTo k es
    → e.step ≡ k
    → steps_of (es ++ e ∷ []) ≡ suc k
unfolding total_steps
steps_of-snoc [] e k h at = omega (arith, last_step-snoc [] e k h at)
steps_of-snoc (x ∷ es) e k h at = omega (arith, last_step-snoc (x ∷ es) e k h at)

module _ (P : Platform) (C : LlmClient) where
  -- What a result says of the steps in the trace.
  abbrev Numbers : AgentDone → EventWriter → Type 0
  Numbers d w =
      Ascending w.written
      × (d.total_steps ≤ steps_of w.written)
      × (steps_of w.written ≤ suc d.total_steps)
      × ((steps_of w.written ≡ d.total_steps) ⊎ ((d.total_steps ≡ 0) ⊎ (d.outcome ≡ failed)))

  abbrev Ascends : LoopState P C → Type 0
  Ascends s = Ascending s.events.written

  Loose-Ascends : (s : LoopState P C) → Loose P C s → Ascends s
  Loose-Ascends s h = h.ordered.ascending

  -- The last event bears the writer's step.
  module _ (d : AgentDone) (k n : ℕ) (low : k ≤ n) (high : n ≤ suc k)
      (exact : ((n ≡ 0) ⊎ (n ≡ suc k)) ⊎ (d.outcome ≡ failed)) (total : d.total_steps ≡ n) where
    counts :
        (t : ℕ) → t ≡ suc k → (t ≡ d.total_steps) ⊎ ((d.total_steps ≡ 0) ⊎ (d.outcome ≡ failed))
    counts t e = go exact
      where
        go :
            ((n ≡ 0) ⊎ (n ≡ suc k)) ⊎ (d.outcome ≡ failed)
            → (t ≡ d.total_steps) ⊎ ((d.total_steps ≡ 0) ⊎ (d.outcome ≡ failed))
        go (inl (inl z)) = inr (inl (total ∙ z))
        go (inl (inr at)) = inl (e ∙ sym at ∙ sym total)
        go (inr out) = inr (inr out)

    emit_done-Numbers :
        Triple
          (InOrder k)
          (Writer.emit P.dump agent_done (some (done d)))
          (λ e. Numbers d)
          (λ w. Ascending w.written)
    emit_done-Numbers = record {
      at = λ w h.
          go w h (Writer.emit P.dump agent_done (some (done d)) w)
            (emit-cases P.dump agent_done (some (done d)) w)
            ((emit-InOrder P.dump k agent_done (some (done d))).at w h);
    }
      where
        go :
            (w : EventWriter)
            → InOrder k w
            → (o : Result EventEnvelope × EventWriter)
            → After (Emitted P.dump agent_done (some (done d)) w) (Unwritten w) o
            → After (λ (e : EventEnvelope). InOrder k) (InOrder k) o
            → After (λ (e : EventEnvelope). Numbers d) (λ w. Ascending w.written) o
        go w h (ok e, w') em after =
            let steps : steps_of w'.written ≡ suc k =
              ap steps_of em.written ∙ steps_of-snoc w.written e k h.bounded (em.e_step ∙ h.step) in
            (
              after.ascending,
              omega (arith, steps, total),
              omega (arith, steps, total),
              counts (steps_of w'.written) steps,
            )
        go w h (raised x, w') em after = after.ascending

    reported :
        Triple
          (λ s. InOrder k s.events)
          (do emit P C agent_done (done d); pure d)
          (λ d s. Numbers d s.events)
          Ascends
    unfolding emit
    reported =
        Triple-bind (on_writer-Triple P C emit_done-Numbers)
          λ e. Triple-pure (λ d s. Numbers d s.events) Ascends d

  emit_done-Reports :
      (d : AgentDone)
      → Triple
          (λ s. Settled P C s × (d.total_steps ≡ s.step) × (d.outcome ≡ s.outcome))
          (do emit P C agent_done (done d); pure d)
          (λ d s. Numbers d s.events)
          Ascends
  emit_done-Reports d = record { at = λ s (settled, total, out). go s settled total out }
    where
      go :
          (s : LoopState P C)
          → Settled P C s
          → d.total_steps ≡ s.step
          → d.outcome ≡ s.outcome
          → After (λ d s. Numbers d s.events) Ascends ((do emit P C agent_done (done d); pure d) s)
      go s (loose, inl b) total out =
          (reported d b.k b.n b.low (high_of b.k b.n b.settled) (inl b.settled) (total ∙ b.step)).at
            s b.ordered
      go s (l, inr f) total out =
          (reported d l.k l.n l.low l.high (inr (out ∙ f)) (total ∙ l.step)).at s l.ordered

  finish-Reports :
      (t0 : ℕ)
      → Triple
          (Settled P C)
          (do t1 ← time P C; d ← gets (done_data P C t0 t1); emit P C agent_done (done d); pure d)
          (λ d s. Numbers d s.events)
          Ascends
  unfolding done_data time on_machine on_sandbox
  finish-Reports t0 =
      Triple-bind
        (Triple-weaken (Keeps-intro {I = Settled P C} λ s h. h) (λ s h. h) (λ t s h. h)
          (λ s h. Loose-Ascends s h.0))
        λ t1. Triple-bind (gets-Triple P C Ascends _) λ d.
          Triple-weaken (emit_done-Reports d)
            (λ s h. (
              h.1,
              ap (λ (d : AgentDone). d.total_steps) (sym h.0),
              ap (λ (d : AgentDone). d.outcome) (sym h.0),
            ))
            (λ d s h. h) (λ s h. h)

  -- Before the first event.
  abbrev Unstarted : LoopState P C → Type 0
  Unstarted s = InOrder 0 s.events

  unstarted :
      {A : Type 0} {m : LoopAction P C A}
      → Keeps Unstarted m
      → Triple Unstarted m (λ a. Unstarted) Ascends
  unstarted t = Triple-weaken t (λ s h. h) (λ a s h. h) (λ s h. h.ascending)

  module _ (task_id : String) (workspace : FilePath) (spec : AgentTaskSpec) where
    run-Numbers :
        Triple
          (λ s. s.events.written ≡ [])
          (run P C task_id workspace spec)
          (λ d s. Numbers d s.events)
          Ascends
    unfolding run on_writer set_step emit time on_machine on_sandbox
    run-Numbers =
        Triple-bind {R = λ a. Unstarted}
          (record {
            at = λ s h. record {
              step = refl;
              ascending = subst Ascending (sym h) tt;
              bounded = subst (AllUpTo 0) (sym h) tt;
            };
          })
          λ a.
            Triple-bind (unstarted (on_writer-Triple P C (emit-InOrder P.dump 0 agent_start _)))
              λ e.
                Triple-bind
                  (assign-Triple P C {Q = Between P C} Ascends _ λ s h. record {
                    k = 0;
                    n = 0;
                    low = omega arith;
                    settled = inl refl;
                    ordered = h;
                    step = refl;
                  })
                  λ b.
                    Triple-bind
                      (Triple-weaken (Keeps-intro {I = Between P C} λ s h. h) (λ s h. h)
                        (λ t s h. h) (λ s h. Loose-Ascends s (IsBetween-IsLoose h)))
                      λ t0.
                        Triple-bind
                          (Triple-weaken (guarded_loop-Settled P C (setup workspace spec))
                            (λ s h. h) (λ b s h. h) Loose-Ascends)
                          λ c. finish-Reports t0

    -- From a writer that has written nothing. However a run ends, no event bears a step below that
    -- of an earlier event. When it returns, `total_steps` of the trace is `total_steps` of the
    -- result or one more; it is one more only where the result counts no step, or where the run
    -- failed.
    pub run-numbering :
        (s : LoopState P C)
        → s.events.written ≡ []
        → After
            (λ d t.
              Ascending t.events.written
              × (d.total_steps ≤ steps_of t.events.written)
              × (steps_of t.events.written ≤ suc d.total_steps)
              × ((steps_of t.events.written ≡ d.total_steps)
                  ⊎ ((d.total_steps ≡ 0) ⊎ (d.outcome ≡ failed))))
            (λ t. Ascending t.events.written)
            (run P C task_id workspace spec s)
    run-numbering s empty = run-Numbers.at s empty
