-- ===== src/Loop/Tokens/Run.antt =====
-- The tokens that a whole run reports.
use agentanvil.Prelude.{
  ℕ, zero, suc, ◌≤◌, ◌≡◌, refl, sym, ◌∙◌, ap, subst, ◌⊎◌, inl, inr, String, Bool, true, false, List,
  [], arith,
}
use agentanvil.Python.FilePath.{FilePath}
use agentanvil.Python.Action.{Exn, pure, gets, ◌>>=◌, ◌>>◌}
use agentanvil.Python.Action.Rules.{
  After, Triple, Triple-pure, Triple-bind, Triple-weaken, Triple-try, Keeps, Keeps-intro,
}
use agentanvil.Events.Schema.{
  agent_start, agent_done, agent_error, done, failed, DoneOutcome, AgentDone, EventEnvelope,
}
use agentanvil.Events.Writer.{set_step}
use agentanvil.Client.Base.{LlmClient}
use agentanvil.Config.{AgentTaskSpec}
use agentanvil.Platform.{Platform}
use agentanvil.Tools.Base.{on_machine}
use agentanvil.Loop.State.{Locals, LoopState, LoopAction, on_sandbox, on_writer, emit}
use agentanvil.Loop.Step.{Setup}
use agentanvil.Loop.Run.{
  set_outcome, again, round, while_steps, fuel_of, crash, guarded_loop, setup, time, done_data, run,
  initial,
}
use agentanvil.Loop.Lift.{assign-Triple, gets-Triple}
use agentanvil.Loop.Measure.{measure, Sums, light-Keeps}
use agentanvil.Loop.Keeps.{gets-Keeps}
use agentanvil.Loop.Tokens.{
  Tokens, input, output, Spends-Short, tokens, sum_tokens, total, reported, Balanced, Short, Spends,
  keeps_all, assigned, body-Balanced,
}

module _ (P : Platform) (C : LlmClient) (k : Tokens) where
  abbrev Balances : LoopAction P C Bool → Type 0
  Balances m = Triple (Balanced P C k) m (λ b. Balanced P C k) (Short P C k)

  same_outcome :
      (k : Tokens) (l : Locals) (o : DoneOutcome) → total k (record l { outcome = o }) ≡ total k l
  same_outcome input l o = refl
  same_outcome output l o = refl

  set_outcome-Balanced :
      (o : DoneOutcome)
      → Triple (Balanced P C k) (set_outcome P C o) (λ b. Balanced P C k) (Short P C k)
  unfolding set_outcome
  set_outcome-Balanced o = assigned P C k _ (λ l. same_outcome k l o)

  again-Balanced :
      (rest : LoopAction P C Bool) → Balances rest → (more : Bool) → Balances (again P C rest more)
  unfolding again
  again-Balanced rest t true = t
  again-Balanced rest t false = Triple-pure (λ b. Balanced P C k) (Short P C k) true

  round-Balanced :
      (rest : LoopAction P C Bool) (u : Setup)
      → Balances rest
      → (b : Bool) → Balances (round P C rest u b)
  unfolding round
  round-Balanced rest u t true = Triple-bind (body-Balanced P C k u) (again-Balanced rest t)
  round-Balanced rest u t false =
      Triple-bind (set_outcome-Balanced _) λ a. Triple-pure (λ b. Balanced P C k) (Short P C k) true

  while_steps-Balanced : (fuel : ℕ) (u : Setup) → Balances (while_steps P C fuel u)
  unfolding while_steps
  while_steps-Balanced zero u = Triple-pure (λ b. Balanced P C k) (Short P C k) false
  while_steps-Balanced (suc fuel) u =
      Triple-bind (keeps_all P C k λ a. gets-Keeps P C _ _)
        λ n. round-Balanced (while_steps P C fuel u) u (while_steps-Balanced fuel u) _

  -- After the loop and its handler.
  abbrev Settled : LoopState P C → Type 0
  Settled s = Short P C k s × (Balanced P C k s ⊎ (s.outcome ≡ failed))

  crash-Settled : (x : Exn) → Triple (Short P C k) (crash P C x) (λ b. Settled) (Short P C k)
  unfolding crash set_outcome
  crash-Settled x = record { at = λ s h. (from _ _ h).at s (record { total = refl; rest = refl }) }
    where
      from :
          (a b : ℕ) → a ≤ b → Triple (Spends P C k a b) (crash P C x) (λ b. Settled) (Short P C k)
      from a b le =
          Triple-bind
            (Triple-weaken
              (light-Keeps (tokens k) P C (λ l. total k l ≡ b) agent_error _ a (λ p. refl))
              (λ s h. h) (λ e s h. h) (Spends-Short P C k a b le))
            λ e.
              Triple-bind
                (assign-Triple P C {Q = Settled} (Short P C k) _ λ s h. (
                  subst (λ n. sum_tokens k s.events.written ≤ n)
                      (sym (same_outcome k s.locals failed)) (Spends-Short P C k a b le s h),
                  inr refl,
                ))
                λ c. Triple-pure (λ b. Settled) (Short P C k) true

  Balanced-Short : (s : LoopState P C) → Balanced P C k s → Short P C k s
  Balanced-Short s h = omega (arith, h)

  guarded_loop-Settled :
      (u : Setup) → Triple (Balanced P C k) (guarded_loop P C u) (λ b. Settled) (Short P C k)
  unfolding guarded_loop
  guarded_loop-Settled u =
      Triple-try
        (Triple-weaken (while_steps-Balanced (fuel_of P C u) u) (λ s h. h)
          (λ b s h. (Balanced-Short s h, inl h)) (λ s h. h))
        crash-Settled

  -- What a result says of the tokens in the trace.
  abbrev Accounts : AgentDone → LoopState P C → Type 0
  Accounts d s =
      (sum_tokens k s.events.written ≤ reported k d)
      × ((sum_tokens k s.events.written ≡ reported k d) ⊎ (d.outcome ≡ failed))

  -- The last event reports no call.
  emit_done-Accounts :
      (d : AgentDone)
      → Triple (Accounts d) (do emit P C agent_done (done d); pure d) Accounts (λ s. Unit)
  unfolding pure
  emit_done-Accounts d = record {
    at = λ s h. (from (sum_tokens k s.events.written) h).at s (record { total = refl; rest = tt });
  }
    where
      from :
          (n : ℕ)
          → (n ≤ reported k d) × ((n ≡ reported k d) ⊎ (d.outcome ≡ failed))
          → Triple
              (Sums (tokens k) P C n (λ l. Unit))
              (do emit P C agent_done (done d); pure d)
              Accounts
              (λ s. Unit)
      from n h =
          Triple-bind
            (Triple-weaken
              (light-Keeps (tokens k) P C (λ l. Unit) agent_done (done d) n (λ p. refl)) (λ s h. h)
              (λ e s h. h) (λ s h. tt))
            λ e. record {
              at = λ s m.
                  subst (λ n. (n ≤ reported k d) × ((n ≡ reported k d) ⊎ (d.outcome ≡ failed)))
                    (sym (Sums.total m)) h;
            }

  -- A reading of the machine's time changes neither the trace nor the local variables.
  time-Keeps :
      (I : List EventEnvelope → Locals → Type 0)
      → Triple
          (λ s. I s.events.written s.locals)
          (time P C)
          (λ t s. I s.events.written s.locals)
          (λ s. Unit)
  unfolding time on_machine on_sandbox
  time-Keeps I =
      Triple-weaken (Keeps-intro {I = λ (s : LoopState P C). I s.events.written s.locals} λ s h. h)
        (λ s h. h) (λ t s h. h) (λ s h. tt)

  finish-Accounts :
      (t0 : ℕ)
      → Triple Settled
          (do t1 ← time P C; d ← gets (done_data P C t0 t1); emit P C agent_done (done d); pure d)
          Accounts
          (λ s. Unit)
  unfolding done_data
  finish-Accounts t0 =
      Triple-bind
        (time-Keeps λ es l.
          (sum_tokens k es ≤ total k l) × ((sum_tokens k es ≡ total k l) ⊎ (l.outcome ≡ failed)))
        λ t1. Triple-bind (gets-Triple P C (λ s. Unit) _) λ d.
          Triple-weaken (emit_done-Accounts d)
            (λ s h. subst (λ d. Accounts d s) h.0 (accounts k s t1 h.1)) (λ d s h. h) (λ s h. h)
    where
      accounts :
          (k : Tokens) (s : LoopState P C) (t1 : ℕ)
          → (sum_tokens k s.events.written ≤ total k s.locals)
            × ((sum_tokens k s.events.written ≡ total k s.locals) ⊎ (s.outcome ≡ failed))
          → (sum_tokens k s.events.written ≤ reported k (done_data P C t0 t1 s))
            × ((sum_tokens k s.events.written ≡ reported k (done_data P C t0 t1 s))
                ⊎ ((done_data P C t0 t1 s).outcome ≡ failed))
      accounts input s t1 h = h
      accounts output s t1 h = h

  module _ (task_id : String) (workspace : FilePath) (spec : AgentTaskSpec) where
    -- Before the local variables have their first values.
    abbrev Silent : LoopState P C → Type 0
    Silent = Sums (tokens k) P C 0 (λ l. Unit)

    silently :
        {A : Type 0} {m : LoopAction P C A}
        → Keeps Silent m
        → Triple Silent m (λ x. Silent) (λ s. Unit)
    silently t = Triple-weaken t (λ s h. h) (λ x s h. h) (λ s h. tt)

    run-Accounts : Triple Silent (run P C task_id workspace spec) Accounts (λ s. Unit)
    unfolding run on_writer set_step
    run-Accounts =
        Triple-bind (silently (Keeps-intro λ s h. record { total = h.total; rest = tt })) λ a.
          Triple-bind
            (silently (light-Keeps (tokens k) P C (λ l. Unit) agent_start _ 0 (λ p. refl)))
            λ e.
              Triple-bind
                (assign-Triple P C {Q = Balanced P C k} (λ s. Unit) _
                  λ s h. Sums.total h ∙ zero_total k)
                λ b. Triple-bind (time-Keeps (λ es l. sum_tokens k es ≡ total k l)) λ t0.
                  Triple-bind
                    (Triple-weaken (guarded_loop-Settled (setup workspace spec)) (λ s h. h)
                      (λ b s h. h) (λ s h. tt))
                    λ c. finish-Accounts t0
      where
        zero_total : (k : Tokens) → 0 ≡ total k (initial P C spec.prompt)
        zero_total input = refl
        zero_total output = refl

    -- From a writer that has written nothing, when a run returns: the `llm_call_end` events report
    -- as many input (output) tokens as the result does, unless the outcome is `failed`, where the
    -- result may report more than the events.
    pub run-tokens :
        (s : LoopState P C)
        → s.events.written ≡ []
        → After
            (λ d t.
              (sum_tokens k t.events.written ≤ reported k d)
              × ((sum_tokens k t.events.written ≡ reported k d) ⊎ (d.outcome ≡ failed)))
            (λ t. Unit)
            (run P C task_id workspace spec s)
    unfolding measure
    run-tokens s empty = run-Accounts.at s (record { total = ap (sum_tokens k) empty; rest = tt })
