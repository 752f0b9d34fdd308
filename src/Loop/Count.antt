-- ===== src/Loop/Count.antt =====
-- How many steps the loop of loop.py takes, against the `agent_step_end` events and the limit.
pub mod Run
use agentanvil.Prelude.{
  ℕ, zero, suc, ◌+◌, ◌-◌, ◌≤◌, ◌<◌, ◌≡◌, ◌≢◌, refl, sym, ◌∙◌, ap, subst, ◌⊎◌, inl, inr, String,
  Bool, true, false, Option, none, some, List, [], ◌∷◌, arith, Bool-cases, ltb,
}
use agentanvil.Prelude.Int.{ℤ, pos, negsuc, pos_part, ltb_ℤ}
use agentanvil.Python.FilePath.{FilePath}
use agentanvil.Python.Action.{Exn, Result, ok, raised, Action, pure, gets, try_except, ◌>>=◌, ◌>>◌}
use agentanvil.Python.Action.Rules.{
  After, Triple, Triple-pure, Triple-bind, Triple-weaken, Triple-if, Triple-try, Keeps, Keeps-intro,
  Keeps-pure,
}
use agentanvil.Events.Schema.{
  EventType, agent_start, agent_step_start, agent_step_end, agent_done, agent_error,
  tool_call_start, tool_call_end, llm_call_start, llm_call_end, Payload, EventEnvelope, DoneOutcome,
  completed, failed, max_steps, AgentDone,
}
use agentanvil.Events.Writer.{set_step, EventWriter}
use agentanvil.Client.Base.{LlmResponse, LlmClient}
use agentanvil.Config.{AgentTaskSpec}
use agentanvil.Platform.{Platform}
use agentanvil.Loop.State.{Locals, LoopState, LoopAction, on_writer, assign, emit}
use agentanvil.Loop.Step.{
  Setup, add_totals, append_message, call_llm, end_step, finish_step, body, outcome_of, wants_tools,
}
use agentanvil.Loop.Run.{
  set_outcome, again, round, while_steps, fuel_of, crash, guarded_loop, setup, time, done_data, run,
}
use agentanvil.Loop.Keeps.{gets-Keeps, run_tools-Keeps, call_llm-Keeps}
use agentanvil.Loop.Lift.{assign-Triple, gets-Triple}
use agentanvil.Loop.Measure.{
  measure, IsWeightless, Sums, emit-adds, client-Keeps, light-Keeps, Sums-Primitives,
}

-- An ended step weighs one.
abbrev pub ends_step : EventType → Payload → ℕ
ends_step agent_step_end p = 1
ends_step type p = 0

-- The number of steps that a trace ends.
abbrev pub count_steps : List EventEnvelope → ℕ
count_steps = measure ends_step

-- What the local variables say after `n` steps, while the loop runs.
abbrev Running : ℕ → Locals → Type 0
Running n l = (l.step ≡ n) × (l.outcome ≢ max_steps)

outcome_of-ne : (r : String) → outcome_of r ≢ max_steps
unfolding outcome_of
outcome_of-ne r h = ground arith

ltb_ℤ→lt : (n : ℕ) (z : ℤ) → ltb_ℤ (pos n) z ≡ true → n < pos_part z
ltb_ℤ→lt n (pos m) h = ground arith
ltb_ℤ→lt n (negsuc m) h = ground arith

ltb_ℤ→eq : (n : ℕ) (z : ℤ) → ltb_ℤ (pos n) z ≡ false → n ≤ pos_part z → n ≡ pos_part z
ltb_ℤ→eq n (pos m) h k = ground arith
ltb_ℤ→eq n (negsuc m) h k = ground arith

failed-ne : ◌≢◌ {A = DoneOutcome} failed max_steps
failed-ne h = cc

module _ (P : Platform) (C : LlmClient) where
  -- `n` steps were counted and `n` step ends were written.
  abbrev Counted : ℕ → LoopState P C → Type 0
  Counted n = Sums ends_step P C n (Running n)

  assign-Counted :
      (n : ℕ) (f : Locals → Locals)
      → ((l : Locals) → Running n l → Running n (f l))
      → Keeps (Counted n) (assign P C f)
  unfolding assign
  assign-Counted n f h = Keeps-intro λ s k. record { total = k.total; rest = h s.locals k.rest }

  call_llm-Counted : (n : ℕ) (u : Setup) → Keeps (Counted n) (call_llm P C u)
  unfolding add_totals
  call_llm-Counted n u =
      call_llm-Keeps P C (Counted n) (IsWeightless ends_step) (λ t. Unit)
        (Sums-Primitives ends_step P C (Running n) n (λ p. refl))
        (client-Keeps ends_step P C (Running n) n) (λ p. refl) (λ p. refl) u
        (λ r. assign-Counted n _ (λ l h. h))

  end_step-Counted : (n : ℕ) → Triple (Counted n) (end_step P C) (λ a. Counted (suc n)) (Counted n)
  unfolding end_step assign
  end_step-Counted n = Triple-bind (gets-Keeps P C (Counted n) _) λ k.
      Triple-bind (emit-adds ends_step P C (Running n) agent_step_end _ n) λ e. record {
        at = λ s h. record { total = h.total ∙ omega arith; rest = (ap suc h.rest.0, h.rest.1) };
      }

  finish_step-Counted :
      (n : ℕ) (u : Setup) (r : LlmResponse)
      → Triple (Counted n) (finish_step P C u r) (λ b. Counted (suc n)) (Counted n)
  unfolding finish_step append_message
  finish_step-Counted n u r =
      Triple-if (wants_tools r)
        (Triple-bind
          (run_tools-Keeps P C (Counted n) (IsWeightless ends_step) (λ t. Unit)
            (Sums-Primitives ends_step P C (Running n) n (λ p. refl)) (λ p. refl) (λ p. refl) _
            (λ m t e. tt) _)
          λ bs. Triple-bind (assign-Counted n _ (λ l h. h)) λ a.
            Triple-bind (end_step-Counted n)
              λ b. Triple-pure (λ b. Counted (suc n)) (Counted n) true)
        (Triple-bind (end_step-Counted n) λ a.
          Triple-bind
            (assign-Triple P C {Q = Counted (suc n)} (Counted n) _
              λ s h. record { total = h.total; rest = (h.rest.0, outcome_of-ne r.stop_reason) })
            λ b. Triple-pure (λ b. Counted (suc n)) (Counted n) false)

  body-Counted :
      (n : ℕ) (u : Setup) → Triple (Counted n) (body P C u) (λ b. Counted (suc n)) (Counted n)
  unfolding body append_message on_writer set_step
  body-Counted n u = Triple-bind (gets-Keeps P C (Counted n) _) λ k.
      Triple-bind (Keeps-intro λ s h. record { total = h.total; rest = h.rest }) λ a.
        Triple-bind (light-Keeps ends_step P C (Running n) agent_step_start _ n (λ p. refl)) λ e.
          Triple-bind (call_llm-Counted n u)
            λ r. Triple-bind (assign-Counted n _ (λ l h. h)) λ b. finish_step-Counted n u r

  module _ (u : Setup) where
    -- The limit as a number of steps.
    abbrev bound : ℕ
    bound = pos_part u.max_steps

    -- The loop ended on its own: the counted steps are within the limit, and the outcome is
    -- `max_steps` only at the limit.
    record Stopped (s : LoopState P C) : Type 0 where
      n : ℕ
      step : s.step ≡ n
      total : count_steps s.events.written ≡ n
      within : n ≤ bound
      outcome : (s.outcome ≢ max_steps) ⊎ (n ≡ bound)

    -- Broken off by an exception.
    record Broken (s : LoopState P C) : Type 0 where
      n : ℕ
      step : s.step ≡ n
      total : count_steps s.events.written ≡ n
      within : n ≤ bound

    Counted-Broken : (n : ℕ) → n ≤ bound → (s : LoopState P C) → Counted n s → Broken s
    Counted-Broken n le s h = record { n = n; step = h.rest.0; total = h.total; within = le }

    abbrev Done : Bool → LoopState P C → Type 0
    Done b s = (b ≡ true) × Stopped s

    again-Stopped :
        (rest : LoopAction P C Bool) (n : ℕ)
        → suc n ≤ bound
        → Triple (Counted (suc n)) rest Done Broken
        → (more : Bool) → Triple (Counted (suc n)) (again P C rest more) Done Broken
    unfolding again pure
    again-Stopped rest n le t true = t
    again-Stopped rest n le t false = record {
      at = λ s h. (
        refl,
        record { n = suc n; step = h.rest.0; total = h.total; within = le; outcome = inl h.rest.1 },
      );
    }

    round-Stopped :
        (rest : LoopAction P C Bool) (n : ℕ)
        → n ≤ bound
        → (n < bound → Triple (Counted (suc n)) rest Done Broken)
        → (b : Bool) → ltb_ℤ (pos n) u.max_steps ≡ b
        → Triple (Counted n) (round P C rest u b) Done Broken
    unfolding round set_outcome pure
    round-Stopped rest n le t true e =
        let lt : n < bound = ltb_ℤ→lt n u.max_steps e in
        Triple-bind (Triple-weaken (body-Counted n u) (λ s h. h) (λ b s h. h) (Counted-Broken n le))
          (again-Stopped rest n lt (t lt))
    round-Stopped rest n le t false e =
        Triple-bind
          (assign-Triple P C {Q = Stopped} Broken _ λ s h. record {
            n = n;
            step = h.rest.0;
            total = h.total;
            within = le;
            outcome = inr (ltb_ℤ→eq n u.max_steps e le);
          })
          λ a. record { at = λ s h. (refl, h) }

    while_steps-Stopped :
        (fuel n : ℕ)
        → n ≤ bound
        → bound - n < fuel
        → Triple (Counted n) (while_steps P C fuel u) Done Broken
    unfolding while_steps
    while_steps-Stopped zero n le enough = absurd (omega arith)
    while_steps-Stopped (suc fuel) n le enough =
        Triple-bind (gets-Triple P C Broken (λ s. s.step)) λ k. record {
          at = λ s h.
              (subst
                  (λ m.
                    Triple (Counted n)
                      (round P C (while_steps P C fuel u) u (ltb_ℤ (pos m) u.max_steps)) Done
                      Broken)
                  (sym h.1.rest.0 ∙ h.0)
                  (round-Stopped (while_steps P C fuel u) n le
                    (λ lt. while_steps-Stopped fuel (suc n) lt (omega arith)) _ refl)).at
                s h.1;
        }

    -- What a crash leaves is a stop too.
    crash-Stopped : (x : Exn) → Triple Broken (crash P C x) Done Broken
    unfolding crash set_outcome pure
    crash-Stopped x = record { at = λ s h. (from h.n h.within).at s (sums s h) }
      where
        Crashing : ℕ → LoopState P C → Type 0
        Crashing n = Sums ends_step P C n (λ l. l.step ≡ n)

        sums : (s : LoopState P C) (h : Broken s) → Crashing h.n s
        sums s h = record { total = h.total; rest = h.step }

        broken : (n : ℕ) → n ≤ bound → (s : LoopState P C) → Crashing n s → Broken s
        broken n le s h = record { n = n; step = h.rest; total = h.total; within = le }

        from : (n : ℕ) → n ≤ bound → Triple (Crashing n) (crash P C x) Done Broken
        from n le =
            Triple-bind
              (Triple-weaken
                (light-Keeps ends_step P C (λ l. l.step ≡ n) agent_error _ n (λ p. refl)) (λ s h. h)
                (λ e s h. h) (broken n le))
              λ e.
                Triple-bind
                  (assign-Triple P C {Q = Stopped} Broken _ λ s h. record {
                    n = n;
                    step = h.rest;
                    total = h.total;
                    within = le;
                    outcome = inl failed-ne;
                  })
                  λ a. record { at = λ s h. (refl, h) }

    guarded_loop-Stopped : Triple (Counted 0) (guarded_loop P C u) Done Broken
    unfolding guarded_loop
    guarded_loop-Stopped =
        Triple-try (while_steps-Stopped (fuel_of P C u) 0 (omega arith) (omega arith)) crash-Stopped

    -- The fuel never runs out: from no step done, the loop with its handler returns `true`, if it
    -- does not raise.
    pub guarded_loop-total :
        (s : LoopState P C)
        → count_steps s.events.written ≡ 0
        → s.step ≡ 0
        → s.outcome ≢ max_steps
        → (guarded_loop P C u s).0 ≢ ok false
    guarded_loop-total s none_ended first running =
        go (guarded_loop P C u s)
          (guarded_loop-Stopped.at s (record { total = none_ended; rest = (first, running) }))
      where
        go : (o : Result Bool × LoopState P C) → After Done Broken o → o.0 ≢ ok false
        go (ok true, t) h = λ e. cc
        go (ok false, t) h = λ e. cc (h.0)
        go (raised x, t) h = λ e. cc
