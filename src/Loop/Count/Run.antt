-- ===== src/Loop/Count/Run.antt =====
-- The number of steps that a whole run reports.
use agentanvil.Prelude.{
  inl, inr, ℕ, ◌≤◌, ◌≡◌, ◌≢◌, refl, sym, ◌∙◌, ap, subst, ◌⊎◌, String, [], arith,
}
use agentanvil.Prelude.Int.{pos_part}
use agentanvil.Python.FilePath.{FilePath}
use agentanvil.Python.Action.{pure, gets, ◌>>=◌, ◌>>◌}
use agentanvil.Python.Action.Rules.{After, Triple, Triple-bind, Triple-weaken, Keeps-intro}
use agentanvil.Events.Schema.{agent_start, agent_done, done, max_steps, AgentDone}
use agentanvil.Events.Writer.{set_step}
use agentanvil.Client.Base.{LlmClient}
use agentanvil.Config.{AgentTaskSpec}
use agentanvil.Platform.{Platform}
use agentanvil.Tools.Base.{on_machine}
use agentanvil.Loop.State.{LoopState, on_sandbox, on_writer, emit}
use agentanvil.Loop.Step.{Setup}
use agentanvil.Loop.Run.{setup, guarded_loop, time, done_data, run}
use agentanvil.Loop.Lift.{assign-Triple, gets-Triple}
use agentanvil.Loop.Measure.{measure, Sums, light-Keeps}
use agentanvil.Loop.Count.{ends_step, count_steps, Counted, Stopped, Broken, guarded_loop-Stopped}

module _ (P : Platform) (C : LlmClient) (u : Setup) where
  abbrev limit : ℕ
  limit = pos_part u.max_steps

  -- The trace ends `n` steps.
  abbrev Ends : ℕ → LoopState P C → Type 0
  Ends n = Sums ends_step P C n (λ l. Unit)

  abbrev WithinLimit : LoopState P C → Type 0
  WithinLimit s = count_steps s.events.written ≤ limit

  -- What a result says of the trace.
  abbrev Reports : AgentDone → LoopState P C → Type 0
  Reports d s =
      (d.total_steps ≡ count_steps s.events.written)
      × (d.total_steps ≤ limit)
      × ((d.outcome ≢ max_steps) ⊎ (d.total_steps ≡ limit))

  within_of : (n : ℕ) → n ≤ limit → (s : LoopState P C) → Ends n s → WithinLimit s
  within_of n le s h = subst (λ m. m ≤ limit) (sym h.total) le

  -- The last event changes no count.
  emit_done-Reports :
      (d : AgentDone)
      → Triple (Reports d) (do emit P C agent_done (done d); pure d) Reports WithinLimit
  unfolding pure
  emit_done-Reports d = record {
    at = λ s h. (from s (count_steps s.events.written) h).at s (record { total = refl; rest = tt });
  }
    where
      from :
          (s : LoopState P C) (n : ℕ)
          → (d.total_steps ≡ n)
            × (d.total_steps ≤ limit)
            × ((d.outcome ≢ max_steps) ⊎ (d.total_steps ≡ limit))
          → Triple (Ends n) (do emit P C agent_done (done d); pure d) Reports WithinLimit
      from s n (steps, le, out) =
          Triple-bind
            (Triple-weaken (light-Keeps ends_step P C (λ l. Unit) agent_done (done d) n (λ p. refl))
              (λ s h. h) (λ e s h. h) (within_of n (omega arith)))
            λ e. record { at = λ s h. (steps ∙ sym h.total, le, out) }

  -- The loop ended, and the values that it left are in the state.
  abbrev Finished : ℕ → LoopState P C → Type 0
  Finished n = Sums ends_step P C n (λ l. (l.step ≡ n) × ((l.outcome ≢ max_steps) ⊎ (n ≡ limit)))

  finish-Reports :
      (t0 n : ℕ)
      → n ≤ limit
      → Triple
          (Finished n)
          (do t1 ← time P C; d ← gets (done_data P C t0 t1); emit P C agent_done (done d); pure d)
          Reports
          WithinLimit
  unfolding done_data time on_machine on_sandbox
  finish-Reports t0 n le =
      Triple-bind
        (Triple-weaken (Keeps-intro λ s h. record { total = h.total; rest = h.rest }) (λ s h. h)
          (λ t s h. h) (λ s h. subst (λ m. m ≤ limit) (sym (Sums.total h)) le))
        λ t1. Triple-bind (gets-Triple P C WithinLimit _) λ d.
          Triple-weaken (emit_done-Reports d) (λ s h. subst (λ d. Reports d s) h.0 (reported s h.1))
            (λ d s h. h) (λ s h. h)
    where
      reported :
          (s : LoopState P C)
          → Finished n s
          → (s.step ≡ count_steps s.events.written)
            × (s.step ≤ limit)
            × ((s.outcome ≢ max_steps) ⊎ (s.step ≡ limit))
      reported s h =
          (h.rest.0 ∙ sym h.total, subst (λ m. m ≤ limit) (sym h.rest.0) le, at_limit h.rest.1)
        where
          at_limit :
              (s.outcome ≢ max_steps) ⊎ (n ≡ limit) → (s.outcome ≢ max_steps) ⊎ (s.step ≡ limit)
          at_limit (inl e) = inl e
          at_limit (inr e) = inr (h.rest.0 ∙ e)

  after_loop :
      (t0 : ℕ)
      → Triple
          (λ s. Stopped P C u s)
          (do t1 ← time P C; d ← gets (done_data P C t0 t1); emit P C agent_done (done d); pure d)
          Reports
          WithinLimit
  after_loop t0 = record {
    at = λ s h.
        (finish-Reports t0 h.n h.within).at s
          (record { total = h.total; rest = (h.step, h.outcome) });
  }

  loop-Reports :
      (t0 : ℕ)
      → Triple
          (Counted P C 0)
          (do
            ended ← guarded_loop P C u
            t1 ← time P C
            d ← gets (done_data P C t0 t1)
            emit P C agent_done (done d)
            pure d)
          Reports
          WithinLimit
  loop-Reports t0 =
      Triple-bind
        (Triple-weaken (guarded_loop-Stopped P C u) (λ s h. h) (λ b s h. h.1)
          (λ s h. subst (λ m. m ≤ limit) (sym (Broken.total h)) h.within))
        λ ended. after_loop t0

module _ (P : Platform) (C : LlmClient) (task_id : String) (workspace : FilePath)
    (spec : AgentTaskSpec) where
  -- The limit of this run.
  abbrev pub step_limit : ℕ
  step_limit = pos_part (Setup.max_steps (setup workspace spec))

  run-Reports :
      Triple
        (Ends P C (setup workspace spec) 0)
        (run P C task_id workspace spec)
        (Reports P C (setup workspace spec))
        (WithinLimit P C (setup workspace spec))
  unfolding run on_writer set_step time on_machine on_sandbox
  run-Reports =
      let u = setup workspace spec in
      let bounded = within_of P C u 0 (omega arith) in
      Triple-bind
        (Triple-weaken (Keeps-intro λ s h. record { total = h.total; rest = tt }) (λ s h. h)
          (λ a s h. h) bounded)
        λ a.
          Triple-bind
            (Triple-weaken (light-Keeps ends_step P C (λ l. Unit) agent_start _ 0 (λ p. refl))
              (λ s h. h) (λ e s h. h) bounded)
            λ e.
              Triple-bind
                (assign-Triple P C {Q = Counted P C 0} (WithinLimit P C u) _
                  λ s h. record { total = Sums.total h; rest = (refl, λ e. cc) })
                λ b.
                  Triple-bind
                    (Triple-weaken (Keeps-intro λ s h. record { total = h.total; rest = h.rest })
                      (λ s h. h) (λ t s h. h)
                      (λ s h. subst (λ m. m ≤ limit P C u) (sym (Sums.total h)) (omega arith)))
                    λ t0. loop-Reports P C u t0

  -- From a writer that has written nothing: when the run returns, `total_steps` is the number of
  -- `agent_step_end` events in the trace, it is at most `max_steps` (or 0 if that is negative), and
  -- the outcome is `max_steps` only if all those steps were made; when it raises, the trace has no
  -- more than that many ended steps either.
  pub run-steps :
      (s : LoopState P C)
      → s.events.written ≡ []
      → After
          (λ d t.
            (d.total_steps ≡ count_steps t.events.written)
            × (d.total_steps ≤ step_limit)
            × ((d.outcome ≢ max_steps) ⊎ (d.total_steps ≡ step_limit)))
          (λ t. count_steps t.events.written ≤ step_limit)
          (run P C task_id workspace spec s)
  unfolding measure
  run-steps s empty = run-Reports.at s (record { total = ap count_steps empty; rest = tt })
