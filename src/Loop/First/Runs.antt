-- ===== src/Loop/First/Runs.antt =====
-- Runs of loop.py that are over with the first answer of the client: the answer asks for no tool,
-- or the client raises; and runs that are over before it, since no step is allowed.
use agentanvil.Prelude.{◌≡◌, refl, sym, ap, subst, String, true, false, List, [], ◌∷◌, ◌++◌, map}
use agentanvil.Prelude.Int.{ℤ, pos, pos_part, sub_ℕ, ltb_ℤ}
use agentanvil.Python.FilePath.{FilePath}
use agentanvil.Python.Action.{Exn, Result, ok, raised, pure}
use agentanvil.Python.Action.Rules.{
  Triple, Triple-bind, Triple-weaken, Triple-try, Triple-known, returned,
}
use agentanvil.Events.Schema.{
  EventType, EventEnvelope, agent_start, agent_step_start, agent_step_end, llm_call_start,
  llm_call_end, agent_error, agent_done, AgentDone, failed, max_steps,
}
use agentanvil.Client.Base.{LlmResponse, Request, LlmClient}
use agentanvil.Config.{AgentTaskSpec}
use agentanvil.Platform.{Platform}
use agentanvil.Pricing.{round_cost}
use agentanvil.Loop.State.{Locals, LoopState}
use agentanvil.Loop.Step.{Setup, wants_tools}
use agentanvil.Loop.Run.{
  setup, set_outcome, round, while_steps, guarded_loop, done_data, initial, run, round_ms,
}
use agentanvil.Loop.Answers.{Ready, Dependable}
use agentanvil.Loop.First.Step.{request_of, stepped, known-On, while_steps-Stepped, crash-Crashed}
use agentanvil.Loop.First.{On, emit-On, set_step-On, assign-On, time-On}

-- What a run reports of its local variables.
abbrev pub Reports : Locals → AgentDone → Type 0
Reports l d =
    (d.outcome ≡ l.outcome)
    × (d.total_steps ≡ l.step)
    × (d.total_input_tokens ≡ l.total_input_tokens)
    × (d.total_output_tokens ≡ l.total_output_tokens)
    × (d.total_cost_usd ≡ round_cost l.total_cost)

module _ (P : Platform) (C : LlmClient) where
  -- The run has returned, with these events, this state of the client, and a report on these
  -- variables.
  abbrev pub EndsWith :
      List EventType → C.State → Locals → Result AgentDone × LoopState P C → Type 0
  EndsWith ts c l o =
      (d : AgentDone) × (t : LoopState P C) × (o ≡ (ok d, t)) × On P C ts c l t × Reports l d

module _ (P : Platform) (C : LlmClient) (good : Dependable P) where
  module _ (task_id : String) (workspace : FilePath) (spec : AgentTaskSpec) where
    abbrev plan : Setup
    plan = setup workspace spec

    -- What stands around the loop.
    run-Around :
        (c c' : C.State) (l l' : Locals) (ts : List EventType)
        → Triple
            (On P C (agent_start ∷ []) c (initial P C spec.prompt))
            (guarded_loop P C plan)
            (λ b. On P C ts c' l')
            (λ s. ⊥)
        → Triple
            (On P C [] c l)
            (run P C task_id workspace spec)
            (λ d t. On P C (ts ++ agent_done ∷ []) c' l' t × Reports l' d)
            (λ s. ⊥)
    unfolding run done_data pure
    run-Around c c' l l' ts loop = Triple-bind (set_step-On P C good (λ s. ⊥) c l [] 0) λ a.
        Triple-bind (emit-On P C good (λ s. ⊥) c l [] agent_start _) λ e.
          Triple-bind (assign-On P C good (λ s. ⊥) c l _ _) λ b.
            Triple-bind (time-On P C good (λ s. ⊥) c _ _) λ t0. Triple-bind loop λ f.
              Triple-bind (time-On P C good (λ s. ⊥) c' l' ts) λ t1.
                Triple-bind
                  (known-On P C good (λ s. ⊥) c' l' ts
                    (λ l. record {
                      outcome = l.outcome;
                      total_steps = l.step;
                      total_cost_usd = round_cost l.total_cost;
                      total_input_tokens = l.total_input_tokens;
                      total_output_tokens = l.total_output_tokens;
                      wall_clock_seconds = round_ms (sub_ℕ t1 t0);
                    }))
                  λ d. record {
                    at = λ s h.
                        (Triple-bind (emit-On P C good (λ s. ⊥) c' l' ts agent_done _)
                            λ e'. record { at = λ t k. (k, report d h.0) }).at
                          s h.1;
                  }
      where
        report :
            {w : ℤ} (d : AgentDone)
            → d ≡ record {
              outcome = l'.outcome;
              total_steps = l'.step;
              total_cost_usd = round_cost l'.total_cost;
              total_input_tokens = l'.total_input_tokens;
              total_output_tokens = l'.total_output_tokens;
              wall_clock_seconds = w;
            }
            → Reports l' d
        report d e = (
          ap (λ (x : AgentDone). x.outcome) e,
          ap (λ (x : AgentDone). x.total_steps) e,
          ap (λ (x : AgentDone). x.total_input_tokens) e,
          ap (λ (x : AgentDone). x.total_output_tokens) e,
          ap (λ (x : AgentDone). x.total_cost_usd) e,
        )

    -- From a run to its end.
    run-EndsWith :
        (c' : C.State) (l' : Locals) (ts : List EventType) (s : LoopState P C)
        → Ready s.events
        → s.events.written ≡ []
        → Triple
            (On P C (agent_start ∷ []) s.client (initial P C spec.prompt))
            (guarded_loop P C plan)
            (λ b. On P C ts c' l')
            (λ s. ⊥)
        → EndsWith P C (ts ++ agent_done ∷ []) c' l' (run P C task_id workspace spec s)
    run-EndsWith c' l' ts s ready empty loop =
        let (d, t, e, h) = returned (run P C task_id workspace spec s) (
          (run-Around s.client c' s.locals l' ts loop).at s
            ((ready, ap (map EventEnvelope.type) empty), refl, refl)) in
        (d, t, e, h.0, h.1)

    -- The request that every run starts with.
    abbrev pub first_request : Request
    first_request = request_of plan (initial P C spec.prompt)

    module _ (s : LoopState P C) (ready : Ready s.events) (empty : s.events.written ≡ [])
        (allowed : ltb_ℤ (pos 0) plan.max_steps ≡ true) where
      -- Let every event be written, at least one step be allowed, and the client answer the first
      -- request without asking for tools. Then the run returns after this one step: the trace has
      -- its six events, the client was asked once, the outcome is the one of the answer's stop
      -- reason, and the tokens and the cost are those of the answer.
      pub run-answered :
          (r : LlmResponse) (c' : C.State)
          → C.complete first_request s.client ≡ (ok r, c')
          → wants_tools r ≡ false
          → EndsWith P C
              (agent_start ∷ agent_step_start ∷ llm_call_start ∷ llm_call_end ∷ agent_step_end
                ∷ agent_done ∷ [])
              c'
              (stepped plan r (initial P C spec.prompt))
              (run P C task_id workspace spec s)
      unfolding guarded_loop
      run-answered r c' answer quiet =
          run-EndsWith c' (stepped plan r (initial P C spec.prompt)) six s ready empty (
            Triple-try
              (Triple-weaken
                (while_steps-Stepped P C good plan s.client (initial P C spec.prompt) (ok r, c')
                  answer quiet_same (agent_start ∷ []) (pos_part plan.max_steps) allowed)
                (λ s h. h)
                (λ b t h.
                  subst (λ x. On P C six c' (stepped plan x (initial P C spec.prompt)) t)
                    (sym (same_ok h.1)) h.2)
                (λ t h. cc (h.1)))
              λ x. record { at = λ t h. absurd h })
        where
          six : List EventType
          six = agent_start ∷ agent_step_start ∷ llm_call_start ∷ llm_call_end ∷ agent_step_end ∷ []

          same_ok : {x : LlmResponse} → ◌≡◌ {A = Result LlmResponse} (ok r) (ok x) → r ≡ x
          same_ok e = cc

          quiet_same :
              (x : LlmResponse) → ◌≡◌ {A = Result LlmResponse} (ok r) (ok x) → wants_tools x ≡ false
          quiet_same x e = subst (λ y. wants_tools y ≡ false) (same_ok e) quiet

      -- Let every event be written, at least one step be allowed, and the client raise at the first
      -- request. Then the run returns: the trace has the start, the call without its end, and the
      -- error; the outcome is `failed`, no step was counted, and nothing was charged.
      pub run-raised :
          (x : Exn) (c' : C.State)
          → C.complete first_request s.client ≡ (raised x, c')
          → EndsWith P C
              (agent_start ∷ agent_step_start ∷ llm_call_start ∷ agent_error ∷ agent_done ∷ [])
              c'
              (record (initial P C spec.prompt) { outcome = failed })
              (run P C task_id workspace spec s)
      unfolding guarded_loop
      run-raised x c' answer =
          run-EndsWith c' (record (initial P C spec.prompt) { outcome = failed })
            (agent_start ∷ agent_step_start ∷ llm_call_start ∷ agent_error ∷ []) s ready empty
            (Triple-try
              (Triple-weaken
                (while_steps-Stepped P C good plan s.client (initial P C spec.prompt) (raised x, c')
                  answer (λ r e. cc e) (agent_start ∷ []) (pos_part plan.max_steps) allowed)
                (λ s h. h) (λ b t h. cc (h.1)) (λ t h. h))
              λ y.
                Triple-weaken
                  (crash-Crashed P C good plan s.client (initial P C spec.prompt) (raised x, c')
                    answer _ y)
                  (λ t h. h) (λ b t h. h.2) (λ t h. h))

    -- Let every event be written, and let the task allow no step, `max_steps` being 0 or below.
    -- Then the run returns without asking the client: the trace has the start and the end, and the
    -- outcome is `max_steps`.
    pub run-unstarted :
        (s : LoopState P C)
        → Ready s.events
        → s.events.written ≡ []
        → ltb_ℤ (pos 0) plan.max_steps ≡ false
        → EndsWith P C
            (agent_start ∷ agent_done ∷ [])
            s.client
            (record (initial P C spec.prompt) { outcome = max_steps })
            (run P C task_id workspace spec s)
    unfolding guarded_loop while_steps round set_outcome pure
    run-unstarted s ready empty none_ =
        let l : Locals = initial P C spec.prompt in
        run-EndsWith s.client (record l { outcome = max_steps }) (agent_start ∷ []) s ready empty
          (Triple-try
            (Triple-bind (known-On P C good (λ s. ⊥) s.client l (agent_start ∷ []) (λ l. l.step)) (
              Triple-known _ 0 (
                subst
                  (λ b.
                    Triple (On P C (agent_start ∷ []) s.client l)
                      (round P C (while_steps P C (pos_part plan.max_steps) plan) plan b)
                      (λ b. On P C (agent_start ∷ []) s.client (record l { outcome = max_steps }))
                      (λ s. ⊥))
                  (sym none_)
                  (Triple-bind (assign-On P C good (λ s. ⊥) s.client l _ _)
                    λ a. record { at = λ t k. k }))))
            λ x. record { at = λ t h. absurd h })
