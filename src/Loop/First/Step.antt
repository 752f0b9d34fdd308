-- ===== src/Loop/First/Step.antt =====
-- The first round of loop.py's loop, whatever the client's answer is, if it asks for no tool.
use agentanvil.Prelude.{
  ℕ, suc, ◌+◌, ◌≡◌, refl, sym, ◌∙◌, ap, subst, true, false, List, [], ◌∷◌, ◌++◌,
}
use agentanvil.Prelude.Int.{pos, ltb_ℤ}
use agentanvil.Python.Action.{Exn, Result, ok, raised, pure, gets}
use agentanvil.Python.Action.Rules.{Triple, Triple-bind, Triple-weaken, Triple-known, Triple-split}
use agentanvil.Events.Schema.{
  EventType, agent_step_start, agent_step_end, llm_call_start, llm_call_end, agent_error, failed,
}
use agentanvil.Client.Base.{LlmResponse, Request, LlmClient}
use agentanvil.Platform.{Platform}
use agentanvil.Pricing.{compute_cost}
use agentanvil.Loop.State.{Locals, LoopState, build_assistant_message}
use agentanvil.Loop.Lift.{gets-Triple}
use agentanvil.Loop.Step.{
  Setup, wants_tools, outcome_of, request, append_message, add_totals, call_llm, end_step,
  finish_step, body,
}
use agentanvil.Loop.Run.{set_outcome, again, round, while_steps, crash}
use agentanvil.Loop.Answers.{Dependable}
use agentanvil.Loop.First.{
  On, Threw, emit-On, set_step-On, monotonic_ns-On, assign-On, on_client-On,
}

-- The request of the first round, or of any other, by the local variables.
abbrev pub request_of : Setup → Locals → Request
request_of u l = record {
  system = u.system_prompt;
  messages = l.messages;
  tools = u.schemas;
  params = u.params;
}

-- The local variables behind a step with this answer.
abbrev pub stepped : Setup → LlmResponse → Locals → Locals
stepped u r l = record {
  messages = l.messages ++ build_assistant_message r ∷ [];
  total_input_tokens = l.total_input_tokens + r.input_tokens;
  total_output_tokens = l.total_output_tokens + r.output_tokens;
  total_cost = l.total_cost + compute_cost u.model r.input_tokens r.output_tokens;
  step = suc l.step;
  outcome = outcome_of r.stop_reason;
}

module _ (P : Platform) (C : LlmClient) (good : Dependable P) where
  -- The value of an expression on the local variables.
  pub known-On :
      {A : Type 0} (E : LoopState P C → Type 0) (c : C.State) (l : Locals) (ts : List EventType)
      (f : Locals → A)
      → Triple (On P C ts c l) (gets (λ s. f s.locals)) (λ a s. (a ≡ f l) × On P C ts c l s) E
  known-On E c l ts f =
      Triple-weaken (gets-Triple P C E (λ s. f s.locals)) (λ s h. h)
        (λ a s h. (sym h.0 ∙ ap f h.1.2, h.1)) (λ s h. h)

  end_step-On :
      (E : LoopState P C → Type 0) (c : C.State) (l : Locals) (ts : List EventType)
      → Triple
          (On P C ts c l)
          (end_step P C)
          (λ a. On P C (ts ++ agent_step_end ∷ []) c (record l { step = suc l.step }))
          E
  unfolding end_step
  end_step-On E c l ts = Triple-bind (gets-Triple P C E (λ s. s.step)) λ n.
      Triple-weaken
        (Triple-bind (emit-On P C good E c l ts agent_step_end _) λ e. assign-On P C good E c l _ _)
        (λ s h. h.1) (λ a s h. h) (λ s h. h)

  module _ (u : Setup) (c : C.State) (l : Locals) (o : Result LlmResponse × C.State)
      (answer : C.complete (request_of u l) c ≡ o) where
    abbrev pub Raises : List EventType → LoopState P C → Type 0
    Raises = Threw P C c l (request_of u l) o

    call_llm-On :
        (ts : List EventType)
        → Triple
            (On P C ts c l)
            (call_llm P C u)
            (λ r s.
              (o.0 ≡ ok r)
              × On P C
                  ((ts ++ llm_call_start ∷ []) ++ llm_call_end ∷ [])
                  o.1
                  (record l {
                    total_input_tokens = l.total_input_tokens + r.input_tokens;
                    total_output_tokens = l.total_output_tokens + r.output_tokens;
                    total_cost = l.total_cost + compute_cost u.model r.input_tokens r.output_tokens;
                  })
                  s)
            (Raises (ts ++ llm_call_start ∷ []))
    unfolding call_llm request add_totals pure
    call_llm-On ts =
        let E = Raises (ts ++ llm_call_start ∷ []) in
        Triple-bind (known-On E c l ts (request_of u)) (
          Triple-known _ (request_of u l) (
            Triple-bind (emit-On P C good E c l ts llm_call_start _) λ e.
              Triple-bind (monotonic_ns-On P C good E c l _) λ t0.
                Triple-bind (on_client-On P C c l (request_of u l) o _ answer) λ r. record {
                  at = λ s h.
                      (Triple-bind (monotonic_ns-On P C good E o.1 l _) λ t1.
                          Triple-bind (assign-On P C good E o.1 l _ _) λ a.
                            Triple-bind (emit-On P C good E o.1 _ _ llm_call_end _)
                              λ e'. record { at = λ t k. (h.0, k) }).at
                        s h.1;
                }))

    -- The answer, if there is one, does not ask for tools.
    module _ (quiet : (r : LlmResponse) → o.0 ≡ ok r → wants_tools r ≡ false) where
      abbrev pub types_of : List EventType → List EventType
      types_of ts =
          (((ts ++ agent_step_start ∷ []) ++ llm_call_start ∷ []) ++ llm_call_end ∷ [])
          ++ agent_step_end ∷ []

      abbrev pub Stepped : List EventType → LoopState P C → Type 0
      Stepped ts s = (r : LlmResponse) × (o.0 ≡ ok r) × On P C (types_of ts) o.1 (stepped u r l) s

      body-Stepped :
          (ts : List EventType)
          → Triple
              (On P C ts c l)
              (body P C u)
              (λ b s. (b ≡ false) × Stepped ts s)
              (Raises ((ts ++ agent_step_start ∷ []) ++ llm_call_start ∷ []))
      unfolding body finish_step append_message end_step pure
      body-Stepped ts =
          let E = Raises ((ts ++ agent_step_start ∷ []) ++ llm_call_start ∷ []) in
          Triple-bind (gets-Triple P C E (λ s. s.step)) λ n.
            Triple-weaken
              (Triple-bind (set_step-On P C good E c l ts n) λ a.
                Triple-bind (emit-On P C good E c l ts agent_step_start _) λ e.
                  Triple-bind (call_llm-On (ts ++ agent_step_start ∷ [])) λ r. record {
                    at = λ s h.
                        (Triple-bind (assign-On P C good E o.1 _ _ _) λ a.
                            Triple-split (wants_tools r) (λ w. absurd (cc (quiet r h.0)))
                              λ w. Triple-bind (end_step-On E o.1 _ _) λ b.
                                Triple-bind (assign-On P C good E o.1 _ _ _)
                                  λ d. record { at = λ t k. (refl, (r, h.0, k)) }).at
                          s h.1;
                  })
              (λ s h. h.1) (λ a s h. h) (λ s h. h)

      pub while_steps-Stepped :
          (ts : List EventType) (n : ℕ)
          → ltb_ℤ (pos l.step) u.max_steps ≡ true
          → Triple
              (On P C ts c l)
              (while_steps P C (suc n) u)
              (λ b. Stepped ts)
              (Raises ((ts ++ agent_step_start ∷ []) ++ llm_call_start ∷ []))
      unfolding while_steps round again pure
      while_steps-Stepped ts n more =
          let E = Raises ((ts ++ agent_step_start ∷ []) ++ llm_call_start ∷ []) in
          Triple-bind (known-On E c l ts (λ l. l.step)) (
            Triple-known _ l.step (
              subst
                (λ b.
                  Triple (On P C ts c l) (round P C (while_steps P C n u) u b) (λ b. Stepped ts) E)
                (sym more)
                (Triple-bind (body-Stepped ts) (Triple-known _ false (record { at = λ s h. h })))))

    abbrev pub Crashed : List EventType → LoopState P C → Type 0
    Crashed ts s =
        (x : Exn) × (o.0 ≡ raised x)
        × On P C (ts ++ agent_error ∷ []) o.1 (record l { outcome = failed }) s

    pub crash-Crashed :
        (ts : List EventType) (x : Exn)
        → Triple (Raises ts) (crash P C x) (λ b. Crashed ts) (λ s. ⊥)
    unfolding crash set_outcome pure
    crash-Crashed ts x = record {
      at = λ s (y, e, h).
          (Triple-bind (emit-On P C good (λ s. ⊥) o.1 l ts agent_error _) λ e'.
              Triple-bind (assign-On P C good (λ s. ⊥) o.1 l _ _)
                λ a. record { at = λ t k. (y, e, k) }).at
            s h;
    }
