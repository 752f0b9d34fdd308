-- ===== src/Loop/Dialogue/Run.antt =====
-- What a whole run sends to its client.
use agentanvil.Prelude.{
  All, All-append, [], sym, ◌∷◌, ◌++◌, ℕ, zero, suc, ◌≡◌, refl, sym, subst, String, Bool, true,
  false, List, [], ◌∷◌, ◌++◌, if◌then◌else◌,
}
use agentanvil.Python.FilePath.{FilePath}
use agentanvil.Python.Action.{pure, ◌>>=◌, ◌>>◌}
use agentanvil.Python.Action.Rules.{
  Triple, Triple-pure, Triple-bind, Triple-weaken, Triple-try, Keeps, Keeps-intro, Keeps-state,
  Keeps-pure,
}
use agentanvil.Events.Schema.{EventType, Payload}
use agentanvil.Client.Base.{LlmResponse, blocks, Message, Request, LlmClient}
use agentanvil.Config.{AgentTaskSpec}
use agentanvil.Platform.{Platform}
use agentanvil.Loop.State.{
  LoopState, LoopAction, on_sandbox, on_writer, on_client, assign, emit, build_assistant_message,
}
use agentanvil.Loop.Step.{
  Setup, run_tools, request, append_message, outcome_of, add_totals, call_llm, end_step,
  finish_step, body, wants_tools,
}
use agentanvil.Loop.Run.{
  set_outcome, again, round, while_steps, fuel_of, crash, guarded_loop, setup, time, run,
}
use agentanvil.Loop.Keeps.{gets-Keeps}
use agentanvil.Loop.Lift.{assign-Triple, gets-Triple}
use agentanvil.Loop.Dialogue.{
  Dialogue, opening, exchange, Holds, Served, Stays, intro, emit-Stays, clock-Stays, set_step-Stays,
  time-Stays, gets-Stays, assign-Stays, run_tools-Answers, end_step-Stays,
}

module _ (P : Platform) (C : LlmClient) (K : C.State → Type 0) (spec : AgentTaskSpec) where
  -- A dialogue that the task's prompt starts.
  abbrev Prompted : List Message → Type 0
  Prompted = Dialogue spec.prompt

  abbrev Alive : LoopState P C → Type 0
  Alive = Served P C K

  -- Whatever the messages are.
  abbrev Any : List Message → Type 0
  Any ms = Unit

  forget :
      (D : List Message → Type 0) {A : Type 0} {m : LoopAction P C A}
      → Stays P C K D m
      → Triple (Holds P C K D) m (λ a. Alive) Alive
  forget D t = Triple-weaken t (λ s h. h) (λ a s h. h.0) (λ s h. h)

  -- After the assistant's message.
  abbrev Asked : LlmResponse → List Message → Type 0
  Asked r ms' = (ms : List Message) × Prompted ms × (ms' ≡ ms ++ build_assistant_message r ∷ [])

  served_pure : {A : Type 0} (a : A) → Keeps Alive (pure a)
  served_pure a = Keeps-pure a

  -- Where the loop goes on, the dialogue does.
  abbrev Continues : Bool → LoopState P C → Type 0
  Continues true = Holds P C K Prompted
  Continues false = Alive

  finish_step-Dialogue :
      (u : Setup) (r : LlmResponse)
      → Triple (Holds P C K (Asked r)) (finish_step P C u r) Continues Alive
  unfolding finish_step append_message
  finish_step-Dialogue u r = by_case (wants_tools r) refl
    where
      by_case :
          (b : Bool)
          → wants_tools r ≡ b
          → Triple
              (Holds P C K (Asked r))
              (if b
                then (do
                  results ← run_tools P C u.tools r.tool_uses
                  append_message P C (record { role = "user"; content = blocks results })
                  end_step P C
                  pure true)
                else (do
                  end_step P C
                  assign P C (λ l. record l { outcome = outcome_of r.stop_reason })
                  pure false))
              Continues
              Alive
      by_case true wants = Triple-bind (run_tools-Answers P C K (Asked r) _ _) λ results.
          Triple-bind
            (assign-Triple P C {Q = Holds P C K Prompted} Alive _ λ s h. (
              h.1.0,
              subst (λ ms. Prompted (ms ++ record { role = "user"; content = blocks results } ∷ []))
                  (sym h.1.1.2) (exchange r results h.1.1.1 wants h.0),
            ))
            λ a. Triple-bind (end_step-Stays P C K Prompted) λ b. Triple-pure Continues Alive true
      by_case false wants = Triple-bind (end_step-Stays P C K (Asked r)) λ a.
          Triple-bind (forget (Asked r) (assign-Stays P C K (Asked r) _ (λ l. refl)))
            λ b. Triple-pure Continues Alive false

  module _ (serves : (r : Request) → Prompted r.messages → Keeps K (C.complete r)) where
    -- The messages of the request are a dialogue, and so are those of the state.
    abbrev Sending : Request → List Message → Type 0
    Sending req ms = Prompted req.messages × Prompted ms

    complete-Sending : (req : Request) → Stays P C K (Sending req) (on_client P C (C.complete req))
    unfolding on_client
    complete-Sending req =
        intro P C K (Sending req)
          (Keeps-intro λ s h. (Keeps-state (serves req h.1.0) s.client h.0, h.1))

    call_llm-Dialogue : (u : Setup) → Stays P C K Prompted (call_llm P C u)
    unfolding call_llm add_totals request pure
    call_llm-Dialogue u =
        Triple-bind
          (Triple-weaken (gets-Triple P C {Pre = Holds P C K Prompted} Alive (request P C u))
            (λ s h. h)
            (λ req s h. (h.1.0, (subst (λ r. Prompted (Request.messages r)) h.0 h.1.1, h.1.1)))
            (λ s h. h))
          λ req. Triple-bind (emit-Stays P C K (Sending req) _ _) λ e.
            Triple-bind (clock-Stays P C K (Sending req)) λ t0.
              Triple-bind (complete-Sending req) λ r.
                Triple-bind (clock-Stays P C K (Sending req)) λ t1.
                  Triple-bind (assign-Stays P C K (Sending req) _ (λ l. refl)) λ a.
                    Triple-bind (emit-Stays P C K (Sending req) _ _)
                      λ e'. record { at = λ s h. (h.0, h.1.1) }

    body-Dialogue : (u : Setup) → Triple (Holds P C K Prompted) (body P C u) Continues Alive
    unfolding body append_message
    body-Dialogue u = Triple-bind (gets-Stays P C K Prompted _) λ n.
        Triple-bind (set_step-Stays P C K Prompted n) λ a.
          Triple-bind (emit-Stays P C K Prompted _ _) λ e. Triple-bind (call_llm-Dialogue u) λ r.
            Triple-bind
              (assign-Triple P C {Q = Holds P C K (Asked r)} Alive _
                λ s h. (h.0, (s.messages, h.1, refl)))
              λ b. finish_step-Dialogue u r

    again-Served :
        (rest : LoopAction P C Bool)
        → Triple (Holds P C K Prompted) rest (λ b. Alive) Alive
        → (more : Bool) → Triple (Continues more) (again P C rest more) (λ b. Alive) Alive
    unfolding again
    again-Served rest t true = t
    again-Served rest t false = served_pure true

    round-Served :
        (rest : LoopAction P C Bool) (u : Setup)
        → Triple (Holds P C K Prompted) rest (λ b. Alive) Alive
        → (b : Bool) → Triple (Holds P C K Prompted) (round P C rest u b) (λ b. Alive) Alive
    unfolding round set_outcome
    round-Served rest u t true = Triple-bind (body-Dialogue u) (again-Served rest t)
    round-Served rest u t false =
        Triple-bind (forget Prompted (assign-Stays P C K Prompted _ (λ l. refl)))
          λ a. served_pure true

    while_steps-Served :
        (fuel : ℕ) (u : Setup)
        → Triple (Holds P C K Prompted) (while_steps P C fuel u) (λ b. Alive) Alive
    unfolding while_steps pure
    while_steps-Served zero u = record { at = λ s h. h.0 }
    while_steps-Served (suc fuel) u =
        Triple-bind (gets-Stays P C K Prompted _)
          λ n. round-Served (while_steps P C fuel u) u (while_steps-Served fuel u) _

    emit-Served : (type : EventType) (p : Payload) → Keeps Alive (emit P C type p)
    unfolding emit on_writer on_sandbox
    emit-Served type p = Keeps-intro λ s h. h

    time-Served : Keeps Alive (time P C)
    unfolding time on_sandbox
    time-Served = Keeps-intro λ s h. h

    guarded_loop-Served :
        (u : Setup) → Triple (Holds P C K Prompted) (guarded_loop P C u) (λ b. Alive) Alive
    unfolding guarded_loop crash set_outcome
    guarded_loop-Served u = Triple-try (while_steps-Served (fuel_of P C u) u) λ x.
        Triple-bind (emit-Served _ _)
          λ e. Triple-bind (assign-Triple P C {Q = Alive} Alive _ (λ s h. h)) λ a. served_pure true

    module _ (task_id : String) (workspace : FilePath) where
      run-Served : Keeps Alive (run P C task_id workspace spec)
      unfolding run on_writer on_sandbox
      run-Served = Triple-bind (Keeps-intro λ s h. h) λ a. Triple-bind (emit-Served _ _) λ e.
          Triple-bind (assign-Triple P C {Q = Holds P C K Prompted} Alive _ λ s h. (h, opening))
            λ b. Triple-bind (time-Stays P C K Prompted) λ t0.
              Triple-bind (guarded_loop-Served (setup workspace spec)) λ c.
                Triple-bind time-Served λ t1.
                  Triple-bind (gets-Keeps P C Alive _)
                    λ d. Triple-bind (emit-Served _ _) λ e'. served_pure d

      -- What a client promises for requests that hold a dialogue, it keeps during a whole run.
      pub run-Serves :
          (s : LoopState P C) → K s.client → K (run P C task_id workspace spec s).1.client
      run-Serves = Keeps-state run-Served

-- A client with a list of the requests that it was sent.
abbrev pub recording : LlmClient → LlmClient
recording C = record {
  State = C.State × List Request;
  complete = λ r c. let (answer, inner) = C.complete r c.0 in (answer, (inner, c.1 ++ r ∷ []));
}

-- Whatever the client answers and the tools do, each request that a run sends holds a dialogue: the
-- task's prompt, then exchanges of an assistant's message that asks for tools and of the user's
-- message that answers it, with one result for each tool use, with its id, in order.
pub run-Dialogue :
    (P : Platform) (C : LlmClient) (task_id : String) (workspace : FilePath) (spec : AgentTaskSpec)
    (s : LoopState P (recording C))
    → s.client.1 ≡ []
    → All
        (λ r. Dialogue spec.prompt (Request.messages r))
        (run P (recording C) task_id workspace spec s).1.client.1
run-Dialogue P C task_id workspace spec s none_sent =
    run-Serves P (recording C) (λ c. All (λ r. Dialogue spec.prompt (Request.messages r)) c.1) spec
      (λ r d. Keeps-intro λ c h. All-append _ c.1 (r ∷ []) h (d, tt)) task_id workspace s
      (subst (All (λ r. Dialogue spec.prompt (Request.messages r))) (sym none_sent) tt)
