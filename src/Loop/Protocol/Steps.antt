-- ===== src/Loop/Protocol/Steps.antt =====
-- One step of the loop, in phases.
use agentanvil.Prelude.{ℕ, ◌≡◌, refl, true, false, Option, none, some, List, [], ◌∷◌}
use agentanvil.Python.Action.{pure, gets}
use agentanvil.Python.Action.Rules.{
  Triple, Triple-pure, Triple-bind, Triple-if, Triple-weaken, Triple-try, Keeps, Keeps-intro,
  Keeps-pure,
}
use agentanvil.Deterministic.Clock
use agentanvil.Events.Schema.{
  mutation, EventType, agent_step_start, llm_call_start, llm_call_end, tool_call_start,
  tool_call_end, agent_step_end, agent_error, Payload,
}
use agentanvil.Client.Base.{ToolUse, LlmResponse, LlmClient}
use agentanvil.Platform.{Platform}
use agentanvil.Tools.Registry.{Tool}
use agentanvil.Tools.Safety.{run_tool-OnEvents}
use agentanvil.Loop.State.{Locals, LoopState, LoopAction, assign, emit, monotonic_ns}
use agentanvil.Loop.Lift.{
  OnWriter, on_sandbox-Triple, on_writer-Triple, on_client-OnWriter, assign-OnWriter,
}
use agentanvil.Loop.Step.{
  Setup, Ended, returned, threw, tool_missing, tool_ended, call_tool, dispatch, run_one_tool,
  run_tools, call_llm, end_step, finish_step, body, wants_tools,
}
use agentanvil.Loop.Protocol.{
  Phase, idle, stepping, calling, answered, in_tool, crashed, next, phase_of,
}
use agentanvil.Loop.Protocol.Events.{At, Open, emit-At, mutation-At, set_step-Keeps, on_clock-Keeps}

module _ (P : Platform) (C : LlmClient) where
  abbrev pub AtS : Phase → LoopState P C → Type 0
  AtS p = OnWriter P C (At p)

  abbrev pub OpenS : LoopState P C → Type 0
  OpenS = OnWriter P C Open

  -- Between two phases; a raise leaves a trace that an error may end.
  abbrev pub Moves : {A : Type 0} → Phase → Phase → LoopAction P C A → Type 0
  Moves p q m = Triple (AtS p) m (λ a. AtS q) OpenS

  pub emit-Moves :
      (p q : Phase) (type : EventType) (payload : Payload)
      → next p type ≡ some q
      → next p agent_error ≡ some crashed
      → Moves p q (emit P C type payload)
  unfolding emit
  emit-Moves p q type payload move crash = on_writer-Triple P C (
      Triple-weaken (emit-At P.dump p q type (some payload) move) (λ w h. h) (λ a w h. h)
        (λ w h. (p, h, crash)))

  pub stay :
      {A : Type 0} {m : LoopAction P C A} (p : Phase)
      → next p agent_error ≡ some crashed
      → Keeps (AtS p) m
      → Moves p p m
  stay p crash k = Triple-weaken k (λ s h. h) (λ a s h. h) (λ s h. (p, h, crash))

  pub clock-Moves : (p : Phase) → next p agent_error ≡ some crashed → Moves p p (monotonic_ns P C)
  unfolding monotonic_ns
  clock-Moves p crash =
      stay p crash
        (on_writer-Triple P C (on_clock-Keeps (λ es. phase_of es ≡ some p) Clock.monotonic_ns))

  pub assign-Moves :
      (p : Phase)
      → next p agent_error ≡ some crashed
      → (f : Locals → Locals) → Moves p p (assign P C f)
  assign-Moves p crash f = stay p crash (assign-OnWriter P C (At p) f)

  pub pure-Moves : {A : Type 0} (p : Phase) (a : A) → Moves p p (pure a)
  pure-Moves p a = Triple-pure (λ a. AtS p) OpenS a

  tool_missing-Moves : (tu : ToolUse) → Moves in_tool answered (tool_missing P C tu)
  unfolding tool_missing
  tool_missing-Moves tu =
      Triple-bind (emit-Moves in_tool answered tool_call_end _ refl refl) λ e. pure-Moves answered _

  tool_ended-Moves :
      (tu : ToolUse) (t0 : ℕ) (ended : Ended) → Moves in_tool answered (tool_ended P C tu t0 ended)
  unfolding tool_ended
  tool_ended-Moves tu t0 (threw x) = Triple-bind (clock-Moves in_tool refl) λ t1.
      Triple-bind (emit-Moves in_tool answered tool_call_end _ refl refl) λ e. pure-Moves answered _
  tool_ended-Moves tu t0 (returned r) = Triple-bind (clock-Moves in_tool refl) λ t1.
      Triple-bind (emit-Moves in_tool answered tool_call_end _ refl refl) λ e. pure-Moves answered _

  call_tool-Moves : (t : Tool) (tu : ToolUse) → Moves in_tool in_tool (call_tool P C t tu)
  unfolding call_tool
  call_tool-Moves t tu = stay in_tool refl (
      on_sandbox-Triple P C (
        Triple-try
          (Triple-bind
            (run_tool-OnEvents P (At in_tool) (λ m. mutation-At P.dump (some (mutation m))) t _)
            λ r. Keeps-pure _)
          (λ x. Keeps-pure _)))

  dispatch-Moves :
      (tu : ToolUse) (t0 : ℕ) (tool : Option Tool)
      → Moves in_tool answered (dispatch P C tu t0 tool)
  unfolding dispatch
  dispatch-Moves tu t0 none = tool_missing-Moves tu
  dispatch-Moves tu t0 (some tool) = Triple-bind (call_tool-Moves tool tu) (tool_ended-Moves tu t0)

  pub run_one_tool-Moves :
      (tools : List Tool) (tu : ToolUse) → Moves answered answered (run_one_tool P C tools tu)
  unfolding run_one_tool
  run_one_tool-Moves tools tu =
      Triple-bind (emit-Moves answered in_tool tool_call_start _ refl refl)
        λ e. Triple-bind (clock-Moves in_tool refl) λ t0. dispatch-Moves tu t0 _

  run_tools-Moves :
      (tools : List Tool) (tus : List ToolUse) → Moves answered answered (run_tools P C tools tus)
  unfolding run_tools
  run_tools-Moves tools [] = pure-Moves answered _
  run_tools-Moves tools (tu ∷ tus) =
      Triple-bind (run_one_tool-Moves tools tu)
        λ b. Triple-bind (run_tools-Moves tools tus) λ bs. pure-Moves answered _

  pub gets-Moves :
      {A : Type 0} (p : Phase)
      → next p agent_error ≡ some crashed
      → (f : LoopState P C → A) → Moves p p (gets f)
  unfolding gets
  gets-Moves p crash f = stay p crash (Keeps-intro λ s h. h)

  call_llm-Moves : (u : Setup) → Moves stepping answered (call_llm P C u)
  unfolding call_llm
  call_llm-Moves u = Triple-bind (gets-Moves stepping refl _) λ req.
      Triple-bind (emit-Moves stepping calling llm_call_start _ refl refl) λ e.
        Triple-bind (clock-Moves calling refl) λ t0.
          Triple-bind (stay calling refl (on_client-OnWriter P C (At calling) _)) λ resp.
            Triple-bind (clock-Moves calling refl) λ t1.
              Triple-bind (assign-Moves calling refl _) λ a.
                Triple-bind (emit-Moves calling answered llm_call_end _ refl refl)
                  λ e'. pure-Moves answered _

  end_step-Moves : Moves answered idle (end_step P C)
  unfolding end_step
  end_step-Moves = Triple-bind (gets-Moves answered refl _) λ n.
      Triple-bind (emit-Moves answered idle agent_step_end _ refl refl)
        λ e. assign-Moves idle refl _

  finish_step-Moves :
      (u : Setup) (resp : LlmResponse) → Moves answered idle (finish_step P C u resp)
  unfolding finish_step
  finish_step-Moves u resp =
      Triple-if (wants_tools resp)
        (Triple-bind (run_tools-Moves _ _) λ results.
          Triple-bind (assign-Moves answered refl _)
            λ a. Triple-bind end_step-Moves λ b. pure-Moves idle true)
        (Triple-bind end_step-Moves
          λ a. Triple-bind (assign-Moves idle refl _) λ b. pure-Moves idle false)

  -- A step goes from between two steps to between two steps.
  pub body-Moves : (u : Setup) → Moves idle idle (body P C u)
  unfolding body
  body-Moves u = Triple-bind (gets-Moves idle refl _) λ n.
      Triple-bind
        (stay idle refl (on_writer-Triple P C (set_step-Keeps (λ es. phase_of es ≡ some idle) n)))
        λ a. Triple-bind (emit-Moves idle stepping agent_step_start _ refl refl) λ e.
          Triple-bind (call_llm-Moves u)
            λ resp. Triple-bind (assign-Moves answered refl _) λ b. finish_step-Moves u resp
