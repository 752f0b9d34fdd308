-- ===== src/Loop/Keeps.antt =====
-- Properties that the parts of a step keep, from what the primitive actions keep. `T` tells the
-- events that keep the property, and `O` the tools.
use agentanvil.Prelude.{ℕ, String, ◌≡◌, refl, Option, none, some, List, [], ◌∷◌}
use agentanvil.Python.Action.{gets}
use agentanvil.Python.Action.Rules.{Keeps, Triple-bind, Keeps-pure, Keeps-intro}
use agentanvil.Events.Schema.{
  EventType, llm_call_start, llm_call_end, tool_call_start, tool_call_end, Payload,
}
use agentanvil.Events.Shape.{Shaped}
use agentanvil.Client.Base.{ToolUse, Request, LlmResponse, LlmClient}
use agentanvil.Platform.{Platform}
use agentanvil.Tools.Registry.{Tool, find_tool}
use agentanvil.Loop.State.{LoopState, on_client, emit, monotonic_ns}
use agentanvil.Loop.Step.{
  Setup, Ended, returned, threw, tool_missing, tool_ended, call_tool, dispatch, run_one_tool,
  run_tools, add_totals, call_llm,
}

module _ (P : Platform) (C : LlmClient) (I : LoopState P C → Type 0) where
  pub gets-Keeps : {A : Type 0} (f : LoopState P C → A) → Keeps I (gets f)
  unfolding gets
  gets-Keeps f = Keeps-intro λ s h. h

  module _ (T : EventType → Type 0) (O : Tool → Type 0) where
    pub record Primitives : Type 0 where
      pub event :
          (type : EventType) (payload : Payload)
          → Shaped type payload
          → T type
          → Keeps I (emit P C type payload)
      pub clock : Keeps I (monotonic_ns P C)
      pub call : (t : Tool) → O t → (tu : ToolUse) → Keeps I (call_tool P C t tu)

    module _ (k : Primitives) (starts : T tool_call_start) (ends : T tool_call_end) where
      tool_ended-Keeps :
          (tu : ToolUse) (t0 : ℕ) (ended : Ended) → Keeps I (tool_ended P C tu t0 ended)
      unfolding tool_ended
      tool_ended-Keeps tu t0 (threw x) =
          Triple-bind k.clock
            λ t1. Triple-bind (k.event tool_call_end _ refl ends) λ e. Keeps-pure _
      tool_ended-Keeps tu t0 (returned r) =
          Triple-bind k.clock
            λ t1. Triple-bind (k.event tool_call_end _ refl ends) λ e. Keeps-pure _

      dispatch-Keeps :
          (tu : ToolUse) (t0 : ℕ) (tool : Option Tool)
          → ((t : Tool) → tool ≡ some t → O t)
          → Keeps I (dispatch P C tu t0 tool)
      unfolding dispatch tool_missing
      dispatch-Keeps tu t0 none allowed =
          Triple-bind (k.event tool_call_end _ refl ends) λ e. Keeps-pure _
      dispatch-Keeps tu t0 (some tool) allowed =
          Triple-bind (k.call tool (allowed tool refl) tu) (tool_ended-Keeps tu t0)

      pub run_one_tool-Keeps :
          (tools : List Tool)
          → ((name : String) (t : Tool) → find_tool name tools ≡ some t → O t)
          → (tu : ToolUse) → Keeps I (run_one_tool P C tools tu)
      unfolding run_one_tool
      run_one_tool-Keeps tools allowed tu =
          Triple-bind (k.event tool_call_start _ refl starts)
            λ e. Triple-bind k.clock λ t0. dispatch-Keeps tu t0 _ (allowed tu.name)

      pub run_tools-Keeps :
          (tools : List Tool)
          → ((name : String) (t : Tool) → find_tool name tools ≡ some t → O t)
          → (tus : List ToolUse) → Keeps I (run_tools P C tools tus)
      unfolding run_tools
      run_tools-Keeps tools allowed [] = Keeps-pure _
      run_tools-Keeps tools allowed (tu ∷ tus) =
          Triple-bind (run_one_tool-Keeps tools allowed tu)
            λ b. Triple-bind (run_tools-Keeps tools allowed tus) λ bs. Keeps-pure _

    pub call_llm-Keeps :
        Primitives
        → ((r : Request) → Keeps I (on_client P C (C.complete r)))
        → T llm_call_start
        → T llm_call_end
        → (u : Setup) → ((r : LlmResponse) → Keeps I (add_totals P C u r))
        → Keeps I (call_llm P C u)
    unfolding call_llm
    call_llm-Keeps k client starts ends u totals = Triple-bind (gets-Keeps _) λ req.
        Triple-bind (k.event llm_call_start _ refl starts) λ e. Triple-bind k.clock λ t0.
          Triple-bind (client _) λ resp. Triple-bind k.clock λ t1.
            Triple-bind (totals resp)
              λ a. Triple-bind (k.event llm_call_end _ refl ends) λ e'. Keeps-pure _
