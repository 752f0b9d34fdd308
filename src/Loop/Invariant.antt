-- ===== src/Loop/Invariant.antt =====
-- Properties of the state through a whole run, from what the primitive actions of the loop keep.
use agentanvil.Prelude.{ℕ, zero, suc, ◌≡◌, refl, inl, inr, String, Bool, true, false, some}
use agentanvil.Python.FilePath.{FilePath}
use agentanvil.Python.Action.{Exn}
use agentanvil.Python.Action.Rules.{Keeps, Triple-bind, Triple-if, Triple-try, Keeps-pure}
use agentanvil.Events.Schema.{EventType, Payload}
use agentanvil.Events.Shape.{Shaped}
use agentanvil.Events.Writer.{set_step}
use agentanvil.Client.Base.{Request, LlmClient, LlmResponse, ToolUse}
use agentanvil.Config.{AgentTaskSpec}
use agentanvil.Platform.{Platform}
use agentanvil.Tools.Registry.{Tool, find_tool}
use agentanvil.Loop.State.{
  Locals, LoopState, LoopAction, on_writer, on_client, assign, emit, monotonic_ns,
}
use agentanvil.Loop.Step.{
  Setup, call_tool, add_totals, append_message, end_step, finish_step, body, wants_tools,
}
use agentanvil.Loop.Run.{again, round, while_steps, fuel_of, crash, guarded_loop, setup, time, run}
use agentanvil.Loop.Keeps.{gets-Keeps, Primitives, run_tools-Keeps, call_llm-Keeps}

module _ (P : Platform) (C : LlmClient) (I : LoopState P C → Type 0) (O : Tool → Type 0) where
  -- `O` tells the tools whose calls keep the property.
  pub record ActionsKeep : Type 0 where
    pub event : (type : EventType) (p : Payload) → Shaped type p → Keeps I (emit P C type p)
    pub numbered : (n : ℕ) → Keeps I (on_writer P C (set_step n))
    pub reading : Keeps I (monotonic_ns P C)
    pub assigned : (f : Locals → Locals) → Keeps I (assign P C f)
    pub client : (r : Request) → Keeps I (on_client P C (C.complete r))
    pub call : (t : Tool) → O t → (tu : ToolUse) → Keeps I (call_tool P C t tu)
    pub timing : Keeps I (time P C)

  abbrev pub AllAllowed : Setup → Type 0
  AllAllowed u = (name : String) (t : Tool) → find_tool name u.tools ≡ some t → O t

  module _ (k : ActionsKeep) (u : Setup) (allowed : AllAllowed u) where
    primitives : Primitives P C I (λ t. Unit) O
    primitives = record {
      event = λ type p shape _. k.event type p shape;
      clock = k.reading;
      call = k.call;
    }

    end_step-Keeps : Keeps I (end_step P C)
    unfolding end_step
    end_step-Keeps =
        Triple-bind (gets-Keeps P C I _) λ n. Triple-bind (k.event _ _ (inr refl)) λ e. k.assigned _

    finish_step-Keeps : (r : LlmResponse) → Keeps I (finish_step P C u r)
    unfolding finish_step
    finish_step-Keeps r =
        Triple-if (wants_tools r)
          (Triple-bind (run_tools-Keeps P C I (λ t. Unit) O primitives tt tt _ allowed _)
            λ bs. Triple-bind (k.assigned _) λ a. Triple-bind end_step-Keeps λ b. Keeps-pure _)
          (Triple-bind end_step-Keeps λ a. Triple-bind (k.assigned _) λ b. Keeps-pure _)

    body-Keeps : Keeps I (body P C u)
    unfolding body add_totals append_message
    body-Keeps = Triple-bind (gets-Keeps P C I _) λ n. Triple-bind (k.numbered n) λ a.
        Triple-bind (k.event _ _ (inl refl)) λ e.
          Triple-bind
            (call_llm-Keeps P C I (λ t. Unit) O primitives k.client tt tt u (λ r. k.assigned _))
            λ resp. Triple-bind (k.assigned _) λ b. finish_step-Keeps resp

    pub while_steps-Keeps : (fuel : ℕ) → Keeps I (while_steps P C fuel u)
    unfolding while_steps again round
    while_steps-Keeps zero = Keeps-pure false
    while_steps-Keeps (suc fuel) =
        Triple-bind (gets-Keeps P C I _) λ n. by_test _ (while_steps-Keeps fuel)
      where
        by_more :
            (more : Bool) {rest : LoopAction P C Bool}
            → Keeps I rest
            → Keeps I (again P C rest more)
        by_more true h = h
        by_more false h = Keeps-pure true

        by_test :
            (b : Bool) {rest : LoopAction P C Bool} → Keeps I rest → Keeps I (round P C rest u b)
        by_test true h = Triple-bind (body-Keeps) λ more. by_more more h
        by_test false h = Triple-bind (k.assigned _) λ a. Keeps-pure true

    crash-Keeps : (x : Exn) → Keeps I (crash P C x)
    unfolding crash
    crash-Keeps x =
        Triple-bind (k.event _ _ refl) λ e. Triple-bind (k.assigned _) λ a. Keeps-pure true

    guarded_loop-Keeps : Keeps I (guarded_loop P C u)
    unfolding guarded_loop
    guarded_loop-Keeps = Triple-try (while_steps-Keeps (fuel_of P C u)) crash-Keeps

  module _ (k : ActionsKeep) (task_id : String) (workspace : FilePath) (spec : AgentTaskSpec)
      (allowed : AllAllowed (setup workspace spec)) where
    pub run-Keeps : Keeps I (run P C task_id workspace spec)
    unfolding run
    run-Keeps = Triple-bind (k.numbered 0) λ a. Triple-bind (k.event _ _ refl) λ e.
        Triple-bind (k.assigned _) λ b. Triple-bind k.timing λ t0.
          Triple-bind (guarded_loop-Keeps k (setup workspace spec) allowed) λ c.
            Triple-bind k.timing λ t1.
              Triple-bind (gets-Keeps P C I _)
                λ d. Triple-bind (k.event _ _ refl) λ e'. Keeps-pure _
