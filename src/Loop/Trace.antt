-- ===== src/Loop/Trace.antt =====
-- Properties of the writer through a whole run, from what its events, `set_step` and the readings
-- of its clock keep.
use agentanvil.Prelude.{ℕ, String, refl, some}
use agentanvil.Python.FilePath.{FilePath}
use agentanvil.Python.Action.Rules.{
  Keeps, Triple-bind, Triple-try, Keeps-pure, Keeps-intro, Keeps-state,
}
use agentanvil.Deterministic.Clock
use agentanvil.Events.Schema.{EventType, Payload, FileMutation, file_mutation, mutation}
use agentanvil.Events.Shape.{Shaped}
use agentanvil.Events.Writer as Writer
use agentanvil.Events.Writer.{EventWriter, set_step, on_clock}
use agentanvil.Client.Base.{LlmClient, ToolUse}
use agentanvil.Config.{AgentTaskSpec}
use agentanvil.Platform.{Platform}
use agentanvil.Tools.Base.{on_machine}
use agentanvil.Tools.Registry.{Tool}
use agentanvil.Tools.Safety.{run_tool-OnEvents}
use agentanvil.Loop.State.{LoopState, on_sandbox, emit, monotonic_ns}
use agentanvil.Loop.Lift.{
  OnWriter, on_sandbox-Triple, on_writer-Triple, on_client-OnWriter, assign-OnWriter,
}
use agentanvil.Loop.Step.{call_tool}
use agentanvil.Loop.Run.{time, run}
use agentanvil.Loop.Invariant.{ActionsKeep, run-Keeps}

module _ (P : Platform) (C : LlmClient) (J : EventWriter → Type 0) where
  pub record WriterKeeps : Type 0 where
    pub event :
        (type : EventType) (p : Payload)
        → Shaped type p
        → Keeps J (Writer.emit P.dump type (some p))
    pub numbered : (n : ℕ) → Keeps J (set_step n)
    pub reading : Keeps J (on_clock Clock.monotonic_ns)

  pub emit-Keeps :
      (type : EventType) (p : Payload)
      → Keeps J (Writer.emit P.dump type (some p))
      → Keeps (OnWriter P C J) (emit P C type p)
  unfolding emit
  emit-Keeps type p k = on_writer-Triple P C k

  pub call_tool-Keeps :
      ((m : FileMutation) → Keeps J (Writer.emit P.dump file_mutation (some (mutation m))))
      → (t : Tool) (tu : ToolUse) → Keeps (OnWriter P C J) (call_tool P C t tu)
  unfolding call_tool
  call_tool-Keeps mutated t tu = on_sandbox-Triple P C (
      Triple-try (Triple-bind (run_tool-OnEvents P J mutated t _) λ r. Keeps-pure _)
        (λ x. Keeps-pure _))

  module _ (k : WriterKeeps) where
    pub writer_actions : ActionsKeep P C (OnWriter P C J) (λ t. Unit)
    unfolding monotonic_ns time on_machine on_sandbox
    writer_actions = record {
      event = λ type p shape. emit-Keeps type p (k.event type p shape);
      numbered = λ n. on_writer-Triple P C (k.numbered n);
      reading = on_writer-Triple P C k.reading;
      assigned = assign-OnWriter P C J;
      client = λ r. on_client-OnWriter P C J _;
      call = λ t o tu. call_tool-Keeps (λ m. k.event _ _ refl) t tu;
      timing = Keeps-intro λ s h. h;
    }

    -- In the state that a run leaves, whether it returns or raises.
    pub run-keeps :
        (task_id : String) (workspace : FilePath) (spec : AgentTaskSpec) (s : LoopState P C)
        → J s.events
        → J (run P C task_id workspace spec s).1.events
    run-keeps task_id workspace spec = Keeps-state (
        run-Keeps P C (OnWriter P C J) (λ t. Unit) writer_actions task_id workspace spec
          (λ n t e. tt))
