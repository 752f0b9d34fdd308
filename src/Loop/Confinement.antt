-- ===== src/Loop/Confinement.antt =====
-- What the tools of a run may change on the machine, `bash` apart.
use agentanvil.Prelude.{
  ◌≡◌, refl, sym, ◌∙◌, ap, subst, ◌≢◌, String, Bool, true, false, Option, none, some, List, [], ◌∷◌,
  All,
}
use agentanvil.Python.Utf8.{Bytes}
use agentanvil.Python.FilePath.{FilePath, parent, relative_to}
use agentanvil.Python.FilePath.Laws.{Under, relative_to-Under}
use agentanvil.Python.Action.{Result, ok}
use agentanvil.Python.Action.Rules.{
  Keeps, Keeps-intro, Keeps-state, Keeps-pure, Keeps-on, Triple-bind, Triple-try,
}
use agentanvil.Client.Base.{LlmClient}
use agentanvil.Config.{ToolSpec, AgentTaskSpec}
use agentanvil.Platform.{Platform}
use agentanvil.Tools.Base.{ToolContext, Sandbox, on_machine, within, emit_file_mutation, on_events}
use agentanvil.Events.Writer.{set_step}
use agentanvil.Python.Json.{Fields}
use agentanvil.Tools.Base.Keeps.{WritesKeep, run-Keeps}
use agentanvil.Tools.Registry.{
  or_60, Tool, ToolClass, bash_tool, file_read_tool, file_write_tool, file_edit_tool,
  web_search_tool, find_tool, run_class, run_tool, name_of,
}
use agentanvil.Tools.Registry.Laws.{find_tool-All, build_tools-All}
use agentanvil.Tools.Safety.{file_read-Keeps, file_write-Keeps, file_edit-Keeps, web_search-Keeps}
use agentanvil.Loop.State.{LoopState, on_sandbox, on_writer, on_client, emit, assign, monotonic_ns}
use agentanvil.Loop.Lift.{on_sandbox-Triple}
use agentanvil.Loop.Step.{Setup, call_tool}
use agentanvil.Loop.Run.{setup, time, run}
use agentanvil.Loop.Invariant as Invariant
use agentanvil.Loop.Invariant.{ActionsKeep}

-- What the machine does for a workspace that it resolves to `root`: writes below `root` keep `K`.
pub record Confined (P : Platform) (workspace root : FilePath) (K : P.Machine → Type 0)
    : Type 0 where
  pub resolved : (m : P.Machine) → K m → P.resolve workspace m ≡ ok root
  pub write : (t : FilePath) (bs : Bytes) → Under root t → Keeps K (P.write_bytes t bs)
  pub make_dirs : (t : FilePath) → Under root t → Keeps K (P.make_dirs (parent t))
  pub clock : Keeps K P.time

within-Under : (P : Platform) (t root : FilePath) → within P t (ok root) ≡ ok true → Under root t
unfolding within
within-Under P t root h = go (relative_to t root) refl h
  where
    go :
        (o : Option FilePath)
        → relative_to t root ≡ o
        → ◌≡◌ {A = Result Bool} (elim o [ none ↦ ok false | some rel ↦ ok true ]) (ok true)
        → Under root t
    go (some rel) e h = relative_to-Under t root rel e
    go none e h = absurd (cc h)

-- A tool that has the workspace and is not `bash`.
abbrev pub Harmless : FilePath → Tool → Type 0
Harmless workspace t = (ToolContext.workspace t.ctx ≡ workspace) × (t.cls ≢ bash_tool)

module _ (P : Platform) (workspace root : FilePath) (K : P.Machine → Type 0)
    (k : Confined P workspace root K) where
  abbrev OnMachine : Sandbox P → Type 0
  OnMachine b = K b.machine

  writes : (ctx : ToolContext) → ctx.workspace ≡ workspace → WritesKeep P OnMachine ctx (Under root)
  unfolding on_machine emit_file_mutation on_events
  writes ctx same = record {
    admits = λ s t h e. within-Under P t root (
        subst (λ r. within P t r ≡ ok true)
          (ap (λ w. P.resolve w s.machine) same ∙ k.resolved s.machine h) e);
    write = λ t bs i.
        Keeps-on (λ b. b.machine) (λ m b. record b { machine = m }) (λ m b. refl) (k.write t bs i);
    make_dirs = λ t i.
        Keeps-on (λ b. b.machine) (λ m b. record b { machine = m }) (λ m b. refl) (k.make_dirs t i);
    mutation = λ t operation before after bs. Keeps-intro λ b h. h;
  }

  run_class-Harmless :
      (c : ToolClass) (ctx : ToolContext) (args : Fields)
      → c ≢ bash_tool
      → ctx.workspace ≡ workspace
      → Keeps OnMachine (run_class P c ctx args)
  unfolding run_class
  run_class-Harmless bash_tool ctx args other same = absurd (other refl)
  run_class-Harmless file_read_tool ctx args other same =
      file_read-Keeps P OnMachine ctx (Under root) (writes ctx same) args
  run_class-Harmless file_write_tool ctx args other same =
      file_write-Keeps P OnMachine ctx (Under root) (writes ctx same) args
  run_class-Harmless file_edit_tool ctx args other same =
      file_edit-Keeps P OnMachine ctx (Under root) (writes ctx same) args
  run_class-Harmless web_search_tool ctx args other same =
      web_search-Keeps P OnMachine ctx (Under root) (writes ctx same) args

  -- A call of a tool other than `bash`.
  run_tool-Harmless :
      (t : Tool) (args : Fields) → Harmless workspace t → Keeps OnMachine (run_tool P t args)
  unfolding run_tool
  run_tool-Harmless t args h = run-Keeps P OnMachine (run_class-Harmless t.cls t.ctx args h.1 h.0)

  module _ (C : LlmClient) where
    abbrev Safe : LoopState P C → Type 0
    Safe s = K s.machine

    machine_actions : ActionsKeep P C Safe (Harmless workspace)
    unfolding emit on_writer set_step monotonic_ns assign on_client call_tool time on_sandbox
        on_machine
    machine_actions = record {
      event = λ type p shape. Keeps-intro λ s h. h;
      numbered = λ n. Keeps-intro λ s h. h;
      reading = Keeps-intro λ s h. h;
      assigned = λ f. Keeps-intro λ s h. h;
      client = λ r. Keeps-intro λ s h. h;
      call = λ t o tu. on_sandbox-Triple P C (
          Triple-try (Triple-bind (run_tool-Harmless t _ o) λ r. Keeps-pure _) (λ x. Keeps-pure _));
      timing = Keeps-intro λ s h. Keeps-state k.clock s.machine h;
    }

  -- The tools of a task that does not ask for `bash`.
  allowed :
      (spec : AgentTaskSpec)
      → All (λ sp. ToolSpec.name sp ≢ "bash") spec.tools
      → (name : String) (t : Tool) → find_tool name (Setup.tools (setup workspace spec)) ≡ some t
      → Harmless workspace t
  unfolding setup name_of
  allowed spec no_bash name t found =
      find_tool-All (Harmless workspace) _ name t
        (build_tools-All (Harmless workspace) _ spec.tools (harmless spec.tools no_bash)) found
    where
      other : (name : String) → name ≢ "bash" → (c : ToolClass) → name_of c ≡ name → c ≢ bash_tool
      other name ne c same e = ne (sym same ∙ ap name_of e)

      harmless :
          (specs : List ToolSpec)
          → All (λ sp. ToolSpec.name sp ≢ "bash") specs
          → All
              (λ sp.
                (c : ToolClass)
                → name_of c ≡ ToolSpec.name sp
                → Harmless workspace (record {
                  cls = c;
                  ctx = record {
                    workspace = workspace;
                    timeout_seconds = or_60 (ToolSpec.timeout_seconds sp);
                  };
                }))
              specs
      harmless [] h = tt
      harmless (sp ∷ specs) (h, hs) = (λ c same. (refl, other sp.name h c same), harmless specs hs)

  -- A run of a task that does not ask for `bash`: what the machine keeps when its clock is read and
  -- when paths under the resolved workspace and their parent directories are written, the whole run
  -- keeps, however it ends, whatever the client asks for.
  pub run-confined :
      (C : LlmClient) (task_id : String) (spec : AgentTaskSpec)
      → All (λ sp. ToolSpec.name sp ≢ "bash") spec.tools
      → (s : LoopState P C) → K s.machine
      → K (run P C task_id workspace spec s).1.machine
  run-confined C task_id spec no_bash = Keeps-state (
      Invariant.run-Keeps P C (Safe C) (Harmless workspace) (machine_actions C) task_id workspace
        spec (allowed spec no_bash))
