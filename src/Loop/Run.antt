-- ===== src/Loop/Run.antt =====
-- `run` of loop.py: the loop with its exception handler, between `agent_start` and `agent_done`.
use agentanvil.Prelude.{
  ℕ, zero, suc, String, Bool, true, false, Option, none, some, List, [], ◌∷◌, map,
}
use agentanvil.Prelude.Int.{ℤ, pos, negsuc, pos_part, sub_ℕ, ltb_ℤ}
use agentanvil.Python.Text.{Text}
use agentanvil.Python.FilePath.{FilePath}
use agentanvil.Python.Action.{Exn, pure, gets, try_except, ◌>>=◌, ◌>>◌}
use agentanvil.Events.Schema.{
  agent_start, agent_done, agent_error, start, done, error, AgentDone, DoneOutcome, completed,
  failed, max_steps,
}
use agentanvil.Events.Writer.{set_step}
use agentanvil.Client.Base.{plain, ToolSchema, LlmClient}
use agentanvil.Config.{AgentTaskSpec, ModelSpec}
use agentanvil.Pricing.{round_half_even, round_cost}
use agentanvil.Tools.Base.{on_machine}
use agentanvil.Tools.Registry.{Tool, schema, build_tools}
use agentanvil.Platform.{Platform}
use agentanvil.Loop.State.{
  Locals, LoopState, LoopAction, on_sandbox, on_writer, assign, emit, default_max_steps,
}
use agentanvil.Loop.Step.{Setup, body}

-- `round(t, 3)` of seconds, from microseconds to milliseconds.
unfoldable pub round_ms : ℤ → ℤ
round_ms (pos n) = pos (round_half_even 1000 n)
round_ms (negsuc n) = sub_ℕ 0 (round_half_even 1000 (suc n))

abbrev provider_of : Option ModelSpec → String
provider_of none = ""
provider_of (some m) = m.provider

abbrev name_of : Option ModelSpec → String
name_of none = ""
name_of (some m) = m.name

abbrev params_of : Option ModelSpec → List (String × String)
params_of none = []
params_of (some m) = m.params

abbrev or_default : Option ℤ → ℤ
or_default none = default_max_steps
or_default (some n) = n

-- The values that `run` computes before it emits anything.
unfoldable pub setup : FilePath → AgentTaskSpec → Setup
setup workspace spec =
    let tools =
      build_tools (λ timeout. record { workspace = workspace; timeout_seconds = timeout })
        spec.tools in
    record {
      provider = provider_of spec.model;
      model = name_of spec.model;
      params = params_of spec.model;
      system_prompt = spec.system_prompt;
      tools = tools;
      schemas = map (λ t. schema (Tool.cls t)) tools;
      max_steps = or_default spec.max_steps;
    }

module _ (P : Platform) (C : LlmClient) where
  unfoldable pub set_outcome : DoneOutcome → LoopAction P C (Unit {0})
  set_outcome o = assign P C (λ l. record l { outcome = o })

  -- After the body: `continue`, or `break`.
  unfoldable pub again : LoopAction P C Bool → Bool → LoopAction P C Bool
  again rest true = rest
  again rest false = pure true

  -- By the test of the `while`; the `else` belongs to the loop.
  unfoldable pub round : LoopAction P C Bool → Setup → Bool → LoopAction P C Bool
  unfolding again set_outcome
  round rest u true = do more ← body P C u; again rest more
  round rest u false = do set_outcome max_steps; pure true

  -- `while step < max_steps`, on fuel. `false` says that the fuel ran out.
  unfoldable pub while_steps : ℕ → Setup → LoopAction P C Bool
  while_steps zero u = pure false
  while_steps (suc fuel) u = do
    step ← gets (λ s. s.step)
    round (while_steps fuel u) u (ltb_ℤ (pos step) u.max_steps)

  -- Every round ends a step, so this fuel is enough.
  abbrev pub fuel_of : Setup → ℕ
  fuel_of u = suc (pos_part u.max_steps)

  -- The handler of `except Exception`.
  unfoldable pub crash : Exn → LoopAction P C Bool
  unfolding set_outcome
  crash e = do emit P C agent_error (error e.name e.message); set_outcome failed; pure true

  unfoldable pub guarded_loop : Setup → LoopAction P C Bool
  unfolding while_steps crash
  guarded_loop u = try_except (while_steps (fuel_of u) u) crash

  unfoldable pub done_data : ℕ → ℕ → LoopState P C → AgentDone
  unfolding round_ms
  done_data wall_start wall_end s = record {
    outcome = s.outcome;
    total_steps = s.step;
    total_cost_usd = round_cost s.total_cost;
    total_input_tokens = s.total_input_tokens;
    total_output_tokens = s.total_output_tokens;
    wall_clock_seconds = round_ms (sub_ℕ wall_end wall_start);
  }

  -- The initial values of the local variables.
  abbrev pub initial : Text → Locals
  initial prompt = record {
    messages = record { role = "user"; content = plain prompt } ∷ [];
    total_input_tokens = 0;
    total_output_tokens = 0;
    total_cost = 0;
    step = 0;
    outcome = completed;
  }

  unfoldable pub time : LoopAction P C ℕ
  time = on_sandbox P C (on_machine P P.time)

  -- `LoopRuntime.task_id` is an argument; the other fields of the runtime stand in the state.
  unfoldable pub run : String → FilePath → AgentTaskSpec → LoopAction P C AgentDone
  unfolding setup guarded_loop done_data time
  run task_id workspace spec = do
    let u = setup workspace spec
    on_writer P C (set_step 0)
    emit P C agent_start (
        start (record {
          task_id = task_id;
          prompt = spec.prompt;
          provider = u.provider;
          name = u.model;
          tools = map (λ s. ToolSchema.name s) u.schemas;
          max_steps = u.max_steps;
        }))
    assign P C (λ l. initial spec.prompt)
    wall_start ← time
    guarded_loop u
    wall_end ← time
    data_ ← gets (done_data wall_start wall_end)
    emit P C agent_done (done data_)
    pure data_
