-- ===== src/Tests/First.antt =====
-- The theorems on runs that are over with the first answer, on the assistant's message and on
-- costs.
use mathlib.Core.List.{Perm}
use agentanvil.Prelude.{◌≡◌, refl, some, none, [], ◌∷◌}
use agentanvil.Prelude.Int.{pos}
use agentanvil.Python.Json
use agentanvil.Events.Schema.{
  agent_start, agent_step_start, llm_call_start, llm_call_end, agent_step_end, agent_error,
  agent_done, failed, max_steps,
}
use agentanvil.Client.Mock.{Scripted, scripted_client, scripted_complete, exhausted}
use agentanvil.Client.Anthropic.{Reply, text, tool_use, other, translate}
use agentanvil.Config.{AgentTaskSpec}
use agentanvil.Loop.State.{LoopState, assistant_blocks}
use agentanvil.Loop.Step.{wants_tools}
use agentanvil.Loop.Run.{run, setup, initial}
use agentanvil.Loop.Answers.{Dependable}
use agentanvil.Loop.First.Step.{stepped}
use agentanvil.Loop.First.Runs.{EndsWith, run-answered, run-raised, run-unstarted}
use agentanvil.Loop.Assistant.{known_blocks, assistant_blocks-translate}
use agentanvil.Python.Action.Rules.{After}
use agentanvil.Pricing.{compute_cost, round_cost}
use agentanvil.Loop.Cost.{model_name, run-cost}
use agentanvil.Tests.{
  reliable-Sound, scripted_start, write_task, machine, workspace, echo_task, system_writer,
  start_with, ending,
}

abbrev dependable : Dependable machine
dependable = record { dumps = λ e. tt; tells_time = λ m. (0, refl) }

abbrev starting : Scripted → LoopState machine scripted_client
starting script = record (start_with machine scripted_client [] script) {
  sandbox = record { events = system_writer; machine = [] };
}

abbrev one_answer : Scripted
one_answer = record { responses = ending ∷ []; idx = 0 }

abbrev no_answer : Scripted
no_answer = record { responses = []; idx = 0 }

run-answered_example :
    EndsWith machine scripted_client
      (agent_start ∷ agent_step_start ∷ llm_call_start ∷ llm_call_end ∷ agent_step_end ∷ agent_done
        ∷ [])
      (record { responses = ending ∷ []; idx = 1 })
      (stepped
        (setup workspace echo_task)
        ending
        (initial machine scripted_client echo_task.prompt))
      (run machine scripted_client "t" workspace echo_task (starting one_answer))
unfolding setup scripted_complete wants_tools
run-answered_example =
    run-answered machine scripted_client dependable "t" workspace echo_task (starting one_answer)
      (record { open_ = refl; sound = reliable-Sound; clock = (_, refl) }) refl refl ending
      (record { responses = ending ∷ []; idx = 1 }) refl refl

run-raised_example :
    EndsWith machine scripted_client
      (agent_start ∷ agent_step_start ∷ llm_call_start ∷ agent_error ∷ agent_done ∷ [])
      no_answer
      (record (initial machine scripted_client echo_task.prompt) { outcome = failed })
      (run machine scripted_client "t" workspace echo_task (starting no_answer))
unfolding setup scripted_complete
run-raised_example =
    run-raised machine scripted_client dependable "t" workspace echo_task (starting no_answer)
      (record { open_ = refl; sound = reliable-Sound; clock = (_, refl) }) refl refl (exhausted 0)
      no_answer refl

-- A task that allows no step.
abbrev no_steps : AgentTaskSpec
no_steps = record echo_task { max_steps = some (pos 0) }

run-unstarted_example :
    EndsWith machine scripted_client
      (agent_start ∷ agent_done ∷ [])
      one_answer
      (record (initial machine scripted_client echo_task.prompt) { outcome = max_steps })
      (run machine scripted_client "t" workspace no_steps (starting one_answer))
unfolding setup
run-unstarted_example =
    run-unstarted machine scripted_client dependable "t" workspace no_steps (starting one_answer)
      (record { open_ = refl; sound = reliable-Sound; clock = (_, refl) }) refl refl

-- A call before a text.
abbrev mixed : Reply
mixed = record {
  content = tool_use "a" "bash" Json.end ∷ other ∷ text (104 ∷ []) ∷ [];
  usage = none;
  stop_reason = some "tool_use";
  id = "r";
}

assistant_blocks-translate_example :
    Perm (assistant_blocks (translate mixed)) (known_blocks mixed.content)
assistant_blocks-translate_example = assistant_blocks-translate mixed

-- A task for a model with a price.
abbrev priced_task : AgentTaskSpec
priced_task = record write_task {
  model = some (record {
    provider = "anthropic";
    name = "claude-haiku-4-5";
    api_key_secret_ref = none;
    params = [];
  });
}

run-cost_example :
    After
      (λ d t.
        d.total_cost_usd
        ≡ round_cost (
            compute_cost
              (model_name machine scripted_client "t" workspace priced_task)
              d.total_input_tokens
              d.total_output_tokens))
      (λ t. Unit)
      (run machine scripted_client "t" workspace priced_task scripted_start)
run-cost_example = run-cost machine scripted_client "t" workspace priced_task scripted_start
