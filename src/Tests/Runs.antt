-- ===== src/Tests/Runs.antt =====
-- The theorems on whole runs, at a run that writes a file and asks for an unknown tool.
use agentanvil.Prelude.{
  suc, ◌++◌, ◌≡◌, ◌≢◌, ◌≤◌, refl, ◌⊎◌, String, false, [], ◌∷◌, map, take, length, All,
}
use agentanvil.Python.Text.{Text}
use agentanvil.Python.Action.{Result, ok, raised}
use agentanvil.Python.Action.Rules.{After, Keeps-intro}
use agentanvil.Python.FilePath.{FilePath}
use agentanvil.Python.FilePath.Laws.{Under}
use agentanvil.Events.Schema.{
  agent_start, agent_step_start, llm_call_start, llm_call_end, tool_call_start, tool_call_end,
  file_mutation, agent_step_end, agent_done, EventEnvelope, max_steps, failed, completed,
  DoneOutcome, AgentDone,
}
use agentanvil.Events.Writer.{emit, open_writer}
use agentanvil.Deterministic.Clock.{system, replay}
use agentanvil.Loop.Answers.{Ready, run-answers}
use agentanvil.Client.Base.{Request}
use agentanvil.Client.Mock.{scripted_client}
use agentanvil.Loop.State.{LoopState}
use agentanvil.Loop.Run.{run, setup, guarded_loop}
use agentanvil.Loop.Protocol.{finished}
use agentanvil.Loop.Protocol.Events.{At, Legal}
use agentanvil.Loop.Protocol.Run.{run-protocol}
use agentanvil.Loop.Replay.{stamps, run-replays}
use agentanvil.Loop.Told.{recorded, told, run_tools-told}
use agentanvil.Events.Shape.{Shaped}
use agentanvil.Loop.Shapes.{run-shapes}
use agentanvil.Loop.Numbering.{Ascending}
use agentanvil.Loop.Numbering.Run.{steps_of, run-numbering}
use agentanvil.Loop.Count.{count_steps, guarded_loop-total}
use agentanvil.Loop.Count.Run.{run-steps, step_limit}
use agentanvil.Loop.Latency.{EndsAtOnce, call_llm-EndsAtOnce}
use agentanvil.Loop.Step.{call_llm, run_tools}
use agentanvil.Loop.Measure.{measure}
use agentanvil.Loop.Tokens.{input, sum_tokens, reported}
use agentanvil.Loop.Tokens.Run.{run-tokens}
use agentanvil.Loop.Dialogue.{Dialogue}
use agentanvil.Loop.Dialogue.Run.{recording, run-Dialogue}
use agentanvil.Loop.Confinement.{Confined, run-confined}
use agentanvil.Tests.{
  reliable-Sound, system_writer, workspace, start_with, recorded as readings, machine, script,
  write_task, scripted_start, asking,
}

run-protocol_example :
    After
      (λ d t. At finished t.events)
      (λ t. Legal t.events)
      (run machine scripted_client "t" workspace write_task scripted_start)
run-protocol_example =
    run-protocol machine scripted_client "t" workspace write_task scripted_start refl

run-replays_example :
    let es =
      (run machine scripted_client "t" workspace write_task scripted_start).1.events.written in
    map stamps es ≡ take (length es) readings
run-replays_example =
    run-replays readings machine scripted_client "t" workspace write_task scripted_start refl refl

run-steps_example :
    After
      (λ d t.
        (d.total_steps ≡ count_steps t.events.written)
        × (d.total_steps ≤ step_limit machine scripted_client "t" workspace write_task)
        × ((d.outcome ≢ max_steps)
            ⊎ (d.total_steps ≡ step_limit machine scripted_client "t" workspace write_task)))
      (λ t.
        count_steps t.events.written ≤ step_limit machine scripted_client "t" workspace write_task)
      (run machine scripted_client "t" workspace write_task scripted_start)
run-steps_example = run-steps machine scripted_client "t" workspace write_task scripted_start refl

completed-ne : ◌≢◌ {A = DoneOutcome} completed max_steps
completed-ne h = cc

guarded_loop-total_example :
    (guarded_loop machine scripted_client (setup workspace write_task) scripted_start).0 ≢ ok false
unfolding measure
guarded_loop-total_example =
    guarded_loop-total machine scripted_client (setup workspace write_task) scripted_start refl refl
      completed-ne

run-tokens_example :
    After
      (λ d t.
        (sum_tokens input t.events.written ≤ reported input d)
        × ((sum_tokens input t.events.written ≡ reported input d) ⊎ (d.outcome ≡ failed)))
      (λ t. Unit)
      (run machine scripted_client "t" workspace write_task scripted_start)
run-tokens_example =
    run-tokens machine scripted_client input "t" workspace write_task scripted_start refl

abbrev recorded_start : LoopState machine (recording scripted_client)
recorded_start = start_with machine (recording scripted_client) [] (script, [])

run-Dialogue_example :
    All
      (λ r. Dialogue write_task.prompt (Request.messages r))
      (run machine (recording scripted_client) "t" workspace write_task recorded_start).1.client.1
run-Dialogue_example =
    run-Dialogue machine scripted_client "t" workspace write_task recorded_start refl

-- The logging machine keeps to the workspace.
logging-Confined : Confined machine workspace workspace (All (Under workspace))
logging-Confined = record {
  resolved = λ m h. refl;
  write = λ t bs u. Keeps-intro λ m h. (u, h);
  make_dirs = λ t u. Keeps-intro λ m h. h;
  clock = Keeps-intro λ m h. h;
}

file_write-ne : ◌≢◌ {A = String} "file_write" "bash"
file_write-ne h = cc

run-confined_example :
    All
      (Under workspace)
      (run machine scripted_client "t" workspace write_task scripted_start).1.machine
run-confined_example =
    run-confined machine workspace workspace (All (Under workspace)) logging-Confined
      scripted_client "t" write_task (file_write-ne, tt) scripted_start tt

-- The run writes one file, sends two requests, and leaves these events.
scripted_writes :
    ((run machine (recording scripted_client) "t" workspace write_task recorded_start).1.machine
      ≡ record { slashes = 1; parts = (119 ∷ 115 ∷ []) ∷ (97 ∷ []) ∷ [] } ∷ [])
    × (length
          (run machine
            (recording scripted_client)
            "t"
            workspace
            write_task
            recorded_start).1.client.1
        ≡ 2)
    × (map EventEnvelope.type
          (run machine
            (recording scripted_client)
            "t"
            workspace
            write_task
            recorded_start).1.events.written
        ≡ agent_start ∷ agent_step_start ∷ llm_call_start ∷ llm_call_end ∷ tool_call_start
          ∷ file_mutation ∷ tool_call_end ∷ tool_call_start ∷ tool_call_end ∷ agent_step_end
          ∷ agent_step_start ∷ llm_call_start ∷ llm_call_end ∷ agent_step_end ∷ agent_done ∷ [])
unfolding agentanvil.Pricing.price_of agentanvil.Pricing.compute_cost
    agentanvil.Pricing.round_half_even agentanvil.Events.Writer.on_clock
    agentanvil.Events.Writer.set_step agentanvil.Events.Writer.write_line
    agentanvil.Events.Writer.write_file agentanvil.Events.Writer.write_echo
    agentanvil.Events.Writer.stamp agentanvil.Events.Writer.emit agentanvil.Python.Action.pure
    agentanvil.Python.Action.raise agentanvil.Python.Action.lift agentanvil.Python.Action.gets
    agentanvil.Python.Action.try_except agentanvil.Python.Action.modify
    agentanvil.Python.Action.◌>>=◌ agentanvil.Python.Action.on agentanvil.Python.Json.get
    agentanvil.Python.Text.lit agentanvil.Python.Text.show_ℕ agentanvil.Python.Text.show_ℤ
    agentanvil.Python.Text.is_space agentanvil.Python.Text.lstrip agentanvil.Python.Text.rstrip_cons
    agentanvil.Python.Text.rstrip agentanvil.Python.Text.strip agentanvil.Python.Text.count_words
    agentanvil.Python.Utf8.encode_char agentanvil.Python.Utf8.encode agentanvil.Python.Utf8.scan
    agentanvil.Python.Utf8.decode_from agentanvil.Python.Utf8.decode
    agentanvil.Python.Utf8.decode_replace_from agentanvil.Python.Utf8.decode_replace
    agentanvil.Python.FilePath.parse agentanvil.Python.FilePath.join
    agentanvil.Python.FilePath.text_eq agentanvil.Python.FilePath.strip_prefix
    agentanvil.Python.FilePath.relative_to agentanvil.Python.FilePath.show
    agentanvil.Python.FilePath.parent agentanvil.Python.Text.Lines.drop_last
    agentanvil.Client.Mock.scripted_complete agentanvil.Client.Mock.first_user
    agentanvil.Client.Mock.echo_response agentanvil.Client.Mock.echo_complete
    agentanvil.Tools.FileWrite.size_if_exists agentanvil.Tools.FileWrite.write_target
    agentanvil.Tools.FileWrite.write_arg agentanvil.Tools.FileWrite.file_write
    agentanvil.Tools.Base.refusal agentanvil.Tools.Base.success agentanvil.Tools.Base.is_value_error
    agentanvil.Tools.Base.on_machine agentanvil.Tools.Base.ask agentanvil.Tools.Base.on_events
    agentanvil.Tools.Base.encoded agentanvil.Tools.Base.clamp agentanvil.Tools.Base.run
    agentanvil.Tools.Base.sha256_bytes agentanvil.Tools.Base.emit_file_mutation
    agentanvil.Tools.Base.within agentanvil.Tools.Base.resolve_inside
    agentanvil.Tools.Base.with_path agentanvil.Tools.Registry.schema
    agentanvil.Tools.Registry.name_of agentanvil.Tools.Registry.registry
    agentanvil.Tools.Registry.build_tools agentanvil.Tools.Registry.find_tool
    agentanvil.Tools.Registry.run_class agentanvil.Tools.Registry.run_tool
    agentanvil.Loop.State.assistant_blocks agentanvil.Loop.State.build_assistant_message
    agentanvil.Loop.State.on_sandbox agentanvil.Loop.State.on_writer agentanvil.Loop.State.on_client
    agentanvil.Loop.State.assign agentanvil.Loop.State.emit agentanvil.Loop.State.monotonic_ns
    agentanvil.Loop.State.hash_request agentanvil.Loop.State.hash_response
    agentanvil.Loop.Run.round_ms agentanvil.Loop.Run.setup agentanvil.Loop.Run.set_outcome
    agentanvil.Loop.Run.again agentanvil.Loop.Run.round agentanvil.Loop.Run.while_steps
    agentanvil.Loop.Run.crash agentanvil.Loop.Run.guarded_loop agentanvil.Loop.Run.done_data
    agentanvil.Loop.Run.time agentanvil.Loop.Run.run agentanvil.Loop.Step.missing_content
    agentanvil.Loop.Step.raised_content agentanvil.Loop.Step.outcome_of
    agentanvil.Loop.Step.wants_tools agentanvil.Loop.Step.tool_missing
    agentanvil.Loop.Step.tool_ended agentanvil.Loop.Step.call_tool agentanvil.Loop.Step.dispatch
    agentanvil.Loop.Step.run_one_tool agentanvil.Loop.Step.run_tools agentanvil.Loop.Step.request
    agentanvil.Loop.Step.append_message agentanvil.Loop.Step.add_totals
    agentanvil.Loop.Step.call_llm agentanvil.Loop.Step.end_step agentanvil.Loop.Step.finish_step
    agentanvil.Loop.Step.body agentanvil.Deterministic.Clock.next
    agentanvil.Deterministic.Clock.replay_now_iso agentanvil.Deterministic.Clock.replay_monotonic_ns
    agentanvil.Deterministic.Clock.now_iso agentanvil.Deterministic.Clock.monotonic_ns
    agentanvil.Deterministic.Clock.tick
scripted_writes = (refl, refl, refl)

call_llm-EndsAtOnce_example :
    After
      (λ r t. EndsAtOnce t.events)
      (λ t. Unit)
      (call_llm machine scripted_client (setup workspace write_task) scripted_start)
call_llm-EndsAtOnce_example =
    call_llm-EndsAtOnce machine scripted_client (setup workspace write_task) scripted_start tt

-- A start with the machine's clocks.
abbrev system_start : LoopState machine scripted_client
system_start = record (scripted_start) {
  sandbox = record (LoopState.sandbox scripted_start) { events = system_writer };
}

run-answers_example :
    (d : AgentDone) × (t : LoopState machine scripted_client) × (run machine scripted_client "t"
        workspace write_task system_start
      ≡ (ok d, t))
    × (At finished t.events)
    × Ready t.events
run-answers_example =
    run-answers machine scripted_client (record { dumps = λ e. tt; tells_time = λ m. (0, refl) })
      "t" workspace write_task system_start
      (record { open_ = refl; sound = reliable-Sound; clock = (_, refl) }) refl

run-numbering_example :
    After
      (λ d t.
        Ascending t.events.written
        × (d.total_steps ≤ steps_of t.events.written)
        × (steps_of t.events.written ≤ suc d.total_steps)
        × ((steps_of t.events.written ≡ d.total_steps)
            ⊎ ((d.total_steps ≡ 0) ⊎ (d.outcome ≡ failed))))
      (λ t. Ascending t.events.written)
      (run machine scripted_client "t" workspace write_task scripted_start)
run-numbering_example =
    run-numbering machine scripted_client "t" workspace write_task scripted_start refl

run-shapes_example :
    All
      (λ e. Shaped e.type e.payload)
      (run machine scripted_client "t" workspace write_task scripted_start).1.events.written
run-shapes_example = run-shapes machine scripted_client "t" workspace write_task scripted_start refl

run_tools-told_example :
    After
      (λ bs t. recorded t.events.written ≡ recorded scripted_start.events.written ++ told bs)
      (λ t. Unit)
      (run_tools machine scripted_client
        (setup workspace write_task).tools
        asking.tool_uses
        scripted_start)
run_tools-told_example =
    run_tools-told machine scripted_client (setup workspace write_task).tools asking.tool_uses
      scripted_start
