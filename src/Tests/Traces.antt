-- ===== src/Tests/Traces.antt =====
-- The theorems on the file that a run leaves and on the writer, at a run of the echo client whose
-- events are dumped by a table.
use agentanvil.Prelude.{
  ℕ, suc, not, ◌++◌, ◌≡◌, ◌≢◌, ◌≤◌, refl, sym, ◌∙◌, ap, ◌⊎◌, inl, inr, String, Bool, true, false,
  Option, none, some, List, [], ◌∷◌, map, take, length, All, if◌then◌else◌, leb,
}
use agentanvil.Python.Text.{Text}
use agentanvil.Python.Action.{Result, ok, raised}
use agentanvil.Python.Action.Rules.{After}
use agentanvil.Events.Schema.{
  agent_start, agent_step_start, agent_done, EventEnvelope, schema, start,
}
use agentanvil.Events.Reader.{read_events}
use agentanvil.Events.Reader.Laws.{IsJsonl}
use agentanvil.Events.Log as Log
use agentanvil.Events.Log.{Call}
use agentanvil.Events.Log.Refinement.{calls, new_log, writer-refines}
use agentanvil.Events.Writer.{Streams, sent, broke, emit, open_writer}
use agentanvil.Deterministic.Clock.{system, replay}
use agentanvil.Prelude.Int.{pos}
use agentanvil.Events.Writer.Laws.{Emitted, Failed, emit-ends}
use agentanvil.Client.Mock.{scripted_client}
use agentanvil.Platform.{Platform}
use agentanvil.Loop.State.{LoopState}
use agentanvil.Loop.Run.{run, setup, guarded_loop}
use agentanvil.Loop.Durable.{run-durable}
use agentanvil.Loop.Jsonl.{run-jsonl}
use agentanvil.Loop.Step.{call_llm, run_tools}
use agentanvil.Trace.{Trace, load_trace, by_type}
use agentanvil.Trace.Laws.{load_trace-run}
use mathlib.Core.List.{Sublistᴰ}
use agentanvil.Tests.{
  reliable, reliable-Sound, logging, echo_client_, workspace, echo_task, start_with,
  recorded as readings, fresh_writer, braces,
}
use agentanvil.Tests.Events as Events
use agentanvil.Tests.Events.{echo_done}

-- The echo client's run, whose events the table has.
abbrev twos : Text
twos = 50 ∷ []

abbrev validate : Text → Result EventEnvelope
validate = Events.validate twos (λ n. n)

table-IsJsonl : IsJsonl (Events.dump twos (λ n. n)) validate
table-IsJsonl = Events.table-IsJsonl twos (λ n. n)

abbrev table_machine : Platform
table_machine = logging (Events.dump twos (λ n. n)) validate

abbrev echo_start : LoopState table_machine echo_client_
echo_start = start_with table_machine echo_client_ [] tt

run-jsonl_example :
    let w = (run table_machine echo_client_ "t" workspace echo_task echo_start).1.events in
    (read_events validate w.file ≡ ok w.written)
    × ((w.echo ≡ none) ⊎ (w.echo ≡ some w.file))
    × All (λ e. (e.schema_ ≡ schema) × (e.task_id ≡ "t")) w.written
run-jsonl_example =
    run-jsonl table_machine echo_client_ "t" workspace echo_task table-IsJsonl echo_start
      reliable-Sound refl refl (inl refl)

-- Its echo is a standard output whose reader goes away before the third event.
abbrev broken_pipe : Streams
broken_pipe = record reliable {
  echo_at = λ n held text.
      if leb n 2 then sent else broke (record { name = "BrokenPipeError"; message = [] }) held;
}

abbrev piped_start : LoopState table_machine echo_client_
piped_start = record echo_start {
  sandbox = record echo_start.sandbox {
    events = record echo_start.events { streams = broken_pipe; echo = some [] };
  };
}

run-durable_example :
    let w = (run table_machine echo_client_ "t" workspace echo_task piped_start).1.events in
    (entries : List EventEnvelope) × (read_events validate w.file ≡ ok entries)
    × Sublistᴰ w.written entries
run-durable_example =
    run-durable table_machine echo_client_ "t" workspace echo_task table-IsJsonl piped_start
      (λ n held text. refl) refl refl

abbrev echo_end : LoopState table_machine echo_client_
echo_end = (run table_machine echo_client_ "t" workspace echo_task echo_start).1

echo_returns :
    run table_machine echo_client_ "t" workspace echo_task echo_start ≡ (ok echo_done, echo_end)
unfolding agentanvil.Pricing.price_of agentanvil.Pricing.compute_cost
    agentanvil.Pricing.round_half_even agentanvil.Events.Writer.on_clock
    agentanvil.Events.Writer.set_step agentanvil.Events.Writer.write_line
    agentanvil.Events.Writer.write_file agentanvil.Events.Writer.write_echo
    agentanvil.Events.Writer.stamp agentanvil.Events.Writer.emit agentanvil.Python.Action.pure
    agentanvil.Python.Action.raise agentanvil.Python.Action.lift agentanvil.Python.Action.gets
    agentanvil.Python.Action.try_except agentanvil.Python.Action.modify
    agentanvil.Python.Action.◌>>=◌ agentanvil.Python.Action.on agentanvil.Python.Text.lit
    agentanvil.Python.Text.is_space agentanvil.Python.Text.lstrip agentanvil.Python.Text.rstrip_cons
    agentanvil.Python.Text.rstrip agentanvil.Python.Text.strip agentanvil.Python.Text.count_words
    agentanvil.Python.Text.Lines.drop_last agentanvil.Client.Mock.first_user
    agentanvil.Client.Mock.echo_response agentanvil.Client.Mock.echo_complete
    agentanvil.Tools.Registry.registry agentanvil.Tools.Registry.build_tools
    agentanvil.Loop.State.assistant_blocks agentanvil.Loop.State.build_assistant_message
    agentanvil.Loop.State.on_sandbox agentanvil.Loop.State.on_writer agentanvil.Loop.State.on_client
    agentanvil.Loop.State.assign agentanvil.Loop.State.emit agentanvil.Loop.State.monotonic_ns
    agentanvil.Loop.State.hash_request agentanvil.Loop.State.hash_response
    agentanvil.Loop.Run.round_ms agentanvil.Loop.Run.setup agentanvil.Loop.Run.set_outcome
    agentanvil.Loop.Run.again agentanvil.Loop.Run.round agentanvil.Loop.Run.while_steps
    agentanvil.Loop.Run.crash agentanvil.Loop.Run.guarded_loop agentanvil.Loop.Run.done_data
    agentanvil.Loop.Run.time agentanvil.Loop.Run.run agentanvil.Loop.Step.outcome_of
    agentanvil.Loop.Step.wants_tools agentanvil.Loop.Step.run_one_tool agentanvil.Loop.Step.request
    agentanvil.Loop.Step.append_message agentanvil.Loop.Step.add_totals
    agentanvil.Loop.Step.call_llm agentanvil.Loop.Step.end_step agentanvil.Loop.Step.finish_step
    agentanvil.Loop.Step.body agentanvil.Deterministic.Clock.next
    agentanvil.Deterministic.Clock.replay_now_iso agentanvil.Deterministic.Clock.replay_monotonic_ns
    agentanvil.Deterministic.Clock.now_iso agentanvil.Deterministic.Clock.monotonic_ns
    agentanvil.Deterministic.Clock.tick agentanvil.Tools.Base.on_machine Events.dump
    agentanvil.Prelude.Tests.Bool-cases native.Mathlib.Decide.ℕ_discrete
echo_returns = refl

-- Two events are written in full. The third one is in the file alone.
piped_events :
    let (r, s) = run table_machine echo_client_ "t" workspace echo_task piped_start in
    (length s.events.written ≡ 2)
    × (elim (read_events validate s.events.file) [ ok es ↦ length es | raised x ↦ 0 ] ≡ 3)
unfolding agentanvil.Pricing.price_of agentanvil.Pricing.compute_cost
    agentanvil.Pricing.round_half_even agentanvil.Events.Writer.on_clock
    agentanvil.Events.Writer.set_step agentanvil.Events.Writer.write_line
    agentanvil.Events.Writer.write_file agentanvil.Events.Writer.write_echo
    agentanvil.Events.Writer.stamp agentanvil.Events.Writer.emit agentanvil.Python.Action.pure
    agentanvil.Python.Action.raise agentanvil.Python.Action.lift agentanvil.Python.Action.gets
    agentanvil.Python.Action.try_except agentanvil.Python.Action.modify
    agentanvil.Python.Action.◌>>=◌ agentanvil.Python.Action.on agentanvil.Python.Text.lit
    agentanvil.Python.Text.is_space agentanvil.Python.Text.lstrip agentanvil.Python.Text.rstrip_cons
    agentanvil.Python.Text.rstrip agentanvil.Python.Text.strip agentanvil.Python.Text.count_words
    agentanvil.Python.Text.Lines.drop_last agentanvil.Client.Mock.first_user
    agentanvil.Client.Mock.echo_response agentanvil.Client.Mock.echo_complete
    agentanvil.Tools.Registry.registry agentanvil.Tools.Registry.build_tools
    agentanvil.Loop.State.assistant_blocks agentanvil.Loop.State.build_assistant_message
    agentanvil.Loop.State.on_sandbox agentanvil.Loop.State.on_writer agentanvil.Loop.State.on_client
    agentanvil.Loop.State.assign agentanvil.Loop.State.emit agentanvil.Loop.State.monotonic_ns
    agentanvil.Loop.State.hash_request agentanvil.Loop.State.hash_response
    agentanvil.Loop.Run.round_ms agentanvil.Loop.Run.setup agentanvil.Loop.Run.set_outcome
    agentanvil.Loop.Run.again agentanvil.Loop.Run.round agentanvil.Loop.Run.while_steps
    agentanvil.Loop.Run.crash agentanvil.Loop.Run.guarded_loop agentanvil.Loop.Run.done_data
    agentanvil.Loop.Run.time agentanvil.Loop.Run.run agentanvil.Loop.Step.outcome_of
    agentanvil.Loop.Step.wants_tools agentanvil.Loop.Step.run_one_tool agentanvil.Loop.Step.request
    agentanvil.Loop.Step.append_message agentanvil.Loop.Step.add_totals
    agentanvil.Loop.Step.call_llm agentanvil.Loop.Step.end_step agentanvil.Loop.Step.finish_step
    agentanvil.Loop.Step.body agentanvil.Deterministic.Clock.next
    agentanvil.Deterministic.Clock.replay_now_iso agentanvil.Deterministic.Clock.replay_monotonic_ns
    agentanvil.Deterministic.Clock.now_iso agentanvil.Deterministic.Clock.monotonic_ns
    agentanvil.Deterministic.Clock.tick agentanvil.Tools.Base.on_machine Events.dump
    agentanvil.Prelude.Tests.Bool-cases native.Mathlib.Decide.ℕ_discrete
    agentanvil.Events.Reader.read_lines agentanvil.Events.Reader.read_events
    agentanvil.Python.Text.Lines.split_lines agentanvil.Python.Text.Lines.translate_newlines
    agentanvil.Python.Text.Lines.translate_newlines_from Events.validate
piped_events = (refl, refl)

load_trace-run_example :
    (trace : Trace) × (load_trace
        (λ p. false)
        (λ p. true)
        (λ p. echo_end.events.file)
        validate
        workspace
      ≡ ok trace)
    × (trace.events ≡ echo_end.events.written)
    × (length (by_type trace "agent_step_end") ≡ 1)
load_trace-run_example =
    load_trace-run table_machine echo_client_ "t" workspace echo_task (λ p. false) (λ p. true)
      (λ p. echo_end.events.file) table-IsJsonl echo_start echo_end echo_done echo_returns
      reliable-Sound refl refl (inl refl) workspace refl refl refl

emit-ends_example :
    After
      (Emitted braces agent_start none fresh_writer)
      (Failed braces agent_start none fresh_writer)
      (emit braces agent_start none fresh_writer)
emit-ends_example = emit-ends braces agent_start none fresh_writer

-- The first event of the echo client's run, one that the table has not, and one behind the closing.
abbrev writer_calls : List Call
writer_calls =
    Log.emit agent_start (
      some (
        start (record {
          task_id = "t";
          prompt = 104 ∷ 105 ∷ [];
          provider = "";
          name = "";
          tools = [];
          max_steps = pos 2;
        })))
    ∷ Log.set_step 1
    ∷ Log.emit agent_step_start none
    ∷ Log.close
    ∷ Log.emit agent_done none
    ∷ []

writer-refines_example :
    let (os, w) =
      calls
        (Events.dump twos (λ n. n))
        writer_calls
        (open_writer reliable [] "t" (replay (record { pairs = readings; idx = 0 })) true) in
    (l : Log.Log) × Log.LogSteps writer_calls os (new_log (Events.dump twos (λ n. n)) "t") l
    × (read_events validate w.file ≡ ok l.entries)
    × (l.entries ≡ Log.envelopes os)
    × (w.step ≡ l.step)
    × (w.closed ≡ not l.is_open)
writer-refines_example =
    writer-refines (Events.dump twos (λ n. n)) validate table-IsJsonl reliable reliable-Sound "t"
      (replay (record { pairs = readings; idx = 0 })) true writer_calls
