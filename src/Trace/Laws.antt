-- ===== src/Trace/Laws.antt =====
-- A trace that is loaded after a run.
use agentanvil.Prelude.{
  ◌≤◌, ◌≢◌, subst, ◌+◌, ◌≡◌, refl, sym, ◌∙◌, ap, ◌⊎◌, String, Bool, true, false, none, some, List,
  [], ◌∷◌, length, str_eq, if◌then◌else◌, arith,
}
use agentanvil.Python.Text.{Text}
use agentanvil.Python.FilePath.{FilePath}
use agentanvil.Python.Action.{Result, ok}
use agentanvil.Python.Action.Rules.{After}
use agentanvil.Events.Schema.{
  EventType, agent_start, agent_step_start, llm_call_start, llm_call_end, tool_call_start,
  tool_call_end, file_mutation, network_request, network_response, checkpoint_start, checkpoint_end,
  agent_step_end, agent_done, agent_error, EventEnvelope, AgentDone, max_steps,
}
use agentanvil.Events.Writer.{Sound}
use agentanvil.Events.Reader.{read_events}
use agentanvil.Events.Reader.Laws.{IsJsonl}
use agentanvil.Client.Base.{LlmClient}
use agentanvil.Config.{AgentTaskSpec}
use agentanvil.Platform.{Platform}
use agentanvil.Loop.State.{LoopState}
use agentanvil.Loop.Run.{run}
use agentanvil.Loop.Measure.{measure}
use agentanvil.Loop.Count.{ends_step, count_steps}
use agentanvil.Loop.Count.Run.{run-steps, step_limit}
use agentanvil.Loop.Jsonl.{run-jsonl}
use agentanvil.Trace.{Trace, type_name, of_type, by_type, trace_of, load_trace}

of_type-count : (es : List EventEnvelope) → length (of_type "agent_step_end" es) ≡ count_steps es
unfolding of_type type_name measure
of_type-count [] = refl
of_type-count (e ∷ es) = go e.type (of_type-count es)
  where
    go :
        (type : EventType)
        → length (of_type "agent_step_end" es) ≡ count_steps es
        → length (
            if str_eq (type_name type) "agent_step_end"
            then e ∷ of_type "agent_step_end" es
            else of_type "agent_step_end" es)
          ≡ ends_step type e.payload + count_steps es
    go agent_start h = omega (arith, h)
    go agent_step_start h = omega (arith, h)
    go llm_call_start h = omega (arith, h)
    go llm_call_end h = omega (arith, h)
    go tool_call_start h = omega (arith, h)
    go tool_call_end h = omega (arith, h)
    go file_mutation h = omega (arith, h)
    go network_request h = omega (arith, h)
    go network_response h = omega (arith, h)
    go checkpoint_start h = omega (arith, h)
    go checkpoint_end h = omega (arith, h)
    go agent_step_end h = omega (arith, h)
    go agent_done h = omega (arith, h)
    go agent_error h = omega (arith, h)

-- A trace by its events, with the number of steps that it ends.
pub by_type-count : (t : Trace) → length (by_type t "agent_step_end") ≡ count_steps t.events
unfolding by_type
by_type-count t = of_type-count t.events

module _ (P : Platform) (C : LlmClient) (task_id : String) (workspace : FilePath)
    (spec : AgentTaskSpec) (is_dir is_file : FilePath → Bool) (read_text : FilePath → Text) where
  load_trace-file :
      (p : FilePath) (es : List EventEnvelope)
      → is_dir p ≡ false
      → is_file p ≡ true
      → read_events P.validate (read_text p) ≡ ok es
      → load_trace is_dir is_file read_text P.validate p ≡ trace_of (ok es)
  unfolding load_trace
  load_trace-file p es d f r = rw d (rw f (ap trace_of r))

  -- Let a run start with a writer that has written nothing to an empty file, and that echoes to
  -- nothing or to an empty stream, let every write succeed, and let the run return. A trace that
  -- is loaded from the file that it leaves has the events that were emitted, in order, and as many
  -- `agent_step_end` events as the result has steps.
  pub load_trace-run :
      IsJsonl P.dump P.validate
      → (s t : LoopState P C) (d : AgentDone) → run P C task_id workspace spec s ≡ (ok d, t)
      → Sound s.events.streams
      → s.events.file ≡ []
      → s.events.written ≡ []
      → (s.events.echo ≡ none) ⊎ (s.events.echo ≡ some [])
      → (p : FilePath) → is_dir p ≡ false
      → is_file p ≡ true
      → read_text p ≡ t.events.file
      → (trace : Trace) × (load_trace is_dir is_file read_text P.validate p ≡ ok trace)
        × (trace.events ≡ t.events.written)
        × (length (by_type trace "agent_step_end") ≡ d.total_steps)
  load_trace-run laws s t d ran sound file empty echo p dir is text =
      let read : read_events P.validate (read_text p) ≡ ok t.events.written =
        ap (read_events P.validate) text
        ∙ subst
            (λ (o : Result AgentDone × LoopState P C).
              read_events P.validate o.1.events.file ≡ ok o.1.events.written)
            ran (run-jsonl P C task_id workspace spec laws s sound file empty echo).0 in
      let steps =
        subst
          (After
            (λ (d : AgentDone) (t : LoopState P C).
              (d.total_steps ≡ count_steps t.events.written)
              × (d.total_steps ≤ step_limit P C task_id workspace spec)
              × ((d.outcome ≢ max_steps) ⊎ (d.total_steps ≡ step_limit P C task_id workspace spec)))
            (λ t. count_steps t.events.written ≤ step_limit P C task_id workspace spec))
          ran (run-steps P C task_id workspace spec s empty) in
      (
        record { task_id = _; events = t.events.written },
        load_trace-file p t.events.written dir is read,
        refl,
        by_type-count _ ∙ sym steps.0,
      )
