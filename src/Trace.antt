-- ===== src/Trace.antt =====
-- trace.py: a trace in memory, and `load_trace`.
pub mod Laws
use agentanvil.Prelude.{
  ℕ, zero, ◌+◌, String, Bool, true, false, List, [], ◌∷◌, str_eq, if◌then◌else◌, ltb,
}
use agentanvil.Python.Text.{Text, lit}
use agentanvil.Python.FilePath.{FilePath, join, show}
use agentanvil.Python.Action.{Exn, Result, ok, raised}
use agentanvil.Events.Schema.{
  EventType, agent_start, agent_step_start, llm_call_start, llm_call_end, tool_call_start,
  tool_call_end, file_mutation, network_request, network_response, checkpoint_start, checkpoint_end,
  agent_step_end, agent_done, agent_error, EventEnvelope,
}
use agentanvil.Events.Reader.{read_events}

pub record Trace : Type 0 where
  pub task_id : String
  pub events : List EventEnvelope

abbrev larger : ℕ → ℕ → ℕ
larger a b = if ltb a b then b else a

-- `max((e.step for e in events), default=0)`
unfoldable pub last_step : List EventEnvelope → ℕ
last_step [] = 0
last_step (e ∷ es) = larger e.step (last_step es)

-- The property `total_steps`.
unfoldable pub total_steps : Trace → ℕ
unfolding last_step
total_steps t = elim t.events [ [] ↦ 0 | e ∷ es ↦ last_step (e ∷ es) + 1 ]

-- The literals of `EventType`.
unfoldable pub type_name : EventType → String
type_name agent_start = "agent_start"
type_name agent_step_start = "agent_step_start"
type_name llm_call_start = "llm_call_start"
type_name llm_call_end = "llm_call_end"
type_name tool_call_start = "tool_call_start"
type_name tool_call_end = "tool_call_end"
type_name file_mutation = "file_mutation"
type_name network_request = "network_request"
type_name network_response = "network_response"
type_name checkpoint_start = "checkpoint_start"
type_name checkpoint_end = "checkpoint_end"
type_name agent_step_end = "agent_step_end"
type_name agent_done = "agent_done"
type_name agent_error = "agent_error"

of_type : String → List EventEnvelope → List EventEnvelope
of_type event_type [] = []
of_type event_type (e ∷ es) =
    let rest = of_type event_type es in
    if str_eq (type_name e.type) event_type then e ∷ rest else rest

unfoldable pub by_type : Trace → String → List EventEnvelope
unfolding of_type type_name
by_type t event_type = of_type event_type t.events

abbrev pub file_not_found : FilePath → Exn
file_not_found p = record { name = "FileNotFoundError"; message = show p }

abbrev first_task_id : List EventEnvelope → String
first_task_id [] = ""
first_task_id (e ∷ es) = e.task_id

abbrev trace_of : Result (List EventEnvelope) → Result Trace
trace_of (ok events) = ok (record { task_id = first_task_id events; events = events })
trace_of (raised e) = raised e

-- The file system's answers are parameters.
module _ (is_dir is_file : FilePath → Bool) (read_text : FilePath → Text)
    (validate : Text → Result EventEnvelope) where
  unfoldable pub load_trace : FilePath → Result Trace
  load_trace p =
      let events_path = if is_dir p then join p (lit "events.jsonl") else p in
      if is_file events_path
      then trace_of (read_events validate (read_text events_path))
      else raised (file_not_found events_path)
