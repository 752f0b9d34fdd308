-- ===== src/Loop/Protocol.antt =====
-- The order of the events of a run, by an automaton. It is the order of the docstring of loop.py,
-- but for the file mutations, which the tools record while they run: the docstring puts them behind
-- the end of the call, the automaton between its start and its end. The events are those whose
-- `emit` has returned.
pub mod Events
pub mod Steps
pub mod Run
use mathlib.Core.List.{foldl, foldl-append}
use agentanvil.Prelude.{◌≡◌, refl, Option, none, some, List, [], ◌∷◌, ◌++◌}
use agentanvil.Events.Schema.{
  EventType, agent_start, agent_step_start, llm_call_start, llm_call_end, tool_call_start,
  tool_call_end, file_mutation, agent_step_end, agent_done, agent_error, EventEnvelope,
}

-- Where a trace stands.
pub data Phase : Type 0 where
  fresh idle stepping calling answered in_tool crashed finished : Phase

-- The events that may follow: file mutations stand inside a tool call, and an error may break off
-- a run at any point between its first and its last event.
abbrev pub next : Phase → EventType → Option Phase
next fresh agent_start = some idle
next idle agent_step_start = some stepping
next idle agent_done = some finished
next idle agent_error = some crashed
next stepping llm_call_start = some calling
next stepping agent_error = some crashed
next calling llm_call_end = some answered
next calling agent_error = some crashed
next answered tool_call_start = some in_tool
next answered agent_step_end = some idle
next answered agent_error = some crashed
next in_tool file_mutation = some in_tool
next in_tool tool_call_end = some answered
next in_tool agent_error = some crashed
next crashed agent_done = some finished
next _ _ = none

abbrev pub advance : Option Phase → EventEnvelope → Option Phase
advance none e = none
advance (some p) e = next p e.type

-- The phase that a trace leads to, if it is legal.
unfoldable pub phase_of : List EventEnvelope → Option Phase
phase_of = foldl advance (some fresh)

-- One more event.
pub phase_of-append :
    (es : List EventEnvelope) (e : EventEnvelope)
    → phase_of (es ++ e ∷ []) ≡ advance (phase_of es) e
unfolding phase_of
phase_of-append es e = foldl-append advance (some fresh) es (e ∷ [])
