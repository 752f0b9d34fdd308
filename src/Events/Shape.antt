-- ===== src/Events/Shape.antt =====
-- Which `data` an event of events.py has, by its type.
use agentanvil.Prelude.{◌≡◌, ◌⊎◌}
use agentanvil.Events.Schema.{
  EventType, agent_start, agent_step_start, agent_step_end, llm_call_start, llm_call_end,
  tool_call_start, tool_call_end, file_mutation, agent_done, agent_error, Payload, start,
  step_number, call_start, call_end, tool_start, tool_end, mutation, done, error, fields,
}

-- Two types of events have the number of a step, and every other dict belongs to one type.
abbrev pub Shaped : EventType → Payload → Type 0
Shaped type (start a) = type ≡ agent_start
Shaped type (step_number n) = (type ≡ agent_step_start) ⊎ (type ≡ agent_step_end)
Shaped type (call_start c) = type ≡ llm_call_start
Shaped type (call_end c) = type ≡ llm_call_end
Shaped type (tool_start c) = type ≡ tool_call_start
Shaped type (tool_end c) = type ≡ tool_call_end
Shaped type (mutation m) = type ≡ file_mutation
Shaped type (done d) = type ≡ agent_done
Shaped type (error name message) = type ≡ agent_error
Shaped type (fields f) = ⊥
