-- ===== src/Events/Schema.antt =====
-- `EventType`, `DoneOutcome` and `EventEnvelope` of events.py, and what the SDK puts into `data`.
use agentanvil.Prelude.{ℕ, String, Bool, List}
use agentanvil.Prelude.Int.{ℤ}
use agentanvil.Python.Text.{Text}
use agentanvil.Python.Json.{Fields}

abbrev pub schema : String
schema = "agent-anvil/v1"

pub data EventType : Type 0 where
  agent_start agent_step_start llm_call_start llm_call_end tool_call_start tool_call_end : EventType
  file_mutation network_request network_response checkpoint_start checkpoint_end : EventType
  agent_step_end agent_done agent_error : EventType

pub data DoneOutcome : Type 0 where
  completed failed timeout max_steps evicted : DoneOutcome

pub record AgentStart : Type 0 where
  pub task_id : String
  pub prompt : Text
  pub provider : String
  pub name : String
  pub tools : List String
  pub max_steps : ℤ

pub record LlmCallStart : Type 0 where
  pub provider : String
  pub model : String
  pub request_hash : String
  pub messages_count : ℕ
  pub params : List (String × String)

-- `cost_usd` in units of 1e-6 USD.
pub record LlmCallEnd : Type 0 where
  pub request_hash : String
  pub response_hash : String
  pub input_tokens : ℕ
  pub output_tokens : ℕ
  pub stop_reason : String
  pub cost_usd : ℕ
  pub latency_ms : ℕ

pub record ToolCallStart : Type 0 where
  pub tool_name : String
  pub args : Fields
  pub tool_call_id : String

-- `result_blob_path` is always null.
pub record ToolCallEnd : Type 0 where
  pub tool_call_id : String
  pub result : Text
  pub result_truncated : Bool
  pub exit_code : ℤ
  pub latency_ms : ℕ

pub record FileMutation : Type 0 where
  pub path : Text
  pub operation : String
  pub size_before : ℕ
  pub size_after : ℕ
  pub hash_after : String

-- `total_cost_usd` in units of 1e-6 USD, `wall_clock_seconds` in milliseconds.
pub record AgentDone : Type 0 where
  pub outcome : DoneOutcome
  pub total_steps : ℕ
  pub total_cost_usd : ℕ
  pub total_input_tokens : ℕ
  pub total_output_tokens : ℕ
  pub wall_clock_seconds : ℤ

-- The `data` of an event: the dicts that the SDK builds, and any other dict.
pub data Payload : Type 0 where
  start : AgentStart → Payload
  step_number : ℕ → Payload
  call_start : LlmCallStart → Payload
  call_end : LlmCallEnd → Payload
  tool_start : ToolCallStart → Payload
  tool_end : ToolCallEnd → Payload
  mutation : FileMutation → Payload
  done : AgentDone → Payload
  error : String → Text → Payload
  fields : Fields → Payload

pub record EventEnvelope : Type 0 where
  pub schema_ : String
  pub task_id : String
  pub step : ℕ
  pub ts : Text
  pub monotonic_ns : ℕ
  pub type : EventType
  pub payload : Payload

pub EventType-discrete : Discrete EventType
EventType-discrete = hlevel
