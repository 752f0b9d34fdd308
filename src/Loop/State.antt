-- ===== src/Loop/State.antt =====
-- What the loop of loop.py acts on, the hashes and the messages that it builds.
use agentanvil.Prelude.{ℕ, String, some, List, ◌++◌, map}
use agentanvil.Prelude.Int.{ℤ, pos}
use agentanvil.Python.Action.{Action, on, modify}
use agentanvil.Deterministic.Clock
use agentanvil.Events.Schema.{EventType, Payload, EventEnvelope, DoneOutcome}
use agentanvil.Events.Writer as Writer
use agentanvil.Events.Writer.{EventWriter, on_clock}
use agentanvil.Client.Base.{
  ToolUse, LlmResponse, Block, text, tool_use, blocks, Message, Request, LlmClient,
}
use agentanvil.Tools.Base.{Sandbox, ToolAction, hash_text}
use agentanvil.Platform.{Platform}
use agentanvil.Loop.Payload.{request_payload, response_payload}

abbrev pub default_max_steps : ℤ
default_max_steps = pos 25

-- `_build_assistant_message`
unfoldable pub assistant_blocks : LlmResponse → List Block
assistant_blocks resp =
    map text resp.text_blocks
    ++ map (λ tu. tool_use (ToolUse.id tu) (ToolUse.name tu) (ToolUse.input tu)) resp.tool_uses

unfoldable pub build_assistant_message : LlmResponse → Message
unfolding assistant_blocks
build_assistant_message resp = record {
  role = "assistant";
  content = blocks (assistant_blocks resp);
}

-- The local variables of `run` that the loop changes.
pub record Locals : Type 0 where
  pub messages : List Message
  pub total_input_tokens : ℕ
  pub total_output_tokens : ℕ
  -- in units of 1e-8 USD
  pub total_cost : ℕ
  pub step : ℕ
  pub outcome : DoneOutcome

module _ (P : Platform) (C : LlmClient) where
  pub record LoopState : Type 0 where
    pub sandbox : Sandbox P
    pub open sandbox use *
    pub client : C.State
    pub locals : Locals
    pub open locals use *

  abbrev pub LoopAction : Type 0 → Type 0
  LoopAction A = Action LoopState A

  unfoldable pub on_sandbox : {A : Type 0} → ToolAction P A → LoopAction A
  unfolding on
  on_sandbox = on (λ s. s.sandbox) (λ b s. record s { sandbox = b })

  unfoldable pub on_writer : {A : Type 0} → Action EventWriter A → LoopAction A
  unfolding on_sandbox
  on_writer m = on_sandbox (on (λ b. b.events) (λ w b. record b { events = w }) m)

  unfoldable pub on_client : {A : Type 0} → Action C.State A → LoopAction A
  unfolding on
  on_client = on (λ s. s.client) (λ c s. record s { client = c })

  unfoldable pub assign : (Locals → Locals) → LoopAction (Unit {0})
  unfolding modify
  assign f = modify (λ s. record s { locals = f s.locals })

  -- `events.emit(type, data)`
  unfoldable pub emit : EventType → Payload → LoopAction EventEnvelope
  unfolding on_writer
  emit type payload = on_writer (Writer.emit P.dump type (some payload))

  -- `clock.monotonic_ns()`; the writer holds the same clock.
  unfoldable pub monotonic_ns : LoopAction ℕ
  unfolding on_writer
  monotonic_ns = on_writer (on_clock Clock.monotonic_ns)

  unfoldable pub hash_request : Request → String
  hash_request r = hash_text (P.sha256 (P.canonical_json (request_payload r)))

  unfoldable pub hash_response : LlmResponse → String
  hash_response r = hash_text (P.sha256 (P.canonical_json (response_payload r)))
