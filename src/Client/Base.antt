-- ===== src/Client/Base.antt =====
-- client/base.py, and the message dicts that the loop exchanges with a client.
use agentanvil.Prelude.{ℕ, String, Bool, List}
use agentanvil.Python.Text.{Text}
use agentanvil.Python.Json.{Fields}
use agentanvil.Python.Action.{Action}

pub record ToolUse : Type 0 where
  pub id : String
  pub name : String
  pub input : Fields

-- `stop_reason` is not checked when a response is built, so any string may stand there.
pub record LlmResponse : Type 0 where
  pub text_blocks : List Text
  pub tool_uses : List ToolUse
  pub stop_reason : String
  pub input_tokens : ℕ
  pub output_tokens : ℕ
  pub response_id : String

-- The content blocks, by their "type".
pub data Block : Type 0 where
  text : Text → Block
  tool_use : String → String → Fields → Block
  tool_result : String → Text → Bool → Block

pub data Content : Type 0 where
  plain : Text → Content
  blocks : List Block → Content

pub record Message : Type 0 where
  pub role : String
  pub content : Content

pub record ToolSchema : Type 0 where
  pub name : String
  pub description : String
  pub input_schema : Fields

-- The arguments of `complete`.
pub record Request : Type 0 where
  pub system : Text
  pub messages : List Message
  pub tools : List ToolSchema
  pub params : List (String × String)

-- The `LLMClient` protocol: an object with some state and one method.
pub record LlmClient : Type 1 where
  pub State : Type 0
  pub complete : Request → Action State LlmResponse
