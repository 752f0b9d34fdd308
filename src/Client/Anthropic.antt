-- ===== src/Client/Anthropic.antt =====
-- client/anthropic.py: the request that `AnthropicClient` sends and the translation of the reply.
use agentanvil.Prelude.{ℕ, String, Option, none, some, List, [], ◌∷◌, str_eq, if◌then◌else◌}
use agentanvil.Prelude.Int.{ℤ}
use agentanvil.Python.Text.{Text, lit, is_empty}
use agentanvil.Python.Json.{Fields}
use agentanvil.Python.Action.{Exn, Result, ok, raised, Action, pure, lift, ◌>>=◌}
use agentanvil.Client.Base.{ToolUse, LlmResponse, Message, ToolSchema, Request, LlmClient}

abbrev pub no_api_key : Exn
no_api_key = record {
  name = "RuntimeError";
  message =
      lit
        "No Anthropic API key. Set ANTHROPIC_API_KEY or pass api_key= or set AGENT_ANVIL_API_KEY_FILE to a file containing the key.";
}

-- `x or y`, where an empty string counts as missing.
unfoldable pub or_else : Option String → Option String → Option String
or_else none y = y
or_else (some s) y = if str_eq s "" then y else some s

-- `api_key or os.environ.get(...)`, with what is empty as missing.
unfoldable pub or_key : Option Text → Option Text → Option Text
or_key none y = y
or_key (some s) y = if is_empty s then y else some s

-- `__init__`: the key that the client is built with. `environment` is the variable
-- ANTHROPIC_API_KEY.
unfoldable pub choose_key : Option Text → Option Text → Result Text
unfolding or_key
choose_key api_key environment = elim (or_key (or_key api_key environment) none) [
  | none ↦ raised no_api_key
  | some key ↦ ok key
]

-- `params.get(name)`
unfoldable pub param : String → List (String × String) → Option String
param name [] = none
param name ((k, v) ∷ rest) = let later = param name rest in if str_eq k name then some v else later

-- The blocks of a reply of the `anthropic` package.
pub data ReplyBlock : Type 0 where
  text : Text → ReplyBlock
  tool_use : String → String → Fields → ReplyBlock
  other : ReplyBlock

pub record Usage : Type 0 where
  pub input_tokens : ℕ
  pub output_tokens : ℕ

pub record Reply : Type 0 where
  pub content : List ReplyBlock
  pub usage : Option Usage
  pub stop_reason : Option String
  pub id : String

-- The keyword arguments of `messages.create`; `F` stands for Python's floats.
pub record Kwargs (F : Type 0) : Type 0 where
  pub model : String
  pub messages : List Message
  pub max_tokens : ℤ
  pub system : Option Text
  pub tools : Option (List ToolSchema)
  pub temperature : Option F

-- The two lists that the loop over the blocks fills.
unfoldable pub text_blocks : List ReplyBlock → List Text
text_blocks [] = []
text_blocks (text s ∷ bs) = s ∷ text_blocks bs
text_blocks (tool_use id name input ∷ bs) = text_blocks bs
text_blocks (other ∷ bs) = text_blocks bs

unfoldable pub tool_uses : List ReplyBlock → List ToolUse
tool_uses [] = []
tool_uses (text s ∷ bs) = tool_uses bs
tool_uses (tool_use id name input ∷ bs) =
    record { id = id; name = name; input = input } ∷ tool_uses bs
tool_uses (other ∷ bs) = tool_uses bs

unfoldable pub stop_or_end_turn : Option String → String
stop_or_end_turn none = "end_turn"
stop_or_end_turn (some s) = if str_eq s "" then "end_turn" else s

abbrev input_of : Option Usage → ℕ
input_of none = 0
input_of (some u) = u.input_tokens

abbrev output_of : Option Usage → ℕ
output_of none = 0
output_of (some u) = u.output_tokens

unfoldable pub translate : Reply → LlmResponse
unfolding text_blocks tool_uses stop_or_end_turn
translate msg = record {
  text_blocks = text_blocks msg.content;
  tool_uses = tool_uses msg.content;
  stop_reason = stop_or_end_turn msg.stop_reason;
  input_tokens = input_of msg.usage;
  output_tokens = output_of msg.usage;
  response_id = msg.id;
}

-- `int` and `float` of a string, and the service, are parameters.
module _ {F Api : Type 0} (parse_int : String → Result ℤ) (parse_float : String → Result F)
    (create : Kwargs F → Action Api Reply) where
  abbrev or_4096 : Option String → String
  or_4096 none = "4096"
  or_4096 (some s) = s

  unfoldable pub max_tokens : List (String × String) → Result ℤ
  unfolding or_else param
  max_tokens params =
      parse_int
        (or_4096 (or_else (param "maxTokens" params) (or_else (param "max_tokens" params) none)))

  unfoldable pub temperature : Option String → Result (Option F)
  temperature none = ok none
  temperature (some s) = elim (parse_float s) [ ok x ↦ ok (some x) | raised e ↦ raised e ]

  unfoldable pub anthropic_complete : String → Request → Action Api LlmResponse
  unfolding max_tokens temperature
  anthropic_complete model request = do
    tokens ← lift (max_tokens request.params)
    temp ← lift (temperature (param "temperature" request.params))
    msg ← create (record {
      model = model;
      messages = request.messages;
      max_tokens = tokens;
      system = if is_empty request.system then none else some request.system;
      tools = if is_empty request.tools then none else some request.tools;
      temperature = temp;
    })
    pure (translate msg)

  abbrev pub anthropic_client : String → LlmClient
  anthropic_client model = record { State = Api; complete = anthropic_complete model }
