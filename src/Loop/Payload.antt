-- ===== src/Loop/Payload.antt =====
-- What loop.py hashes: the dicts of `_hash_request` and `_hash_response`, as JSON values. Strings
-- that a client or a model gives are texts there.
use agentanvil.Prelude.{String, List, [], ◌∷◌}
use agentanvil.Python.Text.{lit}
use agentanvil.Python.Json.{Json, Items, Fields, bool, str, arr, obj, nil, cons, field, end}
use agentanvil.Client.Base as Client
use agentanvil.Client.Base.{
  ToolUse, LlmResponse, Block, Content, plain, blocks, Message, ToolSchema, Request,
}

unfoldable items {ℓ} : {A : Type ℓ} → (A → Json) → List A → Items
items f [] = nil
items f (x ∷ xs) = cons (f x) (items f xs)

-- `{"id": t.id, "name": t.name, "input": t.input}`
unfoldable pub tool_use_json : ToolUse → Json
tool_use_json t = obj (
    field "id" (str (lit t.id)) (field "name" (str (lit t.name)) (field "input" (obj t.input) end)))

-- The content blocks that `_build_assistant_message` and `_run_one_tool` give.
unfoldable pub block_json : Block → Json
block_json (Client.text s) = obj (field "type" (str (lit "text")) (field "text" (str s) end))
block_json (Client.tool_use id name input) = obj (
    field "type" (str (lit "tool_use"))
      (field "id" (str (lit id)) (field "name" (str (lit name)) (field "input" (obj input) end))))
block_json (Client.tool_result id content is_error) = obj (
    field "type" (str (lit "tool_result")) (
      field "tool_use_id" (str (lit id))
        (field "content" (str content) (field "is_error" (bool is_error) end))))

unfoldable content_json : Content → Json
unfolding items block_json
content_json (plain s) = str s
content_json (blocks bs) = arr (items block_json bs)

-- `{"role": ..., "content": ...}`
unfoldable pub message_json : Message → Json
unfolding content_json
message_json m =
    obj (field "role" (str (lit m.role)) (field "content" (content_json m.content) end))

-- `Tool.schema()`
unfoldable pub schema_json : ToolSchema → Json
schema_json s = obj (
    field "name" (str (lit s.name)) (
      field "description" (str (lit s.description))
        (field "input_schema" (obj s.input_schema) end)))

unfoldable params_json : List (String × String) → Fields
params_json [] = end
params_json ((k, v) ∷ rest) = field k (str (lit v)) (params_json rest)

-- `payload` of `_hash_request`
unfoldable pub request_payload : Request → Json
unfolding items message_json schema_json params_json
request_payload r = obj (
    field "system" (str r.system) (
      field "messages" (arr (items message_json r.messages)) (
        field "tools" (arr (items schema_json r.tools))
          (field "params" (obj (params_json r.params)) end))))

-- `payload` of `_hash_response`
unfoldable pub response_payload : LlmResponse → Json
unfolding items tool_use_json
response_payload resp = obj (
    field "text_blocks" (arr (items str resp.text_blocks)) (
      field "tool_uses" (arr (items tool_use_json resp.tool_uses))
        (field "stop_reason" (str (lit resp.stop_reason)) end)))
