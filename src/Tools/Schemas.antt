-- ===== src/Tools/Schemas.antt =====
-- The names, descriptions and input schemas of the tools, which are class attributes.
use agentanvil.Prelude.{String, List, [], ◌∷◌}
use agentanvil.Prelude.Int.{pos}
use agentanvil.Python.Text.{lit}
use agentanvil.Python.Json
use agentanvil.Python.Json.{Json, Fields, Items, str, int, arr, obj, field}
use agentanvil.Client.Base.{ToolSchema}

text : String → Json
text s = str (lit s)

string_property : String → Json
string_property description =
    obj (field "type" (text "string") (field "description" (text description) Json.end))

line_property : String → Json
line_property description = obj (
    field "type" (text "integer")
      (field "minimum" (int (pos 1)) (field "description" (text description) Json.end)))

texts : List String → Items
texts [] = Json.nil
texts (s ∷ ss) = Json.cons (text s) (texts ss)

object_schema : Fields → List String → Fields
object_schema properties required =
    field "type" (text "object")
      (field "properties" (obj properties) (field "required" (arr (texts required)) Json.end))

path_property : Fields → Fields
path_property = field "path" (string_property "Workspace-relative file path.")

pub bash_schema : ToolSchema
bash_schema = record {
  name = "bash";
  description =
      "Run a shell command in the agent workspace. Returns combined stdout and stderr along with the exit code. Long-running commands are killed at the configured timeout.";
  input_schema =
      object_schema
        (field "command" (string_property "Shell command to execute. Runs under /bin/sh.") Json.end)
        ("command" ∷ []);
}

pub file_read_schema : ToolSchema
file_read_schema = record {
  name = "file_read";
  description =
      "Read a file from the workspace. Returns lines prefixed with their 1-indexed line numbers, suitable for referencing in file_edit. Optionally read only a line range with start_line/end_line.";
  input_schema =
      object_schema
        (path_property (
          field "start_line" (line_property "1-indexed first line to read (inclusive). Default: 1.")
            (field "end_line"
              (line_property "1-indexed last line to read (inclusive). Default: EOF.") Json.end)))
        ("path" ∷ []);
}

pub file_write_schema : ToolSchema
file_write_schema = record {
  name = "file_write";
  description =
      "Write a file in the workspace. Creates parent directories as needed. Overwrites any existing content.";
  input_schema =
      object_schema
        (path_property (field "content" (string_property "Full file content to write.") Json.end))
        ("path" ∷ "content" ∷ []);
}

pub file_edit_schema : ToolSchema
file_edit_schema = record {
  name = "file_edit";
  description =
      "Replace lines in a file with new content. Line numbers are 1-indexed and the range is inclusive on both ends. Pass new_content='' to delete the range. Append to EOF by setting start_line to (current line count + 1).";
  input_schema =
      object_schema
        (path_property (
          field "start_line" (line_property "1-indexed first line to replace (inclusive).") (
            field "end_line" (line_property "1-indexed last line to replace (inclusive).") (
              field "new_content"
                (string_property "Replacement text. May be empty to delete the range.") Json.end))))
        ("path" ∷ "start_line" ∷ "end_line" ∷ "new_content" ∷ []);
}

pub web_search_schema : ToolSchema
web_search_schema = record {
  name = "web_search";
  description =
      "Search the web. NOTE: this is a stub in v1 of Agent-Anvil; real results require the recording proxy (planned for Phase 2A). Avoid depending on this tool's output.";
  input_schema =
      object_schema (field "query" (string_property "Search query.") Json.end) ("query" ∷ []);
}
