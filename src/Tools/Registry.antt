-- ===== src/Tools/Registry.antt =====
-- tools/registry.py: from the names of a task's specification to tools.
pub mod Laws
use agentanvil.Prelude.{ℕ, String, Option, none, some, List, [], ◌∷◌, map, str_eq, if◌then◌else◌}
use Prim.Native.Nat.Ordering.{gt}
use Prim.Native.String.{compare}
use agentanvil.Prelude.Int.{ℤ, pos}
use agentanvil.Python.Text.{Text}
use agentanvil.Python.Json.{Json, Fields}
use agentanvil.Python.FilePath.{FilePath}
use agentanvil.Client.Base.{ToolSchema}
use agentanvil.Config.{ToolSpec}
use agentanvil.Platform.{Platform}
use agentanvil.Tools.Base as Base
use agentanvil.Tools.Base.{ToolResult, ToolContext, ToolAction}
use agentanvil.Tools.Schemas.{
  bash_schema, file_read_schema, file_write_schema, file_edit_schema, web_search_schema,
}
use agentanvil.Tools.Bash.{bash}
use agentanvil.Tools.FileRead.{file_read}
use agentanvil.Tools.FileWrite.{file_write}
use agentanvil.Tools.FileEdit.{file_edit}
use agentanvil.Tools.WebSearch.{web_search}

-- The classes that derive from `Tool`.
pub data ToolClass : Type 0 where
  bash_tool file_read_tool file_write_tool file_edit_tool web_search_tool : ToolClass

unfoldable pub schema : ToolClass → ToolSchema
schema bash_tool = bash_schema
schema file_read_tool = file_read_schema
schema file_write_tool = file_write_schema
schema file_edit_tool = file_edit_schema
schema web_search_tool = web_search_schema

unfoldable pub name_of : ToolClass → String
name_of bash_tool = "bash"
name_of file_read_tool = "file_read"
name_of file_write_tool = "file_write"
name_of file_edit_tool = "file_edit"
name_of web_search_tool = "web_search"

abbrev pub classes : List ToolClass
classes = bash_tool ∷ file_read_tool ∷ file_write_tool ∷ file_edit_tool ∷ web_search_tool ∷ []

find_class : String → List ToolClass → Option ToolClass
find_class name [] = none
find_class name (c ∷ cs) =
    let rest = find_class name cs in if str_eq (name_of c) name then some c else rest

-- `_registry().get(name)`
unfoldable pub registry : String → Option ToolClass
unfolding find_class name_of
registry name = find_class name classes

-- `sorted`, for strings.
insert_name : String → List String → List String
insert_name s [] = s ∷ []
insert_name s (t ∷ ts) = elim (compare s t) [ gt ↦ t ∷ insert_name s ts | _ ↦ s ∷ t ∷ ts ]

unfoldable pub sorted : List String → List String
unfolding insert_name
sorted [] = []
sorted (s ∷ ss) = insert_name s (sorted ss)

unfoldable pub list_available : List String
unfolding sorted name_of
list_available = sorted (map name_of classes)

pub record Tool : Type 0 where
  pub cls : ToolClass
  pub ctx : ToolContext

abbrev pub or_60 : Option ℤ → ℤ
or_60 none = pos 60
or_60 (some t) = t

-- `ctx_factory` makes a context from a timeout. An unknown name is logged and passed over.
module _ (ctx_factory : ℤ → ToolContext) where
  unfoldable pub build_tools : List ToolSpec → List Tool
  build_tools [] = []
  build_tools (spec ∷ specs) =
      let tools = build_tools specs in
      elim (registry spec.name) [
        | none ↦ tools
        | some cls ↦ record { cls = cls; ctx = ctx_factory (or_60 spec.timeout_seconds) } ∷ tools
      ]

-- `tool_map.get(name)`: of two tools of one name the later one is in the dict.
unfoldable pub find_tool : String → List Tool → Option Tool
find_tool name [] = none
find_tool name (t ∷ ts) = elim (find_tool name ts) [
  | some later ↦ some later
  | none ↦ if str_eq (name_of t.cls) name then some t else none
]

module _ (P : Platform) where
  -- `_run` of the tool's class.
  unfoldable pub run_class : ToolClass → ToolContext → Fields → ToolAction P ToolResult
  run_class bash_tool ctx args = bash P ctx args
  run_class file_read_tool ctx args = file_read P ctx args
  run_class file_write_tool ctx args = file_write P ctx args
  run_class file_edit_tool ctx args = file_edit P ctx args
  run_class web_search_tool ctx args = web_search P args

  -- `tool.run(args)`
  unfoldable pub run_tool : Tool → Fields → ToolAction P ToolResult
  unfolding run_class
  run_tool t args = Base.run P (run_class t.cls t.ctx args)
