-- ===== src/Tools/WebSearch.antt =====
-- tools/web_search.py: a stub that echoes its query.
use agentanvil.Prelude.{Option, none, some, [], ◌++◌}
use agentanvil.Python.Text.{lit}
use agentanvil.Python.Json
use agentanvil.Python.Json.{Json, Fields, str}
use agentanvil.Python.Action.{pure}
use agentanvil.Platform.{Platform}
use agentanvil.Tools.Base.{ToolResult, success, ToolAction}

abbrev or_empty : Option Json → Json
or_empty none = str []
or_empty (some q) = q

unfoldable pub web_search : (P : Platform) → Fields → ToolAction P ToolResult
web_search P args = pure (
    success (
      lit "web_search is not implemented in v1; query was: "
      ++ P.repr (or_empty (Json.get "query" args))))
