-- ===== src/Tests/Tools.antt =====
-- The theorems on tools, clients and prices, at concrete arguments.
use agentanvil.Prelude.{
  ◌-◌, ◌≡◌, ◌≢◌, refl, none, some, List, [], ◌∷◌, ◌++◌, map, take, drop, min, arith, length,
}
use agentanvil.Prelude.{ℕ, suc}
use agentanvil.Prelude.Int.{ℤ, pos, pos_part}
use agentanvil.Deterministic.Rng.{Random, replay, real, whole}
use agentanvil.Deterministic.Rng.Laws.{
  Draw, random_call, randint_call, draws, recorded, draws-recorded,
}
use agentanvil.Python.Text.{Text}
use agentanvil.Python.Text.Lines.{drop_last, join_lines, split_lines, ends_with_newline}
use agentanvil.Python.Text.Lines.Laws.{ends_full}
use agentanvil.Python.Utf8.{encode, encode_char}
use agentanvil.Python.Json
use agentanvil.Python.Json.{Json, Fields, field, int, end, py_int, as_str, as_int}
use agentanvil.Python.Action.{Result, ok, pure}
use agentanvil.Client.Base.{Request}
use agentanvil.Client.Mock.Laws.{calls, script, calls-script}
use agentanvil.Config.{ToolSpec, AgentTaskSpec, load_task}
use agentanvil.Config.Laws.{load_task-forms}
use agentanvil.Tools.Bash.{bash}
use agentanvil.Tools.Bash.Effects.{Runs, bash-Runs}
use agentanvil.Tools.Base.{ToolResult, ToolContext, Sandbox, success, run}
use agentanvil.Tools.Base.Truncate.{Clamped, run-Clamped}
use agentanvil.Python.Action.Rules.{After}
use agentanvil.Tools.FileEdit.{content_lines, new_lines, edited_text}
use agentanvil.Tools.FileEdit.Laws.{replaced, content_lines-edited_text}
use agentanvil.Tools.FileRead.{read_lines}
use agentanvil.Tools.FileRead.Laws.{numbered, read_lines-numbered}
use agentanvil.Tools.Registry.{
  Tool, bash_tool, web_search_tool, name_of, build_tools, find_tool, list_available,
}
use agentanvil.Tools.Registry.Laws.{is_known, named, offered, build_tools-offered, find_tool-last}
use agentanvil.Tests.{echo_task, machine, workspace, fresh_writer, ending}

abbrev pub context : ℤ → ToolContext
context timeout = record { workspace = workspace; timeout_seconds = timeout }

abbrev specs : List ToolSpec
specs =
    record { name = "bash"; timeout_seconds = some (pos 5) }
    ∷ record { name = "nope"; timeout_seconds = none }
    ∷ record { name = "file_read"; timeout_seconds = none }
    ∷ []

build_tools-offered_example : map named (build_tools context specs) ≡ offered context specs
build_tools-offered_example = build_tools-offered context specs

-- The unknown name is passed over, and the timeouts are 5 and 60 seconds.
offered_two :
    offered context specs ≡ ("bash", context (pos 5)) ∷ ("file_read", context (pos 60)) ∷ []
unfolding offered is_known
offered_two = refl

abbrev bash_for : ℤ → Tool
bash_for timeout = record { cls = bash_tool; ctx = context timeout }

abbrev search : Tool
search = record { cls = web_search_tool; ctx = context (pos 1) }

search-ne : name_of web_search_tool ≢ name_of bash_tool
unfolding name_of
search-ne h = cc

find_tool-last_example :
    find_tool (name_of bash_tool) ((bash_for (pos 5) ∷ []) ++ bash_for (pos 6) ∷ search ∷ [])
    ≡ some (bash_for (pos 6))
find_tool-last_example =
    find_tool-last (bash_for (pos 5) ∷ []) (search ∷ []) (bash_for (pos 6)) (search-ne, tt)

abbrev pub sandbox : Sandbox machine
sandbox = record { events = fresh_writer; machine = [] }

run-Clamped_example :
    (r : ToolResult) × (run machine (pure (success (104 ∷ 105 ∷ []))) sandbox ≡ (ok r, sandbox))
    × Clamped (success (104 ∷ 105 ∷ [])) (104 ∷ 105 ∷ []) r
unfolding pure encode encode_char success
run-Clamped_example =
    run-Clamped machine (pure (success (104 ∷ 105 ∷ []))) sandbox sandbox (success (104 ∷ 105 ∷ []))
      (104 ∷ 105 ∷ []) refl refl

-- "a\nb\nc\n"
abbrev three_lines : Text
three_lines = 97 ∷ 10 ∷ 98 ∷ 10 ∷ 99 ∷ 10 ∷ []

content_lines-edited_text_example :
    (content_lines (edited_text three_lines 2 2 (120 ∷ 10 ∷ 121 ∷ []))
      ≡ replaced three_lines (120 ∷ 10 ∷ 121 ∷ []) 2 2)
    × (ends_with_newline (edited_text three_lines 2 2 (120 ∷ 10 ∷ 121 ∷ []))
        ≡ ends_with_newline three_lines)
unfolding content_lines new_lines split_lines ends_with_newline drop_last ends_full
content_lines-edited_text_example =
    content_lines-edited_text three_lines (120 ∷ 10 ∷ 121 ∷ []) 2 2 (omega arith) (omega arith) refl

-- Deleting the only line leaves an empty line.
delete_all : edited_text (97 ∷ 10 ∷ []) 1 1 [] ≡ 10 ∷ []
unfolding edited_text split_lines join_lines ends_with_newline drop_last
delete_all = refl

abbrev range : Fields
range = field "start_line" (int (pos 2)) (field "end_line" (int (pos 9)) end)

abbrev three : List Text
three = (97 ∷ []) ∷ (98 ∷ []) ∷ (99 ∷ []) ∷ []

read_lines-numbered_example :
    read_lines range three
    ≡ ok (success (join_lines (numbered 2 (take (min 9 (length three) - 1) (drop 1 three)))))
unfolding Json.get
read_lines-numbered_example =
    read_lines-numbered range three (py_int (pos 2)) (py_int (pos 9)) 1 9 refl refl refl refl
      (omega arith) (omega arith)

abbrev any_request : Request
any_request = record { system = []; messages = []; tools = []; params = [] }

calls-script_example :
    calls (any_request ∷ any_request ∷ []) (record { responses = ending ∷ []; idx = 0 })
    ≡ script (any_request ∷ any_request ∷ []) (ending ∷ []) 1
calls-script_example = calls-script (any_request ∷ any_request ∷ []) (ending ∷ [])

-- `command` is "ls".
abbrev bash_args : Fields
bash_args = field "command" (Json.str (108 ∷ 115 ∷ [])) end

bash-Runs_example :
    After
      (λ r t. Runs machine (context (pos 60)) (as_str (Json.get "command" bash_args)) sandbox r t)
      (λ t. Unit)
      (bash machine (context (pos 60)) bash_args sandbox)
bash-Runs_example = bash-Runs machine (context (pos 60)) bash_args sandbox

-- A task file by the first character of its text: the full form or the projected one.
abbrev prompt_only : Fields
prompt_only = field "prompt" (Json.str (104 ∷ [])) end

abbrev full_form : Fields
full_form = field "apiVersion" (Json.str (118 ∷ [])) (field "spec" (Json.obj prompt_only) end)

abbrev load_yaml : Text → Result Json
load_yaml [] = ok (Json.obj prompt_only)
load_yaml (c ∷ t) = ok (Json.obj full_form)

abbrev to_task : Json → Result AgentTaskSpec
to_task v = ok echo_task

load_task-forms_example :
    load_task load_yaml (λ v. []) to_task (97 ∷ []) ≡ load_task load_yaml (λ v. []) to_task []
unfolding Json.get
load_task-forms_example =
    load_task-forms load_yaml (λ v. []) to_task (97 ∷ []) [] full_form prompt_only
      (Json.str (118 ∷ [])) refl refl refl refl refl

-- The listed names, in their order.
listed_names :
    list_available ≡ "bash" ∷ "file_edit" ∷ "file_read" ∷ "file_write" ∷ "web_search" ∷ []
unfolding list_available
listed_names = refl

-- Floats that are natural numbers, and a generator that counts.
abbrev counter : Random ℕ
counter = record {
  State = ℕ;
  seeded = λ seed. 0;
  random = λ n. (ok n, suc n);
  randint = λ a b n. (ok a, suc n);
}

abbrev draw_calls : List Draw
draw_calls = random_call ∷ randint_call (pos 1) (pos 6) ∷ random_call ∷ []

draws-recorded_example :
    draws pos_part pos counter draw_calls (replay (record { iter = real 4 ∷ whole (pos 9) ∷ [] }))
    ≡ recorded pos_part pos counter draw_calls (real 4 ∷ whole (pos 9) ∷ [])
draws-recorded_example =
    draws-recorded pos_part pos counter draw_calls (real 4 ∷ whole (pos 9) ∷ [])
