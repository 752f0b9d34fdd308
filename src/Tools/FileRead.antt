-- ===== src/Tools/FileRead.antt =====
-- tools/file_read.py
pub mod Laws
pub mod Effects
use agentanvil.Prelude.{
  ℕ, zero, suc, ◌+◌, ◌-◌, ◌*◌, Bool, true, false, not, ◌&&◌, Option, none, some, List, [], ◌∷◌,
  ◌++◌, ltb, if◌then◌else◌, length,
}
use agentanvil.Prelude.Int.{ℤ, pos, pos_part, ltb_ℤ}
use agentanvil.Python.Text.{Text, lit, is_empty, show_ℕ}
use agentanvil.Python.Text.Lines.{join_lines, splitlines, translate_newlines}
use agentanvil.Python.Utf8.{Bytes, decode}
use agentanvil.Python.Json
use agentanvil.Python.Json.{Json, Fields, int, as_str, as_int, PyInt, py_int}
use agentanvil.Python.Action.{Result, ok, raised, pure, lift, ◌>>=◌, ◌>>◌}
use agentanvil.Python.FilePath.{FilePath}
use agentanvil.Deterministic.Clock.{index}
use agentanvil.Platform.{Platform}
use agentanvil.Tools.Base.{
  ToolResult, refusal, success, ToolContext, ToolAction, ask, resolve_inside, with_path,
}

abbrev pub max_file_bytes : ℕ
max_file_bytes = 1024 * 1024

abbrev cons_result : Result Text → Result (List Text) → Result (List Text)
cons_result (ok l) (ok ls) = ok (l ∷ ls)
cons_result (ok l) (raised e) = raised e
cons_result (raised e) ls = raised e

abbrev numbered_line : ℕ → Result Text → Result Text
numbered_line i (ok l) = ok (show_ℕ i ++ lit ": " ++ l)
numbered_line i (raised e) = raised e

-- `f"{i}: {lines[i - 1]}"` for `count` numbers from `i` on.
unfoldable pub format_lines : List Text → ℕ → ℕ → Result (List Text)
format_lines lines i zero = ok []
format_lines lines i (suc count) =
    cons_result (numbered_line i (index lines (i - 1))) (format_lines lines (suc i) count)

abbrev joined : Result (List Text) → Result ToolResult
joined (ok ls) = ok (success (join_lines ls))
joined (raised e) = raised e

-- `max(1, start)` and `min(len(lines), end)`, which give the first of two equal arguments.
abbrev clamp_start : PyInt → PyInt
clamp_start start = if ltb_ℤ (pos 1) start.value then start else py_int (pos 1)

abbrev clamp_end : ℕ → PyInt → PyInt
clamp_end n end = if ltb_ℤ end.value (pos n) then end else py_int (pos n)

-- The last lines of `_run`, for the clamped range; `range(start, end + 1)` has this many numbers.
unfoldable pub read_range : List Text → PyInt → PyInt → Result ToolResult
unfolding format_lines
read_range lines start end =
    if ltb_ℤ end.value start.value && not (is_empty lines)
    then ok (
        refusal (
          lit "file_read: empty range start_line=" ++ start.shown ++ lit " end_line=" ++ end.shown))
    else joined
        (format_lines lines (pos_part start.value) (pos_part end.value + 1 - pos_part start.value))

-- `args.get(key, default)`
abbrev get_default : Option Json → ℕ → Option Json
get_default none n = some (int (pos n))
get_default (some v) n = some v

abbrev with_range : List Text → Option PyInt → Option PyInt → Result ToolResult
with_range lines (some start) (some end) =
    read_range lines (clamp_start start) (clamp_end (length lines) end)
with_range lines _ _ = ok (refusal (lit "file_read: start_line / end_line must be integers"))

-- What is done with the lines.
unfoldable pub read_lines : Fields → List Text → Result ToolResult
unfolding read_range
read_lines args lines =
    with_range lines (as_int (get_default (Json.get "start_line" args) 1))
      (as_int (get_default (Json.get "end_line" args) (length lines)))

module _ (P : Platform) where
  -- `read_text` decodes and translates newlines.
  unfoldable pub read_content : Fields → Bytes → Result ToolResult
  unfolding read_lines
  read_content args bs = elim (decode bs) [
    | none ↦ ok (refusal (lit "file_read: not utf-8 decodable: " ++ P.decode_message bs))
    | some text ↦ read_lines args (splitlines (translate_newlines text))
  ]

  unfoldable pub read_sized : Fields → FilePath → ℕ → ToolAction P ToolResult
  read_sized args target size =
      if ltb max_file_bytes size
      then pure (
          refusal (
            lit "file_read: file too large ("
            ++ show_ℕ size
            ++ lit " bytes, max "
            ++ show_ℕ max_file_bytes
            ++ lit ")"))
      else (do bs ← ask P (P.read_bytes target); lift (read_content args bs))

  unfoldable pub read_target : Fields → Text → FilePath → ToolAction P ToolResult
  unfolding ask read_sized
  read_target args path_arg target = do
    exists ← ask P (P.exists target)
    if not exists then pure (refusal (lit "file_read: not found: " ++ path_arg)) else do
      is_file ← ask P (P.is_file target)
      if not is_file
          then pure (refusal (lit "file_read: not a regular file: " ++ path_arg))
          else do size ← ask P (P.stat_size target); read_sized args target size

  unfoldable pub file_read : ToolContext → Fields → ToolAction P ToolResult
  unfolding with_path resolve_inside read_target
  file_read ctx args =
      with_path P (lit "file_read: missing 'path'") (as_str (Json.get "path" args)) λ path_arg. do
        target ← resolve_inside P ctx path_arg
        elim target [
          | none ↦ pure (refusal (lit "file_read: path escapes workspace: " ++ path_arg))
          | some t ↦ read_target args path_arg t
        ]
