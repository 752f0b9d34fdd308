-- ===== src/Tools/FileEdit.antt =====
-- tools/file_edit.py
pub mod Laws
pub mod Effects
use agentanvil.Prelude.{
  ℕ, ◌+◌, ◌-◌, Bool, true, false, not, ◌&&◌, ◌||◌, Option, none, some, List, [], ◌∷◌, ◌++◌, ltb,
  leb, if◌then◌else◌, length, take, drop, min,
}
use agentanvil.Prelude.Int.{ℤ, pos, pos_part, ltb_ℤ}
use agentanvil.Python.Text.{Text, lit, is_empty, show_ℕ}
use agentanvil.Python.Text.Lines.{split_lines, join_lines, ends_with_newline, drop_last}
use agentanvil.Python.Utf8.{Bytes, decode}
use agentanvil.Python.Json
use agentanvil.Python.Json.{Fields, as_str, as_int, PyInt}
use agentanvil.Python.Action.{pure, lift, ◌>>=◌, ◌>>◌}
use agentanvil.Python.FilePath.{FilePath}
use agentanvil.Platform.{Platform}
use agentanvil.Tools.Base.{
  ToolResult, refusal, success, ToolContext, ToolAction, ask, on_machine, encoded,
  emit_file_mutation, resolve_inside, with_path,
}

-- `content_lines`: the lines of the file, without the empty piece behind a final newline.
unfoldable pub content_lines : Text → List Text
content_lines original_text =
    let original_lines = split_lines original_text in
    if ends_with_newline original_text then drop_last original_lines else original_lines

-- `new_content.split("\n") if new_content else []`
unfoldable pub new_lines : Text → List Text
new_lines new_content = if is_empty new_content then [] else split_lines new_content

-- `edited`, for a range that was not refused.
unfoldable pub splice : List Text → ℕ → ℕ → List Text → List Text
splice lines start end new =
    let n = length lines in
    if ltb n start then lines ++ new else take (start - 1) lines ++ (new ++ drop (min end n) lines)

-- `new_text`
unfoldable pub edited_text : Text → ℕ → ℕ → Text → Text
unfolding content_lines new_lines splice
edited_text original_text start end new_content =
    let new_text =
      join_lines (splice (content_lines original_text) start end (new_lines new_content)) in
    if ends_with_newline original_text && not (ends_with_newline new_text)
    then new_text ++ 10 ∷ []
    else new_text

-- `min(end, n) if start <= n else end`
last_shown : ℕ → PyInt → PyInt → Text
last_shown n start end =
    if leb (pos_part start.value) n
    then (if ltb n (pos_part end.value) then show_ℕ n else end.shown)
    else end.shown

module _ (P : Platform) where
  -- From the write on.
  unfoldable pub store_edit :
      ToolContext → FilePath → PyInt → PyInt → ℕ → ℕ → Text → ToolAction P ToolResult
  unfolding last_shown encoded
  store_edit ctx target start end n size_before new_text = do
    bs ← lift (encoded P new_text)
    on_machine P (P.write_bytes target bs)
    emit_file_mutation P target ctx.workspace "edit" size_before (length bs) bs
    pure (
        success (
          lit "file_edit: replaced lines "
          ++ start.shown
          ++ lit "-"
          ++ last_shown n start end
          ++ lit " ("
          ++ show_ℕ size_before
          ++ lit " -> "
          ++ show_ℕ (length bs)
          ++ lit " bytes)"))

  -- The bytes that were read, decoded; the range has passed its first check. The test `end < start`
  -- of the append branch repeats that check.
  unfoldable pub edit_text :
      ToolContext → FilePath → PyInt → PyInt → Text → ℕ → Text → ToolAction P ToolResult
  unfolding store_edit
  edit_text ctx target start end new_content size_before original_text =
      let n = length (content_lines original_text) in
      let s = pos_part start.value in
      let e = pos_part end.value in
      if ltb (n + 1) s
      then pure (
          refusal (
            lit "file_edit: start_line "
            ++ start.shown
            ++ lit " is past EOF (file has "
            ++ show_ℕ n
            ++ lit " lines). To append, use start_line="
            ++ show_ℕ (n + 1)
            ++ lit "."))
      else if ltb n s && ltb e s
      then pure
          (refusal (lit "file_edit: end_line " ++ end.shown ++ lit " < start_line " ++ start.shown))
      else store_edit ctx target start end n size_before (edited_text original_text s e new_content)

  unfoldable pub edit_target :
      ToolContext → Text → PyInt → PyInt → Text → FilePath → ToolAction P ToolResult
  unfolding edit_text
  edit_target ctx path_arg start end new_content target = do
    exists ← ask P (P.exists target)
    if not exists then pure (refusal (lit "file_edit: not found: " ++ path_arg)) else do
      bs ← ask P (P.read_bytes target)
      elim (decode bs) [
        | none ↦ pure (refusal (lit "file_edit: not utf-8 decodable: " ++ P.decode_message bs))
        | some original_text ↦ edit_text ctx target start end new_content (length bs) original_text
      ]

  -- `start < 1 or end < start`
  unfoldable pub is_bad_range : PyInt → PyInt → Bool
  is_bad_range start end = ltb_ℤ start.value (pos 1) || ltb_ℤ end.value start.value

  unfoldable pub edit_range : ToolContext → Text → PyInt → PyInt → Text → ToolAction P ToolResult
  unfolding is_bad_range edit_target
  edit_range ctx path_arg start end new_content =
      if is_bad_range start end
      then pure (
          refusal (
            lit "file_edit: invalid range start_line="
            ++ start.shown
            ++ lit " end_line="
            ++ end.shown))
      else do
        target ← resolve_inside P ctx path_arg
        elim target [
          | none ↦ pure (refusal (lit "file_edit: path escapes workspace: " ++ path_arg))
          | some t ↦ edit_target ctx path_arg start end new_content t
        ]

  -- The checks of the arguments, in the order of the source.
  unfoldable pub edit_args :
      ToolContext → Text → Option PyInt → Option PyInt → Option Text → ToolAction P ToolResult
  unfolding edit_range
  edit_args ctx path_arg (some start) (some end) (some new_content) =
      edit_range ctx path_arg start end new_content
  edit_args ctx path_arg (some start) (some end) none =
      pure (refusal (lit "file_edit: 'new_content' must be a string"))
  edit_args ctx path_arg _ _ new_content =
      pure (refusal (lit "file_edit: start_line / end_line must be integers"))

  unfoldable pub file_edit : ToolContext → Fields → ToolAction P ToolResult
  unfolding with_path edit_args
  file_edit ctx args =
      with_path P (lit "file_edit: missing 'path'") (as_str (Json.get "path" args)) λ path_arg.
        edit_args ctx path_arg (as_int (Json.get "start_line" args))
          (as_int (Json.get "end_line" args)) (as_str (Json.get "new_content" args))
