-- ===== src/Tools/FileWrite.antt =====
-- tools/file_write.py
pub mod Effects
use agentanvil.Prelude.{ℕ, Bool, true, false, Option, none, some, ◌++◌, if◌then◌else◌, length}
use agentanvil.Python.Text.{Text, lit, show_ℕ}
use agentanvil.Python.Json
use agentanvil.Python.Json.{Fields, as_str}
use agentanvil.Python.Action.{pure, lift, ◌>>=◌, ◌>>◌}
use agentanvil.Python.FilePath.{FilePath, parent}
use agentanvil.Platform.{Platform}
use agentanvil.Tools.Base.{
  ToolResult, refusal, success, ToolContext, ToolAction, ask, on_machine, encoded,
  emit_file_mutation, resolve_inside, with_path,
}

module _ (P : Platform) where
  unfoldable pub size_if_exists : Bool → FilePath → ToolAction P ℕ
  size_if_exists true target = ask P (P.stat_size target)
  size_if_exists false target = pure 0

  unfoldable pub write_target : ToolContext → Text → Text → FilePath → ToolAction P ToolResult
  unfolding size_if_exists encoded
  write_target ctx path_arg content target = do
    existed ← ask P (P.exists target)
    size_before ← size_if_exists existed target
    still_exists ← ask P (P.exists target)
    on_machine P (P.make_dirs (parent target))
    bs ← lift (encoded P content)
    on_machine P (P.write_bytes target bs)
    emit_file_mutation P target ctx.workspace (if still_exists then "edit" else "create")
        size_before (length bs) bs
    pure (success (lit "file_write: wrote " ++ show_ℕ (length bs) ++ lit " bytes to " ++ path_arg))

  unfoldable pub write_arg : ToolContext → Text → Option Text → ToolAction P ToolResult
  unfolding write_target
  write_arg ctx path_arg none = pure (refusal (lit "file_write: 'content' must be a string"))
  write_arg ctx path_arg (some content) = do
    target ← resolve_inside P ctx path_arg
    elim target [
      | none ↦ pure (refusal (lit "file_write: path escapes workspace: " ++ path_arg))
      | some t ↦ write_target ctx path_arg content t
    ]

  unfoldable pub file_write : ToolContext → Fields → ToolAction P ToolResult
  unfolding with_path write_arg
  file_write ctx args =
      with_path P (lit "file_write: missing 'path'") (as_str (Json.get "path" args))
        λ path_arg. write_arg ctx path_arg (as_str (Json.get "content" args))
