-- ===== src/Tools/Bash.antt =====
-- tools/bash.py
pub mod Laws
pub mod Effects
use agentanvil.Prelude.{Bool, true, false, Option, none, some, ◌∷◌, ◌++◌, ◌==◌, if◌then◌else◌}
use agentanvil.Prelude.Int.{ℤ, pos, negsuc}
use agentanvil.Python.Text.{Text, lit, strip, is_empty, show_ℤ}
use agentanvil.Python.Json
use agentanvil.Python.Json.{Fields, as_str}
use agentanvil.Python.Action.{pure, ◌>>=◌}
use agentanvil.Platform.{Platform, Shell, completed, timed_out, not_found}
use agentanvil.Tools.Base.{ToolResult, refusal, ToolContext, ToolAction, on_machine}

-- stdout and stderr in one text.
unfoldable pub combine : Text → Text → Text
combine out err =
    if is_empty err
    then out
    else if is_empty out
    then err
    else out ++ 10 ∷ lit "[stderr]" ++ 10 ∷ err

abbrev is_zero : ℤ → Bool
is_zero (pos n) = n == 0
is_zero (negsuc n) = false

unfoldable pub outcome : ℤ → Shell → ToolResult
unfolding combine
outcome timeout (completed out err returncode) = record {
  content = combine out err;
  exit_code = returncode;
  is_error = if is_zero returncode then false else true;
  truncated = false;
}
outcome timeout timed_out = record {
  content = lit "bash: command timed out after " ++ show_ℤ timeout ++ lit "s";
  exit_code = pos 124;
  is_error = true;
  truncated = false;
}
outcome timeout (not_found message) = record {
  content = lit "bash: " ++ message;
  exit_code = pos 127;
  is_error = true;
  truncated = false;
}

module _ (P : Platform) where
  unfoldable pub run_command : ToolContext → Text → ToolAction P ToolResult
  unfolding outcome
  run_command ctx command = do
    ended ← on_machine P (P.shell command ctx.workspace ctx.timeout_seconds)
    pure (outcome ctx.timeout_seconds ended)

  unfoldable pub bash_arg : ToolContext → Option Text → ToolAction P ToolResult
  unfolding run_command
  bash_arg ctx none = pure (refusal (lit "bash: missing or empty 'command' argument"))
  bash_arg ctx (some command) =
      if is_empty (strip command)
      then pure (refusal (lit "bash: missing or empty 'command' argument"))
      else run_command ctx command

  unfoldable pub bash : ToolContext → Fields → ToolAction P ToolResult
  unfolding bash_arg
  bash ctx args = bash_arg ctx (as_str (Json.get "command" args))
