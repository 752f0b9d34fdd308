-- ===== src/Tools/Bash/Effects.antt =====
-- What `bash` of tools/bash.py does to the machine and to the trace.
use agentanvil.Prelude.{◌≡◌, ◌↔◌, refl, subst, ◌⊎◌, inl, inr, true, false, Option, none, some}
use agentanvil.Prelude.Int.{pos}
use agentanvil.Python.Text.{Text, strip, is_empty}
use agentanvil.Python.Json
use agentanvil.Python.Json.{Fields, as_str}
use agentanvil.Python.Action.{ok, pure}
use agentanvil.Python.Action.Rules.{After, Triple, Triple-bind, Triple-split}
use agentanvil.Platform.{Platform, Shell}
use agentanvil.Tools.Base.{ToolResult, refusal, ToolContext, Sandbox, ToolAction}
use agentanvil.Tools.Base.Still.{machine-Still}
use agentanvil.Tools.Bash.{outcome, run_command, bash_arg, bash}
use agentanvil.Tools.Bash.Laws.{outcome-is_error}

module _ (P : Platform) (ctx : ToolContext) where
  -- The command was run once, in the workspace and with the tool's timeout, and the result tells
  -- how it ended.
  pub record Ran (command : Text) (s : Sandbox P) (r : ToolResult) (t : Sandbox P) : Type 0 where
    pub not_blank : is_empty (strip command) ≡ false
    pub ended : Shell
    pub shell : (P.shell command ctx.workspace ctx.timeout_seconds s.machine).0 ≡ ok ended
    pub after :
        t ≡ record s { machine = (P.shell command ctx.workspace ctx.timeout_seconds s.machine).1 }
    pub result : r ≡ outcome ctx.timeout_seconds ended
    pub told : (r.is_error ≡ false) ↔ (r.exit_code ≡ pos 0)

  -- A missing or blank command is refused.
  pub record Refused (command : Option Text) (s : Sandbox P) (r : ToolResult) (t : Sandbox P)
      : Type 0 where
    pub blank : (c : Text) → command ≡ some c → is_empty (strip c) ≡ true
    pub is_error : r.is_error ≡ true
    pub exit_code : r.exit_code ≡ pos 2
    pub after : t ≡ s

  abbrev pub Runs : Option Text → Sandbox P → ToolResult → Sandbox P → Type 0
  Runs command s r t = Refused command s r t ⊎ ((c : Text) × (command ≡ some c) × Ran c s r t)

  module _ (s : Sandbox P) where
    abbrev Running : Option Text → ToolAction P ToolResult → Type 0
    Running command m = Triple (λ x. x ≡ s) m (λ r t. Runs command s r t) (λ x. Unit)

    run_command-Runs :
        (command : Text)
        → is_empty (strip command) ≡ false
        → Running (some command) (run_command P ctx command)
    unfolding run_command pure
    run_command-Runs command filled =
        Triple-bind (machine-Still P s (P.shell command ctx.workspace ctx.timeout_seconds)) λ ended.
          record {
            at = λ x (shell, h). inr (
              command,
              refl,
              record {
                not_blank = filled;
                ended = ended;
                shell = shell;
                after = h;
                result = refl;
                told = outcome-is_error ctx.timeout_seconds ended;
              },
            );
          }

    refuses :
        (command : Option Text) (message : Text)
        → ((c : Text) → command ≡ some c → is_empty (strip c) ≡ true)
        → Running command (pure (refusal message))
    unfolding pure refusal
    refuses command message blank = record {
      at = λ x h. inl (record { blank = blank; is_error = refl; exit_code = refl; after = h });
    }

    bash_arg-Runs : (command : Option Text) → Running command (bash_arg P ctx command)
    unfolding bash_arg
    bash_arg-Runs none = refuses none _ λ c e. absurd (cc e)
    bash_arg-Runs (some command) =
        Triple-split (is_empty (strip command))
          (λ blank.
            refuses (some command) _ λ c e.
              let same : command ≡ c = cc in subst (λ d. is_empty (strip d) ≡ true) same blank)
          (run_command-Runs command)

  -- When `bash` returns, the command was missing or blank, and it was refused with exit code 2 and
  -- nothing was changed; or it was run once in the workspace with the tool's timeout, the trace is
  -- as before, and the result is the outcome of that run, whose error flag is set if and only if
  -- the exit code is not 0, a timeout, a missing file and a death by a signal included.
  pub bash-Runs :
      (args : Fields) (s : Sandbox P)
      → After (λ r t. Runs (as_str (Json.get "command" args)) s r t) (λ t. Unit) (bash P ctx args s)
  unfolding bash
  bash-Runs args s = (bash_arg-Runs s (as_str (Json.get "command" args))).at s refl
