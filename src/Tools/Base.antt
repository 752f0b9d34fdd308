-- ===== src/Tools/Base.antt =====
-- tools/base.py: results, contexts, the truncation of `Tool.run`, and `emit_file_mutation`.
pub mod Truncate
pub mod Keeps
pub mod Still
pub mod Stores
use agentanvil.Prelude.{
  ℕ, ◌*◌, String, ◌<>◌, Bool, true, false, Option, none, some, List, [], ◌∷◌, ◌++◌, ltb, str_eq,
  if◌then◌else◌, length, take,
}
use agentanvil.Prelude.Int.{ℤ, pos}
use agentanvil.Python.Text.{Text, lit, is_empty}
use agentanvil.Python.Utf8.{Bytes, encode, decode_replace}
use agentanvil.Python.Action.{
  Exn, Result, ok, raised, Action, pure, raise, lift, gets, on, ◌>>=◌, ◌>>◌,
}
use agentanvil.Python.FilePath.{FilePath, join, relative_to, show}
use agentanvil.Events.Schema.{EventType, file_mutation, mutation, Payload, EventEnvelope}
use agentanvil.Events.Writer.{EventWriter, emit}
use agentanvil.Platform.{Platform}

abbrev pub max_inline_result_bytes : ℕ
max_inline_result_bytes = 64 * 1024

pub record ToolResult : Type 0 where
  pub content : Text
  pub exit_code : ℤ
  pub is_error : Bool
  pub truncated : Bool

-- A result with `exit_code=2, is_error=True`, by which the tools refuse.
unfoldable pub refusal : Text → ToolResult
refusal content = record {
  content = content;
  exit_code = pos 2;
  is_error = true;
  truncated = false;
}

-- A result with `exit_code=0`.
unfoldable pub success : Text → ToolResult
success content = record {
  content = content;
  exit_code = pos 0;
  is_error = false;
  truncated = false;
}

-- The writer and the clock are shared, and stand in the state.
pub record ToolContext : Type 0 where
  pub workspace : FilePath
  pub timeout_seconds : ℤ

abbrev pub hash_text : String → String
hash_text digest = "sha256:" <> digest

-- `except ValueError`: the codecs' exceptions are subclasses.
unfoldable pub is_value_error : Exn → Bool
is_value_error e =
    if str_eq e.name "ValueError"
    then true
    else if str_eq e.name "UnicodeEncodeError"
    then true
    else str_eq e.name "UnicodeDecodeError"

module _ (P : Platform) where
  open P use {Machine, resolve, sha256, dump, encode_message}

  -- What a tool acts on: the trace and the machine.
  pub record Sandbox : Type 0 where
    pub events : EventWriter
    pub machine : Machine

  abbrev pub ToolAction : Type 0 → Type 0
  ToolAction A = Action Sandbox A

  unfoldable pub on_machine : {A : Type 0} → Action Machine A → ToolAction A
  unfolding on
  on_machine = on (λ s. s.machine) (λ m s. record s { machine = m })

  -- A question to the machine that changes nothing.
  unfoldable pub ask : {A : Type 0} → (Machine → Result A) → ToolAction A
  ask q s = (q s.machine, s)

  unfoldable pub on_events : {A : Type 0} → Action EventWriter A → ToolAction A
  unfolding on
  on_events = on (λ s. s.events) (λ w s. record s { events = w })

  abbrev encode_error : Text → Exn
  encode_error s = record { name = "UnicodeEncodeError"; message = encode_message s }

  -- `s.encode("utf-8")`
  unfoldable pub encoded : Text → Result Bytes
  encoded s = elim (encode s) [ none ↦ raised (encode_error s) | some bs ↦ ok bs ]

  -- The clamp of `Tool.run` on a result whose content has these bytes.
  unfoldable pub clamp : ToolResult → Bytes → ToolResult
  clamp result bs =
      if ltb max_inline_result_bytes (length bs)
      then record result {
        content = decode_replace (take max_inline_result_bytes bs) ++ 10 ∷ lit "[truncated]";
        truncated = true;
      }
      else result

  -- `Tool.run`, for the subclass's `_run` as a parameter.
  unfoldable pub run : ToolAction ToolResult → ToolAction ToolResult
  unfolding encoded clamp
  run body = do result ← body; bs ← lift (encoded result.content); pure (clamp result bs)

  unfoldable pub sha256_bytes : Bytes → String
  sha256_bytes bs = hash_text (sha256 bs)

  abbrev pub shown_under : FilePath → Option FilePath → Text
  shown_under path none = show path
  shown_under path (some rel) = show rel

  unfoldable pub emit_file_mutation :
      FilePath → FilePath → String → ℕ → ℕ → Bytes → ToolAction EventEnvelope
  unfolding on_events sha256_bytes
  emit_file_mutation path workspace operation size_before size_after contents_after = on_events (
      emit dump file_mutation (
        some (
          mutation (record {
            path = shown_under path (relative_to path workspace);
            operation = operation;
            size_before = size_before;
            size_after = size_after;
            hash_after = if str_eq operation "delete" then "" else sha256_bytes contents_after;
          }))))

  -- `target.relative_to(workspace.resolve())`, with `except ValueError` around both.
  unfoldable pub within : FilePath → Result FilePath → Result Bool
  within target (ok root) = elim (relative_to target root) [ none ↦ ok false | some rel ↦ ok true ]
  within target (raised e) = if is_value_error e then ok false else raised e

  -- The first lines of the file tools: the resolved target, or `none` if it escapes the workspace.
  unfoldable pub resolve_inside : ToolContext → Text → ToolAction (Option FilePath)
  unfolding ask within
  resolve_inside ctx path_arg = do
    target ← ask (resolve (join ctx.workspace path_arg))
    inside ← ask (λ m. within target (resolve ctx.workspace m))
    pure (if inside then some target else none)

  -- `if not isinstance(path_arg, str) or not path_arg`, by which every file tool begins.
  unfoldable pub with_path :
      Text → Option Text → (Text → ToolAction ToolResult) → ToolAction ToolResult
  with_path missing none rest = pure (refusal missing)
  with_path missing (some path_arg) rest =
      if is_empty path_arg then pure (refusal missing) else rest path_arg
