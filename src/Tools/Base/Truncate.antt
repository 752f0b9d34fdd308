-- ===== src/Tools/Base/Truncate.antt =====
-- What `Tool.run` does to a result.
use agentanvil.Prelude.{
  ◌≤◌, ◌<◌, ◌≡◌, refl, ◌∙◌, ap, Bool, true, false, some, ◌∷◌, ◌++◌, arith, ltb, length, take,
  if◌then◌else◌, ltb→lt,
}
use agentanvil.Python.Text.{Text, lit}
use agentanvil.Python.Utf8.{Bytes, encode, decode_replace}
use agentanvil.Python.Utf8.Laws.Cut.{IsCut, decode_replace-take}
use agentanvil.Python.Action.{ok, lift, pure, continue, ◌>>=◌}
use agentanvil.Platform.{Platform}
use agentanvil.Tools.Base.{
  max_inline_result_bytes, ToolResult, Sandbox, ToolAction, encoded, clamp, run,
}

-- A result that is sent as it is, or cut: its content starts as the subclass's does, at most one
-- replacement character stands for a character that was cut, and the marker follows.
pub data Clamped (r : ToolResult) (bs : Bytes) : ToolResult → Type 0 where
  whole : length bs ≤ max_inline_result_bytes → Clamped r bs r
  cut :
      (t : Text)
      → max_inline_result_bytes < length bs
      → IsCut r.content t
      → Clamped r bs (record r { content = t ++ 10 ∷ lit "[truncated]"; truncated = true })

module _ (P : Platform) where
  clamp-Clamped :
      (r : ToolResult) (bs : Bytes) → encode r.content ≡ some bs → Clamped r bs (clamp P r bs)
  unfolding clamp
  clamp-Clamped r bs e = go (ltb max_inline_result_bytes (length bs)) refl
    where
      go :
          (b : Bool)
          → ltb max_inline_result_bytes (length bs) ≡ b
          → Clamped r bs (
              if b
              then record r {
                content =
                    decode_replace (take max_inline_result_bytes bs) ++ 10 ∷ lit "[truncated]";
                truncated = true;
              }
              else r)
      go true h = cut _ (ltb→lt _ _ h) (decode_replace-take max_inline_result_bytes r.content bs e)
      go false h = whole (ground (arith, h))

  encoded-some : (t : Text) (bs : Bytes) → encode t ≡ some bs → encoded P t ≡ ok bs
  unfolding encoded
  encoded-some t bs e = rw (e, encoded) refl

  -- When a subclass's `_run` returns a result whose content has these UTF-8 bytes, `run` returns it
  -- unchanged if they are at most 65,536; if they are more, `run` marks it as truncated, and its
  -- content is a prefix of the content, at most one replacement character for a character that was
  -- cut, a newline and "[truncated]". The state is the one that `_run` left.
  pub run-Clamped :
      (body : ToolAction P ToolResult) (s s' : Sandbox P) (r : ToolResult) (bs : Bytes)
      → body s ≡ (ok r, s')
      → encode r.content ≡ some bs
      → (r' : ToolResult) × (run P body s ≡ (ok r', s')) × Clamped r bs r'
  unfolding run encoded ◌>>=◌ lift pure
  run-Clamped body s s' r bs h e = (
    clamp P r bs,
    ap
          (λ o.
            continue o.0 (λ r. do bs ← lift (encoded P (ToolResult.content r)); pure (clamp P r bs))
              o.1)
          h
        ∙ ap (λ x. (do bs ← lift x; pure (clamp P r bs)) s') (encoded-some r.content bs e),
    clamp-Clamped r bs e,
  )
