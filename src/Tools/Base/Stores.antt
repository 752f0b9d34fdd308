-- ===== src/Tools/Base/Stores.antt =====
-- The steps by which `file_write` and `file_edit` store a text: it is encoded, written, and
-- recorded.
use agentanvil.Prelude.{ℕ, ◌≡◌, refl, String, false, some, length, str_eq}
use agentanvil.Python.Text.{Text}
use agentanvil.Python.Utf8.{Bytes, encode}
use agentanvil.Python.Action.{ok, pure, lift, ◌>>=◌, ◌>>◌}
use agentanvil.Python.Action.Rules.{Triple, Triple-bind, Triple-weaken, lift-Triple}
use agentanvil.Python.FilePath.{FilePath}
use agentanvil.Platform.{Platform}
use agentanvil.Tools.Base.{
  ToolResult, ToolContext, Sandbox, ToolAction, on_machine, encoded, emit_file_mutation,
}
use agentanvil.Tools.Base.Still.{machine-Still, encoded-some, Told, emit-Told}

module _ (P : Platform) where
  -- The text was encoded and written once, and one event tells of it.
  pub record Put (b : Sandbox P) (target : FilePath) (content : Text) (operation : String)
      (before : ℕ) (t : Sandbox P) : Type 0 where
    pub bs : Bytes
    pub bytes : encode content ≡ some bs
    pub wrote : (P.write_bytes target bs b.machine).0 ≡ ok tt
    pub told :
        Told P (record b { machine = (P.write_bytes target bs b.machine).1 }) operation before bs t

  module _ (ctx : ToolContext) (target : FilePath) (content : Text) (operation : String)
      (before : ℕ) (result : Bytes → ToolResult) where
    unfoldable pub put : ToolAction P ToolResult
    put = do
      bs ← lift (encoded P content)
      on_machine P (P.write_bytes target bs)
      emit_file_mutation P target ctx.workspace operation before (length bs) bs
      pure (result bs)

    pub put-Put :
        (b : Sandbox P)
        → str_eq operation "delete" ≡ false
        → Triple
            (λ x. x ≡ b)
            put
            (λ r t. ((bs : Bytes) × (r ≡ result bs)) × Put b target content operation before t)
            (λ x. Unit)
    unfolding put pure
    put-Put b kept =
        Triple-bind
          (Triple-weaken
            (lift-Triple (λ x. x ≡ b) (encoded P content)
              (λ bs x. (encode content ≡ some bs) × (x ≡ b))
              (λ bs x e h. (encoded-some P content bs e, h)))
            (λ x h. h) (λ bs x h. h) (λ x h. tt))
          λ bs. record {
            at = λ x (bytes, h).
                (Triple-bind (machine-Still P b (P.write_bytes target bs)) λ a. record {
                  at = λ y (wrote, g).
                      (Triple-bind (emit-Told P ctx _ target operation before bs kept) λ e. record {
                        at = λ z told. (
                          (bs, refl),
                          record { bs = bs; bytes = bytes; wrote = wrote; told = told },
                        );
                      }).at
                        y g;
                }).at
                  x h;
          }
