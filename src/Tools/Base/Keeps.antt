-- ===== src/Tools/Base/Keeps.antt =====
-- What the parts of the tools keep, as rules from which a tool's own proof is built.
use agentanvil.Prelude.{◌≡◌, refl, String, ℕ, Bool, true, false, Option, none, some, if◌then◌else◌}
use agentanvil.Python.Text.{Text, is_empty}
use agentanvil.Python.Utf8.{Bytes}
use agentanvil.Python.Action.{Result, ok, raised, pure, ◌>>=◌}
use agentanvil.Python.Action.Rules.{
  After, Triple, Keeps, Triple-bind, Triple-weaken, Triple-lift, Keeps-pure, Keeps-intro, Triple-if,
}
use agentanvil.Python.FilePath.{FilePath, parent}
use agentanvil.Platform.{Platform}
use agentanvil.Tools.Base.{
  ToolResult, ToolContext, Sandbox, ToolAction, ask, on_machine, encoded, run, within,
  resolve_inside, emit_file_mutation, with_path,
}

module _ (P : Platform) (I : Sandbox P → Type 0) where
  -- A question changes nothing.
  pub ask-Keeps : {A : Type 0} (q : P.Machine → Result A) → Keeps I (ask P q)
  unfolding ask
  ask-Keeps q = Keeps-intro λ s h. h

  pub run-Keeps : {m : ToolAction P ToolResult} → Keeps I m → Keeps I (run P m)
  unfolding run
  run-Keeps k = Triple-bind k λ result.
      Triple-bind (Triple-lift I (encoded P (ToolResult.content result))) λ bs. Keeps-pure _

  pub with_path-Keeps :
      (missing : Text) (arg : Option Text) (rest : Text → ToolAction P ToolResult)
      → ((path_arg : Text) → Keeps I (rest path_arg))
      → Keeps I (with_path P missing arg rest)
  unfolding with_path
  with_path-Keeps missing none rest k = Keeps-pure _
  with_path-Keeps missing (some path_arg) rest k =
      Triple-if (is_empty path_arg) (Keeps-pure _) (k path_arg)

  -- What a tool with a workspace may do: `Inside` holds of the paths that are let through, and
  -- writes to such paths, their directories and their events keep `I`.
  pub record WritesKeep (ctx : ToolContext) (Inside : FilePath → Type 0) : Type 0 where
    pub admits :
        (s : Sandbox P) (t : FilePath)
        → I s
        → within P t (P.resolve ctx.workspace s.machine) ≡ ok true
        → Inside t
    pub write : (t : FilePath) (bs : Bytes) → Inside t → Keeps I (on_machine P (P.write_bytes t bs))
    pub make_dirs : (t : FilePath) → Inside t → Keeps I (on_machine P (P.make_dirs (parent t)))
    pub mutation :
        (t : FilePath) (operation : String) (before after : ℕ) (bs : Bytes)
        → Keeps I (emit_file_mutation P t ctx.workspace operation before after bs)

  abbrev pub Admitted : (FilePath → Type 0) → Option FilePath → Type 0
  Admitted Inside none = Unit
  Admitted Inside (some t) = Inside t

  module _ {ctx : ToolContext} {Inside : FilePath → Type 0} (w : WritesKeep ctx Inside) where
    abbrev When : FilePath → Bool → Type 0
    When t true = Inside t
    When t false = Unit

    within-Inside :
        (t : FilePath)
        → Triple I (ask P (λ m. within P t (P.resolve ctx.workspace m))) (λ b s. I s × When t b) I
    unfolding ask
    within-Inside t = record {
      at = λ s h. go s h (within P t (P.resolve ctx.workspace s.machine)) refl;
    }
      where
        go :
            (s : Sandbox P)
            → I s
            → (r : Result Bool) → within P t (P.resolve ctx.workspace s.machine) ≡ r
            → After (λ b s'. I s' × When t b) I (r, s)
        go s h (ok true) e = (h, w.admits s t h e)
        go s h (ok false) e = (h, tt)
        go s h (raised x) e = h

    chosen :
        (t : FilePath) (b : Bool)
        → Triple
            (λ s. I s × When t b)
            (pure (if b then some t else none))
            (λ o s. I s × Admitted Inside o)
            I
    unfolding pure
    chosen t true = record { at = λ s h. h }
    chosen t false = record { at = λ s h. h }

    -- A path that is let through is inside.
    pub resolve_inside-Admitted :
        (path_arg : Text)
        → Triple I (resolve_inside P ctx path_arg) (λ o s. I s × Admitted Inside o) I
    unfolding resolve_inside
    resolve_inside-Admitted path_arg =
        Triple-bind (ask-Keeps (P.resolve _)) λ t. Triple-bind (within-Inside t) λ b. chosen t b

    -- The rest of a file tool, by whether the path was let through.
    pub after_resolve :
        {A : Type 0} (path_arg : Text) (f : Option FilePath → ToolAction P A)
        → Keeps I (f none)
        → ((t : FilePath) → Inside t → Keeps I (f (some t)))
        → Keeps I (resolve_inside P ctx path_arg >>= f)
    after_resolve path_arg f refused through =
        Triple-bind (resolve_inside-Admitted path_arg) by_case
      where
        by_case : (o : Option FilePath) → Triple (λ s. I s × Admitted Inside o) (f o) (λ a s. I s) I
        by_case none = Triple-weaken refused (λ s h. h.0) (λ a s h. h) (λ s h. h)
        by_case (some t) = record { at = λ s h. (through t h.1).at s h.0 }
