-- ===== src/Tools/FileRead/Effects.antt =====
-- What `file_read` of tools/file_read.py reads, and that it changes nothing.
use agentanvil.Prelude.{
  ℕ, ◌≤◌, ◌≡◌, refl, sym, ◌∙◌, ap, ◌⊎◌, inl, inr, Bool, true, false, not, Option, none, some, ◌++◌,
  ltb, arith,
}
use agentanvil.Python.Text.{Text, lit, is_empty}
use agentanvil.Python.Text.Lines.{splitlines, translate_newlines}
use agentanvil.Python.Utf8.{Bytes, decode}
use agentanvil.Python.Json
use agentanvil.Python.Json.{Fields, as_str}
use agentanvil.Python.Action.{Result, ok, pure, lift, ◌>>=◌}
use agentanvil.Python.Action.Rules.{
  After, Triple, Triple-bind, Triple-weaken, Triple-if, Triple-split, lift-Triple,
}
use agentanvil.Python.FilePath.{FilePath}
use agentanvil.Platform.{Platform}
use agentanvil.Tools.Base.{
  ToolResult, refusal, ToolContext, Sandbox, ToolAction, resolve_inside, with_path,
}
use agentanvil.Tools.Base.Still.{ask-Still, resolve_inside-Still, Resolved}
use agentanvil.Tools.FileRead.{
  max_file_bytes, read_lines, read_content, read_sized, read_target, file_read,
}

module _ (P : Platform) (ctx : ToolContext) (args : Fields) where
  -- The result is what the lines of the file at the resolved path give: a regular file that is not
  -- too large and that was decoded.
  pub record Shown (path_arg : Text) (s : Sandbox P) (r : ToolResult) : Type 0 where
    pub target : FilePath
    pub resolved : Resolved P ctx s path_arg target
    pub was_there : P.exists target s.machine ≡ ok true
    pub regular : P.is_file target s.machine ≡ ok true
    pub size : ℕ
    pub measured : P.stat_size target s.machine ≡ ok size
    pub fits : size ≤ max_file_bytes
    pub bs : Bytes
    pub read : P.read_bytes target s.machine ≡ ok bs
    pub text : Text
    pub decoded : decode bs ≡ some text
    pub shown : read_lines args (splitlines (translate_newlines text)) ≡ ok r

  abbrev pub Reads : Option Text → Sandbox P → ToolResult → Sandbox P → Type 0
  Reads path s r t = (t ≡ s) × ((r.is_error ≡ true) ⊎ ((p : Text) × (path ≡ some p) × Shown p s r))

  module _ (s : Sandbox P) where
    abbrev Reading : Option Text → ToolAction P ToolResult → Type 0
    Reading path m = Triple (λ x. x ≡ s) m (λ r t. Reads path s r t) (λ x. Unit)

    refuses : (path : Option Text) (message : Text) → Reading path (pure (refusal message))
    unfolding pure refusal
    refuses path message = record { at = λ x h. (h, inl refl) }

    module _ (path_arg : Text) where
      abbrev Full : ToolAction P ToolResult → Type 0
      Full m = Reading (some path_arg) m

      there : (b : Bool) → not b ≡ false → b ≡ true
      there true k = refl
      there false k = absurd (ground arith)

      module _ (target : FilePath) (resolved : Resolved P ctx s path_arg target)
          (was_there : P.exists target s.machine ≡ ok true)
          (regular : P.is_file target s.machine ≡ ok true) (size : ℕ)
          (measured : P.stat_size target s.machine ≡ ok size) where
        read_content-Full :
            size ≤ max_file_bytes
            → (bs : Bytes) → P.read_bytes target s.machine ≡ ok bs
            → Full (lift (read_content P args bs))
        unfolding read_content refusal
        read_content-Full fits bs read =
            Triple-weaken
              (lift-Triple (λ x. x ≡ s) (read_content P args bs)
                (λ r t. Reads (some path_arg) s r t) (λ r x e h. (h, by_text (decode bs) refl r e)))
              (λ x h. h) (λ r x h. h) (λ x h. tt)
          where
            failed :
                {message : Text} (r : ToolResult)
                → ◌≡◌ {A = Result ToolResult} (ok (refusal message)) (ok r)
                → r.is_error ≡ true
            failed {message} r e =
                let same : refusal message ≡ r = cc in
                ap (λ (y : ToolResult). y.is_error) (sym same)

            by_text :
                (d : Option Text)
                → decode bs ≡ d
                → (r : ToolResult)
                → elim d [
                  | none ↦
                      ok (refusal (lit "file_read: not utf-8 decodable: " ++ P.decode_message bs))
                  | some text ↦ read_lines args (splitlines (translate_newlines text))
                ]
                  ≡ ok r
                → (r.is_error ≡ true) ⊎ ((p : Text) × (some path_arg ≡ some p) × Shown p s r)
            by_text none d r e = inl (failed r e)
            by_text (some text) d r e = inr (
              path_arg,
              refl,
              record {
                target = target;
                resolved = resolved;
                was_there = was_there;
                regular = regular;
                size = size;
                measured = measured;
                fits = fits;
                bs = bs;
                read = read;
                text = text;
                decoded = d;
                shown = e;
              },
            )

        read_sized-Full : Full (read_sized P args target size)
        unfolding read_sized
        read_sized-Full =
            Triple-split (ltb max_file_bytes size) (λ e. refuses _ _)
              λ e. Triple-bind (ask-Still P s (P.read_bytes target)) λ bs. record {
                at = λ x (read, h). (read_content-Full (ground arith) bs read).at x h;
              }

      read_target-Full :
          (target : FilePath)
          → Resolved P ctx s path_arg target
          → Full (read_target P args path_arg target)
      unfolding read_target
      read_target-Full target resolved = Triple-bind (ask-Still P s (P.exists target)) λ exists.
          record {
            at = λ x (e, h).
                (Triple-split (not exists) (λ k. refuses _ _)
                    λ k. Triple-bind (ask-Still P s (P.is_file target)) λ regular. record {
                      at = λ y (f, g).
                          (Triple-split (not regular) (λ l. refuses _ _)
                              λ l. Triple-bind (ask-Still P s (P.stat_size target)) λ size. record {
                                at = λ z (m, i).
                                    (read_sized-Full target resolved (e ∙ ap ok (there exists k))
                                        (f ∙ ap ok (there regular l)) size m).at
                                      z i;
                              }).at
                            y g;
                    }).at
                  x h;
          }

    with_path-Reads :
        (missing : Text) (path : Option Text)
        → Reading path (
            with_path P missing path λ path_arg. do
              target ← resolve_inside P ctx path_arg
              elim target [
                | none ↦ pure (refusal (lit "file_read: path escapes workspace: " ++ path_arg))
                | some t ↦ read_target P args path_arg t
              ])
    unfolding with_path
    with_path-Reads missing none = refuses none missing
    with_path-Reads missing (some path_arg) = Triple-if (is_empty path_arg) (refuses _ _) (
        Triple-bind (resolve_inside-Still P ctx s path_arg)
          λ o. record { at = λ x (inside, h). (by_target o inside).at x h })
      where
        by_target :
            (o : Option FilePath)
            → ((t : FilePath) → o ≡ some t → Resolved P ctx s path_arg t)
            → Reading (some path_arg) (elim o [
              | none ↦ pure (refusal (lit "file_read: path escapes workspace: " ++ path_arg))
              | some t ↦ read_target P args path_arg t
            ])
        by_target none inside = refuses _ _
        by_target (some t) inside = read_target-Full path_arg t (inside t refl)

  -- When `file_read` returns, the machine and the trace are as before, and the result is an error,
  -- or the path was a string that resolves to a target in the workspace, which was there and was a
  -- regular file of at most 1 MiB, and the result is what `read_lines` makes of the decoded text's
  -- lines.
  pub file_read-Reads :
      (s : Sandbox P)
      → After
          (λ r t. Reads (as_str (Json.get "path" args)) s r t)
          (λ t. Unit)
          (file_read P ctx args s)
  unfolding file_read
  file_read-Reads s = (with_path-Reads s _ (as_str (Json.get "path" args))).at s refl
