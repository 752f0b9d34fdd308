-- ===== src/Tools/Handover.antt =====
-- `file_read` of tools/file_read.py behind `file_write` of tools/file_write.py.
use agentanvil.Prelude.{
  ◌≤◌, ◌≡◌, refl, sym, ◌∙◌, ap, subst, ◌⊎◌, inl, inr, Bool, true, false, some, none, Option, ◌++◌,
  length, ltb, if◌then◌else◌, arith,
}
use agentanvil.Python.Text.{Text, lit, is_empty}
use agentanvil.Python.Text.Lines.{splitlines, translate_newlines}
use agentanvil.Python.Utf8.{Bytes, encode}
use agentanvil.Python.Utf8.Laws.{decode-encode}
use agentanvil.Python.Json
use agentanvil.Python.Json.{Fields, as_str}
use agentanvil.Python.Action.{Result, ok, raised, lift, pure, continue, ◌>>=◌}
use agentanvil.Python.Action.Rules.{After}
use agentanvil.Python.FilePath.{FilePath, join}
use agentanvil.Platform.{Platform}
use agentanvil.Tools.Base.{
  ToolAction, refusal, ToolResult, ToolContext, Sandbox, ask, within, resolve_inside, with_path,
}
use agentanvil.Tools.Base.Still.{Resolved}
use agentanvil.Tools.FileRead.{
  max_file_bytes, read_lines, read_content, read_sized, read_target, file_read,
}
use agentanvil.Tools.FileWrite.{file_write}
use agentanvil.Tools.FileWrite.Effects.{Writes, Stored, file_write-Writes}

module _ (P : Platform) where
  -- What the file system gives of the file at `target`.
  pub record Holds (target : FilePath) (bs : Bytes) (m : P.Machine) : Type 0 where
    pub exists : P.exists target m ≡ ok true
    pub is_file : P.is_file target m ≡ ok true
    pub stat_size : P.stat_size target m ≡ ok (length bs)
    pub read_bytes : P.read_bytes target m ≡ ok bs

  -- A file system that keeps what was written, and in which neither a write nor a new directory
  -- changes what a path resolves to.
  pub record KeepsFiles : Type 0 where
    pub held :
        (target : FilePath) (bs : Bytes) (m : P.Machine)
        → (P.write_bytes target bs m).0 ≡ ok tt
        → Holds target bs (P.write_bytes target bs m).1
    pub after_write :
        (p target : FilePath) (bs : Bytes) (m : P.Machine)
        → P.resolve p (P.write_bytes target bs m).1 ≡ P.resolve p m
    pub after_dirs :
        (p d : FilePath) (m : P.Machine) → P.resolve p (P.make_dirs d m).1 ≡ P.resolve p m

  -- A question whose answer is known.
  ask-known :
      {A B : Type 0} (q : P.Machine → Result A) (f : A → Sandbox P → Result B × Sandbox P) (a : A)
      (s : Sandbox P)
      → q s.machine ≡ ok a
      → (ask P q >>= f) s ≡ f a s
  unfolding ask ◌>>=◌
  ask-known q f a s h = ap (λ r. continue r f s) h

  if_false : {X : Type 0} (b : Bool) (x y : X) → b ≡ false → (if b then x else y) ≡ y
  if_false true x y h = absurd (cc h)
  if_false false x y h = refl

  module _ (ctx : ToolContext) (args : Fields) (s : Sandbox P) (path_arg : Text) (target : FilePath)
      (bs : Bytes) (content : Text) where
    reads_content :
        encode content ≡ some bs
        → lift (read_content P args bs) s
          ≡ (read_lines args (splitlines (translate_newlines content)), s)
    unfolding lift read_content
    reads_content e =
        ap
          (λ (d : Option Text). (
            elim d [
              | none ↦ ok (refusal (lit "file_read: not utf-8 decodable: " ++ P.decode_message bs))
              | some text ↦ read_lines args (splitlines (translate_newlines text))
            ],
            s,
          ))
          (decode-encode content e)

    reads_target :
        Holds target bs s.machine
        → length bs ≤ max_file_bytes
        → encode content ≡ some bs
        → read_target P args path_arg target s
          ≡ (read_lines args (splitlines (translate_newlines content)), s)
    unfolding read_target read_sized
    reads_target h fits e =
        ask-known _ _ true s h.exists
        ∙ ask-known _ _ true s h.is_file
        ∙ ask-known _ _ (length bs) s h.stat_size
        ∙ ap (λ (m : ToolAction P ToolResult). m s)
            (if_false (ltb max_file_bytes (length bs)) _ _ (ground arith))
        ∙ ask-known _ _ bs s h.read_bytes
        ∙ reads_content e

    -- What `file_read` does with the resolved target.
    at_target : Option FilePath → ToolAction P ToolResult
    at_target none = pure (refusal (lit "file_read: path escapes workspace: " ++ path_arg))
    at_target (some t) = read_target P args path_arg t

    resolves :
        Resolved P ctx s path_arg target → resolve_inside P ctx path_arg s ≡ (ok (some target), s)
    unfolding resolve_inside pure
    resolves r = ask-known _ _ target s r.0 ∙ ask-known _ _ true s r.1

    reads_inside :
        Resolved P ctx s path_arg target
        → Holds target bs s.machine
        → length bs ≤ max_file_bytes
        → encode content ≡ some bs
        → (resolve_inside P ctx path_arg >>= at_target) s
          ≡ (read_lines args (splitlines (translate_newlines content)), s)
    unfolding ◌>>=◌ at_target
    reads_inside r h fits e =
        ap (λ (o : Result (Option FilePath) × Sandbox P). continue o.0 at_target o.1) (resolves r)
        ∙ reads_target h fits e

    -- The file is read at a path that is resolved to it.
    reads_path :
        Resolved P ctx s path_arg target
        → Holds target bs s.machine
        → length bs ≤ max_file_bytes
        → encode content ≡ some bs
        → is_empty path_arg ≡ false
        → as_str (Json.get "path" args) ≡ some path_arg
        → file_read P ctx args s ≡ (read_lines args (splitlines (translate_newlines content)), s)
    unfolding file_read with_path at_target
    reads_path r h fits e named given =
        ap
          (λ o.
            with_path P (lit "file_read: missing 'path'") o
              (λ path_arg. do
                target ← resolve_inside P ctx path_arg
                elim target [
                  | none ↦ pure (refusal (lit "file_read: path escapes workspace: " ++ path_arg))
                  | some t ↦ read_target P args path_arg t
                ])
              s)
          given
        ∙ ap (λ (m : ToolAction P ToolResult). m s) (if_false (is_empty path_arg) _ _ named)
        ∙ reads_inside r h fits e

  module _ (keeps : KeepsFiles) (ctx : ToolContext) where
    module _ (s : Sandbox P) (path_arg content : Text) (t : Sandbox P)
        (h : Stored P ctx path_arg content s t) where
      same_place : (p : FilePath) → P.resolve p t.machine ≡ P.resolve p s.machine
      same_place p =
          ap (P.resolve p) h.put.told.machine
          ∙ keeps.after_write p h.target h.put.bs _
          ∙ keeps.after_dirs p _ _

      same_target : Resolved P ctx t path_arg h.target
      same_target = (
        same_place (join ctx.workspace path_arg) ∙ h.resolved.0,
        ap (within P h.target) (same_place ctx.workspace) ∙ h.resolved.1,
      )

      holds : Holds h.target h.put.bs t.machine
      holds =
          subst (Holds h.target h.put.bs) (sym h.put.told.machine)
            (keeps.held h.target h.put.bs _ h.put.wrote)

    -- On a file system that keeps its files: a content of at most 1 MiB that `file_write` has
    -- written without an error is what a call of `file_read` with the same path finds next. It
    -- changes nothing, and its result is made of the lines of that content, at the range that it
    -- asks for, with the newlines translated. No line is lost and none is added on the way through
    -- the bytes.
    pub file_read-file_write :
        (write_args read_args : Fields) (s : Sandbox P) (path_arg content : Text) (bs : Bytes)
        → as_str (Json.get "path" write_args) ≡ some path_arg
        → as_str (Json.get "content" write_args) ≡ some content
        → as_str (Json.get "path" read_args) ≡ some path_arg
        → is_empty path_arg ≡ false
        → encode content ≡ some bs
        → length bs ≤ max_file_bytes
        → After
            (λ r t.
              (r.is_error ≡ true)
              ⊎ (file_read P ctx read_args t
                  ≡ (read_lines read_args (splitlines (translate_newlines content)), t)))
            (λ t. Unit)
            (file_write P ctx write_args s)
    file_read-file_write write_args read_args s path_arg content bs named given read filled e fits =
        go (file_write P ctx write_args s) (file_write-Writes P ctx write_args s)
      where
        reads :
            (t : Sandbox P)
            → Stored P ctx path_arg content s t
            → file_read P ctx read_args t
              ≡ (read_lines read_args (splitlines (translate_newlines content)), t)
        reads t h =
            let same : bs ≡ h.put.bs = cc in
            reads_path ctx read_args t path_arg h.target h.put.bs content
              (same_target s path_arg content t h) (holds s path_arg content t h)
              (subst (λ b. length b ≤ max_file_bytes) same fits) h.put.bytes filled read

        go :
            (o : Result ToolResult × Sandbox P)
            → After
                (λ r t.
                  Writes P ctx
                    (as_str (Json.get "path" write_args))
                    (as_str (Json.get "content" write_args))
                    s
                    r
                    t)
                (λ t. Unit)
                o
            → After
                (λ r t.
                  (r.is_error ≡ true)
                  ⊎ (file_read P ctx read_args t
                      ≡ (read_lines read_args (splitlines (translate_newlines content)), t)))
                (λ t. Unit)
                o
        go (raised x, t) h = tt
        go (ok r, t) (inl h) = inl h.0
        go (ok r, t) (inr (fine, (p, c, p_is, c_is, h))) =
            let path_same : p ≡ path_arg = cc in
            let content_same : c ≡ content = cc in
            inr (
              reads t (
                subst (λ q. Stored P ctx q content s t) path_same
                  (subst (λ d. Stored P ctx p d s t) content_same h)))
