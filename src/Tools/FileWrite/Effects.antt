-- ===== src/Tools/FileWrite/Effects.antt =====
-- What `file_write` of tools/file_write.py does to the machine and to the trace.
use agentanvil.Prelude.{
  ap, str_eq, ℕ, ◌≡◌, refl, sym, ◌∙◌, subst, ◌⊎◌, inl, inr, String, Bool, true, false, Option, none,
  some, ◌++◌, length, if◌then◌else◌,
}
use agentanvil.Python.Text.{Text, lit, is_empty, show_ℕ}
use agentanvil.Python.Json
use agentanvil.Python.Json.{Fields, as_str}
use agentanvil.Python.Action.{ok, pure, lift, ◌>>=◌, ◌>>◌}
use agentanvil.Python.Action.Rules.{
  After, Triple, Triple-bind, Triple-pure, Triple-weaken, Triple-if,
}
use agentanvil.Python.FilePath.{FilePath, parent}
use agentanvil.Platform.{Platform}
use agentanvil.Tools.Base.{
  ToolResult, refusal, success, ToolContext, Sandbox, ToolAction, on_machine, encoded,
  emit_file_mutation, with_path,
}
use agentanvil.Tools.Base.Still.{
  ask-Still, machine-Still, same_bool, resolve_inside-Still, Resolved,
}
use agentanvil.Tools.Base.Stores.{Put, put, put-Put}
use agentanvil.Tools.FileWrite.{size_if_exists, write_target, write_arg, file_write}

module _ (P : Platform) where
  module _ (ctx : ToolContext) where
    -- Whether the target was there, and its size before.
    abbrev pub Before : Sandbox P → FilePath → Bool → ℕ → Type 0
    Before s target existed size =
        (P.exists target s.machine ≡ ok existed)
        × (((existed ≡ false) × (size ≡ 0))
            ⊎ ((existed ≡ true) × (P.stat_size target s.machine ≡ ok size)))

    -- The file was written at the target that the path resolves to, with the bytes of the content,
    -- and one event tells the sizes, the hash, and whether the file was there before.
    pub record Stored (path_arg content : Text) (s t : Sandbox P) : Type 0 where
      pub target : FilePath
      pub resolved : Resolved P ctx s path_arg target
      pub existed : Bool
      pub before : ℕ
      pub was : Before s target existed before
      pub put :
          Put P
            (record s { machine = (P.make_dirs (parent target) s.machine).1 })
            target
            content
            (if existed then "edit" else "create")
            before
            t

    module _ (s : Sandbox P) where
      size_if_exists-Still :
          (target : FilePath) (existed : Bool)
          → P.exists target s.machine ≡ ok existed
          → Triple
              (λ x. x ≡ s)
              (size_if_exists P existed target)
              (λ n x. Before s target existed n × (x ≡ s))
              (λ x. Unit)
      unfolding size_if_exists
      size_if_exists-Still target true e =
          Triple-weaken (ask-Still P s (P.stat_size target)) (λ x h. h)
            (λ n x h. ((e, inr (refl, h.0)), h.1)) (λ x h. h)
      size_if_exists-Still target false e =
          Triple-weaken (Triple-pure (λ n x. Before s target false n × (x ≡ s)) (λ x. Unit) 0)
            (λ x h. ((e, inl (refl, refl)), h)) (λ n x h. h) (λ x h. h)

    abbrev operation_of : Bool → String
    operation_of existed = if existed then "edit" else "create"

    kept_of : (existed : Bool) → str_eq (operation_of existed) "delete" ≡ false
    kept_of true = refl
    kept_of false = refl

    -- A refusal leaves the sandbox as it was, and a success has stored the content.
    abbrev pub Writes : Option Text → Option Text → Sandbox P → ToolResult → Sandbox P → Type 0
    Writes path content s r t =
        ((r.is_error ≡ true) × (t ≡ s))
        ⊎ ((r.is_error ≡ false)
            × ((p : Text) × (c : Text) × (path ≡ some p) × (content ≡ some c) × Stored p c s t))

    module _ (s : Sandbox P) (path_arg content : Text) (target : FilePath)
        (resolved : Resolved P ctx s path_arg target) where
      Written : ToolResult → Sandbox P → Type 0
      Written r t = (r.is_error ≡ false) × Stored path_arg content s t

      -- From the making of the directories.
      from_dirs : Bool → ℕ → ToolAction P ToolResult
      from_dirs existed before = do
        on_machine P (P.make_dirs (parent target))
        bs ← lift (encoded P content)
        on_machine P (P.write_bytes target bs)
        emit_file_mutation P target ctx.workspace (operation_of existed) before (length bs) bs
        pure (
            success
              (lit "file_write: wrote " ++ show_ℕ (length bs) ++ lit " bytes to " ++ path_arg))

      abbrev Writing : ToolAction P ToolResult → Type 0
      Writing m = Triple (λ x. x ≡ s) m Written (λ x. Unit)

      from_dirs-Written :
          (existed : Bool) (before : ℕ)
          → Before s target existed before
          → Writing (from_dirs existed before)
      unfolding from_dirs success put Written
      from_dirs-Written existed before was =
          Triple-bind
            (Triple-weaken (machine-Still P s (P.make_dirs (parent target))) (λ x h. h)
              (λ a x h. h.1) (λ x h. tt))
            λ a.
              Triple-weaken
                (put-Put P ctx target content (operation_of existed) before _ _ (kept_of existed))
                (λ x h. h)
                (λ r t ((bs, same), h). (
                  ap (λ (x : ToolResult). x.is_error) same,
                  record {
                    target = target;
                    resolved = resolved;
                    existed = existed;
                    before = before;
                    was = was;
                    put = h;
                  },
                ))
                (λ x h. h)

      write_target-Written : Writing (write_target P ctx path_arg content target)
      unfolding write_target from_dirs
      write_target-Written = Triple-bind (ask-Still P s (P.exists target)) λ existed. record {
        at = λ x (e, h).
            (Triple-bind (size_if_exists-Still s target existed e) λ before. record {
              at = λ x (was, h).
                  (Triple-bind (ask-Still P s (P.exists target)) λ still. record {
                    at = λ x (e', h).
                        (subst (λ b. Writing (from_dirs b before)) (same_bool P (sym e ∙ e'))
                            (from_dirs-Written existed before was)).at
                          x h;
                  }).at
                    x h;
            }).at
              x h;
      }

    module _ (s : Sandbox P) where
      abbrev ResultOf : Option Text → Option Text → ToolAction P ToolResult → Type 0
      ResultOf path content m = Triple (λ x. x ≡ s) m (λ r t. Writes path content s r t) (λ x. Unit)

      refuses :
          (path content : Option Text) (message : Text)
          → ResultOf path content (pure (refusal message))
      unfolding pure refusal
      refuses path content message = record { at = λ x h. inl (refl, h) }

      write_arg-Writes :
          (path_arg : Text) (content : Option Text)
          → ResultOf (some path_arg) content (write_arg P ctx path_arg content)
      unfolding write_arg Written
      write_arg-Writes path_arg none = refuses (some path_arg) none _
      write_arg-Writes path_arg (some content) =
          Triple-bind (resolve_inside-Still P ctx s path_arg)
            λ o. record { at = λ x (inside, h). (by_target o inside).at x h }
        where
          by_target :
              (o : Option FilePath)
              → ((t : FilePath) → o ≡ some t → Resolved P ctx s path_arg t)
              → ResultOf (some path_arg) (some content) (elim o [
                | none ↦ pure (refusal (lit "file_write: path escapes workspace: " ++ path_arg))
                | some t ↦ write_target P ctx path_arg content t
              ])
          by_target none inside = refuses (some path_arg) (some content) _
          by_target (some t) inside =
              Triple-weaken (write_target-Written s path_arg content t (inside t refl)) (λ x h. h)
                (λ r x h. inr (h.0, (path_arg, content, refl, refl, h.1))) (λ x h. h)

      with_path-Writes :
          (missing : Text) (path content : Option Text)
          → ResultOf path content
              (with_path P missing path (λ path_arg. write_arg P ctx path_arg content))
      unfolding with_path
      with_path-Writes missing none content = refuses none content missing
      with_path-Writes missing (some path_arg) content =
          Triple-if (is_empty path_arg) (refuses (some path_arg) content missing)
            (write_arg-Writes path_arg content)

    -- When `file_write` returns, it has refused, with an error, and then neither the machine nor
    -- the trace has changed; or it has succeeded, and then the path and the content were strings,
    -- the encoded content was written once, at the target that the path resolves to, which lies in
    -- the workspace, and behind the making of its directories; and one `file_mutation` event was
    -- added, with the operation and the size before by whether the file existed, the number of
    -- bytes and their hash.
    pub file_write-Writes :
        (args : Fields) (s : Sandbox P)
        → After
            (λ r t. Writes (as_str (Json.get "path" args)) (as_str (Json.get "content" args)) s r t)
            (λ t. Unit)
            (file_write P ctx args s)
    unfolding file_write
    file_write-Writes args s =
        (with_path-Writes s _ (as_str (Json.get "path" args)) (as_str (Json.get "content" args))).at
          s refl
