-- ===== src/Tools/FileEdit/Effects.antt =====
-- What `file_edit` of tools/file_edit.py does to the machine and to the trace.
use agentanvil.Prelude.{
  ℕ, ◌+◌, ◌≤◌, ◌≡◌, refl, ◌∙◌, ap, ◌⊎◌, inl, inr, Bool, true, false, not, ◌||◌, Option, none, some,
  ◌++◌, length, ltb, arith,
}
use agentanvil.Prelude.Int.{ℤ, pos, negsuc, pos_part, ltb_ℤ}
use agentanvil.Python.Text.{Text, lit, is_empty}
use agentanvil.Python.Utf8.{Bytes, decode}
use agentanvil.Python.Json
use agentanvil.Python.Json.{Fields, as_str, as_int, PyInt}
use agentanvil.Python.Action.{ok, pure}
use agentanvil.Python.Action.Rules.{
  After, Triple, Triple-bind, Triple-weaken, Triple-if, Triple-split,
}
use agentanvil.Python.FilePath.{FilePath}
use agentanvil.Platform.{Platform}
use agentanvil.Tools.Base.{
  ToolResult, refusal, success, ToolContext, Sandbox, ToolAction, with_path,
}
use agentanvil.Tools.Base.Still.{ask-Still, resolve_inside-Still, Resolved}
use agentanvil.Tools.Base.Stores.{Put, put, put-Put}
use agentanvil.Tools.FileEdit.{
  content_lines, edited_text, store_edit, edit_text, edit_target, is_bad_range, edit_range,
  edit_args, file_edit,
}

module _ (P : Platform) (ctx : ToolContext) where
  -- The checks of the range, read as bounds.
  accepted_range :
      (start end : PyInt)
      → is_bad_range P start end ≡ false
      → (1 ≤ pos_part start.value) × (pos_part start.value ≤ pos_part end.value)
  unfolding is_bad_range
  accepted_range start end h = by_values start.value end.value h
    where
      by_values :
          (a b : ℤ)
          → (ltb_ℤ a (pos 1) || ltb_ℤ b a) ≡ false
          → (1 ≤ pos_part a) × (pos_part a ≤ pos_part b)
      by_values (pos a) (pos b) h = (ground arith, ground arith)
      by_values (pos a) (negsuc b) h = absurd (ground arith)
      by_values (negsuc a) b h = absurd (ground arith)

  -- The file at the resolved path was read and decoded, the range lies in it or behind its end, and
  -- it was written back with the edited text; one event tells the sizes and the hash.
  pub record Edited (path_arg : Text) (first last : ℕ) (content : Text) (s t : Sandbox P)
      : Type 0 where
    pub target : FilePath
    pub resolved : Resolved P ctx s path_arg target
    pub was_there : P.exists target s.machine ≡ ok true
    pub old : Bytes
    pub read : P.read_bytes target s.machine ≡ ok old
    pub original : Text
    pub decoded : decode old ≡ some original
    pub positive : 1 ≤ first
    pub ordered : first ≤ last
    pub in_reach : first ≤ length (content_lines original) + 1
    pub put : Put P s target (edited_text original first last content) "edit" (length old) t

  -- A refusal leaves the sandbox as it was, and a success has edited the file.
  abbrev pub Edits :
      Option Text
      → Option PyInt
      → Option PyInt
      → Option Text
      → Sandbox P
      → ToolResult
      → Sandbox P
      → Type 0
  Edits path start end content s r t =
      ((r.is_error ≡ true) × (t ≡ s))
      ⊎ ((r.is_error ≡ false)
          × ((p : Text) × (a : PyInt) × (b : PyInt) × (c : Text) × (path ≡ some p)
              × (start ≡ some a)
              × (end ≡ some b)
              × (content ≡ some c)
              × Edited p (pos_part a.value) (pos_part b.value) c s t))

  module _ (s : Sandbox P) where
    abbrev Editing :
        Option Text → Option PyInt → Option PyInt → Option Text → ToolAction P ToolResult → Type 0
    Editing path start end content m =
        Triple (λ x. x ≡ s) m (λ r t. Edits path start end content s r t) (λ x. Unit)

    refuses :
        (path : Option Text) (start end : Option PyInt) (content : Option Text) (message : Text)
        → Editing path start end content (pure (refusal message))
    unfolding pure refusal
    refuses path start end content message = record { at = λ x h. inl (refl, h) }

    module _ (path_arg : Text) (start end : PyInt) (content : Text)
        (range : is_bad_range P start end ≡ false) where
      abbrev Full : ToolAction P ToolResult → Type 0
      Full m = Editing (some path_arg) (some start) (some end) (some content) m

      refused : (message : Text) → Full (pure (refusal message))
      refused = refuses (some path_arg) (some start) (some end) (some content)

      module _ (target : FilePath) (resolved : Resolved P ctx s path_arg target)
          (was_there : P.exists target s.machine ≡ ok true) (old : Bytes)
          (read : P.read_bytes target s.machine ≡ ok old) (original : Text)
          (decoded : decode old ≡ some original) where
        abbrev new_text : Text
        new_text = edited_text original (pos_part start.value) (pos_part end.value) content

        store_edit-Full :
            (n : ℕ)
            → pos_part start.value ≤ length (content_lines original) + 1
            → Full (store_edit P ctx target start end n (length old) new_text)
        unfolding store_edit success put
        store_edit-Full n reach =
            Triple-weaken (put-Put P ctx target new_text "edit" (length old) _ s refl) (λ x h. h)
              (λ r t ((bs, same), h). inr (
                ap (λ (x : ToolResult). x.is_error) same,
                (path_arg, start, end, content, refl, refl, refl, refl, edited t h),
              ))
              (λ x h. h)
          where
            edited :
                (t : Sandbox P)
                → Put P s target new_text "edit" (length old) t
                → Edited path_arg (pos_part start.value) (pos_part end.value) content s t
            edited t h = record {
              target = target;
              resolved = resolved;
              was_there = was_there;
              old = old;
              read = read;
              original = original;
              decoded = decoded;
              positive = (accepted_range start end range).0;
              ordered = (accepted_range start end range).1;
              in_reach = reach;
              put = h;
            }

        edit_text-Full : Full (edit_text P ctx target start end content (length old) original)
        unfolding edit_text
        edit_text-Full =
            Triple-split (ltb (length (content_lines original) + 1) (pos_part start.value))
              (λ e. refused _) λ e. Triple-if _ (refused _) (store_edit-Full _ (ground arith))

      edit_target-Full :
          (target : FilePath)
          → Resolved P ctx s path_arg target
          → Full (edit_target P ctx path_arg start end content target)
      unfolding edit_target
      edit_target-Full target resolved = Triple-bind (ask-Still P s (P.exists target)) λ exists.
          record {
            at = λ x (e, h).
                (Triple-split (not exists) (λ k. refused _)
                    λ k. Triple-bind (ask-Still P s (P.read_bytes target)) λ old. record {
                      at = λ y (read, g).
                          (of_bytes old (e ∙ ap ok (there exists k)) read (decode old) refl).at y g;
                    }).at
                  x h;
          }
        where
          there : (b : Bool) → not b ≡ false → b ≡ true
          there true k = refl
          there false k = absurd (ground arith)

          of_bytes :
              (old : Bytes)
              → P.exists target s.machine ≡ ok true
              → P.read_bytes target s.machine ≡ ok old
              → (d : Option Text) → decode old ≡ d
              → Full (elim d [
                | none ↦
                    pure (refusal (lit "file_edit: not utf-8 decodable: " ++ P.decode_message old))
                | some original ↦ edit_text P ctx target start end content (length old) original
              ])
          of_bytes old there read none d = refused _
          of_bytes old there read (some original) d =
              edit_text-Full target resolved there old read original d

    edit_range-Edits :
        (path_arg : Text) (start end : PyInt) (content : Text)
        → Editing
            (some path_arg)
            (some start)
            (some end)
            (some content)
            (edit_range P ctx path_arg start end content)
    unfolding edit_range
    edit_range-Edits path_arg start end content =
        Triple-split (is_bad_range P start end) (λ e. refuses _ _ _ _ _)
          λ range.
            Triple-bind (resolve_inside-Still P ctx s path_arg)
              λ o. record { at = λ x (inside, h). (by_target range o inside).at x h }
      where
        by_target :
            is_bad_range P start end ≡ false
            → (o : Option FilePath) → ((t : FilePath) → o ≡ some t → Resolved P ctx s path_arg t)
            → Editing (some path_arg) (some start) (some end) (some content) (elim o [
              | none ↦ pure (refusal (lit "file_edit: path escapes workspace: " ++ path_arg))
              | some t ↦ edit_target P ctx path_arg start end content t
            ])
        by_target range none inside = refuses _ _ _ _ _
        by_target range (some t) inside =
            edit_target-Full path_arg start end content range t (inside t refl)

    edit_args-Edits :
        (path_arg : Text) (start end : Option PyInt) (content : Option Text)
        → Editing (some path_arg) start end content (edit_args P ctx path_arg start end content)
    unfolding edit_args
    edit_args-Edits path_arg (some start) (some end) (some content) =
        edit_range-Edits path_arg start end content
    edit_args-Edits path_arg (some start) (some end) none = refuses _ _ _ _ _
    edit_args-Edits path_arg (some start) none content = refuses _ _ _ _ _
    edit_args-Edits path_arg none end content = refuses _ _ _ _ _

    with_path-Edits :
        (missing : Text) (path : Option Text) (start end : Option PyInt) (content : Option Text)
        → Editing path start end content
            (with_path P missing path (λ path_arg. edit_args P ctx path_arg start end content))
    unfolding with_path
    with_path-Edits missing none start end content = refuses _ _ _ _ _
    with_path-Edits missing (some path_arg) start end content =
        Triple-if (is_empty path_arg) (refuses _ _ _ _ _)
          (edit_args-Edits path_arg start end content)

  -- When `file_edit` returns, it has refused, with an error, and then neither the machine nor the
  -- trace has changed; or it has succeeded, and then all four arguments had their types, the range
  -- was ordered and began at most one line behind the file's end, the path resolves to a target in
  -- the workspace that was there and was decoded, the encoded result of the edit was written to it
  -- once, and one `file_mutation` event "edit" was added, with both sizes and the hash of the new
  -- bytes.
  pub file_edit-Edits :
      (args : Fields) (s : Sandbox P)
      → After
          (λ r t.
            Edits
              (as_str (Json.get "path" args))
              (as_int (Json.get "start_line" args))
              (as_int (Json.get "end_line" args))
              (as_str (Json.get "new_content" args))
              s
              r
              t)
          (λ t. Unit)
          (file_edit P ctx args s)
  unfolding file_edit
  file_edit-Edits args s =
      (with_path-Edits s _ (as_str (Json.get "path" args)) (as_int (Json.get "start_line" args))
          (as_int (Json.get "end_line" args)) (as_str (Json.get "new_content" args))).at
        s refl
