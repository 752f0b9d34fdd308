-- ===== src/Tools/Safety.antt =====
-- What the tools of tools/ keep, from what their writes, commands and events keep.
use agentanvil.Prelude.{ℕ, ◌+◌, ltb, ◌&&◌, refl, Bool, true, false, not, Option, none, some, length}
use agentanvil.Python.Text.{Text, lit}
use agentanvil.Python.Utf8.{decode}
use agentanvil.Python.Json
use agentanvil.Python.Json.{Fields, PyInt, as_str, as_int}
use agentanvil.Prelude.Int.{pos_part}
use agentanvil.Python.Action.{Result, Action}
use agentanvil.Python.Action.Rules.{
  Keeps, Triple-bind, Triple-lift, Keeps-pure, Keeps-intro, Triple-if, Keeps-on,
}
use agentanvil.Python.FilePath.{FilePath}
use agentanvil.Platform.{Platform}
use agentanvil.Tools.Base.{
  ToolResult, ToolContext, Sandbox, on_machine, on_events, encoded, emit_file_mutation,
}
use agentanvil.Events.Schema.{FileMutation, mutation, file_mutation}
use agentanvil.Events.Writer.{EventWriter, emit}
use agentanvil.Tools.Base.Keeps.{ask-Keeps, run-Keeps, WritesKeep, after_resolve, with_path-Keeps}
use agentanvil.Tools.Bash.{bash, bash_arg}
use agentanvil.Tools.FileRead.{read_target, file_read, read_sized}
use agentanvil.Tools.FileWrite.{size_if_exists, write_target, write_arg, file_write}
use agentanvil.Tools.FileEdit.{
  content_lines, edited_text, store_edit, edit_text, edit_target, edit_range, edit_args, file_edit,
}
use agentanvil.Tools.WebSearch.{web_search}
use agentanvil.Tools.Registry.{
  Tool, ToolClass, bash_tool, file_read_tool, file_write_tool, file_edit_tool, web_search_tool,
  run_class, run_tool,
}

module _ (P : Platform) (I : Sandbox P → Type 0) where
  read_sized-Keeps : (args : Fields) (t : FilePath) (size : ℕ) → Keeps I (read_sized P args t size)
  unfolding read_sized
  read_sized-Keeps args t size =
      Triple-if _ (Keeps-pure _)
        (Triple-bind (ask-Keeps P I (P.read_bytes t)) λ bs. Triple-lift I _)

  read_target-Keeps :
      (args : Fields) (path_arg : Text) (t : FilePath) → Keeps I (read_target P args path_arg t)
  unfolding read_target
  read_target-Keeps args path_arg t = Triple-bind (ask-Keeps P I (P.exists t)) λ exists.
      Triple-if (not exists) (Keeps-pure _) (
        Triple-bind (ask-Keeps P I (P.is_file t)) λ is_file.
          Triple-if (not is_file) (Keeps-pure _)
            (Triple-bind (ask-Keeps P I (P.stat_size t)) λ size. read_sized-Keeps args t size))

  decoded_or :
      (o : Option Text) {m : Sandbox P → Result ToolResult × Sandbox P}
      {f : Text → Sandbox P → Result ToolResult × Sandbox P}
      → Keeps I m
      → ((text : Text) → Keeps I (f text))
      → Keeps I (elim o [ none ↦ m | some text ↦ f text ])
  decoded_or none bad good = bad
  decoded_or (some text) bad good = good text

  size_if_exists-Keeps : (b : Bool) (t : FilePath) → Keeps I (size_if_exists P b t)
  unfolding size_if_exists
  size_if_exists-Keeps true t = ask-Keeps P I (P.stat_size t)
  size_if_exists-Keeps false t = Keeps-pure _

  module _ (ctx : ToolContext) (Inside : FilePath → Type 0) (w : WritesKeep P I ctx Inside) where
    pub file_read-Keeps : (args : Fields) → Keeps I (file_read P ctx args)
    unfolding file_read
    file_read-Keeps args = with_path-Keeps P I _ _ _ λ path_arg.
        after_resolve P I w path_arg _ (Keeps-pure _) λ t inside. read_target-Keeps args path_arg t

    write_target-Keeps :
        (path_arg content : Text) (t : FilePath)
        → Inside t
        → Keeps I (write_target P ctx path_arg content t)
    unfolding write_target
    write_target-Keeps path_arg content t inside =
        Triple-bind (ask-Keeps P I (P.exists t)) λ existed.
          Triple-bind (size_if_exists-Keeps existed t) λ size.
            Triple-bind (ask-Keeps P I (P.exists t)) λ still.
              Triple-bind (w.make_dirs t inside) λ _.
                Triple-bind (Triple-lift I (encoded P content)) λ bs.
                  Triple-bind (w.write t bs inside)
                    λ _. Triple-bind (w.mutation t _ size (length bs) bs) λ _. Keeps-pure _

    write_arg-Keeps :
        (path_arg : Text) (content : Option Text) → Keeps I (write_arg P ctx path_arg content)
    unfolding write_arg
    write_arg-Keeps path_arg none = Keeps-pure _
    write_arg-Keeps path_arg (some content) =
        after_resolve P I w path_arg _ (Keeps-pure _) (write_target-Keeps path_arg content)

    pub file_write-Keeps : (args : Fields) → Keeps I (file_write P ctx args)
    unfolding file_write
    file_write-Keeps args =
        with_path-Keeps P I (lit "file_write: missing 'path'") (as_str (Json.get "path" args)) _
          λ path_arg. write_arg-Keeps path_arg (as_str (Json.get "content" args))

    store_edit-Keeps :
        (t : FilePath) (start end : PyInt) (n before : ℕ) (text : Text)
        → Inside t
        → Keeps I (store_edit P ctx t start end n before text)
    unfolding store_edit
    store_edit-Keeps t start end n before text inside =
        Triple-bind (Triple-lift I (encoded P text)) λ bs.
          Triple-bind (w.write t bs inside)
            λ _. Triple-bind (w.mutation t "edit" before (length bs) bs) λ _. Keeps-pure _

    edit_text-Keeps :
        (t : FilePath) (start end : PyInt) (new : Text) (before : ℕ) (text : Text)
        → Inside t
        → Keeps I (edit_text P ctx t start end new before text)
    unfolding edit_text
    edit_text-Keeps t start end new before text inside =
        let n = length (content_lines text) in
        let a = pos_part start.value in
        let b = pos_part end.value in
        Triple-if (ltb (n + 1) a) (Keeps-pure {I = I} _) (
          Triple-if (ltb n a && ltb b a) (Keeps-pure {I = I} _)
            (store_edit-Keeps t start end n before (edited_text text a b new) inside))

    edit_target-Keeps :
        (path_arg : Text) (start end : PyInt) (new : Text) (t : FilePath)
        → Inside t
        → Keeps I (edit_target P ctx path_arg start end new t)
    unfolding edit_target
    edit_target-Keeps path_arg start end new t inside =
        Triple-bind (ask-Keeps P I (P.exists t)) λ exists. Triple-if (not exists) (Keeps-pure _) (
          Triple-bind (ask-Keeps P I (P.read_bytes t)) λ bs.
            decoded_or (decode bs) (Keeps-pure _)
              (λ text. edit_text-Keeps t start end new (length bs) text inside))

    edit_range-Keeps :
        (path_arg : Text) (start end : PyInt) (new : Text)
        → Keeps I (edit_range P ctx path_arg start end new)
    unfolding edit_range
    edit_range-Keeps path_arg start end new =
        Triple-if _ (Keeps-pure _)
          (after_resolve P I w path_arg _ (Keeps-pure _) (edit_target-Keeps path_arg start end new))

    edit_args-Keeps :
        (path_arg : Text) (start end : Option PyInt) (new : Option Text)
        → Keeps I (edit_args P ctx path_arg start end new)
    unfolding edit_args
    edit_args-Keeps path_arg (some start) (some end) (some new) =
        edit_range-Keeps path_arg start end new
    edit_args-Keeps path_arg (some start) (some end) none = Keeps-pure _
    edit_args-Keeps path_arg (some start) none new = Keeps-pure _
    edit_args-Keeps path_arg none end new = Keeps-pure _

    pub file_edit-Keeps : (args : Fields) → Keeps I (file_edit P ctx args)
    unfolding file_edit
    file_edit-Keeps args =
        with_path-Keeps P I (lit "file_edit: missing 'path'") (as_str (Json.get "path" args)) _
          λ path_arg.
            edit_args-Keeps path_arg (as_int (Json.get "start_line" args))
              (as_int (Json.get "end_line" args)) (as_str (Json.get "new_content" args))

    pub web_search-Keeps : (args : Fields) → Keeps I (web_search P args)
    unfolding web_search
    web_search-Keeps args = Keeps-pure _

    module _
        (shell : (command : Text)
          → Keeps I (on_machine P (P.shell command ctx.workspace ctx.timeout_seconds))) where
      bash_arg-Keeps : (command : Option Text) → Keeps I (bash_arg P ctx command)
      unfolding bash_arg
      bash_arg-Keeps none = Keeps-pure _
      bash_arg-Keeps (some command) =
          Triple-if _ (Keeps-pure _) (Triple-bind (shell command) λ ended. Keeps-pure _)

      pub run_class-Keeps : (c : ToolClass) (args : Fields) → Keeps I (run_class P c ctx args)
      unfolding run_class bash
      run_class-Keeps bash_tool args = bash_arg-Keeps _
      run_class-Keeps file_read_tool args = file_read-Keeps args
      run_class-Keeps file_write_tool args = file_write-Keeps args
      run_class-Keeps file_edit_tool args = file_edit-Keeps args
      run_class-Keeps web_search_tool args = web_search-Keeps args

-- A tool keeps a property of the trace that file_mutation events keep.
module _ (P : Platform) (J : EventWriter → Type 0) where
  abbrev OnEvents : Sandbox P → Type 0
  OnEvents b = J b.events

  on_machine-OnEvents : {A : Type 0} (m : Action P.Machine A) → Keeps OnEvents (on_machine P m)
  unfolding on_machine
  on_machine-OnEvents m = Keeps-intro λ b h. h

  module _
      (mutated : (m : FileMutation) → Keeps J (emit P.dump file_mutation (some (mutation m)))) where
    writes-OnEvents : (ctx : ToolContext) → WritesKeep P OnEvents ctx (λ t. Unit {0})
    unfolding emit_file_mutation on_events
    writes-OnEvents ctx = record {
      admits = λ s t h e. tt;
      write = λ t bs i. on_machine-OnEvents _;
      make_dirs = λ t i. on_machine-OnEvents _;
      mutation = λ t operation before after bs.
          Keeps-on (λ b. b.events) (λ w b. record b { events = w }) (λ w b. refl) (mutated _);
    }

    pub run_tool-OnEvents : (t : Tool) (args : Fields) → Keeps OnEvents (run_tool P t args)
    unfolding run_tool
    run_tool-OnEvents t args = run-Keeps P OnEvents (
        run_class-Keeps P OnEvents t.ctx (λ t. Unit) (writes-OnEvents t.ctx)
          (λ command. on_machine-OnEvents _) t.cls args)
