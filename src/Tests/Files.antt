-- ===== src/Tests/Files.antt =====
-- The theorems on the file tools, at concrete machines and arguments.
use agentanvil.Prelude.{◌⊎◌, Bool, true, not, false, ◌≡◌, refl, [], ◌∷◌, arith, length}
use agentanvil.Prelude.Int.{pos}
use agentanvil.Python.Text.{Text}
use agentanvil.Python.Text.Lines.{drop_last, join_lines, split_lines, ends_with_newline}
use agentanvil.Python.Utf8.{Bytes, encode, encode_char}
use agentanvil.Python.Json
use agentanvil.Python.Json.{Json, Fields, field, int, end, py_int, as_str, as_int}
use agentanvil.Python.Action.{Result, ok, raised, pure}
use agentanvil.Platform.{timed_out}
use agentanvil.Tools.Base.{ToolResult, ToolContext, Sandbox, success, run}
use agentanvil.Platform.{Platform}
use agentanvil.Python.Action.Rules.{After}
use agentanvil.Tools.FileWrite.{file_write}
use agentanvil.Tools.FileWrite.Effects.{Writes, file_write-Writes}
use agentanvil.Tools.FileEdit.Effects.{Edits, file_edit-Edits}
use agentanvil.Tools.FileRead.{file_read}
use agentanvil.Tools.FileRead.Effects.{Reads, file_read-Reads}
use agentanvil.Tools.FileEdit.{file_edit, content_lines, new_lines, edited_text}
use agentanvil.Tools.FileRead.{read_lines}
use agentanvil.Tests.{braces, no_event, write_args, machine, fresh_writer}
use agentanvil.Tools.Handover.{KeepsFiles, file_read-file_write}
use agentanvil.Python.Text.Lines.{splitlines, translate_newlines}
use agentanvil.Tests.Tools.{context, sandbox}

-- A machine on which every path names a file of one line, "a\n".
abbrev with_file : Platform
with_file = record machine {
  exists = λ p m. ok true;
  is_file = λ p m. ok true;
  stat_size = λ p m. ok 2;
  read_bytes = λ p m. ok (97 ∷ 10 ∷ []);
}

abbrev edit_args : Fields
edit_args = field "path" (Json.str (97 ∷ [])) (
    field "start_line" (int (pos 1))
      (field "end_line" (int (pos 1)) (field "new_content" (Json.str (98 ∷ [])) end)))

abbrev on_file : Sandbox with_file
on_file = record { events = fresh_writer; machine = [] }

file_write-Writes_example :
    After
      (λ r t.
        Writes machine
          (context (pos 60))
          (as_str (Json.get "path" write_args))
          (as_str (Json.get "content" write_args))
          sandbox
          r
          t)
      (λ t. Unit)
      (file_write machine (context (pos 60)) write_args sandbox)
file_write-Writes_example = file_write-Writes machine (context (pos 60)) write_args sandbox

file_edit-Edits_example :
    After
      (λ r t.
        Edits with_file
          (context (pos 60))
          (as_str (Json.get "path" edit_args))
          (as_int (Json.get "start_line" edit_args))
          (as_int (Json.get "end_line" edit_args))
          (as_str (Json.get "new_content" edit_args))
          on_file
          r
          t)
      (λ t. Unit)
      (file_edit with_file (context (pos 60)) edit_args on_file)
file_edit-Edits_example = file_edit-Edits with_file (context (pos 60)) edit_args on_file

file_read-Reads_example :
    After
      (λ r t.
        Reads with_file
          (context (pos 60))
          edit_args
          (as_str (Json.get "path" edit_args))
          on_file
          r
          t)
      (λ t. Unit)
      (file_read with_file (context (pos 60)) edit_args on_file)
file_read-Reads_example = file_read-Reads with_file (context (pos 60)) edit_args on_file

-- Did it return without an error?
abbrev succeeded : {S : Type 0} → Result ToolResult × S → Bool
succeeded (ok r, s) = not r.is_error
succeeded (raised e, s) = false

edit_succeeds : succeeded (file_edit with_file (context (pos 60)) edit_args on_file) ≡ true
unfolding pure agentanvil.Python.Action.◌>>=◌ agentanvil.Python.Action.lift
    agentanvil.Python.Action.on agentanvil.Python.Action.gets agentanvil.Python.Action.modify
    agentanvil.Python.Action.raise Json.get agentanvil.Python.Text.lit agentanvil.Python.Text.show_ℕ
    agentanvil.Python.Text.show_ℤ split_lines join_lines ends_with_newline drop_last encode_char
    encode agentanvil.Python.Utf8.scan agentanvil.Python.Utf8.decode_from
    agentanvil.Python.Utf8.decode agentanvil.Python.FilePath.parse agentanvil.Python.FilePath.join
    agentanvil.Python.FilePath.text_eq agentanvil.Python.FilePath.strip_prefix
    agentanvil.Python.FilePath.relative_to agentanvil.Python.FilePath.show
    agentanvil.Tools.Base.refusal success agentanvil.Tools.Base.is_value_error
    agentanvil.Tools.Base.on_machine agentanvil.Tools.Base.ask agentanvil.Tools.Base.on_events
    agentanvil.Tools.Base.encoded agentanvil.Tools.Base.sha256_bytes
    agentanvil.Tools.Base.emit_file_mutation agentanvil.Tools.Base.within
    agentanvil.Tools.Base.resolve_inside agentanvil.Tools.Base.with_path content_lines new_lines
    agentanvil.Tools.FileEdit.splice edited_text agentanvil.Tools.FileEdit.store_edit
    agentanvil.Tools.FileEdit.edit_text agentanvil.Tools.FileEdit.edit_target
    agentanvil.Tools.FileEdit.is_bad_range agentanvil.Tools.FileEdit.edit_range
    agentanvil.Tools.FileEdit.edit_args file_edit agentanvil.Events.Writer.stamp
    agentanvil.Events.Writer.write_line agentanvil.Events.Writer.write_file
    agentanvil.Events.Writer.write_echo agentanvil.Events.Writer.emit
    agentanvil.Deterministic.Clock.now agentanvil.Deterministic.Clock.now_iso
    agentanvil.Deterministic.Clock.monotonic_ns agentanvil.Deterministic.Clock.tick
edit_succeeds = refl

-- A disk of one file, which every path names.
abbrev disk : Platform
disk = record {
  Machine = Bytes;
  resolve = λ p m. ok p;
  exists = λ p m. ok true;
  is_file = λ p m. ok true;
  stat_size = λ p m. ok (length m);
  read_bytes = λ p m. ok m;
  write_bytes = λ p bs m. (ok tt, bs);
  make_dirs = λ p m. (ok tt, m);
  shell = λ c p t m. (ok timed_out, m);
  time = λ m. (ok 0, m);
  sha256 = λ bs. "00";
  canonical_json = λ j. [];
  dump = braces;
  validate = no_event;
  encode_message = λ s. [];
  decode_message = λ bs. [];
  repr = λ j. [];
}

disk-KeepsFiles : KeepsFiles disk
disk-KeepsFiles = record {
  held = λ target bs m h. record {
    exists = refl;
    is_file = refl;
    stat_size = refl;
    read_bytes = refl;
  };
  after_write = λ p target bs m. refl;
  after_dirs = λ p d m. refl;
}

abbrev read_args : Fields
read_args = field "path" (Json.str (97 ∷ [])) end

abbrev on_disk : Sandbox disk
on_disk = record { events = fresh_writer; machine = [] }

file_read-file_write_example :
    After
      (λ r t.
        (r.is_error ≡ true)
        ⊎ (file_read disk (context (pos 60)) read_args t
            ≡ (read_lines read_args (splitlines (translate_newlines (98 ∷ []))), t)))
      (λ t. Unit)
      (file_write disk (context (pos 60)) write_args on_disk)
unfolding Json.get encode encode_char
file_read-file_write_example =
    file_read-file_write disk disk-KeepsFiles (context (pos 60)) write_args read_args on_disk
      (97 ∷ []) (98 ∷ []) (98 ∷ []) refl refl refl refl refl (omega arith)
