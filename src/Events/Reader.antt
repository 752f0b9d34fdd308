-- ===== src/Events/Reader.antt =====
-- `read_events` of events.py.
pub mod Laws
use agentanvil.Prelude.{List, [], ◌∷◌, if◌then◌else◌}
use agentanvil.Python.Text.{Text, strip, is_empty}
use agentanvil.Python.Text.Lines.{split_lines, translate_newlines}
use agentanvil.Python.Action.{Result, ok, raised}
use agentanvil.Events.Schema.{EventEnvelope}

-- `json.loads` and `model_validate` are the parameter `validate`.
module _ (validate : Text → Result EventEnvelope) where
  unfoldable pub cons_result :
      Result EventEnvelope → Result (List EventEnvelope) → Result (List EventEnvelope)
  cons_result (ok e) (ok es) = ok (e ∷ es)
  cons_result (ok e) (raised x) = raised x
  cons_result (raised x) rest = raised x

  -- The loop over the lines; a blank line is passed over, and the first bad one raises.
  unfoldable pub read_lines : List Text → Result (List EventEnvelope)
  unfolding cons_result
  read_lines [] = ok []
  read_lines (line ∷ lines) =
      let rest = read_lines lines in
      let stripped = strip line in
      if is_empty stripped then rest else cons_result (validate stripped) rest

  -- A text file is read with its newlines translated, line by line. The piece that `split_lines`
  -- adds behind the last newline is blank.
  unfoldable pub read_events : Text → Result (List EventEnvelope)
  unfolding read_lines
  read_events file = read_lines (split_lines (translate_newlines file))
