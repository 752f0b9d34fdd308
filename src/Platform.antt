-- ===== src/Platform.antt =====
-- What the SDK takes from the operating system and from third-party packages, as parameters.
use agentanvil.Prelude.{ℕ, String, Bool}
use agentanvil.Prelude.Int.{ℤ}
use agentanvil.Python.Text.{Text}
use agentanvil.Python.Json.{Json}
use agentanvil.Python.Utf8.{Bytes}
use agentanvil.Python.Action.{Result, Action}
use agentanvil.Python.FilePath.{FilePath}
use agentanvil.Events.Schema.{EventEnvelope}

-- How `subprocess.run` ends, other exceptions apart.
pub data Shell : Type 0 where
  completed : Text → Text → ℤ → Shell
  timed_out : Shell
  not_found : Text → Shell

pub record Platform : Type 1 where
  -- the file system and the rest of the machine
  pub Machine : Type 0
  pub resolve : FilePath → Machine → Result FilePath
  pub exists : FilePath → Machine → Result Bool
  pub is_file : FilePath → Machine → Result Bool
  pub stat_size : FilePath → Machine → Result ℕ
  pub read_bytes : FilePath → Machine → Result Bytes
  pub write_bytes : FilePath → Bytes → Action Machine (Unit {0})
  -- `mkdir(parents=True, exist_ok=True)`
  pub make_dirs : FilePath → Action Machine (Unit {0})
  -- a command, the directory that it runs in, and its timeout in seconds
  pub shell : Text → FilePath → ℤ → Action Machine Shell
  -- `time.time()` in microseconds
  pub time : Action Machine ℕ
  -- the hexadecimal digest
  pub sha256 : Bytes → String
  -- `_canonical_json` of loop.py: `json.dumps` with sorted keys and without spaces, encoded
  pub canonical_json : Json → Bytes
  -- `model_dump_json`, and `json.loads` with `model_validate`
  pub dump : EventEnvelope → Result Text
  pub validate : Text → Result EventEnvelope
  -- `str` of the codec's exceptions, `repr` of a JSON value
  pub encode_message : Text → Text
  pub decode_message : Bytes → Text
  pub repr : Json → Text
