-- ===== src/Tests.antt =====
-- A machine, clients and tasks on which the theorems and the definitions are run.
pub mod Events
pub mod Runs
pub mod Traces
pub mod Process
pub mod First
pub mod Files
pub mod Tools
use agentanvil.Prelude.{ℕ, String, ◌≡◌, refl, Bool, true, false, Option, none, some, List, [], ◌∷◌}
use agentanvil.Prelude.Int.{ℤ, pos}
use agentanvil.Python.Text.{Text, lit}
use agentanvil.Python.Json
use agentanvil.Python.Json.{Json, Fields, field, str, end}
use agentanvil.Python.FilePath.{FilePath}
use agentanvil.Python.Action.{Exn, Result, ok, raised}
use agentanvil.Deterministic.Clock.{replay, system}
use agentanvil.Events.Schema.{EventEnvelope, completed}
use agentanvil.Events.Writer.{EventWriter, Streams, sent, Sound}
use agentanvil.Client.Base.{LlmClient, LlmResponse, ToolUse}
use agentanvil.Client.Mock.{echo_client, scripted_client, Scripted}
use agentanvil.Config.{AgentTaskSpec, ModelSpec, ToolSpec}
use agentanvil.Platform.{Platform, timed_out}
use agentanvil.Loop.State.{LoopState, Locals}

-- A machine whose state is the list of the files that were written, the last one first.
abbrev pub logging : (EventEnvelope → Result Text) → (Text → Result EventEnvelope) → Platform
logging dump validate = record {
  Machine = List FilePath;
  resolve = λ p m. ok p;
  exists = λ p m. ok false;
  is_file = λ p m. ok false;
  stat_size = λ p m. ok 0;
  read_bytes = λ p m. ok [];
  write_bytes = λ p bs m. (ok tt, p ∷ m);
  make_dirs = λ p m. (ok tt, m);
  shell = λ c p t m. (ok timed_out, m);
  time = λ m. (ok 0, m);
  sha256 = λ bs. "00";
  canonical_json = λ j. [];
  dump = dump;
  validate = validate;
  encode_message = λ s. [];
  decode_message = λ bs. [];
  repr = λ j. [];
}

abbrev pub echo_client_ : LlmClient
echo_client_ = echo_client (λ bs. [])

-- `/ws`
abbrev pub workspace : FilePath
workspace = record { slashes = 1; parts = (119 ∷ 115 ∷ []) ∷ [] }

abbrev pub task : List ToolSpec → AgentTaskSpec
task tools = record {
  prompt = 104 ∷ 105 ∷ [];
  system_prompt = [];
  model = none;
  tools = tools;
  workspace = none;
  timeout_seconds = none;
  max_steps = some (pos 2);
  resources = none;
  checkpoint_policy = none;
  replay = none;
}

abbrev pub echo_task : AgentTaskSpec
echo_task = task []

-- Twenty recorded readings.
abbrev pub stamp : ℕ → Text × ℕ
stamp n = (50 ∷ [], n)

abbrev pub recorded : List (Text × ℕ)
recorded =
    stamp 1
    ∷ stamp 2
    ∷ stamp 3
    ∷ stamp 4
    ∷ stamp 5
    ∷ stamp 6
    ∷ stamp 7
    ∷ stamp 8
    ∷ stamp 9
    ∷ stamp 10
    ∷ stamp 11
    ∷ stamp 12
    ∷ stamp 13
    ∷ stamp 14
    ∷ stamp 15
    ∷ stamp 16
    ∷ stamp 17
    ∷ stamp 18
    ∷ stamp 19
    ∷ stamp 20
    ∷ []

-- Streams whose writes succeed.
abbrev pub reliable : Streams
reliable = record { file_at = λ n held text. sent; echo_at = λ n held text. sent }

abbrev pub reliable-Sound : Sound reliable
reliable-Sound = record { file_sent = λ n held text. refl; echo_sent = λ n held text. refl }

abbrev pub fresh_writer : EventWriter
fresh_writer = record {
  task_id = "t";
  clock = replay (record { pairs = recorded; idx = 0 });
  step = 0;
  streams = reliable;
  writes = 0;
  file = [];
  echo = none;
  closed = false;
  written = [];
}

-- A writer with the machine's clocks.
abbrev pub system_writer : EventWriter
system_writer = record fresh_writer {
  clock = system (record {
    now_at = λ n. record {
      year = 2026;
      month = 1;
      day = 1;
      hour = 0;
      minute = 0;
      second = n;
      microsecond = 0;
    };
    monotonic_at = λ n. n;
    reads = 0;
  });
}

abbrev pub no_locals : Locals
no_locals = record {
  messages = [];
  total_input_tokens = 0;
  total_output_tokens = 0;
  total_cost = 0;
  step = 0;
  outcome = completed;
}

abbrev pub start_with : (P : Platform) (C : LlmClient) → P.Machine → C.State → LoopState P C
start_with P C m c = record {
  sandbox = record { events = fresh_writer; machine = m };
  client = c;
  locals = no_locals;
}

-- `path` and `content` for `file_write`.
abbrev pub write_args : Fields
write_args =
    Json.field "path" (Json.str (97 ∷ [])) (Json.field "content" (Json.str (98 ∷ [])) Json.end)

-- A response that asks for a file and for a tool that no task has.
abbrev pub asking : LlmResponse
asking = record {
  text_blocks = [];
  tool_uses =
      record { id = "a"; name = "file_write"; input = write_args }
      ∷ record { id = "b"; name = "nope"; input = Json.end }
      ∷ [];
  stop_reason = "tool_use";
  input_tokens = 7;
  output_tokens = 5;
  response_id = "r1";
}

abbrev pub ending : LlmResponse
ending = record {
  text_blocks = (111 ∷ 107 ∷ []) ∷ [];
  tool_uses = [];
  stop_reason = "end_turn";
  input_tokens = 9;
  output_tokens = 2;
  response_id = "r2";
}

abbrev pub script : Scripted
script = record { responses = asking ∷ ending ∷ []; idx = 0 }

abbrev pub write_task : AgentTaskSpec
write_task = task (record { name = "file_write"; timeout_seconds = none } ∷ [])

-- Every event is dumped as `{}`.
abbrev pub braces : EventEnvelope → Result Text
braces e = ok (123 ∷ 125 ∷ [])

abbrev pub no_event : Text → Result EventEnvelope
no_event t = raised (record { name = "ValueError"; message = [] })

abbrev pub machine : Platform
machine = logging braces no_event

abbrev pub scripted_start : LoopState machine scripted_client
scripted_start = start_with machine scripted_client [] script
