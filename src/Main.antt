-- ===== src/Main.antt =====
-- `main` of __main__.py: the task, the provider and its key, the directories, the client, and the
-- run between the opening and the closing of the events file.
pub mod Opening
pub mod Exit
pub mod Laws
pub mod Provider
pub mod Options
pub mod Choices
use agentanvil.Prelude.{
  String, Bool, true, false, Option, none, some, List, ◌++◌, ◌∷◌, [], str_eq, if◌then◌else◌,
}
use agentanvil.Prelude.Int.{ℤ, pos}
use agentanvil.Python.Text.{Text, lit, strip}
use agentanvil.Python.Text.Lines.{translate_newlines}
use agentanvil.Python.Utf8.{Bytes, decode}
use agentanvil.Python.Json.{Json}
use agentanvil.Python.FilePath.{FilePath, parse, join, parent, show}
use agentanvil.Python.Action.{
  Exn, Result, ok, raised, Action, pure, lift, modify, on, try_finally, ◌>>=◌, ◌>>◌,
}
use agentanvil.Deterministic.Clock.{SystemClock, system}
use agentanvil.Events.Schema.{AgentDone}
use agentanvil.Events.Writer.{EventWriter, Streams, open_writer, enter, exit}
use agentanvil.Client.Base.{LlmClient, Block}
use agentanvil.Client.Mock.{echo_client}
use agentanvil.Client.Anthropic.{Kwargs, Reply, choose_key, anthropic_client}
use agentanvil.Config.{AgentTaskSpec, ModelSpec, load_task}
use agentanvil.Platform.{Platform}
use agentanvil.Loop.State.{LoopState, LoopAction, on_writer}
use agentanvil.Loop.Run.{initial, run}
use agentanvil.Main.Choices.{
  ClientChoice, echo, anthropic, make_client, choose_provider, choose_model,
}
use agentanvil.Main.Options.{Given, Arguments, arguments, get_or}

-- What `main` takes from the process and from third-party packages.
pub record Host : Type 1 where
  pub platform : Platform
  pub open platform use {Machine}
  -- `os.environ.get`, `logging.basicConfig` at a level, and `argparse`
  pub environ : String → Option String
  pub basic_config : String → Result (Unit {0})
  pub parse_args : List String → Result Given
  pub unlink : FilePath → Action Machine (Unit {0})
  -- `open("a")`, with the text that the file has already
  pub open_append : FilePath → Action Machine Text
  -- how the writes to the events file and to the standard output end
  pub streams : Streams
  -- what a new `SystemClock` reads
  pub clock : SystemClock
  -- `yaml.safe_load`, the name of a value's type, and `AgentTaskSpec.model_validate`
  pub safe_load : Text → Result Json
  pub type_name : Json → Text
  pub model_validate : Json → Result AgentTaskSpec
  -- `str` of a list of content blocks
  pub show_blocks : List Block → Text
  -- Python's floats and conversions, and the `anthropic` package with its key
  pub Float : Type 0
  pub Api : Type 0
  pub parse_int : String → Result ℤ
  pub parse_float : String → Result Float
  pub create : Text → Kwargs Float → Action Api Reply

module _ (H : Host) where
  open H use {
    platform, Machine, environ, basic_config, parse_args, unlink, open_append, streams, clock,
    safe_load, type_name, model_validate, show_blocks, Float, Api, parse_int, parse_float, create,
  }

  -- `trace` is the writer that the run has left, if there was one.
  pub record Process : Type 0 where
    pub machine : Machine
    pub service : Api
    pub stderr : Text
    pub trace : Option EventWriter

  abbrev pub MainAction : Type 0 → Type 0
  MainAction A = Action Process A

  unfoldable pub on_machine : {A : Type 0} → Action Machine A → MainAction A
  unfolding on
  on_machine = on (λ s. s.machine) (λ m s. record s { machine = m })

  unfoldable pub ask : {A : Type 0} → (Machine → Result A) → MainAction A
  ask q s = (q s.machine, s)

  -- `Path.read_text(encoding="utf-8")`
  unfoldable pub read_text : FilePath → Machine → Result Text
  read_text p m = elim (platform.read_bytes p m) [
    | raised e ↦ raised e
    | ok bs ↦ elim (decode bs) [
      | none ↦ raised (record { name = "UnicodeDecodeError"; message = platform.decode_message bs })
      | some s ↦ ok (translate_newlines s)
    ]
  ]

  abbrev pub environment_key : Option Text
  environment_key = elim (environ "ANTHROPIC_API_KEY") [ none ↦ none | some s ↦ some (lit s) ]

  -- `_read_api_key`
  unfoldable pub read_api_key : Option String → MainAction (Option Text)
  unfolding ask read_text
  read_api_key none = pure environment_key
  read_api_key (some api_key_file) = if str_eq api_key_file "" then pure environment_key else (do
    found ← ask (platform.is_file (parse (lit api_key_file)))
    if found
        then (do s ← ask (read_text (parse (lit api_key_file))); pure (some (strip s)))
        else pure environment_key)

  -- `load_task(task_path)`
  unfoldable pub load : FilePath → MainAction AgentTaskSpec
  unfolding ask read_text
  load p = do file ← ask (read_text p); lift (load_task safe_load type_name model_validate file)

  -- `if events_path.exists(): events_path.unlink()`
  unfoldable pub discard_old : FilePath → MainAction (Unit {0})
  unfolding ask on_machine
  discard_old p = do
    present ← ask (platform.exists p)
    if present then on_machine (unlink p) else pure tt

  -- `EventWriter(events_path, ...)`
  unfoldable pub open_events : FilePath → Arguments → MainAction EventWriter
  unfolding on_machine
  open_events p args = do
    on_machine (platform.make_dirs (parent p))
    existing ← on_machine (open_append p)
    pure (open_writer streams existing args.task_id (system clock) args.echo_events)

  -- The body of the `with`, and `__exit__` whichever way it ends.
  unfoldable pub with_events :
      (C : LlmClient) → String → FilePath → AgentTaskSpec → LoopAction platform C AgentDone
  with_events C task_id workspace spec = do
    on_writer platform C enter
    try_finally (run platform C task_id workspace spec) (on_writer platform C exit)

  -- The runtime shares the writer and the machine with the client that is built.
  unfoldable pub run_client :
      (C : LlmClient) (get : Process → C.State) (put : C.State → Process → Process)
      → Arguments
      → AgentTaskSpec
      → EventWriter
      → MainAction AgentDone
  unfolding with_events
  run_client C get put args spec w s =
      let (r, t) = with_events C args.task_id (parse (lit args.workspace)) spec (record {
        sandbox = record { events = w; machine = s.machine };
        client = get s;
        locals = initial platform C spec.prompt;
      }) in
      (r, put t.client (record s { machine = t.machine; trace = some t.events }))

  unfoldable pub run_choice :
      ClientChoice → Arguments → AgentTaskSpec → EventWriter → MainAction AgentDone
  unfolding run_client
  run_choice echo args spec w =
      run_client (echo_client show_blocks) (λ s. tt) (λ c s. s) args spec w
  run_choice (anthropic model key) args spec w =
      run_client (anthropic_client parse_int parse_float (create key) model) (λ s. s.service)
        (λ c s. record s { service = c }) args spec w

  -- From `load_task` to `return 0`.
  unfoldable pub run_task : Arguments → FilePath → MainAction ℤ
  unfolding load read_api_key discard_old open_events run_choice make_client choose_provider
      choose_model
  run_task args task_path = do
    spec ← load task_path
    api_key ← read_api_key (environ "AGENT_ANVIL_API_KEY_FILE")
    on_machine (platform.make_dirs (parse (lit args.workspace)))
    on_machine (platform.make_dirs (parse (lit args.trace_dir)))
    let events_path = join (parse (lit args.trace_dir)) (lit "events.jsonl")
    discard_old events_path
    choice ← lift (
        make_client environment_key (choose_provider args.provider spec) (choose_model spec)
          api_key)
    events ← open_events events_path args
    run_choice choice args spec events
    pure (pos 0)

  -- The message on the standard error, and `return 1`.
  unfoldable pub report_missing : FilePath → MainAction ℤ
  report_missing p = do
    modify (λ s. record s { stderr = s.stderr ++ lit "task.yaml not found: " ++ show p ++ 10 ∷ [] })
    pure (pos 1)

  -- From the test of the task's path.
  unfoldable pub with_arguments : Arguments → MainAction ℤ
  unfolding run_task report_missing
  with_arguments args = do
    found ← ask (platform.is_file (parse (lit args.task)))
    if found then run_task args (parse (lit args.task)) else report_missing (parse (lit args.task))

  unfoldable pub main : List String → MainAction ℤ
  unfolding with_arguments
  main argv = do
    lift (basic_config (get_or "INFO" (environ "AGENT_ANVIL_LOG_LEVEL")))
    given ← lift (parse_args argv)
    with_arguments (arguments environ given)
