-- ===== src/Tests/Process.antt =====
-- The theorems on `main`, for a machine that has one events file, left by an earlier run.
use agentanvil.Prelude.{
  ℕ, ◌≡◌, ◌≢◌, refl, sym, ◌∙◌, ap, ◌⊎◌, inl, inr, String, Bool, true, false, Option, none, some,
  List, [], ◌∷◌, if◌then◌else◌,
}
use agentanvil.Prelude.Int.{pos}
use agentanvil.Python.Text.{Text, lit}
use agentanvil.Python.Json.{Json, obj, end}
use agentanvil.Python.Action.{Result, ok, raised}
use agentanvil.Python.Action.Rules.{After}
use agentanvil.Deterministic.Clock.{SystemClock}
use agentanvil.Events.Schema.{EventEnvelope}
use agentanvil.Platform.{Platform}
use agentanvil.Loop.Answers.{Dependable}
use agentanvil.Main.{Host, Process, main}
use agentanvil.Main.Options.{Given, arguments}
use agentanvil.Main.Opening.{Discards, events_path, NoTrace, Unfound, Traced}
use agentanvil.Main.Laws.{Recorded, Complete, Finished, main-trace, main-answers}
use agentanvil.Config.{AgentTaskSpec, ModelSpec}
use agentanvil.Main.Choices.{choose_provider}
use agentanvil.Main.Provider.{Asks, main-unknown_provider, main-offline}
use agentanvil.Tests.{reliable, reliable-Sound, logging, echo_task, braces, no_event}
use agentanvil.Tests.Events as Events

-- Its state tells whether the events file is there.
abbrev one_file : (EventEnvelope → Result Text) → (Text → Result EventEnvelope) → Platform
one_file dump validate = record (logging dump validate) {
  Machine = Bool;
  resolve = λ p m. ok p;
  exists = λ p m. ok m;
  is_file = λ p m. ok true;
  stat_size = λ p m. ok 0;
  read_bytes = λ p m. ok (123 ∷ 125 ∷ []);
  write_bytes = λ p bs m. (ok tt, m);
  make_dirs = λ p m. (ok tt, m);
  shell = λ c p t m. (raised (record { name = "OSError"; message = [] }), m);
  time = λ m. (ok 0, m);
}

abbrev noon : SystemClock
noon = record {
  now_at = λ n. record {
    year = 2026;
    month = 1;
    day = 15;
    hour = 12;
    minute = 0;
    second = 0;
    microsecond = 0;
  };
  monotonic_at = λ n. 7;
  reads = 0;
}

abbrev host : (EventEnvelope → Result Text) → (Text → Result EventEnvelope) → Given → Host
host dump validate given = record {
  platform = one_file dump validate;
  environ = λ name. none;
  basic_config = λ level. ok tt;
  parse_args = λ argv. ok given;
  unlink = λ p m. (ok tt, false);
  open_append = λ p m. (ok (if m then 123 ∷ 125 ∷ 10 ∷ [] else []), true);
  streams = reliable;
  clock = noon;
  safe_load = λ t. ok (obj end);
  type_name = λ j. [];
  model_validate = λ j. ok echo_task;
  show_blocks = λ bs. [];
  Float = Unit {0};
  Api = ℕ;
  parse_int = λ s. ok (pos 0);
  parse_float = λ s. ok tt;
  create = λ key k n. (raised (record { name = "APIError"; message = [] }), n);
}

abbrev with_provider : String → Given
with_provider name = record {
  task = none;
  trace_dir = none;
  workspace = none;
  task_id = some "t";
  provider = some name;
  echo_events = true;
}

host-Discards :
    (dump : EventEnvelope → Result Text) (validate : Text → Result EventEnvelope) (given : Given)
    → Discards
        (host dump validate given)
        (events_path (host dump validate given) (arguments (λ name. none) given))
host-Discards dump validate given = record {
  unlinked = λ m h. refl;
  made = λ m h. h;
  created = empty;
}
  where
    empty :
        (m : Bool) (t : Text)
        → ◌≡◌ {A = Result Bool} (ok m) (ok false)
        → ◌≡◌ {A = Result Text} (ok (if m then 123 ∷ 125 ∷ 10 ∷ [] else [])) (ok t)
        → t ≡ []
    empty true t h k = absurd (cc h)
    empty false t h k = cc k

-- The stamp of every event.
abbrev twelve : Text
twelve =
    50 ∷ 48 ∷ 50 ∷ 54 ∷ 45 ∷ 48 ∷ 49 ∷ 45 ∷ 49 ∷ 53 ∷ 84 ∷ 49 ∷ 50 ∷ 58 ∷ 48 ∷ 48 ∷ 58 ∷ 48 ∷ 48
    ∷ 46 ∷ 48 ∷ 48 ∷ 48 ∷ 90 ∷ []

abbrev table_host : Given → Host
table_host = host (Events.dump twelve (λ n. 7)) (Events.validate twelve (λ n. 7))

abbrev before : Process (table_host (with_provider "mock"))
before = record { machine = true; service = 0; stderr = []; trace = none }

main-trace_example :
    After
      (λ code t.
        ((code ≡ pos 1)
          × Unfound
              (table_host (with_provider "mock"))
              (arguments (λ name. none) (with_provider "mock"))
              t)
        ⊎ ((code ≡ pos 0)
            × Traced
                (table_host (with_provider "mock"))
                (Complete (table_host (with_provider "mock")) "t")
                t))
      (λ t.
        NoTrace (table_host (with_provider "mock")) t
        ⊎ Traced
            (table_host (with_provider "mock"))
            (Recorded (table_host (with_provider "mock")) "t")
            t)
      (main (table_host (with_provider "mock")) [] before)
unfolding arguments
main-trace_example =
    main-trace (table_host (with_provider "mock")) [] (with_provider "mock") refl
      (host-Discards _ _ (with_provider "mock")) (Events.table-IsJsonl twelve (λ n. 7))
      reliable-Sound before refl

-- The old file is discarded, and the run of the echo client is told to the end.
main_returns_0 : (main (table_host (with_provider "mock")) [] before).0 ≡ ok (pos 0)
unfolding main agentanvil.Main.Options.arguments agentanvil.Main.Options.is_truthy
    agentanvil.Main.read_text agentanvil.Main.read_api_key agentanvil.Main.load
    agentanvil.Main.discard_old agentanvil.Main.open_events agentanvil.Main.with_events
    agentanvil.Main.run_client agentanvil.Main.run_choice agentanvil.Main.run_task
    agentanvil.Main.ask agentanvil.Main.on_machine agentanvil.Main.with_arguments
    agentanvil.Main.Choices.make_client agentanvil.Main.Choices.choose_provider
    agentanvil.Main.Choices.choose_model agentanvil.Python.Utf8.scan
    agentanvil.Python.Utf8.decode_from agentanvil.Python.Utf8.decode agentanvil.Config.spec_of
    agentanvil.Config.load_task agentanvil.Python.Json.get agentanvil.Python.Action.try_finally
    agentanvil.Events.Writer.enter agentanvil.Events.Writer.exit agentanvil.Events.Writer.close
    agentanvil.Events.Writer.open_writer agentanvil.Deterministic.Clock.zero_padded
    agentanvil.Deterministic.Clock.iso_format agentanvil.Deterministic.Clock.system_now_iso
    agentanvil.Deterministic.Clock.system_monotonic_ns agentanvil.Python.FilePath.parse
    agentanvil.Python.FilePath.join agentanvil.Python.Text.show_ℕ
    agentanvil.Python.Text.Lines.translate_newlines_from
    agentanvil.Python.Text.Lines.translate_newlines agentanvil.Pricing.price_of
    agentanvil.Pricing.compute_cost agentanvil.Pricing.round_half_even
    agentanvil.Events.Writer.on_clock agentanvil.Events.Writer.set_step
    agentanvil.Events.Writer.write_line agentanvil.Events.Writer.write_file
    agentanvil.Events.Writer.write_echo agentanvil.Events.Writer.stamp agentanvil.Events.Writer.emit
    agentanvil.Python.Action.pure agentanvil.Python.Action.raise agentanvil.Python.Action.lift
    agentanvil.Python.Action.gets agentanvil.Python.Action.try_except
    agentanvil.Python.Action.modify agentanvil.Python.Action.◌>>=◌ agentanvil.Python.Action.on
    agentanvil.Python.Text.lit agentanvil.Python.Text.is_space agentanvil.Python.Text.lstrip
    agentanvil.Python.Text.rstrip_cons agentanvil.Python.Text.rstrip agentanvil.Python.Text.strip
    agentanvil.Python.Text.count_words agentanvil.Python.Text.Lines.drop_last
    agentanvil.Client.Mock.first_user agentanvil.Client.Mock.echo_response
    agentanvil.Client.Mock.echo_complete agentanvil.Tools.Registry.registry
    agentanvil.Tools.Registry.build_tools agentanvil.Loop.State.assistant_blocks
    agentanvil.Loop.State.build_assistant_message agentanvil.Loop.State.on_sandbox
    agentanvil.Loop.State.on_writer agentanvil.Loop.State.on_client agentanvil.Loop.State.assign
    agentanvil.Loop.State.emit agentanvil.Loop.State.monotonic_ns agentanvil.Loop.State.hash_request
    agentanvil.Loop.State.hash_response agentanvil.Loop.Run.round_ms agentanvil.Loop.Run.setup
    agentanvil.Loop.Run.set_outcome agentanvil.Loop.Run.again agentanvil.Loop.Run.round
    agentanvil.Loop.Run.while_steps agentanvil.Loop.Run.crash agentanvil.Loop.Run.guarded_loop
    agentanvil.Loop.Run.done_data agentanvil.Loop.Run.time agentanvil.Loop.Run.run
    agentanvil.Loop.Step.outcome_of agentanvil.Loop.Step.wants_tools
    agentanvil.Loop.Step.run_one_tool agentanvil.Loop.Step.request
    agentanvil.Loop.Step.append_message agentanvil.Loop.Step.add_totals
    agentanvil.Loop.Step.call_llm agentanvil.Loop.Step.end_step agentanvil.Loop.Step.finish_step
    agentanvil.Loop.Step.body agentanvil.Deterministic.Clock.next
    agentanvil.Deterministic.Clock.now_iso agentanvil.Deterministic.Clock.monotonic_ns
    agentanvil.Deterministic.Clock.tick agentanvil.Tools.Base.on_machine Events.dump
    agentanvil.Prelude.Tests.Bool-cases native.Mathlib.Decide.ℕ_discrete
main_returns_0 = refl

abbrev brace_host : Given → Host
brace_host = host braces no_event

braces-Dependable : Dependable (one_file braces no_event)
braces-Dependable = record { dumps = λ e. tt; tells_time = λ m. (0, refl) }

abbrev mock_host : Host
mock_host = brace_host (with_provider "mock")

abbrev process : Process mock_host
process = record { machine = true; service = 0; stderr = []; trace = none }

main-answers_example :
    After
      (λ code t.
        ((code ≡ pos 1) × Unfound mock_host (arguments (λ name. none) (with_provider "mock")) t)
        ⊎ ((code ≡ pos 0) × Traced mock_host (Finished mock_host [] (with_provider "mock") refl) t))
      (λ t. NoTrace mock_host t)
      (main mock_host [] process)
main-answers_example =
    main-answers mock_host [] (with_provider "mock") refl (host-Discards _ _ (with_provider "mock"))
      braces-Dependable reliable-Sound process refl

main-offline_example : (main mock_host [] process).1.service ≡ 0
unfolding arguments
main-offline_example = main-offline mock_host [] (with_provider "mock") refl refl process

-- Where nothing names a provider, it is `mock`; an empty option leaves the choice to the task.
unset_provider : choose_provider none echo_task ≡ "mock"
unfolding choose_provider
unset_provider = refl

-- The task's model names the provider, and the option and the variable are empty.
abbrev openai_model : ModelSpec
openai_model = record { provider = "openai"; name = "gpt"; api_key_secret_ref = none; params = [] }

abbrev openai_task : AgentTaskSpec
openai_task = record echo_task { model = some openai_model }

abbrev openai_host : Host
openai_host = record (brace_host (with_provider "")) { model_validate = λ j. ok openai_task }

abbrev asked : Process openai_host
asked = record { machine = true; service = 0; stderr = []; trace = none }

empty_provider : choose_provider (some "") openai_task ≡ "openai"
unfolding choose_provider
empty_provider = refl

openai-ne_mock : ◌≢◌ {A = String} "openai" "mock"
openai-ne_mock h = cc

openai-ne_anthropic : ◌≢◌ {A = String} "openai" "anthropic"
openai-ne_anthropic h = cc

same_task : {t u : AgentTaskSpec} → ◌≡◌ {A = Result AgentTaskSpec} (ok t) (ok u) → t ≡ u
same_task e = cc

openai-Asks : Asks openai_host (arguments (λ name. none) (with_provider "")) "openai" asked
unfolding arguments agentanvil.Main.load agentanvil.Main.ask agentanvil.Main.read_text
    agentanvil.Python.Action.lift agentanvil.Python.Action.◌>>=◌ agentanvil.Python.Utf8.scan
    agentanvil.Python.Utf8.decode_from agentanvil.Python.Utf8.decode agentanvil.Config.spec_of
    agentanvil.Config.load_task agentanvil.Python.Json.get
    agentanvil.Python.Text.Lines.translate_newlines_from
    agentanvil.Python.Text.Lines.translate_newlines agentanvil.Main.Options.is_truthy
    agentanvil.Python.Text.lit
openai-Asks =
    inr (
      inr refl,
      λ spec e. (openai_model, ap (λ t. AgentTaskSpec.model t) (sym (same_task e)), refl),
    )

main-unknown_provider_example :
    After
      (λ code t. (code ≡ pos 1) × (t.trace ≡ none))
      (λ t. t.trace ≡ none)
      (main openai_host [] asked)
main-unknown_provider_example =
    main-unknown_provider openai_host [] (with_provider "") refl "openai" asked openai-Asks
      openai-ne_mock openai-ne_anthropic refl
