-- ===== src/Main/Laws.antt =====
-- What `main` of __main__.py returns, and the trace that it leaves.
use agentanvil.Prelude.{
  ◌≡◌, refl, sym, ap, subst, ◌⊎◌, inl, inr, String, true, some, none, if◌then◌else◌, Bool, false,
  List, [], All, Option,
}
use agentanvil.Prelude.Int.{pos}
use agentanvil.Python.Text.{Text, lit}
use agentanvil.Python.FilePath.{parse}
use agentanvil.Python.Action.{Result, ok, raised}
use agentanvil.Python.Action.Rules.{After, Triple-weaken}
use agentanvil.Events.Schema.{AgentDone, EventEnvelope, schema}
use agentanvil.Events.Reader.{read_events}
use agentanvil.Events.Reader.Laws.{IsJsonl}
use agentanvil.Events.Writer.{EventWriter, Sound, open_writer, close}
use agentanvil.Client.Base.{LlmClient}
use agentanvil.Config.{AgentTaskSpec}
use agentanvil.Loop.State.{LoopState}
use agentanvil.Loop.Run.{run}
use agentanvil.Loop.Protocol.{finished}
use agentanvil.Loop.Protocol.Events.{At, Legal}
use agentanvil.Loop.Protocol.Run.{run-protocol}
use agentanvil.Loop.Jsonl.{run-jsonl}
use agentanvil.Loop.Answers.{Dependable, run-answers}
use agentanvil.Main.{Host, Process, main}
use agentanvil.Main.Options.{Given, arguments}
use agentanvil.Main.Opening.{Discards, events_path, NoTrace, Unfound, Traced}
use agentanvil.Main.Exit.{RunLeaves, Crashes, main-Exits}

module _ (H : Host) where
  open H use {platform, environ, parse_args}

  -- The closed file of one run: it reads back as the run's events, all of this task.
  pub record Recorded (task_id : String) (w : EventWriter) : Type 0 where
    pub closed : w.closed ≡ true
    pub read : read_events platform.validate w.file ≡ ok w.written
    pub legal : Legal w
    pub envelopes : All (λ e. (e.schema_ ≡ schema) × (e.task_id ≡ task_id)) w.written
    pub echoed : (w.echo ≡ none) ⊎ (w.echo ≡ some w.file)

  -- The file of a run that was finished.
  abbrev pub Complete : String → EventWriter → Type 0
  Complete task_id w = Recorded task_id w × At finished w

  echo_at_start :
      (b : Bool) (o : Option Text) → o ≡ (if b then some [] else none) → (o ≡ none) ⊎ (o ≡ some [])
  echo_at_start true o e = inr e
  echo_at_start false o e = inl e

  module _ (argv : List String) (given : Given) (parsed : parse_args argv ≡ ok given) where
    run-Recorded :
        IsJsonl platform.dump platform.validate
        → Sound H.streams
        → (spec : AgentTaskSpec)
        → RunLeaves H
            (arguments environ given)
            spec
            (Complete (arguments environ given).task_id)
            (Recorded (arguments environ given).task_id)
    unfolding open_writer close
    run-Recorded laws sound spec C s e =
        let args = arguments environ given in
        let (read, echoed, envelopes) =
          run-jsonl platform C args.task_id (parse (lit args.workspace)) spec laws s
            (subst Sound (sym (ap (λ (w : EventWriter). w.streams) e)) sound)
            (ap (λ (w : EventWriter). w.file) e) (ap (λ (w : EventWriter). w.written) e)
            (echo_at_start args.echo_events s.events.echo (ap (λ (w : EventWriter). w.echo) e)) in
        go C args.task_id (run platform C args.task_id (parse (lit args.workspace)) spec s)
          (run-protocol platform C args.task_id (parse (lit args.workspace)) spec s
            (ap (λ (w : EventWriter). w.written) e))
          read echoed
          (subst
            (λ id.
              All (λ (x : EventEnvelope). (x.schema_ ≡ schema) × (x.task_id ≡ id))
                (run platform C args.task_id (parse (lit args.workspace)) spec s).1.events.written)
            (ap (λ (w : EventWriter). w.task_id) e) envelopes)
      where
        go :
            (C : LlmClient) (task_id : String) (o : Result AgentDone × LoopState platform C)
            → After (λ d t. At finished t.events) (λ t. Legal t.events) o
            → read_events platform.validate o.1.events.file ≡ ok o.1.events.written
            → (o.1.events.echo ≡ none) ⊎ (o.1.events.echo ≡ some o.1.events.file)
            → All (λ e. (e.schema_ ≡ schema) × (e.task_id ≡ task_id)) o.1.events.written
            → After
                (λ d t. Complete task_id (close t.events).1)
                (λ t. Recorded task_id (close t.events).1)
                o
        go C task_id (ok d, t) p read echoed envelopes = (
          record {
            closed = refl;
            read = read;
            legal = (finished, p);
            envelopes = envelopes;
            echoed = echoed;
          },
          p,
        )
        go C task_id (raised x, t) p read echoed envelopes = record {
          closed = refl;
          read = read;
          legal = p;
          envelopes = envelopes;
          echoed = echoed;
        }

    -- Let the file system discard and open files as it should, events be dumped as JSON lines, and
    -- every write to the events file and to the standard output succeed. A call of `main` that
    -- returns has returned 1 without a run, as the task's path is no file, or 0 behind one; one
    -- that raises did so before the run or out of it. Where there was a run, its file is closed and
    -- holds that run alone, whatever stood there before: it reads back as the events of the run, in
    -- a legal order, each with the schema and the task id of the arguments, and an echo has shown
    -- the same. Behind exit code 0 they go on to `agent_done`.
    pub main-trace :
        Discards H (events_path H (arguments environ given))
        → IsJsonl platform.dump platform.validate
        → Sound H.streams
        → (s : Process H) → NoTrace H s
        → let id = (arguments environ given).task_id in
          After
            (λ code t.
              ((code ≡ pos 1) × Unfound H (arguments environ given) t)
              ⊎ ((code ≡ pos 0) × Traced H (Complete id) t))
            (λ t. NoTrace H t ⊎ Traced H (Recorded id) t)
            (main H argv s)
    main-trace files laws sound =
        (main-Exits H (arguments environ given) _ _ files (run-Recorded laws sound) argv given
          parsed refl).at

    -- The file of a finished run, by its events alone.
    abbrev pub Finished : EventWriter → Type 0
    Finished w = (w.closed ≡ true) × At finished w

    run-never_raises :
        Dependable platform
        → Sound H.streams
        → (spec : AgentTaskSpec) → RunLeaves H (arguments environ given) spec Finished (λ w. ⊥)
    unfolding open_writer close
    run-never_raises good sound spec C s e =
        let args = arguments environ given in
        let (d, t, ran, ends, ready) =
          run-answers platform C good args.task_id (parse (lit args.workspace)) spec s
            (record {
              open_ = ap (λ (w : EventWriter). w.closed) e;
              sound = subst Sound (sym (ap (λ (w : EventWriter). w.streams) e)) sound;
              clock = (H.clock, ap (λ (w : EventWriter). w.clock) e);
            })
            (ap (λ (w : EventWriter). w.written) e) in
        subst
          (After (λ (d : AgentDone) (t : LoopState platform C). Finished (close t.events).1)
            (λ t. ⊥))
          (sym ran) (refl, ends)

    -- Let the file system discard and open files as it should, every event be dumped, every write
    -- to the events file and to the standard output succeed, and the machine tell the time. Then an
    -- exception can leave `main` only before the run has started: once the events file is open,
    -- whatever the client and the tools do, `main` returns 0 and the file is closed behind a trace
    -- that goes on to `agent_done`. It returns 1 only where the task's path is no file.
    pub main-answers :
        Discards H (events_path H (arguments environ given))
        → Dependable platform
        → Sound H.streams
        → (s : Process H) → NoTrace H s
        → After
            (λ code t.
              ((code ≡ pos 1) × Unfound H (arguments environ given) t)
              ⊎ ((code ≡ pos 0) × Traced H Finished t))
            (λ t. NoTrace H t)
            (main H argv s)
    main-answers files good sound s h =
        (Triple-weaken
            (main-Exits H (arguments environ given) Finished (λ w. ⊥) files
              (run-never_raises good sound) argv given parsed refl)
            (λ s h. h) (λ code s h. h) no_crash).at
          s h
      where
        no_crash :
            (s : Process H) → Crashes H (arguments environ given) Finished (λ w. ⊥) s → NoTrace H s
        no_crash s (inl h) = h
        no_crash s (inr h) = absurd h.2
