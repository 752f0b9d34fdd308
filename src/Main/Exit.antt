-- ===== src/Main/Exit.antt =====
-- `main` of __main__.py as a whole, from what the run between the opening and the closing leaves.
use agentanvil.Prelude.{
  ◌≡◌, refl, sym, subst, ◌⊎◌, inl, inr, String, Bool, true, false, some, List, if◌then◌else◌,
}
use agentanvil.Prelude.Int.{ℤ, pos}
use agentanvil.Python.Text.{lit}
use agentanvil.Python.FilePath.{FilePath, parse}
use agentanvil.Python.Action.{Result, ok, raised, pure, modify, try_finally, ◌>>=◌, ◌>>◌}
use agentanvil.Python.Action.Rules.{
  After, Triple, Triple-bind, Triple-pure, Triple-weaken, Triple-lift, Keeps, Keeps-intro,
}
use agentanvil.Events.Schema.{AgentDone}
use agentanvil.Events.Writer.{EventWriter, enter, exit, close}
use agentanvil.Client.Base.{LlmClient}
use agentanvil.Client.Mock.{echo_client}
use agentanvil.Client.Anthropic.{anthropic_client}
use agentanvil.Config.{AgentTaskSpec}
use agentanvil.Loop.State.{LoopState, on_writer}
use agentanvil.Loop.Run.{run}
use agentanvil.Main.{
  Host, Process, MainAction, open_events, with_events, run_client, run_choice, run_task,
  report_missing, with_arguments, main,
}
use agentanvil.Main.Choices.{ClientChoice, echo, anthropic}
use agentanvil.Main.Options.{Given, Arguments, arguments}
use agentanvil.Main.Opening.{
  Discards, events_path, fresh_writer, NoTrace, Unfound, Traced, ask-Triple, main-Triple,
  machine-NoTrace, load-Keeps, read_api_key-Keeps, Cleared, discard_old-Cleared, open_events-fresh,
}

module _ (H : Host) where
  open H use {platform, environ, parse_args, show_blocks, parse_int, parse_float, create}

  -- What a run has to say of the writer that is closed behind it: `R` when it returns, and `X`
  -- when it raises.
  module _ (args : Arguments) (spec : AgentTaskSpec) (R X : EventWriter → Type 0) where
    abbrev pub RunLeaves : Type 1
    RunLeaves =
        (C : LlmClient) (s : LoopState platform C)
        → s.events ≡ fresh_writer H args
        → After (λ (d : AgentDone) (t : LoopState platform C). R (close t.events).1)
            (λ t. X (close t.events).1)
            (run platform C args.task_id (parse (lit args.workspace)) spec s)

    module _ (leaves : RunLeaves) where
      with_events-closed :
          (C : LlmClient) (s : LoopState platform C)
          → s.events ≡ fresh_writer H args
          → After
              (λ d t. R t.events)
              (λ t. X t.events)
              (with_events H C args.task_id (parse (lit args.workspace)) spec s)
      unfolding with_events ◌>>=◌ try_finally on_writer enter exit
      with_events-closed C s e =
          go (run platform C args.task_id (parse (lit args.workspace)) spec s) (leaves C s e)
        where
          go :
              (o : Result AgentDone × LoopState platform C)
              → After (λ d t. R (close t.events).1) (λ t. X (close t.events).1) o
              → After
                  (λ d t. R t.events)
                  (λ t. X t.events)
                  (
                    o.0,
                    record o.1 {
                      sandbox = record (LoopState.sandbox o.1) { events = (close o.1.events).1 };
                    },
                  )
          go (ok d, t) h = h
          go (raised x, t) h = h

      run_client-Traced :
          (C : LlmClient) (get : Process H → C.State) (put : C.State → Process H → Process H)
          → ((c : C.State) (s : Process H) → (put c s).trace ≡ s.trace)
          → (w : EventWriter) → w ≡ fresh_writer H args
          → Triple (NoTrace H) (run_client H C get put args spec w) (λ d. Traced H R) (Traced H X)
      unfolding run_client
      run_client-Traced C get put kept w e = record {
        at = λ s h. go s _ (with_events-closed C _ e);
      }
        where
          go :
              (s : Process H) (o : Result AgentDone × LoopState platform C)
              → After (λ d t. R t.events) (λ t. X t.events) o
              → After
                  (λ (d : AgentDone). Traced H R)
                  (Traced H X)
                  (
                    o.0,
                    put o.1.client (record s { machine = o.1.machine; trace = some o.1.events }),
                  )
          go s (ok d, t) h = (t.events, kept _ _, h)
          go s (raised x, t) h = (t.events, kept _ _, h)

      run_choice-Traced :
          (choice : ClientChoice) (w : EventWriter)
          → w ≡ fresh_writer H args
          → Triple (NoTrace H) (run_choice H choice args spec w) (λ d. Traced H R) (Traced H X)
      unfolding run_choice
      run_choice-Traced echo w e =
          run_client-Traced (echo_client show_blocks) (λ s. tt) (λ c s. s) (λ c s. refl) w e
      run_choice-Traced (anthropic model key) w e =
          run_client-Traced (anthropic_client parse_int parse_float (create key) model)
            (λ s. s.service) (λ c s. record s { service = c }) (λ c s. refl) w e

  -- How `main` may end for these arguments.
  module _ (args : Arguments) (R X : EventWriter → Type 0) where
    abbrev pub Exits : ℤ → Process H → Type 0
    Exits code s = ((code ≡ pos 1) × Unfound H args s) ⊎ ((code ≡ pos 0) × Traced H R s)

    abbrev pub Crashes : Process H → Type 0
    Crashes s = NoTrace H s ⊎ Traced H X s

    module _ (files : Discards H (events_path H args))
        (leaves : (spec : AgentTaskSpec) → RunLeaves args spec R X) where
      -- A step before the run that keeps the process free of a trace.
      early :
          {A : Type 0} {m : MainAction H A} {Q : A → Process H → Type 0}
          → Triple (NoTrace H) m Q (NoTrace H)
          → Triple (NoTrace H) m Q Crashes
      early t = Triple-weaken t (λ s h. h) (λ a s h. h) (λ s h. inl h)

      open_and_run :
          (choice : ClientChoice) (spec : AgentTaskSpec)
          → Triple
              (Cleared H (events_path H args) files)
              (do
                events ← open_events H (events_path H args) args
                run_choice H choice args spec events
                pure (pos 0))
              Exits
              Crashes
      open_and_run choice spec =
          Triple-bind
            (Triple-weaken (open_events-fresh H (events_path H args) files args) (λ s h. h)
              (λ w s h. h) (λ s h. inl h))
            λ w. record {
              at = λ s h.
                  (Triple-bind
                      (Triple-weaken (run_choice-Traced args spec R X (leaves spec) choice w h.0)
                        (λ s h. h) (λ d s h. h) (λ s h. inr h))
                      λ d.
                        Triple-weaken (Triple-pure Exits Crashes (pos 0)) (λ s h. inr (refl, h))
                          (λ a s h. h) (λ s h. h)).at
                    s h.1;
            }

      run_task-Exits : (p : FilePath) → Triple (NoTrace H) (run_task H args p) Exits Crashes
      unfolding run_task
      run_task-Exits p = Triple-bind (early (load-Keeps H p)) λ spec.
          Triple-bind (early (read_api_key-Keeps H (environ "AGENT_ANVIL_API_KEY_FILE"))) λ key.
            Triple-bind (early (machine-NoTrace H _)) λ a.
              Triple-bind (early (machine-NoTrace H _)) λ b.
                Triple-bind (early (discard_old-Cleared H (events_path H args) files)) λ c.
                  Triple-bind
                    (Triple-weaken (Triple-lift (Cleared H (events_path H args) files) _) (λ s h. h)
                      (λ a s h. h) (λ s h. inl h.0))
                    λ choice. open_and_run choice spec

      report_missing-Exits :
          Triple (Unfound H args) (report_missing H (parse (lit args.task))) Exits Crashes
      unfolding report_missing modify
      report_missing-Exits =
          Triple-bind
            (Triple-weaken (modify-Unfound _ (λ s h. h)) (λ s h. h) (λ a s h. h) (λ s h. inl h.0))
            λ a.
              Triple-weaken (Triple-pure Exits Crashes (pos 1)) (λ s h. inl (refl, h)) (λ a s h. h)
                (λ s h. h)
        where
          modify-Unfound :
              (f : Process H → Process H)
              → ((s : Process H) → Unfound H args s → Unfound H args (f s))
              → Keeps (Unfound H args) (modify f)
          modify-Unfound f k = Keeps-intro k

      with_arguments-Exits : Triple (NoTrace H) (with_arguments H args) Exits Crashes
      unfolding with_arguments
      with_arguments-Exits = Triple-bind (early (ask-Triple H _)) by_test
        where
          by_test :
              (found : Bool)
              → Triple
                  (λ s.
                    (platform.is_file (parse (lit args.task)) s.machine ≡ ok found) × NoTrace H s)
                  (if found
                    then run_task H args (parse (lit args.task))
                    else report_missing H (parse (lit args.task)))
                  Exits
                  Crashes
          by_test true = Triple-weaken (run_task-Exits _) (λ s h. h.1) (λ c s h. h) (λ s h. h)
          by_test false =
              Triple-weaken report_missing-Exits (λ s h. (h.1, h.0)) (λ c s h. h) (λ s h. h)

      pub main-Exits :
          (argv : List String) (given : Given)
          → parse_args argv ≡ ok given
          → arguments environ given ≡ args
          → Triple (NoTrace H) (main H argv) Exits Crashes
      main-Exits argv given parsed same =
          main-Triple H argv given parsed (λ s h. inl h)
            (subst (λ a. Triple (NoTrace H) (with_arguments H a) Exits Crashes) (sym same)
              with_arguments-Exits)
