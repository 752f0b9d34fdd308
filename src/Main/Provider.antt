-- ===== src/Main/Provider.antt =====
-- What the choice of the provider decides in `main` of __main__.py.
use agentanvil.Prelude.{
  ◌≡◌, ◌≢◌, refl, sym, ◌∙◌, ap, subst, ◌⊎◌, inl, inr, String, some, none, List, Option, eq_iff,
  arith,
}
use agentanvil.Prelude.Int.{ℤ, pos}
use agentanvil.Python.Text.{Text, lit}
use agentanvil.Python.FilePath.{FilePath, parse, join}
use agentanvil.Python.Action.{Exn, Result, ok, raised, Action, pure, lift, modify, ◌>>=◌, ◌>>◌}
use agentanvil.Python.Action.Rules.{
  After, Triple, Triple-bind, Triple-pure, Triple-weaken, lift-Triple, Triple-if, Keeps,
  Keeps-intro, Keeps-pure, Keeps-state,
}
use agentanvil.Events.Writer.{EventWriter}
use agentanvil.Config.{AgentTaskSpec, ModelSpec}
use agentanvil.Main.{
  Host, Process, environment_key, on_machine, discard_old, open_events, load, read_api_key,
  run_client, run_choice, run_task, report_missing, with_arguments, main,
}
use agentanvil.Main.Choices.{
  ClientChoice, echo, make_client, unknown_provider, choose_provider, choose_model, provider_or,
}
use agentanvil.Main.Options.{Given, Arguments, arguments}
use agentanvil.Main.Opening.{
  ask-Keeps, main-Triple, machine-NoTrace, load-Keeps, read_api_key-Keeps,
}

not_ok : {c : ClientChoice} {x : Exn} → ◌≢◌ {A = Result ClientChoice} (ok c) (raised x)
not_ok e = cc

same_choice : {c d : ClientChoice} → ◌≡◌ {A = Result ClientChoice} (ok c) (ok d) → c ≡ d
same_choice e = cc

mock-ne : ◌≢◌ {A = String} "mock" ""
mock-ne e = cc

choose_provider-given :
    (name : String) (spec : AgentTaskSpec) → name ≢ "" → choose_provider (some name) spec ≡ name
unfolding choose_provider
choose_provider-given name spec full = ground (arith, eq_iff name "")

-- Where neither the command line nor the environment names a provider, the task's model does.
choose_provider-task :
    (given : Option String) (spec : AgentTaskSpec) (m : ModelSpec)
    → (given ≡ none) ⊎ (given ≡ some "")
    → spec.model ≡ some m
    → choose_provider given spec ≡ m.provider
unfolding choose_provider
choose_provider-task given spec m (inl unset) model =
    ap (λ g. choose_provider g spec) unset ∙ ap (provider_or "mock") model
choose_provider-task given spec m (inr empty) model =
    ap (λ g. choose_provider g spec) empty ∙ ap (provider_or "mock") model

make_client-unknown :
    (environment : Option Text) (name model : String) (key : Option Text)
    → name ≢ "mock"
    → name ≢ "anthropic"
    → make_client environment name model key ≡ raised (unknown_provider name)
unfolding make_client
make_client-unknown environment name model key mock real =
    ground (arith, eq_iff name "mock", eq_iff name "anthropic")

make_client-mock :
    (environment : Option Text) (model : String) (key : Option Text)
    → make_client environment "mock" model key ≡ ok echo
unfolding make_client
make_client-mock environment model key = refl

module _ (H : Host) where
  open H use {platform, Machine, Api, environ, parse_args}

  -- `I0` holds before the task is read, `I` until the client is chosen, and `J` behind the run.
  module _ (I0 I J : Process H → Type 0) (enter : (s : Process H) → I0 s → I s)
      (quiet : (A : Type 0) (m : Action Machine A) → Keeps I (on_machine H m))
      (printing : (f : Process H → Process H)
        → ((s : Process H) → (f s).trace ≡ s.trace)
        → ((s : Process H) → (f s).service ≡ s.service)
        → Keeps I (modify f))
      (args : Arguments) (Loads : AgentTaskSpec → Type 0)
      (loaded : Triple I0 (load H (parse (lit args.task))) (λ spec s. Loads spec × I s) I)
      (chosen : (choice : ClientChoice) (spec : AgentTaskSpec) (key : Option Text)
        → Loads spec
        → make_client
            (environment_key H)
            (choose_provider args.provider spec)
            (choose_model spec)
            key
          ≡ ok choice
        → (w : EventWriter) → Triple I (run_choice H choice args spec w) (λ d. J) I) where
    abbrev pub Returns : ℤ → Process H → Type 0
    Returns code s = ((code ≡ pos 1) × I s) ⊎ ((code ≡ pos 0) × J s)

    discard_old-Keeps : (p : FilePath) → Keeps I (discard_old H p)
    unfolding discard_old
    discard_old-Keeps p =
        Triple-bind (ask-Keeps H _) λ present. Triple-if present (quiet _ _) (Keeps-pure _)

    open_events-Keeps : (p : FilePath) → Keeps I (open_events H p args)
    unfolding open_events
    open_events-Keeps p = Triple-bind (quiet _ _) λ a. Triple-bind (quiet _ _) λ t. Keeps-pure _

    after_load :
        (spec : AgentTaskSpec)
        → Loads spec
        → Triple I
            (do
              key ← read_api_key H (environ "AGENT_ANVIL_API_KEY_FILE")
              on_machine H (platform.make_dirs (parse (lit args.workspace)))
              on_machine H (platform.make_dirs (parse (lit args.trace_dir)))
              discard_old H (join (parse (lit args.trace_dir)) (lit "events.jsonl"))
              choice ← lift (
                  make_client
                    (environment_key H)
                    (choose_provider args.provider spec)
                    (choose_model spec)
                    key)
              w ← open_events H (join (parse (lit args.trace_dir)) (lit "events.jsonl")) args
              run_choice H choice args spec w
              pure (pos 0))
            Returns
            I
    after_load spec names =
        Triple-bind (read_api_key-Keeps H (environ "AGENT_ANVIL_API_KEY_FILE")) λ key.
          Triple-bind (quiet _ _) λ a. Triple-bind (quiet _ _) λ b.
            Triple-bind (discard_old-Keeps _) λ c.
              Triple-bind
                (lift-Triple I _
                  (λ choice s.
                    (make_client (environment_key H) (choose_provider args.provider spec)
                        (choose_model spec) key
                      ≡ ok choice)
                    × I s)
                  (λ choice s e h. (e, h)))
                λ choice. record { at = λ s h. (open_and_run spec key choice names h.0).at s h.1 }
      where
        open_and_run :
            (spec : AgentTaskSpec) (key : Option Text) (choice : ClientChoice)
            → Loads spec
            → make_client
                (environment_key H)
                (choose_provider args.provider spec)
                (choose_model spec)
                key
              ≡ ok choice
            → Triple I
                (do
                  events ←
                      open_events H (join (parse (lit args.trace_dir)) (lit "events.jsonl")) args
                  run_choice H choice args spec events
                  pure (pos 0))
                Returns
                I
        open_and_run spec key choice names e = Triple-bind (open_events-Keeps _) λ w.
            Triple-bind (chosen choice spec key names e w) λ d.
              Triple-weaken (Triple-pure Returns I (pos 0)) (λ s h. inr (refl, h)) (λ c s h. h)
                (λ s h. h)

    run_task-Returns : Triple I0 (run_task H args (parse (lit args.task))) Returns I
    unfolding run_task
    run_task-Returns =
        Triple-bind loaded λ spec. record { at = λ s h. (after_load spec h.0).at s h.1 }

    report_missing-Returns : (p : FilePath) → Triple I (report_missing H p) Returns I
    unfolding report_missing
    report_missing-Returns p = Triple-bind (printing _ (λ s. refl) (λ s. refl)) λ a.
        Triple-weaken (Triple-pure Returns I (pos 1)) (λ s h. inl (refl, h)) (λ c s h. h) (λ s h. h)

    with_arguments-Returns : Triple I0 (with_arguments H args) Returns I
    unfolding with_arguments
    with_arguments-Returns =
        Triple-bind (Triple-weaken (ask-Keeps H _) (λ s h. h) (λ a s h. h) enter) λ found.
          Triple-if found run_task-Returns
            (Triple-weaken (report_missing-Returns _) enter (λ code s h. h) (λ s h. h))

  -- The service is in this state.
  abbrev Serves : Api → Process H → Type 0
  Serves a s = s.service ≡ a

  machine-Serves : (a : Api) {A : Type 0} (m : Action Machine A) → Keeps (Serves a) (on_machine H m)
  unfolding on_machine
  machine-Serves a m = Keeps-intro λ s h. h

  -- The echo client does not know the service.
  echo-Serves :
      (a : Api) (args : Arguments) (spec : AgentTaskSpec) (w : EventWriter)
      → Keeps (Serves a) (run_choice H echo args spec w)
  unfolding run_choice run_client
  echo-Serves a args spec w = Keeps-intro λ s h. h

  -- The provider's name comes from the command line or the environment, or, where neither gives
  -- one, from the model that the task names.
  abbrev pub Asks : Arguments → String → Process H → Type 0
  Asks args name s =
      ((args.provider ≡ some name) × (name ≢ ""))
      ⊎ (((args.provider ≡ none) ⊎ (args.provider ≡ some ""))
          × ((spec : AgentTaskSpec)
              → (load H (parse (lit args.task)) s).0 ≡ ok spec
              → (m : ModelSpec) × (spec.model ≡ some m) × (m.provider ≡ name)))

  asked-name :
      (args : Arguments) (name : String) (s : Process H) (spec : AgentTaskSpec)
      → Asks args name s
      → (load H (parse (lit args.task)) s).0 ≡ ok spec
      → choose_provider args.provider spec ≡ name
  asked-name args name s spec (inl (given, full)) e =
      ap (λ o. choose_provider o spec) given ∙ choose_provider-given name spec full
  asked-name args name s spec (inr (unset, task)) e =
      let (m, model, same) = task spec e in
      choose_provider-task args.provider spec m unset model ∙ same

  -- The task that is loaded is the one that the file holds.
  load-known :
      (p : FilePath) (s : Process H)
      → s.trace ≡ none
      → Triple
          (λ t. t ≡ s)
          (load H p)
          (λ spec t. ((load H p s).0 ≡ ok spec) × (t.trace ≡ none))
          (λ t. t.trace ≡ none)
  load-known p s fresh = record {
    at = λ t h.
        subst
          (After (λ spec t. ((load H p s).0 ≡ ok spec) × (t.trace ≡ none)) (λ t. t.trace ≡ none))
          (ap (load H p) (sym h))
          (go (load H p s) refl ((load-Keeps H {I = λ t. t.trace ≡ none} p).at s fresh));
  }
    where
      go :
          (o : Result AgentTaskSpec × Process H)
          → load H p s ≡ o
          → After (λ a t. t.trace ≡ none) (λ t. t.trace ≡ none) o
          → After (λ spec t. ((load H p s).0 ≡ ok spec) × (t.trace ≡ none)) (λ t. t.trace ≡ none) o
      go (ok spec, t) e h = (ap (λ o. o.0) e, h)
      go (raised x, t) e h = h

  module _ (argv : List String) (given : Given) (parsed : parse_args argv ≡ ok given) where
    -- Let the provider be neither `mock` nor `anthropic`, where it is named on the command line or
    -- in the environment, or, where neither names one, by the model of the task that the file
    -- holds. Then `main` starts no run: it returns 1 where the task's path is no file, and raises
    -- everywhere else. It never returns 0.
    pub main-unknown_provider :
        (name : String) (s : Process H)
        → Asks (arguments environ given) name s
        → name ≢ "mock"
        → name ≢ "anthropic"
        → s.trace ≡ none
        → After (λ code t. (code ≡ pos 1) × (t.trace ≡ none)) (λ t. t.trace ≡ none) (main H argv s)
    unfolding modify
    main-unknown_provider name s asks mock real fresh =
        (Triple-weaken
            (main-Triple H argv given parsed from_start (
              with_arguments-Returns (λ t. t ≡ s) (λ t. t.trace ≡ none) (λ t. ⊥) from_start
                (λ A m. machine-NoTrace H m) (λ f k l. Keeps-intro λ t h. k t ∙ h)
                (arguments environ given)
                (λ spec. (load H (parse (lit (arguments environ given).task)) s).0 ≡ ok spec)
                (load-known _ s fresh)
                (λ choice spec key e made w. absurd (refused choice spec key e made))))
            (λ t h. h) only_1 (λ t h. h)).at
          s refl
      where
        from_start : (t : Process H) → t ≡ s → t.trace ≡ none
        from_start t h = ap (λ (t : Process H). t.trace) h ∙ fresh

        refused :
            (choice : ClientChoice) (spec : AgentTaskSpec) (key : Option Text)
            → (load H (parse (lit (arguments environ given).task)) s).0 ≡ ok spec
            → make_client
                (environment_key H)
                (choose_provider (arguments environ given).provider spec)
                (choose_model spec)
                key
              ≢ ok choice
        refused choice spec key e made = not_ok (
            sym made
            ∙ ap (λ p. make_client (environment_key H) p (choose_model spec) key)
                (asked-name (arguments environ given) name s spec asks e)
            ∙ make_client-unknown (environment_key H) name (choose_model spec) key mock real)

        only_1 :
            (code : ℤ) (t : Process H)
            → ((code ≡ pos 1) × (t.trace ≡ none)) ⊎ ((code ≡ pos 0) × ⊥)
            → (code ≡ pos 1) × (t.trace ≡ none)
        only_1 code t (inl h) = h
        only_1 code t (inr h) = absurd h.1

  module _ (argv : List String) (given : Given) (parsed : parse_args argv ≡ ok given) where
    -- With the provider `mock` on the command line or in the environment, `main` leaves the
    -- Anthropic service alone, whatever provider the task names, and however it ends.
    pub main-offline :
        (arguments environ given).provider ≡ some "mock"
        → (s : Process H) → (main H argv s).1.service ≡ s.service
    unfolding modify
    main-offline asked s =
        Keeps-state
          (Triple-weaken
            (main-Triple H argv given parsed (λ t h. h)
              (with_arguments-Returns (Serves s.service) (Serves s.service) (Serves s.service)
                (λ t h. h) (λ A m. machine-Serves s.service m) (λ f k l. Keeps-intro λ t h. l t ∙ h)
                (arguments environ given) (λ spec. Unit {0})
                (Triple-weaken (load-Keeps H _) (λ t h. h) (λ spec t h. (tt, h)) (λ t h. h))
                with_echo))
            (λ t h. h) either (λ t h. h))
          s refl
      where
        with_echo :
            (choice : ClientChoice) (spec : AgentTaskSpec) (key : Option Text)
            → Unit {0}
            → make_client
                (environment_key H)
                (choose_provider (arguments environ given).provider spec)
                (choose_model spec)
                key
              ≡ ok choice
            → (w : EventWriter)
            → Keeps (Serves s.service) (run_choice H choice (arguments environ given) spec w)
        with_echo choice spec key u e w =
            subst (λ c. Keeps (Serves s.service) (run_choice H c (arguments environ given) spec w))
              (same_choice (
                sym (
                  ap (λ p. make_client (environment_key H) p (choose_model spec) key)
                    (ap (λ o. choose_provider o spec) asked
                      ∙ choose_provider-given "mock" spec mock-ne)
                  ∙ make_client-mock (environment_key H) (choose_model spec) key)
                ∙ e))
              (echo-Serves s.service (arguments environ given) spec w)

        either :
            (code : ℤ) (t : Process H)
            → ((code ≡ pos 1) × Serves s.service t) ⊎ ((code ≡ pos 0) × Serves s.service t)
            → Serves s.service t
        either code t (inl h) = h.1
        either code t (inr h) = h.1
