-- ===== src/Main/Opening.antt =====
-- `main` of __main__.py until the events file is open.
use agentanvil.Prelude.{
  ◌≡◌, refl, sym, ◌∙◌, ap, subst, String, Bool, true, false, Option, none, some, List, [], str_eq,
  if◌then◌else◌,
}
use agentanvil.Prelude.Int.{ℤ}
use agentanvil.Python.Text.{Text, lit}
use agentanvil.Python.FilePath.{FilePath, parse, join, parent}
use agentanvil.Python.Action.{Result, ok, raised, pure}
use agentanvil.Python.Action.Rules.{
  After, Triple, Triple-bind, Triple-pure, Triple-weaken, Triple-lift, lift-Triple, Triple-if,
  Keeps, Keeps-intro, Keeps-pure,
}
use agentanvil.Deterministic.Clock.{system}
use agentanvil.Events.Writer.{EventWriter, open_writer}
use agentanvil.Main.{
  Host, Process, on_machine, ask, read_api_key, load, discard_old, open_events, with_arguments,
  main,
}
use agentanvil.Main.Options.{Given, Arguments, arguments}

module _ (H : Host) where
  open H use {platform, Machine, environ, parse_args, unlink, open_append, streams, clock}

  -- What `main` relies on of the file system at a path.
  pub record Discards (p : FilePath) : Type 0 where
    -- a file that was unlinked is not there
    pub unlinked :
        (m : Machine) → (unlink p m).0 ≡ ok tt → platform.exists p (unlink p m).1 ≡ ok false
    -- to make the directories above a path does not make the path
    pub made :
        (m : Machine)
        → platform.exists p m ≡ ok false
        → platform.exists p (platform.make_dirs (parent p) m).1 ≡ ok false
    -- a file that was not there is opened empty
    pub created :
        (m : Machine) (t : Text)
        → platform.exists p m ≡ ok false
        → (open_append p m).0 ≡ ok t
        → t ≡ []

  abbrev pub events_path : Arguments → FilePath
  events_path args = join (parse (lit args.trace_dir)) (lit "events.jsonl")

  -- The writer with which a run starts.
  abbrev pub fresh_writer : Arguments → EventWriter
  fresh_writer args = open_writer streams [] args.task_id (system clock) args.echo_events

  -- No run has been started.
  abbrev pub NoTrace : Process H → Type 0
  NoTrace s = s.trace ≡ none

  -- No run has been started, and the path of the task is no file.
  abbrev pub Unfound : Arguments → Process H → Type 0
  Unfound args s = NoTrace s × (platform.is_file (parse (lit args.task)) s.machine ≡ ok false)

  -- The run has left a writer with the property.
  abbrev pub Traced : (EventWriter → Type 0) → Process H → Type 0
  Traced R s = (w : EventWriter) × (s.trace ≡ some w) × R w

  pub ask-Triple :
      {A : Type 0} {Pre : Process H → Type 0} (q : Machine → Result A)
      → Triple Pre (ask H q) (λ a s. (q s.machine ≡ ok a) × Pre s) Pre
  unfolding ask
  ask-Triple {A} {Pre} q = record { at = λ s h. go s (q s.machine) refl h }
    where
      go :
          (s : Process H) (r : Result A)
          → q s.machine ≡ r
          → Pre s
          → After (λ a s. (q s.machine ≡ ok a) × Pre s) Pre (r, s)
      go s (ok a) e h = (e, h)
      go s (raised x) e h = h

  pub ask-Keeps : {A : Type 0} {I : Process H → Type 0} (q : Machine → Result A) → Keeps I (ask H q)
  ask-Keeps q = Triple-weaken (ask-Triple q) (λ s h. h) (λ a s h. h.1) (λ s h. h)

  -- From the parsed arguments to the whole of `main`.
  pub main-Triple :
      (argv : List String) (given : Given)
      → parse_args argv ≡ ok given
      → {Pre : Process H → Type 0} {Q : ℤ → Process H → Type 0} {E : Process H → Type 0}
      → ((s : Process H) → Pre s → E s)
      → Triple Pre (with_arguments H (arguments environ given)) Q E
      → Triple Pre (main H argv) Q E
  unfolding main
  main-Triple argv given parsed {Pre} {Q} {E} early t =
      Triple-bind (Triple-weaken (Triple-lift Pre _) (λ s h. h) (λ a s h. h) early) λ a.
        Triple-bind
          (Triple-weaken
            (lift-Triple Pre (parse_args argv) (λ g s. (given ≡ g) × Pre s)
              (λ g s e h. (same_value (sym parsed ∙ e), h)))
            (λ s h. h) (λ a s h. h) early)
          λ g. record {
            at = λ s h.
                (subst (λ g. Triple Pre (with_arguments H (arguments environ g)) Q E) h.0 t).at s
                  h.1;
          }
    where
      same_value : {g g' : Given} → ◌≡◌ {A = Result Given} (ok g) (ok g') → g ≡ g'
      same_value e = cc

  -- A step on the machine alone does not touch the trace.
  pub machine-NoTrace :
      {A : Type 0} (m : Machine → Result A × Machine) → Keeps NoTrace (on_machine H m)
  unfolding on_machine
  machine-NoTrace m = Keeps-intro λ s h. h

  -- To read the task and the key changes nothing.
  module _ {I : Process H → Type 0} where
    pub load-Keeps : (p : FilePath) → Keeps I (load H p)
    unfolding load
    load-Keeps p = Triple-bind (ask-Keeps _) λ file. Triple-lift I _

    pub read_api_key-Keeps : (file : Option String) → Keeps I (read_api_key H file)
    unfolding read_api_key
    read_api_key-Keeps none = Keeps-pure _
    read_api_key-Keeps (some f) = Triple-if (str_eq f "") (Keeps-pure _) (
        Triple-bind (ask-Keeps _)
          λ found. Triple-if found (Triple-bind (ask-Keeps _) λ s. Keeps-pure _) (Keeps-pure _))

  module _ (p : FilePath) (files : Discards p) where
    -- No run has been started and the path is free.
    abbrev pub Cleared : Process H → Type 0
    Cleared s = NoTrace s × (platform.exists p s.machine ≡ ok false)

    unlink-Cleared : Triple NoTrace (on_machine H (unlink p)) (λ a. Cleared) NoTrace
    unfolding on_machine
    unlink-Cleared = record { at = λ s h. go s (unlink p s.machine) h (files.unlinked s.machine) }
      where
        go :
            (s : Process H) (o : Result (Unit {0}) × Machine)
            → NoTrace s
            → (o.0 ≡ ok tt → platform.exists p o.1 ≡ ok false)
            → After (λ a. Cleared) NoTrace (o.0, record s { machine = o.1 })
        go s (ok tt, m) h f = (h, f refl)
        go s (raised x, m) h f = h

    pub discard_old-Cleared : Triple NoTrace (discard_old H p) (λ a. Cleared) NoTrace
    unfolding discard_old
    discard_old-Cleared = Triple-bind (ask-Triple _) by_presence
      where
        by_presence :
            (present : Bool)
            → Triple
                (λ s. (platform.exists p s.machine ≡ ok present) × NoTrace s)
                (if present then on_machine H (unlink p) else pure tt)
                (λ a. Cleared)
                NoTrace
        by_presence true = Triple-weaken unlink-Cleared (λ s h. h.1) (λ a s h. h) (λ s h. h)
        by_presence false =
            Triple-weaken (Triple-pure (λ a. Cleared) NoTrace tt) (λ s h. (h.1, h.0)) (λ a s h. h)
              (λ s h. h)

    make_dirs-Cleared :
        Triple Cleared (on_machine H (platform.make_dirs (parent p))) (λ a. Cleared) NoTrace
    unfolding on_machine
    make_dirs-Cleared = record {
      at = λ s h. go s (platform.make_dirs (parent p) s.machine) h.0 (files.made s.machine h.1);
    }
      where
        go :
            (s : Process H) (o : Result (Unit {0}) × Machine)
            → NoTrace s
            → platform.exists p o.1 ≡ ok false
            → After (λ a. Cleared) NoTrace (o.0, record s { machine = o.1 })
        go s (ok tt, m) h f = (h, f)
        go s (raised x, m) h f = h

    open_append-NoTrace :
        Triple Cleared (on_machine H (open_append p)) (λ t s. (t ≡ []) × NoTrace s) NoTrace
    unfolding on_machine
    open_append-NoTrace = record {
      at = λ s h. go s (open_append p s.machine) h.0 (λ t. files.created s.machine t h.1);
    }
      where
        go :
            (s : Process H) (o : Result Text × Machine)
            → NoTrace s
            → ((t : Text) → o.0 ≡ ok t → t ≡ [])
            → After (λ t s. (t ≡ []) × NoTrace s) NoTrace (o.0, record s { machine = o.1 })
        go s (ok t, m) h f = (f t refl, h)
        go s (raised x, m) h f = h

    pub open_events-fresh :
        (args : Arguments)
        → Triple Cleared (open_events H p args) (λ w s. (w ≡ fresh_writer args) × NoTrace s) NoTrace
    unfolding open_events
    open_events-fresh args = Triple-bind make_dirs-Cleared λ a. Triple-bind open_append-NoTrace λ t.
        Triple-weaken
          (Triple-pure (λ w s. (w ≡ fresh_writer args) × NoTrace s) NoTrace
            (open_writer streams t args.task_id (system clock) args.echo_events))
          (λ s h.
            (ap (λ t. open_writer streams t args.task_id (system clock) args.echo_events) h.0, h.1))
          (λ w s h. h) (λ s h. h)
