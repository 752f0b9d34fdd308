-- ===== src/Events/Log/Refinement.antt =====
-- `EventWriter` refines the log.
use agentanvil.Prelude.{
  String, ◌≡◌, refl, sym, ap, subst, ◌∙◌, Bool, true, false, not, Option, none, some, List, [], ◌∷◌,
  ◌++◌, All-append,
}
use agentanvil.Python.Text.{Text}
use agentanvil.Python.Action.{Result, ok, raised}
use agentanvil.Python.Action.Rules.{After}
use agentanvil.Events.Schema.{EventType, Payload, EventEnvelope}
use agentanvil.Events.Writer as Writer
use agentanvil.Events.Writer.{Streams, Sound, EventWriter, open_writer}
use agentanvil.Events.Writer.Laws.{Emitted, Unwritten, emit-cases, line_of}
use agentanvil.Events.Reader.{read_events}
use agentanvil.Events.Reader.Laws.{IsJsonl, text_of, text_of-append, AllDumped, read_events-text_of}
use agentanvil.Deterministic.Clock.{Clock}
use agentanvil.Events.Log.{
  Log, Call, emit, set_step, close, Outcome, returned, failed, LogStep, appended, refused, numbered,
  closed, LogSteps, here, next, envelopes, LogSteps-entries,
}

abbrev outcome_of : Result EventEnvelope → Outcome
outcome_of (ok e) = returned (some e)
outcome_of (raised x) = failed

module _ (dump : EventEnvelope → Result Text) where
  -- One call of a method, by a caller that goes on whether it raises or not.
  unfoldable pub call : Call → EventWriter → Outcome × EventWriter
  call (emit type payload) w = let (r, w') = Writer.emit dump type payload w in (outcome_of r, w')
  call (set_step n) w = (returned none, (Writer.set_step n w).1)
  call close w = (returned none, (Writer.close w).1)

  unfoldable pub calls : List Call → EventWriter → List Outcome × EventWriter
  unfolding call
  calls [] w = ([], w)
  calls (c ∷ cs) w = let (o, w') = call c w in let (os, w'') = calls cs w' in (o ∷ os, w'')

  -- The file holds the log's entries.
  pub record Represents (w : EventWriter) (l : Log) : Type 0 where
    pub file : w.file ≡ text_of dump l.entries
    pub dumped : AllDumped dump l.entries
    pub step : w.step ≡ l.step
    pub task_id : w.task_id ≡ l.task_id
    pub closed : w.closed ≡ not l.is_open
    pub sound : Sound w.streams

  -- A step of the writer is a step of the log.
  abbrev Simulated : Call → Outcome → EventWriter → Log → Type 0
  Simulated c o w' l = (l' : Log) × LogStep c o l l' × Represents w' l'

  emit-Simulated :
      (type : EventType) (payload : Option Payload) (w : EventWriter) (l : Log)
      → Represents w l
      → (o : Result EventEnvelope × EventWriter)
      → After (Emitted dump type payload w) (Unwritten w) o
      → Simulated (emit type payload) (outcome_of o.0) o.1 l
  emit-Simulated type payload w l r (ok e, w') d = (
    record l { entries = l.entries ++ e ∷ [] },
    appended type payload l e (open_if l.is_open (sym r.closed ∙ d.open_)) (record {
      of_schema = d.e_schema;
      of_task_id = d.e_task_id ∙ r.task_id;
      of_step = d.e_step ∙ r.step;
      of_type = d.e_type;
      of_payload = d.e_payload;
    }),
    record {
      file =
          d.file ∙ ap (λ t. t ++ line_of (dump e)) r.file ∙ sym (text_of-append dump l.entries e);
      dumped = All-append _ l.entries (e ∷ []) r.dumped (d.dumped, tt);
      step = d.step ∙ r.step;
      task_id = d.task_id ∙ r.task_id;
      closed = d.closed ∙ sym d.open_ ∙ r.closed;
      sound = subst Sound (sym d.streams) r.sound;
    },
  )
    where
      open_if : (b : Bool) → not b ≡ false → b ≡ true
      open_if true h = refl
      open_if false h = cc h
  emit-Simulated type payload w l r (raised x, w') d = (
    l,
    refused type payload l,
    record {
      file = (d.kept r.sound).0 ∙ r.file;
      dumped = r.dumped;
      step = d.step ∙ r.step;
      task_id = d.task_id ∙ r.task_id;
      closed = d.closed ∙ r.closed;
      sound = subst Sound (sym d.streams) r.sound;
    },
  )

  call-Simulated :
      (c : Call) (w : EventWriter) (l : Log)
      → Represents w l
      → Simulated c (call c w).0 (call c w).1 l
  unfolding call Writer.set_step Writer.close
  call-Simulated (emit type payload) w l r =
      emit-Simulated type payload w l r _ (emit-cases dump type payload w)
  call-Simulated (set_step n) w l r = (
    record l { step = n },
    numbered n l,
    record {
      file = r.file;
      dumped = r.dumped;
      step = refl;
      task_id = r.task_id;
      closed = r.closed;
      sound = r.sound;
    },
  )
  call-Simulated close w l r = (
    record l { is_open = false },
    closed l,
    record {
      file = r.file;
      dumped = r.dumped;
      step = r.step;
      task_id = r.task_id;
      closed = refl;
      sound = r.sound;
    },
  )

  pub calls-Simulated :
      (cs : List Call) (w : EventWriter) (l : Log)
      → Represents w l
      → (l' : Log) × LogSteps cs (calls cs w).0 l l' × Represents (calls cs w).1 l'
  unfolding calls
  calls-Simulated [] w l r = (l, here l, r)
  calls-Simulated (c ∷ cs) w l r =
      let (m, step, r') = call-Simulated c w l r in
      let (n, steps, r'') = calls-Simulated cs (call c w).1 m r' in (n, next step steps, r'')

  -- The log that a new writer over an empty file represents.
  abbrev pub new_log : String → Log
  new_log task_id = record { task_id = task_id; entries = []; step = 0; is_open = true }

  -- Let events be dumped as JSON lines, and every write to the file and to the echo succeed. Any
  -- sequence of calls of a new writer over an empty file, also of calls that fail because the
  -- writer is closed, the event cannot be dumped or the clock cannot be read, is a sequence of
  -- steps of the log with the same outcomes. The file reads back as the log's entries at its end,
  -- which are the envelopes that the calls gave back, in order; the writer has the log's step, and
  -- is closed exactly when the log is.
  pub writer-refines :
      (validate : Text → Result EventEnvelope)
      → IsJsonl dump validate
      → (streams : Streams) → Sound streams
      → (task_id : String) (clock : Clock) (echo : Bool) (cs : List Call)
      → let (os, w) = calls cs (open_writer streams [] task_id clock echo) in
        (l : Log) × LogSteps cs os (new_log task_id) l
        × (read_events validate w.file ≡ ok l.entries)
        × (l.entries ≡ envelopes os)
        × (w.step ≡ l.step)
        × (w.closed ≡ not l.is_open)
  unfolding open_writer text_of
  writer-refines validate laws streams sound task_id clock echo cs =
      let (l, steps, r) =
        calls-Simulated cs (open_writer streams [] task_id clock echo) (new_log task_id) (record {
          file = refl;
          dumped = tt;
          step = refl;
          task_id = refl;
          closed = refl;
          sound = sound;
        }) in
      (
        l,
        steps,
        ap (read_events validate) r.file
            ∙ read_events-text_of dump validate laws l.entries r.dumped,
        LogSteps-entries steps,
        r.step,
        r.closed,
      )
