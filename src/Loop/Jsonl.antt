-- ===== src/Loop/Jsonl.antt =====
-- What a run leaves in `events.jsonl`, and what the echo has shown of it.
use agentanvil.Prelude.{
  ◌⊎◌, ℕ, ◌≡◌, refl, sym, ◌∙◌, ap, subst, String, Option, none, some, [], ◌∷◌, ◌++◌, append-nil,
  All, All-append, inl, inr,
}
use agentanvil.Python.Text.{Text}
use agentanvil.Python.FilePath.{FilePath}
use agentanvil.Python.Action.{Result, ok}
use agentanvil.Python.Action.Rules.{Keeps, Keeps-intro}
use agentanvil.Deterministic.Clock
use agentanvil.Events.Schema.{EventType, Payload, EventEnvelope, schema}
use agentanvil.Events.Writer.{Sound, EventWriter, set_step, on_clock, echoed}
use agentanvil.Events.Writer.Laws.{line_of, Emitted, Unwritten, emit-Keeps}
use agentanvil.Events.Reader.{read_events}
use agentanvil.Events.Reader.Laws.{IsJsonl, text_of, text_of-append, AllDumped, read_events-text_of}
use agentanvil.Client.Base.{LlmClient}
use agentanvil.Config.{AgentTaskSpec}
use agentanvil.Platform.{Platform}
use agentanvil.Loop.State.{LoopState}
use agentanvil.Loop.Run.{run}
use agentanvil.Loop.Trace.{run-keeps}

-- The file and the echo hold the written events, and each bears the schema and the task.
pub record Consistent (dump : EventEnvelope → Result Text) (task_id : String) (w : EventWriter)
    : Type 0 where
  pub file : w.file ≡ text_of dump w.written
  pub dumped : AllDumped dump w.written
  pub echo : (w.echo ≡ none) ⊎ (w.echo ≡ some (text_of dump w.written))
  pub envelopes : All (λ e. (e.schema_ ≡ schema) × (e.task_id ≡ task_id)) w.written
  pub task : w.task_id ≡ task_id
  pub sound : Sound w.streams

echoed-nil : (o : Option Text) → o ≡ echoed o []
echoed-nil none = refl
echoed-nil (some t) = ap some (sym (append-nil t))

-- The echo grows as the file does, if there is one.
echo-step :
    (o o' : Option Text) (line t t' : Text)
    → o' ≡ echoed o line
    → t' ≡ t ++ line
    → (o ≡ none) ⊎ (o ≡ some t)
    → (o' ≡ none) ⊎ (o' ≡ some t')
echo-step o o' line t t' p q (inl e) = inl (p ∙ ap (λ x. echoed x line) e)
echo-step o o' line t t' p q (inr e) = inr (p ∙ ap (λ x. echoed x line) e ∙ ap some (sym q))

module _ (dump : EventEnvelope → Result Text) (task_id : String) where
  module _ (type : EventType) (payload : Option Payload) where
    Emitted-Consistent :
        (w : EventWriter) (e : EventEnvelope) (w' : EventWriter)
        → Consistent dump task_id w
        → Emitted dump type payload w e w'
        → Consistent dump task_id w'
    Emitted-Consistent w e w' h d =
        let grown : text_of dump w'.written ≡ text_of dump w.written ++ line_of (dump e) =
          ap (text_of dump) d.written ∙ text_of-append dump w.written e in
        record {
          file = d.file ∙ ap (λ t. t ++ line_of (dump e)) h.file ∙ sym grown;
          dumped =
              subst (AllDumped dump) (sym d.written)
                (All-append _ w.written (e ∷ []) h.dumped (d.dumped, tt));
          echo = echo-step w.echo w'.echo (line_of (dump e)) _ _ d.echo grown h.echo;
          envelopes =
              subst (All (λ e. (e.schema_ ≡ schema) × (e.task_id ≡ task_id))) (sym d.written) (
                All-append _ w.written (e ∷ []) h.envelopes
                  ((d.e_schema, d.e_task_id ∙ h.task), tt));
          task = d.task_id ∙ h.task;
          sound = subst Sound (sym d.streams) h.sound;
        }

    Unwritten-Consistent :
        (w w' : EventWriter)
        → Consistent dump task_id w
        → Unwritten w w'
        → Consistent dump task_id w'
    Unwritten-Consistent w w' h d = record {
      file = (d.kept h.sound).0 ∙ h.file ∙ ap (text_of dump) (sym d.written);
      dumped = subst (AllDumped dump) (sym d.written) h.dumped;
      echo =
          echo-step w.echo w'.echo [] (text_of dump w.written) _
            ((d.kept h.sound).1 ∙ echoed-nil w.echo)
            (ap (text_of dump) d.written ∙ sym (append-nil _)) h.echo;
      envelopes =
          subst (All (λ e. (e.schema_ ≡ schema) × (e.task_id ≡ task_id))) (sym d.written)
            h.envelopes;
      task = d.task_id ∙ h.task;
      sound = subst Sound (sym d.streams) h.sound;
    }

  set_step-Consistent : (n : ℕ) → Keeps (Consistent dump task_id) (set_step n)
  unfolding set_step
  set_step-Consistent n = Keeps-intro λ w h. record {
    file = h.file;
    dumped = h.dumped;
    echo = h.echo;
    envelopes = h.envelopes;
    task = h.task;
    sound = h.sound;
  }

  reading-Consistent : Keeps (Consistent dump task_id) (on_clock Clock.monotonic_ns)
  unfolding on_clock
  reading-Consistent = Keeps-intro λ w h. record {
    file = h.file;
    dumped = h.dumped;
    echo = h.echo;
    envelopes = h.envelopes;
    task = h.task;
    sound = h.sound;
  }

module _ (P : Platform) (C : LlmClient) (task_id : String) (workspace : FilePath)
    (spec : AgentTaskSpec) where
  run-Consistent :
      (s : LoopState P C)
      → Consistent P.dump s.events.task_id s.events
      → Consistent P.dump s.events.task_id (run P C task_id workspace spec s).1.events
  run-Consistent s =
      run-keeps P C (Consistent P.dump s.events.task_id)
        (record {
          event = λ type p shape.
              emit-Keeps P.dump type (some p) (Consistent P.dump s.events.task_id)
                (Emitted-Consistent P.dump s.events.task_id type (some p))
                (Unwritten-Consistent P.dump s.events.task_id type (some p));
          numbered = set_step-Consistent P.dump s.events.task_id;
          reading = reading-Consistent P.dump s.events.task_id;
        })
        task_id workspace spec s

  fresh-Consistent :
      (s : LoopState P C)
      → Sound s.events.streams
      → s.events.file ≡ []
      → s.events.written ≡ []
      → (s.events.echo ≡ none) ⊎ (s.events.echo ≡ some [])
      → Consistent P.dump s.events.task_id s.events
  unfolding text_of
  fresh-Consistent s sound file empty echo = record {
    file = file ∙ ap (text_of P.dump) (sym empty);
    dumped = subst (AllDumped P.dump) (sym empty) tt;
    echo =
        echo-step s.events.echo s.events.echo [] [] _ (echoed-nil s.events.echo)
          (ap (text_of P.dump) empty) echo;
    envelopes = subst (All _) (sym empty) tt;
    task = refl;
    sound = sound;
  }

  -- From an empty file, on streams whose writes succeed, however a run ends: reading the file gives
  -- back the events that were emitted, in order; an echo has shown the same text; and every event
  -- bears the writer's task id and the schema's name.
  pub run-jsonl :
      IsJsonl P.dump P.validate
      → (s : LoopState P C) → Sound s.events.streams
      → s.events.file ≡ []
      → s.events.written ≡ []
      → (s.events.echo ≡ none) ⊎ (s.events.echo ≡ some [])
      → let w = (run P C task_id workspace spec s).1.events in
        (read_events P.validate w.file ≡ ok w.written)
        × ((w.echo ≡ none) ⊎ (w.echo ≡ some w.file))
        × All (λ e. (e.schema_ ≡ schema) × (e.task_id ≡ s.events.task_id)) w.written
  run-jsonl laws s sound file empty echo =
      let h = run-Consistent s (fresh-Consistent s sound file empty echo) in
      (
        ap (read_events P.validate) h.file ∙ read_events-text_of P.dump P.validate laws _ h.dumped,
        echo-step _ _ [] _ _ (echoed-nil _) (h.file ∙ sym (append-nil _)) h.echo,
        h.envelopes,
      )
