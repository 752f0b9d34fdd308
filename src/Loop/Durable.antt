-- ===== src/Loop/Durable.antt =====
-- What the file of a run holds where the echo of EventWriter in events.py breaks.
use mathlib.Core.List.{Sublistᴰ}
use agentanvil.Prelude.{
  ◌⊎◌, ℕ, ◌≡◌, refl, sym, ◌∙◌, ap, subst, String, Option, some, List, [], ◌∷◌, ◌++◌, All-append,
  inl, inr,
}
use agentanvil.Python.Text.{Text}
use agentanvil.Python.FilePath.{FilePath}
use agentanvil.Python.Action.{Result, ok, raised}
use agentanvil.Python.Action.Rules.{After, Keeps, Keeps-intro}
use agentanvil.Deterministic.Clock
use agentanvil.Events.Schema.{EventType, Payload, EventEnvelope}
use agentanvil.Events.Writer.{or_no_fields, Streams, sent, EventWriter, emit, set_step, on_clock}
use agentanvil.Events.Writer.Lines.{Output, untouched, file_broke, echo_broke}
use agentanvil.Events.Writer.Laws.{IsOk, line_of, Emitted, Failed, emit-ends}
use agentanvil.Events.Reader.{read_events}
use agentanvil.Events.Reader.Laws.{IsJsonl, text_of, text_of-append, AllDumped, read_events-text_of}
use agentanvil.Client.Base.{LlmClient}
use agentanvil.Config.{AgentTaskSpec}
use agentanvil.Platform.{Platform}
use agentanvil.Loop.State.{LoopState}
use agentanvil.Loop.Run.{run}
use agentanvil.Loop.Trace.{run-keeps}

module _ {ℓ} {A : Type ℓ} where
  both_longer : {xs ys : List A} (a : A) → Sublistᴰ xs ys → Sublistᴰ (xs ++ a ∷ []) (ys ++ a ∷ [])
  both_longer a Sublistᴰ.slnil = Sublistᴰ.cons-cons refl Sublistᴰ.slnil
  both_longer a (Sublistᴰ.cons s) = Sublistᴰ.cons (both_longer a s)
  both_longer a (Sublistᴰ.cons-cons e s) = Sublistᴰ.cons-cons e (both_longer a s)

  one_longer : {xs ys : List A} (a : A) → Sublistᴰ xs ys → Sublistᴰ xs (ys ++ a ∷ [])
  one_longer a Sublistᴰ.slnil = Sublistᴰ.cons Sublistᴰ.slnil
  one_longer a (Sublistᴰ.cons s) = Sublistᴰ.cons (one_longer a s)
  one_longer a (Sublistᴰ.cons-cons e s) = Sublistᴰ.cons-cons e (one_longer a s)

-- Every write to the file succeeds, whatever the echo does.
abbrev pub KeepsFile : Streams → Type 0
KeepsFile streams = (n : ℕ) (held text : Text) → streams.file_at n held text ≡ sent

-- The file holds these entries, the written events among them.
pub record Durable (dump : EventEnvelope → Result Text) (w : EventWriter) : Type 0 where
  pub entries : List EventEnvelope
  pub file : w.file ≡ text_of dump entries
  pub dumped : AllDumped dump entries
  pub kept : Sublistᴰ w.written entries
  pub sound : KeepsFile w.streams

module _ (dump : EventEnvelope → Result Text) where
  -- One more line in the file.
  longer :
      (w w' : EventWriter) (e : EventEnvelope) (h : Durable dump w)
      → IsOk (dump e)
      → w'.file ≡ w.file ++ line_of (dump e)
      → w'.streams ≡ w.streams
      → Sublistᴰ w'.written (h.entries ++ e ∷ [])
      → Durable dump w'
  longer w w' e h d file streams kept = record {
    entries = h.entries ++ e ∷ [];
    file = file ∙ ap (λ t. t ++ line_of (dump e)) h.file ∙ sym (text_of-append dump h.entries e);
    dumped = All-append _ h.entries (e ∷ []) h.dumped (d, tt);
    kept = kept;
    sound = subst KeepsFile (sym streams) h.sound;
  }

  module _ (type : EventType) (payload : Option Payload) (w : EventWriter)
      (h : Durable dump w) where
    Emitted-Durable :
        (e : EventEnvelope) (w' : EventWriter) → Emitted dump type payload w e w' → Durable dump w'
    Emitted-Durable e w' d =
        longer w w' e h d.dumped d.file d.streams
          (subst (λ es. Sublistᴰ es (h.entries ++ e ∷ [])) (sym d.written) (both_longer e h.kept))

    Failed-Durable : (w' : EventWriter) → Failed dump type payload w w' → Durable dump w'
    Failed-Durable w' d = by_output d.output
      where
        same : w'.file ≡ w.file → Durable dump w'
        same file = record {
          entries = h.entries;
          file = file ∙ h.file;
          dumped = h.dumped;
          kept = subst (λ es. Sublistᴰ es h.entries) (sym d.written) h.kept;
          sound = subst KeepsFile (sym d.streams) h.sound;
        }

        by_line :
            (e : EventEnvelope) → IsOk (dump e) → Output (line_of (dump e)) w w' → Durable dump w'
        by_line e o (untouched f g) = same f
        by_line e o (file_broke x f g) = absurd (cc (sym (h.sound w.writes w.file _) ∙ f))
        by_line e o (echo_broke x shown held f s g t) =
            longer w w' e h o f d.streams (
              subst (λ es. Sublistᴰ es (h.entries ++ e ∷ [])) (sym d.written) (one_longer e h.kept))

        by_output :
            ((w'.file ≡ w.file) × (w'.echo ≡ w.echo))
              ⊎ ((e : EventEnvelope) × IsOk (dump e)
                  × (e.type ≡ type)
                  × (e.payload ≡ or_no_fields payload)
                  × Output (line_of (dump e)) w w')
            → Durable dump w'
        by_output (inl u) = same u.0
        by_output (inr (e, o, t, p, u)) = by_line e o u

  emit-Durable :
      (type : EventType) (payload : Option Payload) → Keeps (Durable dump) (emit dump type payload)
  emit-Durable type payload = record {
    at = λ w h. go w h (emit dump type payload w) (emit-ends dump type payload w);
  }
    where
      go :
          (w : EventWriter)
          → Durable dump w
          → (o : Result EventEnvelope × EventWriter)
          → After (Emitted dump type payload w) (Failed dump type payload w) o
          → After (λ e. Durable dump) (Durable dump) o
      go w h (ok e, w') d = Emitted-Durable type payload w h e w' d
      go w h (raised x, w') d = Failed-Durable type payload w h w' d

  -- Where the file, the written events and the streams are the same.
  only_other :
      (w w' : EventWriter)
      → w'.file ≡ w.file
      → w'.written ≡ w.written
      → w'.streams ≡ w.streams
      → Durable dump w
      → Durable dump w'
  only_other w w' file written streams h = record {
    entries = h.entries;
    file = file ∙ h.file;
    dumped = h.dumped;
    kept = subst (λ es. Sublistᴰ es h.entries) (sym written) h.kept;
    sound = subst KeepsFile (sym streams) h.sound;
  }

  set_step-Durable : (n : ℕ) → Keeps (Durable dump) (set_step n)
  unfolding set_step
  set_step-Durable n = Keeps-intro λ w h. only_other w _ refl refl refl h

  reading-Durable : Keeps (Durable dump) (on_clock Clock.monotonic_ns)
  unfolding on_clock
  reading-Durable = Keeps-intro λ w h. only_other w _ refl refl refl h

module _ (P : Platform) (C : LlmClient) (task_id : String) (workspace : FilePath)
    (spec : AgentTaskSpec) where
  -- Let events be dumped as JSON lines, the writer be new over an empty file, and every write to
  -- the file succeed, while the echo may fail at any write. However a run ends, its file reads
  -- back, and of the entries that are read, the events whose `emit` returned are a sublist: none of
  -- them is lost, and they are in order.
  pub run-durable :
      IsJsonl P.dump P.validate
      → (s : LoopState P C) → KeepsFile s.events.streams
      → s.events.file ≡ []
      → s.events.written ≡ []
      → let w = (run P C task_id workspace spec s).1.events in
        (entries : List EventEnvelope) × (read_events P.validate w.file ≡ ok entries)
        × Sublistᴰ w.written entries
  unfolding text_of
  run-durable laws s sound file empty =
      let h =
        run-keeps P C (Durable P.dump)
          (record {
            event = λ type p shape. emit-Durable P.dump type (some p);
            numbered = set_step-Durable P.dump;
            reading = reading-Durable P.dump;
          })
          task_id workspace spec s
          (record {
            entries = [];
            file = file;
            dumped = tt;
            kept = subst (λ es. Sublistᴰ es []) (sym empty) Sublistᴰ.slnil;
            sound = sound;
          }) in
      (
        h.entries,
        ap (read_events P.validate) h.file
            ∙ read_events-text_of P.dump P.validate laws h.entries h.dumped,
        h.kept,
      )
