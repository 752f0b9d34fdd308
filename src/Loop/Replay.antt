-- ===== src/Loop/Replay.antt =====
-- The stamps of the events of a run under a `ReplayClock`.
use agentanvil.Prelude.{
  some, ◌⊎◌, ℕ, suc, ◌≡◌, refl, sym, ◌∙◌, ap, subst, String, Option, List, [], ◌∷◌, ◌++◌, map,
  arith, length, take, take-suc, length-append, inl, inr,
}
use mathlib.Core.List.{map-append}
use agentanvil.Python.Text.{Text}
use agentanvil.Python.FilePath.{FilePath}
use agentanvil.Python.Action.{Result, ok}
use agentanvil.Python.Action.Rules.{Keeps, Keeps-intro}
use agentanvil.Deterministic.Clock
use agentanvil.Deterministic.Clock.{Clock, replay, ReplayClock, now_iso, monotonic_ns}
use agentanvil.Deterministic.Clock.Laws.{
  after_readings, after_tick, replay_pair, replay_still, replay_still_now, replay_still_monotonic,
}
use agentanvil.Events.Schema.{EventType, Payload, EventEnvelope}
use agentanvil.Events.Writer as Writer
use agentanvil.Events.Writer.{EventWriter, set_step, on_clock}
use agentanvil.Events.Writer.Laws.{Emitted, Unwritten, emit-Keeps}
use agentanvil.Client.Base.{LlmClient}
use agentanvil.Config.{AgentTaskSpec}
use agentanvil.Platform.{Platform}
use agentanvil.Loop.State.{LoopState}
use agentanvil.Loop.Run.{run}
use agentanvil.Loop.Trace.{WriterKeeps, run-keeps}

-- The stamps of an event.
abbrev pub stamps : EventEnvelope → Text × ℕ
stamps e = (e.ts, e.monotonic_ns)

module _ (pairs : List (Text × ℕ)) where
  -- The clock that has stamped `n` events.
  abbrev pub at_event : ℕ → Clock
  at_event n = replay (record { pairs = pairs; idx = n })

  abbrev pub Replayed : EventWriter → Type 0
  Replayed w =
      (w.clock ≡ at_event (length w.written))
      × (map stamps w.written ≡ take (length w.written) pairs)

  length-snoc :
      (es : List EventEnvelope) (e : EventEnvelope) → length (es ++ e ∷ []) ≡ suc (length es)
  length-snoc es e = omega (arith, length-append es (e ∷ []))

  module _ (dump : EventEnvelope → Result Text) (type : EventType) (payload : Option Payload) where
    Emitted-Replayed :
        (w : EventWriter) (e : EventEnvelope) (w' : EventWriter)
        → Replayed w
        → Emitted dump type payload w e w'
        → Replayed w'
    Emitted-Replayed w e w' (clock, stamped) d =
        let (found, moved) =
          replay_pair (record { pairs = pairs; idx = length w.written }) e.ts e.monotonic_ns
            (subst (λ c. (now_iso c).0 ≡ ok e.ts) clock d.e_ts)
            (subst (λ c. (monotonic_ns (now_iso c).1).0 ≡ ok e.monotonic_ns) clock
              d.e_monotonic_ns) in
        let n : length w'.written ≡ suc (length w.written) =
          ap length d.written ∙ length-snoc w.written e in
        (
          d.clock ∙ ap after_tick clock ∙ moved ∙ ap at_event (sym n),
          ap (map stamps) d.written
              ∙ map-append stamps w.written (e ∷ [])
              ∙ ap (λ l. l ++ stamps e ∷ []) stamped
              ∙ sym (take-suc (length w.written) pairs found)
              ∙ ap (λ m. take m pairs) (sym n),
        )

    Unwritten-Replayed : (w w' : EventWriter) → Replayed w → Unwritten w w' → Replayed w'
    Unwritten-Replayed w w' (clock, stamped) d =
        let n : length w'.written ≡ length w.written = ap length d.written in
        (
          still w w' clock d.clock ∙ ap at_event (sym n),
          ap (map stamps) d.written ∙ stamped ∙ ap (λ m. take m pairs) (sym n),
        )
      where
        still :
            (w w' : EventWriter) {n : ℕ}
            → w.clock ≡ at_event n
            → (w'.clock ≡ (now_iso w.clock).1) ⊎ (w'.clock ≡ after_readings w.clock)
            → w'.clock ≡ at_event n
        still w w' clock (inl e) = e ∙ ap (λ c. (now_iso c).1) clock ∙ replay_still_now _
        still w w' clock (inr e) = e ∙ ap after_readings clock ∙ replay_still _

    emit-Replayed : Keeps Replayed (Writer.emit dump type payload)
    emit-Replayed = emit-Keeps dump type payload Replayed Emitted-Replayed Unwritten-Replayed

  set_step-Replayed : (n : ℕ) → Keeps Replayed (set_step n)
  unfolding set_step
  set_step-Replayed n = Keeps-intro λ w h. h

  reading-Replayed : Keeps Replayed (on_clock Clock.monotonic_ns)
  unfolding on_clock
  reading-Replayed =
      Keeps-intro λ w h. (ap (λ c. (monotonic_ns c).1) h.0 ∙ replay_still_monotonic _, h.1)

  replayed : (P : Platform) (C : LlmClient) → WriterKeeps P C Replayed
  replayed P C = record {
    event = λ type p shape. emit-Replayed P.dump type (some p);
    numbered = set_step-Replayed;
    reading = reading-Replayed;
  }

  -- A run whose writer is fresh and whose clock replays `pairs` from the first pair: however it
  -- ends, its events, those whose `emit` returned, bear the recorded (ts, monotonic_ns) pairs, in
  -- the recorded order, one each.
  pub run-replays :
      (P : Platform) (C : LlmClient) (task_id : String) (workspace : FilePath)
      (spec : AgentTaskSpec) (s : LoopState P C)
      → s.events.clock ≡ replay (record { pairs = pairs; idx = 0 })
      → s.events.written ≡ []
      → let es = (run P C task_id workspace spec s).1.events.written in
        map stamps es ≡ take (length es) pairs
  run-replays P C task_id workspace spec s clock empty =
      (run-keeps P C Replayed (replayed P C) task_id workspace spec s
        (clock ∙ ap (λ es. at_event (length es)) (sym empty), rw empty refl)).1
