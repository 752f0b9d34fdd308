-- ===== src/Loop/First.antt =====
-- The parts of loop.py's `run` that come before the second round, followed exactly: which events
-- have been written, where the client stands, and what the local variables hold.
pub mod Step
pub mod Runs
use mathlib.Core.List.{map-append}
use agentanvil.Prelude.{
  ℕ, suc, ◌+◌, ◌≡◌, refl, sym, ◌∙◌, ap, ap₂, subst, some, List, [], ◌∷◌, ◌++◌, map,
}
use agentanvil.Loop.Lift.{assign-Triple}
use agentanvil.Python.Text.{Text}
use agentanvil.Python.Action.{Exn, Result, ok, raised, Action, gets, on, modify}
use agentanvil.Python.Action.Rules.{After, Triple, Triple-weaken}
use agentanvil.Deterministic.Clock
use agentanvil.Events.Schema.{EventType, Payload, EventEnvelope}
use agentanvil.Events.Writer.{EventWriter, emit, set_step, on_clock}
use agentanvil.Events.Writer.Laws.{IsOk, emit-cases, Emitted, Unwritten}
use agentanvil.Client.Base.{LlmResponse, Request, LlmClient}
use agentanvil.Platform.{Platform}
use agentanvil.Tools.Base.{on_machine}
use agentanvil.Loop.State as Loop
use agentanvil.Loop.State.{Locals, LoopState, LoopAction, on_sandbox, on_writer, on_client, assign}
use agentanvil.Loop.Run.{time}
use agentanvil.Loop.Answers.{Ready, Dependable, emit-Ready}

-- The writer is ready and has written events of these types.
abbrev pub Seen : List EventType → EventWriter → Type 0
Seen ts w = Ready w × (map EventEnvelope.type w.written ≡ ts)

emit-Seen :
    (dump : EventEnvelope → Result Text)
    → ((e : EventEnvelope) → IsOk (dump e))
    → (ts : List EventType) (type : EventType) (p : Payload)
    → Triple (Seen ts) (emit dump type (some p)) (λ e. Seen (ts ++ type ∷ [])) (λ w. ⊥)
emit-Seen dump dumps ts type p = record {
  at = λ w h.
      go w h.1 (emit dump type (some p) w) (emit-cases dump type (some p) w)
        ((emit-Ready dump dumps type (some p)).at w h.0);
}
  where
    go :
        (w : EventWriter)
        → map EventEnvelope.type w.written ≡ ts
        → (o : Result EventEnvelope × EventWriter)
        → After (Emitted dump type (some p) w) (Unwritten w) o
        → After (λ (e : EventEnvelope). Ready) (λ w. ⊥) o
        → After (λ (e : EventEnvelope). Seen (ts ++ type ∷ [])) (λ w. ⊥) o
    go w t (ok e, w') d r = (
      r,
      ap (map EventEnvelope.type) d.written
          ∙ map-append EventEnvelope.type w.written (e ∷ [])
          ∙ ap₂ (λ us u. us ++ u ∷ []) t d.e_type,
    )
    go w t (raised x, w') d r = absurd r

set_step-Seen :
    (ts : List EventType) (n : ℕ) → Triple (Seen ts) (set_step n) (λ a. Seen ts) (λ w. ⊥)
unfolding set_step
set_step-Seen ts n = record {
  at = λ w h. (record { open_ = h.0.open_; sound = h.0.sound; clock = h.0.clock }, h.1);
}

reading-Seen :
    (ts : List EventType) → Triple (Seen ts) (on_clock Clock.monotonic_ns) (λ n. Seen ts) (λ w. ⊥)
unfolding on_clock Clock.monotonic_ns on
reading-Seen ts = record {
  at = λ w h.
      let (c, e) = h.0.clock in
      subst
        (λ k.
          After (λ (n : ℕ). Seen ts) (λ v. ⊥)
            (on_clock Clock.monotonic_ns (record w { clock = k })))
        (sym e)
        (
          record {
            open_ = h.0.open_;
            sound = h.0.sound;
            clock = (record c { reads = suc c.reads }, refl);
          },
          h.1,
        );
}

module _ (P : Platform) (C : LlmClient) where
  -- The events so far, the client and the local variables.
  abbrev pub On : List EventType → C.State → Locals → LoopState P C → Type 0
  On ts c l s = Seen ts s.events × (s.client ≡ c) × (s.locals ≡ l)

  module _ (good : Dependable P) (E : LoopState P C → Type 0) (c : C.State) (l : Locals) where
    on_writer-On :
        {A : Type 0} {m : Action EventWriter A} {ts us : List EventType}
        → Triple (Seen ts) m (λ a. Seen us) (λ w. ⊥)
        → Triple (On ts c l) (on_writer P C m) (λ a. On us c l) E
    unfolding on_writer on_sandbox on
    on_writer-On {A} {m} {ts} {us} t = record {
      at = λ s h. go s (m s.events) (t.at s.events h.0) (h.1, h.2);
    }
      where
        go :
            (s : LoopState P C) (o : Result A × EventWriter)
            → After (λ (a : A). Seen us) (λ w. ⊥) o
            → (s.client ≡ c) × (s.locals ≡ l)
            → After {A = A}
                (λ a. On us c l)
                E
                (o.0, record s { sandbox = record (LoopState.sandbox s) { events = o.1 } })
        go s (ok a, w) h k = (h, k.0, k.1)
        go s (raised e, w) h k = absurd h

    pub emit-On :
        (ts : List EventType) (type : EventType) (p : Payload)
        → Triple (On ts c l) (Loop.emit P C type p) (λ e. On (ts ++ type ∷ []) c l) E
    unfolding Loop.emit
    emit-On ts type p = on_writer-On (emit-Seen P.dump good.dumps ts type p)

    pub set_step-On :
        (ts : List EventType) (n : ℕ)
        → Triple (On ts c l) (on_writer P C (set_step n)) (λ a. On ts c l) E
    set_step-On ts n = on_writer-On (set_step-Seen ts n)

    pub monotonic_ns-On :
        (ts : List EventType) → Triple (On ts c l) (Loop.monotonic_ns P C) (λ n. On ts c l) E
    unfolding Loop.monotonic_ns
    monotonic_ns-On ts = on_writer-On (reading-Seen ts)

    pub assign-On :
        (ts : List EventType) (f : Locals → Locals)
        → Triple (On ts c l) (assign P C f) (λ a. On ts c (f l)) E
    assign-On ts f = assign-Triple P C E f λ s h. (h.0, h.1, ap f h.2)

    pub time-On : (ts : List EventType) → Triple (On ts c l) (time P C) (λ n. On ts c l) E
    unfolding time on_machine on_sandbox on
    time-On ts = record { at = λ s h. go s (P.time s.machine) (good.tells_time s.machine) h }
      where
        go :
            (s : LoopState P C) (o : Result ℕ × P.Machine)
            → (n : ℕ) × (o.0 ≡ ok n)
            → On ts c l s
            → After
                (λ (n : ℕ). On ts c l)
                E
                (o.0, record s { sandbox = record (LoopState.sandbox s) { machine = o.1 } })
        go s (ok n, m) h r = r
        go s (raised x, m) h r = cc (h.1)

  -- A call of the client whose outcome is known.
  module _ (c : C.State) (l : Locals) (r : Request) (o : Result LlmResponse × C.State) where
    abbrev pub Threw : List EventType → LoopState P C → Type 0
    Threw ts s = (x : Exn) × (o.0 ≡ raised x) × On ts o.1 l s

    pub on_client-On :
        (ts : List EventType)
        → C.complete r c ≡ o
        → Triple
            (On ts c l)
            (on_client P C (C.complete r))
            (λ a s. (o.0 ≡ ok a) × On ts o.1 l s)
            (Threw ts)
    unfolding on_client on
    on_client-On ts answer = record {
      at = λ s h. go s (C.complete r s.client) (ap (C.complete r) h.1 ∙ answer) h;
    }
      where
        go :
            (s : LoopState P C) (o' : Result LlmResponse × C.State)
            → o' ≡ o
            → On ts c l s
            → After
                (λ a t. (o.0 ≡ ok a) × On ts o.1 l t)
                (Threw ts)
                (o'.0, record s { client = o'.1 })
        go s (ok a, c') e h = (ap (λ x. x.0) (sym e), (h.0, ap (λ x. x.1) e, h.2))
        go s (raised x, c') e h = (x, ap (λ x. x.0) (sym e), (h.0, ap (λ x. x.1) e, h.2))
