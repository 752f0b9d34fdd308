-- ===== src/Loop/Measure.antt =====
-- Sums over the events of a trace, and what the actions of the loop add to them.
use agentanvil.Prelude.{ℕ, ◌+◌, ◌≡◌, ◌∙◌, ap, ap₂, Option, some, List, [], ◌∷◌, ◌++◌, arith}
use agentanvil.Python.Text.{Text}
use agentanvil.Python.Action.{Result, ok, raised}
use agentanvil.Python.Action.Rules.{
  After, Triple, Triple-bind, Triple-weaken, Triple-try, Keeps, Keeps-intro, Keeps-pure,
  Keeps-state,
}
use agentanvil.Events.Schema.{EventType, file_mutation, mutation, Payload, EventEnvelope}
use agentanvil.Events.Writer as Writer
use agentanvil.Events.Writer.{EventWriter, set_step, on_clock, or_no_fields}
use agentanvil.Events.Writer.Laws.{Emitted, Unwritten, emit-Keeps, emit-cases}
use agentanvil.Client.Base.{ToolUse, Request, LlmClient}
use agentanvil.Platform.{Platform}
use agentanvil.Tools.Registry.{Tool}
use agentanvil.Tools.Safety.{run_tool-OnEvents}
use agentanvil.Loop.State.{Locals, LoopState, on_sandbox, on_writer, on_client, emit, monotonic_ns}
use agentanvil.Loop.Step.{call_tool}
use agentanvil.Loop.Keeps.{Primitives}
use agentanvil.Loop.Lift.{OnWriter, on_sandbox-Triple}

module _ (weigh : EventType → Payload → ℕ) where
  unfoldable pub measure : List EventEnvelope → ℕ
  measure [] = 0
  measure (e ∷ es) = weigh e.type e.payload + measure es

  pub measure-append :
      (es : List EventEnvelope) (e : EventEnvelope)
      → measure (es ++ e ∷ []) ≡ measure es + weigh e.type e.payload
  unfolding measure
  measure-append [] e = omega arith
  measure-append (x ∷ es) e = omega (arith, measure-append es e)

  -- An event of this type weighs nothing.
  abbrev pub IsWeightless : EventType → Type 0
  IsWeightless type = (p : Payload) → weigh type p ≡ 0

  module _ (dump : EventEnvelope → Result Text) where
    emit-adds-writer :
        (type : EventType) (payload : Payload) (a : ℕ)
        → Triple
            (λ w. measure w.written ≡ a)
            (Writer.emit dump type (some payload))
            (λ e w. measure w.written ≡ a + weigh type payload)
            (λ w. measure w.written ≡ a)
    emit-adds-writer type payload a = record {
      at = λ w h.
          go w h (Writer.emit dump type (some payload) w) (emit-cases dump type (some payload) w);
    }
      where
        go :
            (w : EventWriter)
            → measure w.written ≡ a
            → (o : Result EventEnvelope × EventWriter)
            → After (Emitted dump type (some payload) w) (Unwritten w) o
            → After
                (λ e w'. measure w'.written ≡ a + weigh type payload)
                (λ w'. measure w'.written ≡ a)
                o
        go w h (ok e, w') d =
            ap measure d.written
            ∙ measure-append w.written e
            ∙ ap₂ (λ m n. m + n) h (ap₂ weigh d.e_type d.e_payload)
        go w h (raised x, w') d = ap measure d.written ∙ h

    mutation-keeps :
        IsWeightless file_mutation
        → (p : Option Payload) (a : ℕ)
        → Keeps (λ w. measure w.written ≡ a) (Writer.emit dump file_mutation p)
    mutation-keeps light p a =
        emit-Keeps dump file_mutation p (λ w. measure w.written ≡ a)
          (λ w e w' h d.
            ap measure d.written
            ∙ measure-append w.written e
            ∙ ap₂ (λ m n. m + n) h (ap₂ weigh d.e_type d.e_payload ∙ light _)
            ∙ omega arith)
          (λ w w' h d. ap measure d.written ∙ h)

-- What the loop's actions do to a sum and to the local variables.
module _ (weigh : EventType → Payload → ℕ) (P : Platform) (C : LlmClient) where
  -- The sum is `a` and the local variables satisfy `L`.
  pub record Sums (a : ℕ) (L : Locals → Type 0) (s : LoopState P C) : Type 0 where
    pub total : measure weigh s.events.written ≡ a
    pub rest : L s.locals

  module _ (L : Locals → Type 0) where
    pub emit-adds :
        (type : EventType) (payload : Payload) (a : ℕ)
        → Triple
            (Sums a L)
            (emit P C type payload)
            (λ e. Sums (a + weigh type payload) L)
            (Sums a L)
    unfolding emit on_writer
    emit-adds type payload a = record {
      at = λ s h.
          go s h.rest (Writer.emit P.dump type (some payload) s.events)
            ((emit-adds-writer weigh P.dump type payload a).at s.events h.total);
    }
      where
        go :
            (s : LoopState P C)
            → L s.locals
            → (o : Result EventEnvelope × EventWriter)
            → After
                (λ e w. measure weigh w.written ≡ a + weigh type payload)
                (λ w. measure weigh w.written ≡ a)
                o
            → After
                (λ e. Sums (a + weigh type payload) L)
                (Sums a L)
                (o.0, record s { sandbox = record (LoopState.sandbox s) { events = o.1 } })
        go s l (ok e, w) h = record { total = h; rest = l }
        go s l (raised x, w) h = record { total = h; rest = l }

    pub light-Keeps :
        (type : EventType) (payload : Payload) (a : ℕ)
        → IsWeightless weigh type
        → Keeps (Sums a L) (emit P C type payload)
    light-Keeps type payload a light =
        Triple-weaken (emit-adds type payload a) (λ s h. h)
          (λ e s h. record {
            total = h.total ∙ ap (λ n. a + n) (light payload) ∙ omega arith;
            rest = h.rest;
          })
          (λ s h. h)

    clock-Keeps : (a : ℕ) → Keeps (Sums a L) (monotonic_ns P C)
    unfolding monotonic_ns on_writer on_clock
    clock-Keeps a = Keeps-intro λ s h. record { total = h.total; rest = h.rest }

    pub client-Keeps : (a : ℕ) (r : Request) → Keeps (Sums a L) (on_client P C (C.complete r))
    unfolding on_client
    client-Keeps a r = Keeps-intro λ s h. record { total = h.total; rest = h.rest }

    call_tool-OnWriter :
        (a : ℕ) (t : Tool) (tu : ToolUse)
        → IsWeightless weigh file_mutation
        → Keeps (OnWriter P C (λ w. measure weigh w.written ≡ a)) (call_tool P C t tu)
    unfolding call_tool
    call_tool-OnWriter a t tu light = on_sandbox-Triple P C (
        Triple-try
          (Triple-bind
            (run_tool-OnEvents P (λ w. measure weigh w.written ≡ a)
              (λ m. mutation-keeps weigh P.dump light (some (mutation m)) a) t _)
            (λ r. Keeps-pure _))
          (λ x. Keeps-pure _))

    call_tool-Keeps :
        (a : ℕ) (t : Tool) (tu : ToolUse)
        → IsWeightless weigh file_mutation
        → Keeps (Sums a L) (call_tool P C t tu)
    unfolding call_tool on_sandbox
    call_tool-Keeps a t tu light = Keeps-intro λ s h. record {
      total = Keeps-state (call_tool-OnWriter a t tu light) s h.total;
      rest = h.rest;
    }

    pub Sums-Primitives :
        (a : ℕ)
        → IsWeightless weigh file_mutation
        → Primitives P C (Sums a L) (IsWeightless weigh) (λ t. Unit)
    Sums-Primitives a light = record {
      event = λ type p shape l. light-Keeps type p a l;
      clock = clock-Keeps a;
      call = λ t o tu. call_tool-Keeps a t tu light;
    }
