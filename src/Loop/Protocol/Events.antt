-- ===== src/Loop/Protocol/Events.antt =====
-- How one event moves the phase of a trace.
use agentanvil.Prelude.{ℕ, ◌≡◌, refl, ◌∙◌, ap, Option, some, List}
use agentanvil.Python.Text.{Text}
use agentanvil.Python.Action.{Result, ok, raised, Action}
use agentanvil.Python.Action.Rules.{After, Triple, Keeps, Keeps-intro}
use agentanvil.Deterministic.Clock.{Clock}
use agentanvil.Events.Schema.{EventType, file_mutation, agent_error, Payload, EventEnvelope}
use agentanvil.Events.Writer.{EventWriter, emit, set_step, on_clock}
use agentanvil.Events.Writer.Laws.{Emitted, Unwritten, emit-cases}
use agentanvil.Loop.Protocol.{Phase, in_tool, crashed, next, advance, phase_of, phase_of-append}

abbrev pub At : Phase → EventWriter → Type 0
At p w = phase_of w.written ≡ some p

-- A trace that an error may end.
abbrev pub Open : EventWriter → Type 0
Open w = (p : Phase) × (At p w) × (next p agent_error ≡ some crashed)

-- A trace that breaks no rule.
abbrev pub Legal : EventWriter → Type 0
Legal w = (p : Phase) × (At p w)

module _ (dump : EventEnvelope → Result Text) where
  pub emit-At :
      (p q : Phase) (type : EventType) (payload : Option Payload)
      → next p type ≡ some q
      → Triple (At p) (emit dump type payload) (λ e w. At q w) (At p)
  emit-At p q type payload move = record {
    at = λ w h. go w h (emit dump type payload w) (emit-cases dump type payload w);
  }
    where
      go :
          (w : EventWriter)
          → At p w
          → (o : Result EventEnvelope × EventWriter)
          → After (Emitted dump type payload w) (Unwritten w) o
          → After (λ e w'. At q w') (At p) o
      go w h (ok e, w') d =
          ap phase_of d.written
          ∙ phase_of-append w.written e
          ∙ ap (λ o. advance o e) h
          ∙ ap (next p) d.e_type
          ∙ move
      go w h (raised x, w') d = ap phase_of d.written ∙ h

  -- A file mutation stays inside its tool call.
  pub mutation-At :
      (payload : Option Payload) → Keeps (At in_tool) (emit dump file_mutation payload)
  mutation-At payload = emit-At in_tool in_tool file_mutation payload refl

pub set_step-Keeps :
    (J : List EventEnvelope → Type 0) (n : ℕ) → Keeps (λ w. J w.written) (set_step n)
unfolding set_step
set_step-Keeps J n = Keeps-intro λ w h. h

pub on_clock-Keeps :
    {A : Type 0} (J : List EventEnvelope → Type 0) (m : Action Clock A)
    → Keeps (λ w. J w.written) (on_clock m)
unfolding on_clock
on_clock-Keeps J m = Keeps-intro λ w h. h
