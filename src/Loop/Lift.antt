-- ===== src/Loop/Lift.antt =====
-- Triples about the writer or the sandbox, read as triples about the state of the loop.
use agentanvil.Prelude.{◌≡◌, refl}
use agentanvil.Python.Action.{Result, ok, raised, Action, gets}
use agentanvil.Python.Action.Rules.{After, Triple, Keeps, Keeps-intro}
use agentanvil.Events.Writer.{EventWriter}
use agentanvil.Client.Base.{LlmClient}
use agentanvil.Tools.Base.{Sandbox, ToolAction}
use agentanvil.Platform.{Platform}
use agentanvil.Loop.State.{Locals, LoopState, on_sandbox, on_writer, on_client, assign}

module _ (P : Platform) (C : LlmClient) where
  abbrev pub OnWriter : (EventWriter → Type 0) → LoopState P C → Type 0
  OnWriter J s = J s.events

  module _ {A : Type 0} {Pre : Sandbox P → Type 0} {m : ToolAction P A} {Q : A → Sandbox P → Type 0}
      {E : Sandbox P → Type 0} where
    pub on_sandbox-Triple :
        Triple Pre m Q E
        → Triple
            (λ s. Pre (LoopState.sandbox s))
            (on_sandbox P C m)
            (λ a s. Q a (LoopState.sandbox s))
            (λ s. E (LoopState.sandbox s))
    unfolding on_sandbox
    on_sandbox-Triple t = record { at = λ s h. go s (m s.sandbox) (t.at s.sandbox h) }
      where
        go :
            (s : LoopState P C) (o : Result A × Sandbox P)
            → After Q E o
            → After (λ a t. Q a t.sandbox) (λ t. E t.sandbox) (o.0, record s { sandbox = o.1 })
        go s (ok a, b) h = h
        go s (raised e, b) h = h

  module _ {A : Type 0} {Pre : EventWriter → Type 0} {m : Action EventWriter A}
      {Q : A → EventWriter → Type 0} {E : EventWriter → Type 0} where
    pub on_writer-Triple :
        Triple Pre m Q E
        → Triple (OnWriter Pre) (on_writer P C m) (λ a. OnWriter (Q a)) (OnWriter E)
    unfolding on_writer
    on_writer-Triple t = record { at = λ s h. go s (m s.events) (t.at s.events h) }
      where
        go :
            (s : LoopState P C) (o : Result A × EventWriter)
            → After Q E o
            → After
                (λ a t. Q a t.events)
                (λ t. E t.events)
                (o.0, record s { sandbox = record (LoopState.sandbox s) { events = o.1 } })
        go s (ok a, w) h = h
        go s (raised e, w) h = h

  -- What stands outside the writer does not matter to a property of the writer.
  module _ (J : EventWriter → Type 0) where
    pub on_client-OnWriter :
        {A : Type 0} (m : Action C.State A) → Keeps (OnWriter J) (on_client P C m)
    unfolding on_client
    on_client-OnWriter m = Keeps-intro λ s h. h

    pub assign-OnWriter : (f : Locals → Locals) → Keeps (OnWriter J) (assign P C f)
    unfolding assign
    assign-OnWriter f = Keeps-intro λ s h. h

  -- An assignment never raises.
  pub assign-Triple :
      {Pre Q : LoopState P C → Type 0} (E : LoopState P C → Type 0) (f : Locals → Locals)
      → ((s : LoopState P C) → Pre s → Q (record s { locals = f s.locals }))
      → Triple Pre (assign P C f) (λ a. Q) E
  unfolding assign
  assign-Triple E f h = record { at = h }

  pub gets-Triple :
      {A : Type 0} {Pre : LoopState P C → Type 0} (E : LoopState P C → Type 0)
      (f : LoopState P C → A)
      → Triple Pre (gets f) (λ a s. (f s ≡ a) × Pre s) E
  unfolding gets
  gets-Triple E f = record { at = λ s h. (refl, h) }
