-- ===== src/Loop/Protocol/Run.antt =====
-- A whole run, in phases.
use agentanvil.Prelude.{ℕ, zero, suc, ◌≡◌, refl, ap, String, Bool, true, false, some, []}
use agentanvil.Python.FilePath.{FilePath}
use agentanvil.Python.Action.{Exn, pure, gets, ◌>>◌}
use agentanvil.Python.Action.Rules.{
  After, Triple, Triple-pure, Triple-bind, Triple-weaken, Triple-try, Keeps, Keeps-intro,
}
use agentanvil.Events.Schema.{
  EventType, Payload, done, AgentDone, agent_start, agent_done, agent_error,
}
use agentanvil.Events.Writer.{EventWriter}
use agentanvil.Client.Base.{LlmClient}
use agentanvil.Config.{AgentTaskSpec}
use agentanvil.Platform.{Platform}
use agentanvil.Tools.Base.{on_machine}
use agentanvil.Loop.State.{LoopState, LoopAction, on_sandbox, emit}
use agentanvil.Loop.Lift.{OnWriter, on_writer-Triple, assign-OnWriter}
use agentanvil.Loop.Step.{Setup}
use agentanvil.Loop.Run.{again, round, while_steps, crash, guarded_loop, fuel_of, setup, run, time}
use agentanvil.Loop.Protocol.{Phase, fresh, idle, crashed, finished, next, phase_of}
use agentanvil.Loop.Protocol.Events.{At, Legal, emit-At, set_step-Keeps}
use agentanvil.Loop.Protocol.Steps.{
  AtS, OpenS, Moves, body-Moves, assign-Moves, gets-Moves, pure-Moves,
}

module _ (P : Platform) (C : LlmClient) where
  abbrev LegalS : LoopState P C → Type 0
  LegalS = OnWriter P C Legal

  again-Moves :
      (rest : LoopAction P C Bool)
      → Moves P C idle idle rest
      → (more : Bool) → Moves P C idle idle (again P C rest more)
  unfolding again
  again-Moves rest k true = k
  again-Moves rest k false = pure-Moves P C idle true

  round-Moves :
      (rest : LoopAction P C Bool) (u : Setup)
      → Moves P C idle idle rest
      → (b : Bool) → Moves P C idle idle (round P C rest u b)
  unfolding round
  round-Moves rest u k true = Triple-bind (body-Moves P C u) (again-Moves rest k)
  round-Moves rest u k false =
      Triple-bind (assign-Moves P C idle refl _) λ a. pure-Moves P C idle true

  emit-Raising :
      (p q : Phase) (type : EventType) (payload : Payload)
      → next p type ≡ some q
      → Triple (AtS P C p) (emit P C type payload) (λ e. AtS P C q) LegalS
  unfolding emit
  emit-Raising p q type payload move = on_writer-Triple P C (
      Triple-weaken (emit-At P.dump p q type (some payload) move) (λ w h. h) (λ e w h. h)
        (λ w h. (p, h)))

  while_steps-Moves : (fuel : ℕ) (u : Setup) → Moves P C idle idle (while_steps P C fuel u)
  unfolding while_steps
  while_steps-Moves zero u = pure-Moves P C idle false
  while_steps-Moves (suc fuel) u =
      Triple-bind (gets-Moves P C idle refl _)
        λ n. round-Moves (while_steps P C fuel u) u (while_steps-Moves fuel u) _

  -- Where `agent_done` may stand.
  abbrev Ending : EventWriter → Type 0
  Ending w = (p : Phase) × (At p w) × (next p agent_done ≡ some finished)

  Ending-Legal : (w : EventWriter) → Ending w → Legal w
  Ending-Legal w h = (h.0, h.1)

  -- What keeps a legal trace and may raise.
  keep :
      {A : Type 0} {J : EventWriter → Type 0} {m : LoopAction P C A}
      → ((w : EventWriter) → J w → Legal w)
      → Keeps (OnWriter P C J) m
      → Triple (OnWriter P C J) m (λ a. OnWriter P C J) LegalS
  keep legal k = Triple-weaken k (λ s h. h) (λ a s h. h) (λ s h. legal s.events h)

  crash-Ending : (x : Exn) → Triple (OpenS P C) (crash P C x) (λ b. OnWriter P C Ending) LegalS
  unfolding crash
  crash-Ending x = record { at = λ s h. (from_phase h.0 h.2).at s h.1 }
    where
      from_phase :
          (p : Phase)
          → next p agent_error ≡ some crashed
          → Triple (AtS P C p) (crash P C x) (λ b. OnWriter P C Ending) LegalS
      from_phase p move =
          Triple-bind
            (Triple-weaken (emit-Raising p crashed agent_error _ move) (λ s h. h)
              (λ e s h. (crashed, h, refl)) (λ s h. h))
            λ e.
              Triple-bind (keep Ending-Legal (assign-OnWriter P C Ending _))
                λ a. Triple-pure (λ b. OnWriter P C Ending) LegalS true

  guarded_loop-Ending :
      (u : Setup) → Triple (AtS P C idle) (guarded_loop P C u) (λ b. OnWriter P C Ending) LegalS
  unfolding guarded_loop
  guarded_loop-Ending u =
      Triple-try
        (Triple-weaken (while_steps-Moves (fuel_of P C u) u) (λ s h. h) (λ b s h. (idle, h, refl))
          (λ s h. h))
        crash-Ending

  time-OnWriter : (J : EventWriter → Type 0) → Keeps (OnWriter P C J) (time P C)
  unfolding time on_machine on_sandbox
  time-OnWriter J = Keeps-intro λ s h. h

  gets-OnWriter :
      {A : Type 0} (J : EventWriter → Type 0) (f : LoopState P C → A)
      → Keeps (OnWriter P C J) (gets f)
  unfolding gets
  gets-OnWriter J f = Keeps-intro λ s h. h

  done-Finished :
      (d : AgentDone)
      → Triple
          (OnWriter P C Ending)
          (do emit P C agent_done (done d); pure d)
          (λ a. AtS P C finished)
          LegalS
  done-Finished d = record {
    at = λ s h.
        (Triple-bind (emit-Raising h.0 finished agent_done _ h.2)
            λ e. Triple-pure (λ a. AtS P C finished) LegalS d).at
          s h.1;
  }

  run-Triple :
      (task_id : String) (workspace : FilePath) (spec : AgentTaskSpec)
      → Triple (AtS P C fresh) (run P C task_id workspace spec) (λ d. AtS P C finished) LegalS
  unfolding run
  run-Triple task_id workspace spec =
      Triple-bind
        (keep (λ w h. (fresh, h))
          (on_writer-Triple P C (set_step-Keeps (λ es. phase_of es ≡ some fresh) 0)))
        λ a. Triple-bind (emit-Raising fresh idle agent_start _ refl) λ e.
          Triple-bind (keep (λ w h. (idle, h)) (assign-OnWriter P C (At idle) _)) λ b.
            Triple-bind (keep (λ w h. (idle, h)) (time-OnWriter (At idle))) λ t0.
              Triple-bind (guarded_loop-Ending (setup workspace spec)) λ c.
                Triple-bind (keep Ending-Legal (time-OnWriter Ending))
                  λ t1. Triple-bind (keep Ending-Legal (gets-OnWriter Ending _)) done-Finished

  -- Let the writer have written nothing. The events of a run, those whose `emit` returned, are in
  -- the order of the automaton: of a run that returns it accepts them to the end, from
  -- `agent_start` to `agent_done`, and of a run that raises it accepts them so far. A file mutation
  -- stands between the start and the end of a tool call. This holds for every client, task and
  -- machine, and also where writes fail.
  pub run-protocol :
      (task_id : String) (workspace : FilePath) (spec : AgentTaskSpec) (s : LoopState P C)
      → s.events.written ≡ []
      → After (λ d t. At finished t.events) (λ t. Legal t.events) (run P C task_id workspace spec s)
  unfolding phase_of
  run-protocol task_id workspace spec s empty =
      (run-Triple task_id workspace spec).at s (ap phase_of empty)
