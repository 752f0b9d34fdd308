-- ===== src/Loop/Answers.antt =====
-- A run over a writer whose events cannot fail answers, whatever the client and the tools do.
use agentanvil.Prelude.{
  ℕ, suc, ◌≡◌, ◌≢◌, refl, sym, ◌∙◌, ap, subst, String, true, false, Option, some, [], ◌∷◌, ◌++◌,
}
use agentanvil.Python.Text.{Text}
use agentanvil.Python.FilePath.{FilePath}
use agentanvil.Python.Action.{Exn, Result, ok, raised, gets, lift, pure, continue, ◌>>=◌, ◌>>◌}
use agentanvil.Python.Action.Rules.{
  After, Triple, Triple-bind, Triple-pure, Triple-weaken, Triple-try, Keeps, Keeps-intro,
}
use agentanvil.Deterministic.Clock
use agentanvil.Deterministic.Clock.{SystemClock, system, iso_format}
use agentanvil.Deterministic.Clock.Laws.{after_tick}
use agentanvil.Events.Schema.{EventType, Payload, EventEnvelope, AgentDone}
use agentanvil.Events.Writer.{Sound, write_line, EventWriter, emit, stamp, set_step, on_clock}
use agentanvil.Events.Writer.Lines.{after_line, write_line-sent}
use agentanvil.Events.Writer.Laws.{IsOk, emit-cases, Emitted, Unwritten}
use agentanvil.Client.Base.{LlmClient}
use agentanvil.Config.{AgentTaskSpec}
use agentanvil.Platform.{Platform}
use agentanvil.Tools.Base.{on_machine}
use agentanvil.Loop.State as Loop
use agentanvil.Loop.State.{Locals, LoopState, LoopAction, on_sandbox, on_writer, assign}
use agentanvil.Loop.Lift.{OnWriter, on_writer-Triple, assign-Triple}
use agentanvil.Loop.Step.{Setup}
use agentanvil.Loop.Run.{set_outcome, fuel_of, crash, guarded_loop, setup, time, run}
use agentanvil.Loop.Invariant.{while_steps-Keeps}
use agentanvil.Loop.Trace.{WriterKeeps, writer_actions}
use agentanvil.Loop.Protocol.{finished}
use agentanvil.Loop.Protocol.Events.{At, Legal}
use agentanvil.Loop.Protocol.Run.{run-protocol}

-- The file is open, every write succeeds, and the clock is the machine's.
pub record Ready (w : EventWriter) : Type 0 where
  pub open_ : w.closed ≡ false
  pub sound : Sound w.streams
  pub clock : (c : SystemClock) × (w.clock ≡ system c)

module _ (dump : EventEnvelope → Result Text) (dumps : (e : EventEnvelope) → IsOk (dump e)) where
  emit-returns :
      (type : EventType) (payload : Option Payload) (c : SystemClock) (w : EventWriter)
      → Sound w.streams
      → (x : Exn)
      → (emit dump type payload (record w { clock = system c; closed = false })).0 ≢ raised x
  unfolding emit ◌>>=◌ Clock.now_iso Clock.monotonic_ns Clock.tick gets lift pure on_clock
  emit-returns type payload c w sound x = go (dump stamped) (dumps stamped)
    where
      stamped : EventEnvelope
      stamped =
          stamp dump type payload (iso_format (c.now_at c.reads)) (c.monotonic_at (suc c.reads)) w

      read : EventWriter
      read = record w { clock = system (record c { reads = suc (suc c.reads) }); closed = false }

      go :
          (r : Result Text)
          → IsOk r
          → (continue r
              (λ line. do write_line stamped (line ++ 10 ∷ []); on_clock Clock.tick; pure stamped)
              read).0
            ≢ raised x
      go (raised y) d h = absurd d
      go (ok line) d h =
          let wrote : write_line stamped (line ++ 10 ∷ []) read
              ≡ (ok tt, after_line stamped (line ++ 10 ∷ []) read) =
            write_line-sent (line ++ 10 ∷ []) read refl sound stamped in
          let ends : ok stamped ≡ raised x =
            sym (
              ap
                (λ (o : Result (Unit {0}) × EventWriter).
                  (continue o.0 (λ a. do on_clock Clock.tick; pure stamped) o.1).0)
                wrote)
            ∙ h in
          cc ends

  after_tick-system :
      (w : EventWriter) → Ready w → (c : SystemClock) × (after_tick w.clock ≡ system c)
  unfolding Clock.now_iso Clock.monotonic_ns Clock.tick
  after_tick-system w r =
      let (c, e) = r.clock in (record c { reads = suc (suc c.reads) }, ap after_tick e ∙ refl)

  -- Such a writer writes every event, and stays ready.
  pub emit-Ready :
      (type : EventType) (payload : Option Payload)
      → Triple Ready (emit dump type payload) (λ e. Ready) (λ w. ⊥)
  emit-Ready type payload = record {
    at = λ w r.
        go w r (emit dump type payload w) (emit-cases dump type payload w) (never_raises w r);
  }
    where
      never_raises :
          (w : EventWriter) → Ready w → (x : Exn) → (emit dump type payload w).0 ≢ raised x
      never_raises w r x =
          let (c, e) = r.clock in
          let whole : record w { clock = system c; closed = false } ≡ w =
            λ i. record w { clock = sym e i; closed = sym r.open_ i } in
          subst (λ (v : EventWriter). (emit dump type payload v).0 ≢ raised x) whole
            (emit-returns type payload c w r.sound x)

      go :
          (w : EventWriter)
          → Ready w
          → (o : Result EventEnvelope × EventWriter)
          → After (Emitted dump type payload w) (Unwritten w) o
          → ((x : Exn) → o.0 ≢ raised x)
          → After (λ e. Ready) (λ w. ⊥) o
      go w r (ok e, w') d ne =
          let (c, p) = after_tick-system w r in
          record {
            open_ = d.closed;
            sound = subst Sound (sym d.streams) r.sound;
            clock = (c, d.clock ∙ p);
          }
      go w r (raised x, w') d ne = ne x refl

set_step-Ready : (n : ℕ) → Keeps Ready (set_step n)
unfolding set_step
set_step-Ready n = Keeps-intro λ w r. record { open_ = r.open_; sound = r.sound; clock = r.clock }

reading-Ready : Keeps Ready (on_clock Clock.monotonic_ns)
unfolding on_clock Clock.monotonic_ns
reading-Ready = Keeps-intro λ w r.
    let (c, e) = r.clock in
    record {
      open_ = r.open_;
      sound = r.sound;
      clock = (record c { reads = suc c.reads }, ap (λ k. (Clock.monotonic_ns k).1) e ∙ refl);
    }

module _ (P : Platform) where
  -- What the machine has to do for a run to be answered.
  pub record Dependable : Type 0 where
    pub dumps : (e : EventEnvelope) → IsOk (P.dump e)
    pub tells_time : (m : P.Machine) → (n : ℕ) × ((P.time m).0 ≡ ok n)

module _ (P : Platform) (C : LlmClient) where
  abbrev ReadyS : LoopState P C → Type 0
  ReadyS = OnWriter P C Ready

  -- A part of the run that cannot raise.
  abbrev Answers : {A : Type 0} → LoopAction P C A → Type 0
  Answers m = Triple ReadyS m (λ a. ReadyS) (λ s. ⊥)

  module _ (good : Dependable P) where
    ready : WriterKeeps P C Ready
    ready = record {
      event = λ type p shape.
          Triple-weaken (emit-Ready P.dump good.dumps type (some p)) (λ w r. r) (λ e w r. r)
            (λ w x. absurd x);
      numbered = set_step-Ready;
      reading = reading-Ready;
    }

    emit-Answers : (type : EventType) (p : Payload) → Answers (Loop.emit P C type p)
    unfolding Loop.emit
    emit-Answers type p = on_writer-Triple P C (emit-Ready P.dump good.dumps type (some p))

    assign-Answers : (f : Locals → Locals) → Answers (assign P C f)
    assign-Answers f = assign-Triple P C (λ s. ⊥) f (λ s r. r)

    numbered-Answers : (n : ℕ) → Answers (on_writer P C (set_step n))
    unfolding on_writer set_step
    numbered-Answers n = record {
      at = λ s r. record { open_ = r.open_; sound = r.sound; clock = r.clock };
    }

    time-Answers : Answers (time P C)
    unfolding time on_machine on_sandbox
    time-Answers = record { at = λ s r. go s (P.time s.machine) (good.tells_time s.machine) r }
      where
        go :
            (s : LoopState P C) (o : Result ℕ × P.Machine)
            → (n : ℕ) × (o.0 ≡ ok n)
            → ReadyS s
            → After
                (λ (n : ℕ). ReadyS)
                (λ s. ⊥)
                (o.0, record s { sandbox = record (LoopState.sandbox s) { machine = o.1 } })
        go s (ok n, m) h r = r
        go s (raised x, m) h r = cc (h.1)

    -- The loop may raise, and its handler may not.
    guarded_loop-Answers : (u : Setup) → Answers (guarded_loop P C u)
    unfolding guarded_loop crash set_outcome
    guarded_loop-Answers u =
        Triple-try
          (while_steps-Keeps P C ReadyS (λ t. Unit) (writer_actions P C Ready ready) u (λ n t e. tt)
            (fuel_of P C u))
          λ x.
            Triple-bind (emit-Answers _ _)
              λ e. Triple-bind (assign-Answers _) λ a. Triple-pure (λ b. ReadyS) (λ s. ⊥) true

    gets-Answers : {A : Type 0} (f : LoopState P C → A) → Answers (gets f)
    unfolding gets
    gets-Answers f = record { at = λ s r. r }

    pub run-Answers :
        (task_id : String) (workspace : FilePath) (spec : AgentTaskSpec)
        → Answers (run P C task_id workspace spec)
    unfolding run
    run-Answers task_id workspace spec = Triple-bind (numbered-Answers 0) λ a.
        Triple-bind (emit-Answers _ _) λ e. Triple-bind (assign-Answers _) λ b.
          Triple-bind time-Answers λ t0.
            Triple-bind (guarded_loop-Answers (setup workspace spec)) λ c.
              Triple-bind time-Answers λ t1.
                Triple-bind (gets-Answers _)
                  λ d. Triple-bind (emit-Answers _ _) λ e'. Triple-pure (λ d. ReadyS) (λ s. ⊥) _

    -- Let every event be dumped, every write to the file and to the echo succeed, and the machine
    -- tell the time. A run whose writer is open, has written nothing and reads the machine's clocks
    -- returns a result, whatever the client answers or raises and whatever the tools do: it neither
    -- raises nor stops halfway. Its trace goes from `agent_start` to `agent_done`, and its file can
    -- still be written.
    pub run-answers :
        (task_id : String) (workspace : FilePath) (spec : AgentTaskSpec) (s : LoopState P C)
        → Ready s.events
        → s.events.written ≡ []
        → (d : AgentDone) × (t : LoopState P C) × (run P C task_id workspace spec s ≡ (ok d, t))
          × (At finished t.events)
          × Ready t.events
    run-answers task_id workspace spec s r empty =
        go (run P C task_id workspace spec s) (run-protocol P C task_id workspace spec s empty)
          ((run-Answers task_id workspace spec).at s r)
      where
        go :
            (o : Result AgentDone × LoopState P C)
            → After (λ d t. At finished t.events) (λ t. Legal t.events) o
            → After (λ d. ReadyS) (λ s. ⊥) o
            → (d : AgentDone) × (t : LoopState P C) × (o ≡ (ok d, t))
              × (At finished t.events)
              × Ready t.events
        go (ok d, t) p q = (d, t, refl, p, q)
        go (raised x, t) p q = absurd q
