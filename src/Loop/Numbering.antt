-- ===== src/Loop/Numbering.antt =====
-- The steps that the events of loop.py bear.
pub mod Rounds
pub mod Run
use agentanvil.Prelude.{
  ℕ, suc, ◌≤◌, ◌≡◌, refl, sym, ◌∙◌, ap, subst, ◌⊎◌, inl, inr, String, Bool, true, false, Option,
  some, List, [], ◌∷◌, ◌++◌, arith, All, All-append,
}
use agentanvil.Python.Text.{Text}
use agentanvil.Python.Action.{Exn, Result, ok, raised, pure, gets, ◌>>=◌, ◌>>◌}
use agentanvil.Python.Action.Rules.{
  After, Triple, Triple-pure, Triple-bind, Triple-weaken, Triple-if, Keeps, Keeps-intro, Keeps-both,
  Keeps-pure,
}
use agentanvil.Deterministic.Clock
use agentanvil.Events.Schema.{
  EventType, Payload, EventEnvelope, agent_step_start, agent_step_end, step_number,
}
use agentanvil.Events.Writer as Writer
use agentanvil.Events.Writer.{EventWriter, set_step, on_clock}
use agentanvil.Events.Writer.Laws.{Emitted, Unwritten, emit-Keeps}
use agentanvil.Client.Base.{LlmClient, LlmResponse, ToolUse, Request}
use agentanvil.Platform.{Platform}
use agentanvil.Tools.Registry.{Tool}
use agentanvil.Loop.State.{
  Locals, LoopState, LoopAction, on_writer, on_client, on_sandbox, assign, emit, monotonic_ns,
  build_assistant_message,
}
use agentanvil.Loop.Lift.{
  OnWriter, on_writer-Triple, on_client-OnWriter, assign-OnWriter, assign-Triple, gets-Triple,
}
use agentanvil.Loop.Step.{
  Setup, call_tool, add_totals, append_message, call_llm, end_step, finish_step, body, wants_tools,
}
use agentanvil.Loop.Keeps.{gets-Keeps, Primitives, run_tools-Keeps, call_llm-Keeps}
use agentanvil.Loop.Trace as Trace

-- No event bears a step that is below that of an earlier event.
abbrev pub Ascending : List EventEnvelope → Type 0
Ascending [] = Unit
Ascending (e ∷ es) = All (λ (x : EventEnvelope). e.step ≤ x.step) es × Ascending es

abbrev pub AllUpTo : ℕ → List EventEnvelope → Type 0
AllUpTo k = All (λ (e : EventEnvelope). e.step ≤ k)

Ascending-snoc :
    (es : List EventEnvelope) (e : EventEnvelope)
    → Ascending es
    → AllUpTo e.step es
    → Ascending (es ++ e ∷ [])
Ascending-snoc [] e h le = (tt, tt)
Ascending-snoc (x ∷ es) e (h, hs) (le, les) =
    (All-append _ es (e ∷ []) h (le, tt), Ascending-snoc es e hs les)

AllUpTo-mono : (es : List EventEnvelope) {k n : ℕ} → k ≤ n → AllUpTo k es → AllUpTo n es
AllUpTo-mono [] le h = tt
AllUpTo-mono (e ∷ es) le (h, hs) = (omega arith, AllUpTo-mono es le hs)

-- The writer stands at step `k`, which no event exceeds.
pub record InOrder (k : ℕ) (w : EventWriter) : Type 0 where
  pub step : w.step ≡ k
  pub ascending : Ascending w.written
  pub bounded : AllUpTo k w.written

pub emit-InOrder :
    (dump : EventEnvelope → Result Text) (k : ℕ) (type : EventType) (payload : Option Payload)
    → Keeps (InOrder k) (Writer.emit dump type payload)
emit-InOrder dump k type payload =
    emit-Keeps dump type payload (InOrder k)
      (λ w e w' h d.
        let at : e.step ≡ k = d.e_step ∙ h.step in
        record {
          step = d.step ∙ h.step;
          ascending = subst Ascending (sym d.written) (
              Ascending-snoc w.written e h.ascending
                (subst (λ n. AllUpTo n w.written) (sym at) h.bounded));
          bounded =
              subst (AllUpTo k) (sym d.written)
                (All-append _ w.written (e ∷ []) h.bounded (omega (arith, at), tt));
        })
      (λ w w' h d. record {
        step = d.step ∙ h.step;
        ascending = subst Ascending (sym d.written) h.ascending;
        bounded = subst (AllUpTo k) (sym d.written) h.bounded;
      })

reading-InOrder : (k : ℕ) → Keeps (InOrder k) (on_clock Clock.monotonic_ns)
unfolding on_clock
reading-InOrder k =
    Keeps-intro λ w h. record { step = h.step; ascending = h.ascending; bounded = h.bounded }

-- The loop is in the writer's step, or behind its end.
pub record IsLoose (w : EventWriter) (l : Locals) : Type 0 where
  pub k : ℕ
  pub n : ℕ
  pub low : k ≤ n
  pub high : n ≤ suc k
  pub ordered : InOrder k w
  pub step : l.step ≡ n

module _ (P : Platform) (C : LlmClient) where
  -- What the local variables alone say is kept by all that is not an assignment.
  module _ (L : Locals → Type 0) where
    abbrev OnLocals : LoopState P C → Type 0
    OnLocals s = L s.locals

    emit-OnLocals : (type : EventType) (p : Payload) → Keeps OnLocals (emit P C type p)
    unfolding emit on_writer
    emit-OnLocals type p = Keeps-intro λ s h. h

    clock-OnLocals : Keeps OnLocals (monotonic_ns P C)
    unfolding monotonic_ns on_writer
    clock-OnLocals = Keeps-intro λ s h. h

    call_tool-OnLocals : (t : Tool) (tu : ToolUse) → Keeps OnLocals (call_tool P C t tu)
    unfolding call_tool on_sandbox
    call_tool-OnLocals t tu = Keeps-intro λ s h. h

    client-OnLocals : (r : Request) → Keeps OnLocals (on_client P C (C.complete r))
    unfolding on_client
    client-OnLocals r = Keeps-intro λ s h. h

  -- The writer stands at step `k`, and the loop at step `n`.
  abbrev pub Stage : ℕ → ℕ → LoopState P C → Type 0
  Stage k n s = InOrder k s.events × (s.step ≡ n)

  module _ (k n : ℕ) where
    pub emit-Stage : (type : EventType) (p : Payload) → Keeps (Stage k n) (emit P C type p)
    emit-Stage type p =
        Keeps-both (Trace.emit-Keeps P C (InOrder k) type p (emit-InOrder P.dump k type (some p)))
          (emit-OnLocals (λ l. l.step ≡ n) type p)

    stage_primitives : Primitives P C (Stage k n) (λ t. Unit) (λ t. Unit)
    unfolding monotonic_ns
    stage_primitives = record {
      event = λ type p shape h. emit-Stage type p;
      clock =
          Keeps-both (on_writer-Triple P C (reading-InOrder k)) (clock-OnLocals (λ l. l.step ≡ n));
      call = λ t o tu.
          Keeps-both (Trace.call_tool-Keeps P C (InOrder k) (λ m. emit-InOrder P.dump k _ _) t tu)
            (call_tool-OnLocals (λ l. l.step ≡ n) t tu);
    }

    assign-Stage :
        (f : Locals → Locals)
        → ((l : Locals) → (f l).step ≡ l.step)
        → Keeps (Stage k n) (assign P C f)
    unfolding assign
    assign-Stage f same = Keeps-intro λ s h. (h.0, same s.locals ∙ h.1)

    call_llm-Stage : (u : Setup) → Keeps (Stage k n) (call_llm P C u)
    unfolding add_totals
    call_llm-Stage u =
        call_llm-Keeps P C (Stage k n) (λ t. Unit) (λ t. Unit) stage_primitives
          (λ r.
            Keeps-both (on_client-OnWriter P C (InOrder k) _) (client-OnLocals (λ l. l.step ≡ n) r))
          tt tt u (λ r. assign-Stage _ (λ l. refl))

  abbrev pub Loose : LoopState P C → Type 0
  Loose s = IsLoose s.events s.locals

  loosely :
      (k n : ℕ)
      → k ≤ n
      → n ≤ suc k
      → {A : Type 0} {m : LoopAction P C A} → Keeps (Stage k n) m
      → Triple (Stage k n) m (λ a. Stage k n) Loose
  loosely k n low high t =
      Triple-weaken t (λ s h. h) (λ a s h. h)
        (λ s h. record { k = k; n = n; low = low; high = high; ordered = h.0; step = h.1 })

  pub numbered :
      (k n : ℕ) → k ≤ n → Triple (Stage k n) (on_writer P C (set_step n)) (λ a. Stage n n) Loose
  unfolding on_writer set_step
  numbered k n low = record {
    at = λ s h. (
      record {
        step = refl;
        ascending = h.0.ascending;
        bounded = AllUpTo-mono s.events.written low h.0.bounded;
      },
      h.1,
    );
  }

  end_step-Stage : (n : ℕ) → Triple (Stage n n) (end_step P C) (λ a. Stage n (suc n)) Loose
  unfolding end_step
  end_step-Stage n =
      Triple-bind (loosely n n (omega arith) (omega arith) (gets-Keeps P C (Stage n n) _)) λ k.
        Triple-bind (loosely n n (omega arith) (omega arith) (emit-Stage n n agent_step_end _))
          λ e. assign-Triple P C Loose _ λ s h. (h.0, ap suc h.1)

  finish_step-Stage :
      (n : ℕ) (u : Setup) (r : LlmResponse)
      → Triple (Stage n n) (finish_step P C u r) (λ b. Stage n (suc n)) Loose
  unfolding finish_step append_message
  finish_step-Stage n u r =
      Triple-if (wants_tools r)
        (Triple-bind
          (loosely n n (omega arith) (omega arith) (
            run_tools-Keeps P C (Stage n n) (λ t. Unit) (λ t. Unit) (stage_primitives n n) tt tt _
              (λ m t e. tt) _))
          λ bs.
            Triple-bind (loosely n n (omega arith) (omega arith) (assign-Stage n n _ (λ l. refl)))
              λ a.
                Triple-bind (end_step-Stage n) λ b. Triple-pure (λ b. Stage n (suc n)) Loose true)
        (Triple-bind (end_step-Stage n) λ a.
          Triple-bind (assign-Triple P C {Q = Stage n (suc n)} Loose _ (λ s h. (h.0, h.1)))
            λ b. Triple-pure (λ b. Stage n (suc n)) Loose false)

  -- The body of the loop behind its reading of `step`.
  body_at : Setup → ℕ → LoopAction P C Bool
  body_at u n = do
    on_writer P C (set_step n)
    emit P C agent_step_start (step_number n)
    resp ← call_llm P C u
    append_message P C (build_assistant_message resp)
    finish_step P C u resp

  body_at-Stage :
      (k n : ℕ)
      → k ≤ n
      → n ≤ suc k
      → (u : Setup) → Triple (Stage k n) (body_at u n) (λ b. Stage n (suc n)) Loose
  unfolding body_at append_message
  body_at-Stage k n low high u = Triple-bind (numbered k n low) λ a.
      Triple-bind (loosely n n (omega arith) (omega arith) (emit-Stage n n agent_step_start _)) λ e.
        Triple-bind (loosely n n (omega arith) (omega arith) (call_llm-Stage n n u)) λ r.
          Triple-bind (loosely n n (omega arith) (omega arith) (assign-Stage n n _ (λ l. refl)))
            λ b. finish_step-Stage n u r

  -- A round from step `n`, whose number the writer takes over.
  pub body-Stage :
      (k n : ℕ)
      → k ≤ n
      → n ≤ suc k
      → (u : Setup) → Triple (Stage k n) (body P C u) (λ b. Stage n (suc n)) Loose
  unfolding body body_at
  body-Stage k n low high u = Triple-bind (gets-Triple P C Loose (λ s. s.step)) λ m. record {
    at = λ s h.
        (subst (λ i. Triple (Stage k n) (body_at u i) (λ b. Stage n (suc n)) Loose)
            (sym h.1.1 ∙ h.0) (body_at-Stage k n low high u)).at
          s h.1;
  }
