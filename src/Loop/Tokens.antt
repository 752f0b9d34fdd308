-- ===== src/Loop/Tokens.antt =====
-- The tokens that a run reports against those of its `llm_call_end` events: one step.
pub mod Run
use agentanvil.Prelude.{
  ℕ, String, ◌+◌, ◌≤◌, ◌≡◌, refl, sym, ◌∙◌, ap, subst, ◌⊎◌, inl, inr, Bool, true, false, List,
  arith,
}
use agentanvil.Python.Action.{Action, pure, gets, ◌>>=◌, ◌>>◌}
use agentanvil.Python.Action.Rules.{
  After, Triple, Triple-pure, Triple-bind, Triple-weaken, Triple-if, Keeps, Keeps-intro,
}
use agentanvil.Events.Schema.{
  EventType, agent_step_start, agent_step_end, llm_call_start, llm_call_end, Payload, call_end,
  LlmCallEnd, EventEnvelope, AgentDone,
}
use agentanvil.Events.Writer.{set_step}
use agentanvil.Client.Base.{LlmResponse, Request, LlmClient}
use agentanvil.Pricing.{compute_cost}
use agentanvil.Platform.{Platform}
use agentanvil.Loop.State.{
  Locals, LoopState, LoopAction, on_writer, on_client, assign, emit, monotonic_ns,
}
use agentanvil.Loop.Step.{
  Setup, add_totals, append_message, call_llm, end_step, finish_step, body, wants_tools, run_tools,
}
use agentanvil.Loop.Keeps.{gets-Keeps, run_tools-Keeps, Primitives}
use agentanvil.Loop.Lift.{assign-Triple}
use agentanvil.Loop.Measure.{
  measure, IsWeightless, Sums, emit-adds, client-Keeps, light-Keeps, Sums-Primitives,
}

-- The two counts that a provider reports.
pub data Tokens : Type 0 where
  input output : Tokens

abbrev pub of_call : Tokens → Payload → ℕ
of_call input (call_end d) = d.input_tokens
of_call output (call_end d) = d.output_tokens
of_call k p = 0

-- The tokens that an event reports.
abbrev pub tokens : Tokens → EventType → Payload → ℕ
tokens k llm_call_end p = of_call k p
tokens k type p = 0

abbrev pub sum_tokens : Tokens → List EventEnvelope → ℕ
sum_tokens k = measure (tokens k)

abbrev pub total : Tokens → Locals → ℕ
total input l = l.total_input_tokens
total output l = l.total_output_tokens

abbrev pub spent : Tokens → LlmResponse → ℕ
spent input r = r.input_tokens
spent output r = r.output_tokens

abbrev pub reported : Tokens → AgentDone → ℕ
reported input d = d.total_input_tokens
reported output d = d.total_output_tokens

same_total :
    (k : Tokens) (l l' : Locals)
    → l'.total_input_tokens ≡ l.total_input_tokens
    → l'.total_output_tokens ≡ l.total_output_tokens
    → total k l' ≡ total k l
same_total input l l' i o = i
same_total output l l' i o = o

module _ (P : Platform) (C : LlmClient) (k : Tokens) where
  -- All that was counted is in the trace.
  abbrev pub Balanced : LoopState P C → Type 0
  Balanced s = sum_tokens k s.events.written ≡ total k s.locals

  -- The last response may be missing from the trace.
  abbrev pub Short : LoopState P C → Type 0
  Short s = sum_tokens k s.events.written ≤ total k s.locals

  abbrev pub Spends : ℕ → ℕ → LoopState P C → Type 0
  Spends a b = Sums (tokens k) P C a (λ l. total k l ≡ b)

  Spends-Balanced : (a : ℕ) (s : LoopState P C) → Spends a a s → Balanced s
  Spends-Balanced a s h = h.total ∙ sym h.rest

  Spends-Short : (a b : ℕ) → a ≤ b → (s : LoopState P C) → Spends a b s → Short s
  Spends-Short a b le s h = omega (arith, h.total, h.rest)

  -- What holds from every sum holds.
  pub from_any :
      {A : Type 0} {m : LoopAction P C A} {Q : A → LoopState P C → Type 0}
      {E : LoopState P C → Type 0}
      → ((a : ℕ) → Triple (Spends a a) m Q E)
      → Triple Balanced m Q E
  from_any f = record {
    at = λ s h. (f (sum_tokens k s.events.written)).at s (record { total = refl; rest = sym h });
  }

  -- What keeps every sum, and may raise.
  pub keeps_all :
      {A : Type 0} {m : LoopAction P C A}
      → ((a : ℕ) → Keeps (Spends a a) m)
      → Triple Balanced m (λ x. Balanced) Short
  keeps_all f = from_any λ a.
      Triple-weaken (f a) (λ s h. h) (λ x. Spends-Balanced a)
        (λ s h. omega (arith, h.total, h.rest))

  pub primitives : (a b : ℕ) → Primitives P C (Spends a b) (IsWeightless (tokens k)) (λ t. Unit)
  primitives a b = Sums-Primitives (tokens k) P C (λ l. total k l ≡ b) a (λ p. refl)

  pub light :
      (type : EventType) (payload : Payload)
      → IsWeightless (tokens k) type
      → Triple Balanced (emit P C type payload) (λ x. Balanced) Short
  light type payload l = keeps_all λ a. light-Keeps (tokens k) P C _ type payload a l

  pub assigned :
      (f : Locals → Locals)
      → ((l : Locals) → total k (f l) ≡ total k l)
      → Triple Balanced (assign P C f) (λ x. Balanced) Short
  assigned f same = assign-Triple P C Short f λ s h. h ∙ sym (same s.locals)

  -- What keeps a sum before the response is counted.
  short :
      (a : ℕ) {A : Type 0} {m : LoopAction P C A}
      → Keeps (Spends a a) m
      → Triple (Spends a a) m (λ x. Spends a a) Short
  short a t = Triple-weaken t (λ s h. h) (λ x s h. h) (Spends-Short a a (omega arith))

  add_totals-Spends :
      (a : ℕ) (r : LlmResponse) (u : Setup)
      → Triple (Spends a a) (add_totals P C u r) (λ x. Spends a (a + spent k r)) Short
  unfolding add_totals
  add_totals-Spends a r u =
      assign-Triple P C Short _ λ s h. record { total = h.total; rest = counted k s.locals h.rest }
    where
      counted :
          (k : Tokens) (l : Locals)
          → total k l ≡ a
          → total k (record l {
            total_input_tokens = l.total_input_tokens + r.input_tokens;
            total_output_tokens = l.total_output_tokens + r.output_tokens;
            total_cost = l.total_cost + compute_cost u.model r.input_tokens r.output_tokens;
          })
            ≡ a + spent k r
      counted input l h = ap (λ n. n + r.input_tokens) h
      counted output l h = ap (λ n. n + r.output_tokens) h

  -- The event reports what the response says.
  call_end-Balanced :
      (a : ℕ) (r : LlmResponse) (d : LlmCallEnd)
      → d.input_tokens ≡ r.input_tokens
      → d.output_tokens ≡ r.output_tokens
      → Triple (Spends a (a + spent k r)) (emit P C llm_call_end (call_end d)) (λ x. Balanced) Short
  call_end-Balanced a r d i o =
      Triple-weaken
        (emit-adds (tokens k) P C (λ l. total k l ≡ a + spent k r) llm_call_end (call_end d) a)
        (λ s h. h) (λ x s h. h.total ∙ ap (λ n. a + n) (same_spent k i o) ∙ sym h.rest)
        (Spends-Short a (a + spent k r) (omega arith))
    where
      same_spent :
          (k : Tokens)
          → d.input_tokens ≡ r.input_tokens
          → d.output_tokens ≡ r.output_tokens
          → of_call k (call_end d) ≡ spent k r
      same_spent input i o = i
      same_spent output i o = o

  call_llm-Balanced : (u : Setup) → Triple Balanced (call_llm P C u) (λ r. Balanced) Short
  unfolding call_llm
  call_llm-Balanced u = from_any λ a.
      let prims = primitives a a in
      Triple-bind (short a (gets-Keeps P C (Spends a a) _)) λ req.
        Triple-bind (short a (prims.event llm_call_start _ refl (λ p. refl))) λ e.
          Triple-bind (short a prims.clock) λ t0.
            Triple-bind (short a (client-Keeps (tokens k) P C _ a _)) λ r.
              Triple-bind (short a prims.clock) λ t1. Triple-bind (add_totals-Spends a r u) λ b.
                Triple-bind (call_end-Balanced a r _ refl refl)
                  λ e'. Triple-pure (λ r. Balanced) Short r

  assigned_total :
      (f : Locals → Locals)
      → ((l : Locals) → (f l).total_input_tokens ≡ l.total_input_tokens)
      → ((l : Locals) → (f l).total_output_tokens ≡ l.total_output_tokens)
      → Triple Balanced (assign P C f) (λ x. Balanced) Short
  assigned_total f i o = assigned f λ l. same_total k l (f l) (i l) (o l)

  end_step-Balanced : Triple Balanced (end_step P C) (λ x. Balanced) Short
  unfolding end_step
  end_step-Balanced =
      Triple-bind (keeps_all λ a. gets-Keeps P C _ _)
        λ n. Triple-bind (light _ _ (λ p. refl)) λ e. assigned_total _ (λ l. refl) (λ l. refl)

  run_tools-Balanced :
      (u : Setup) (r : LlmResponse)
      → Triple Balanced (run_tools P C u.tools r.tool_uses) (λ x. Balanced) Short
  run_tools-Balanced u r = keeps_all λ a.
      run_tools-Keeps P C (Spends a a) (IsWeightless (tokens k)) (λ t. Unit) (primitives a a)
        (λ p. refl) (λ p. refl) _ (λ n t e. tt) _

  finish_step-Balanced :
      (u : Setup) (r : LlmResponse) → Triple Balanced (finish_step P C u r) (λ x. Balanced) Short
  unfolding finish_step append_message
  finish_step-Balanced u r =
      Triple-if (wants_tools r)
        (Triple-bind (run_tools-Balanced u r) λ bs.
          Triple-bind (assigned_total _ (λ l. refl) (λ l. refl))
            λ a. Triple-bind end_step-Balanced λ b. Triple-pure (λ x. Balanced) Short true)
        (Triple-bind end_step-Balanced λ a.
          Triple-bind (assigned_total _ (λ l. refl) (λ l. refl))
            λ b. Triple-pure (λ x. Balanced) Short false)

  pub body-Balanced : (u : Setup) → Triple Balanced (body P C u) (λ x. Balanced) Short
  unfolding body append_message on_writer set_step
  body-Balanced u = Triple-bind (keeps_all λ a. gets-Keeps P C _ _) λ n.
      Triple-bind (keeps_all λ a. Keeps-intro λ s h. record { total = h.total; rest = h.rest }) λ b.
        Triple-bind (light _ _ (λ p. refl)) λ e.
          Triple-bind (call_llm-Balanced u) λ r.
            Triple-bind (assigned_total _ (λ l. refl) (λ l. refl)) λ c. finish_step-Balanced u r
