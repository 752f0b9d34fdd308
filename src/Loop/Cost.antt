-- ===== src/Loop/Cost.antt =====
-- The cost that a run of loop.py reports, against pricing.py.
use agentanvil.Prelude.{
  ℕ, zero, suc, ◌+◌, ◌≡◌, refl, sym, ◌∙◌, ap, subst, String, Bool, true, false, inl, inr,
}
use agentanvil.Python.FilePath.{FilePath}
use agentanvil.Python.Action.{pure}
use agentanvil.Python.Action.Rules.{
  After, Triple, Triple-bind, Triple-if, Triple-weaken, Triple-try, Keeps, Keeps-intro, Keeps-pure,
}
use agentanvil.Events.Schema.{AgentDone, DoneOutcome}
use agentanvil.Client.Base.{LlmResponse, LlmClient}
use agentanvil.Config.{AgentTaskSpec}
use agentanvil.Platform.{Platform}
use agentanvil.Pricing.{compute_cost, round_cost}
use agentanvil.Pricing.Laws.{compute_cost-add, compute_cost-zero}
use agentanvil.Loop.State.{
  Locals, LoopState, LoopAction, on_sandbox, on_writer, on_client, assign, emit, monotonic_ns,
}
use agentanvil.Loop.Lift.{assign-Triple, gets-Triple}
use agentanvil.Loop.Step.{
  Setup, add_totals, append_message, call_llm, call_tool, end_step, finish_step, body, wants_tools,
}
use agentanvil.Loop.Run.{
  set_outcome, again, round, while_steps, fuel_of, crash, guarded_loop, setup, time, done_data, run,
}
use agentanvil.Loop.Keeps.{gets-Keeps, Primitives, run_tools-Keeps, call_llm-Keeps}

-- The running cost is that of the running tokens, at the prices of the model.
abbrev pub Priced : String → Locals → Type 0
Priced model l = l.total_cost ≡ compute_cost model l.total_input_tokens l.total_output_tokens

module _ (P : Platform) (C : LlmClient) (u : Setup) where
  abbrev IsPriced : LoopState P C → Type 0
  IsPriced s = Priced u.model s.locals

  primitives : Primitives P C IsPriced (λ t. Unit) (λ t. Unit)
  unfolding emit monotonic_ns call_tool on_writer on_sandbox
  primitives = record {
    event = λ type p shape _. Keeps-intro λ s h. h;
    clock = Keeps-intro λ s h. h;
    call = λ t _ tu. Keeps-intro λ s h. h;
  }

  assign-IsPriced :
      (f : Locals → Locals)
      → ((l : Locals) → Priced u.model l → Priced u.model (f l))
      → Keeps IsPriced (assign P C f)
  assign-IsPriced f keeps = assign-Triple P C IsPriced f λ s h. keeps s.locals h

  add_totals-IsPriced : (r : LlmResponse) → Keeps IsPriced (add_totals P C u r)
  unfolding add_totals
  add_totals-IsPriced r = assign-IsPriced _ λ l h.
      ap (λ n. n + compute_cost u.model r.input_tokens r.output_tokens) h
      ∙ sym (
          compute_cost-add u.model l.total_input_tokens r.input_tokens l.total_output_tokens
            r.output_tokens)

  call_llm-IsPriced : Keeps IsPriced (call_llm P C u)
  unfolding on_client
  call_llm-IsPriced =
      call_llm-Keeps P C IsPriced (λ t. Unit) (λ t. Unit) primitives (λ r. Keeps-intro λ s h. h) tt
        tt u add_totals-IsPriced

  end_step-IsPriced : Keeps IsPriced (end_step P C)
  unfolding end_step
  end_step-IsPriced =
      Triple-bind (gets-Keeps P C IsPriced _)
        λ n. Triple-bind (primitives.event _ _ (inr refl) tt) λ e. assign-IsPriced _ λ l h. h

  finish_step-IsPriced : (r : LlmResponse) → Keeps IsPriced (finish_step P C u r)
  unfolding finish_step append_message
  finish_step-IsPriced r =
      Triple-if (wants_tools r)
        (Triple-bind
          (run_tools-Keeps P C IsPriced (λ t. Unit) (λ t. Unit) primitives tt tt _ (λ n t e. tt) _)
          λ bs.
            Triple-bind (assign-IsPriced _ λ l h. h)
              λ a. Triple-bind end_step-IsPriced λ b. Keeps-pure _)
        (Triple-bind end_step-IsPriced
          λ a. Triple-bind (assign-IsPriced _ λ l h. h) λ b. Keeps-pure _)

  body-IsPriced : Keeps IsPriced (body P C u)
  unfolding body append_message on_writer on_sandbox
  body-IsPriced = Triple-bind (gets-Keeps P C IsPriced _) λ n.
      Triple-bind (Keeps-intro λ s h. h) λ a. Triple-bind (primitives.event _ _ (inl refl) tt) λ e.
        Triple-bind call_llm-IsPriced
          λ resp. Triple-bind (assign-IsPriced _ λ l h. h) λ b. finish_step-IsPriced resp

  set_outcome-IsPriced : (o : DoneOutcome) → Keeps IsPriced (set_outcome P C o)
  unfolding set_outcome
  set_outcome-IsPriced o = assign-IsPriced _ λ l h. h

  round-IsPriced :
      (rest : LoopAction P C Bool)
      → Keeps IsPriced rest
      → (b : Bool) → Keeps IsPriced (round P C rest u b)
  unfolding round again
  round-IsPriced rest k true = Triple-bind body-IsPriced by_more
    where
      by_more : (more : Bool) → Keeps IsPriced (again P C rest more)
      by_more true = k
      by_more false = Keeps-pure true
  round-IsPriced rest k false = Triple-bind (set_outcome-IsPriced _) λ a. Keeps-pure true

  while_steps-IsPriced : (fuel : ℕ) → Keeps IsPriced (while_steps P C fuel u)
  unfolding while_steps
  while_steps-IsPriced zero = Keeps-pure false
  while_steps-IsPriced (suc fuel) =
      Triple-bind (gets-Keeps P C IsPriced _)
        λ n. round-IsPriced (while_steps P C fuel u) (while_steps-IsPriced fuel) _

  guarded_loop-IsPriced : Keeps IsPriced (guarded_loop P C u)
  unfolding guarded_loop crash
  guarded_loop-IsPriced = Triple-try (while_steps-IsPriced (fuel_of P C u)) λ x.
      Triple-bind (primitives.event _ _ refl tt)
        λ e. Triple-bind (set_outcome-IsPriced _) λ a. Keeps-pure true

module _ (P : Platform) (C : LlmClient) (task_id : String) (workspace : FilePath)
    (spec : AgentTaskSpec) where
  abbrev pub model_name : String
  model_name = (setup workspace spec).model

  abbrev Charged : AgentDone → Type 0
  Charged d =
      d.total_cost_usd
      ≡ round_cost (compute_cost model_name d.total_input_tokens d.total_output_tokens)

  IsCharged : LoopState P C → Type 0
  IsCharged = IsPriced P C (setup workspace spec)

  loosely :
      {A : Type 0} {m : LoopAction P C A}
      → Keeps IsCharged m
      → Triple IsCharged m (λ a. IsCharged) (λ s. Unit)
  loosely k = Triple-weaken k (λ s h. h) (λ a s h. h) (λ s h. tt)

  run-Charged : Triple (λ s. Unit) (run P C task_id workspace spec) (λ d s. Charged d) (λ s. Unit)
  unfolding run done_data time on_sandbox emit on_writer pure IsCharged
  run-Charged = Triple-bind (Keeps-intro {I = λ s. Unit} λ s h. h) λ a.
      Triple-bind (Keeps-intro {I = λ s. Unit} λ s h. h) λ e.
        Triple-bind
          (assign-Triple P C {Q = IsCharged} (λ s. Unit) _
            λ s h. sym (compute_cost-zero model_name))
          λ b. Triple-bind (loosely (Keeps-intro λ s h. h)) λ t0.
            Triple-bind (loosely (guarded_loop-IsPriced P C (setup workspace spec))) λ c.
              Triple-bind (loosely (Keeps-intro λ s h. h)) λ t1.
                Triple-bind (gets-Triple P C (λ s. Unit) (done_data P C t0 t1)) λ d.
                  Triple-bind
                    (Triple-weaken (Keeps-intro {I = λ s. Charged d} λ s h. h)
                      (λ s h. subst Charged h.0 (ap round_cost h.1)) (λ e s h. h) (λ s h. tt))
                    λ e'. record { at = λ s h. h }

  -- However a run went that returns a result: the cost of the result is that of its tokens, as if
  -- all calls had been one, at the price of the task's model, rounded once.
  pub run-cost :
      (s : LoopState P C)
      → After
          (λ d t.
            d.total_cost_usd
            ≡ round_cost (compute_cost model_name d.total_input_tokens d.total_output_tokens))
          (λ t. Unit)
          (run P C task_id workspace spec s)
  run-cost s = run-Charged.at s tt
