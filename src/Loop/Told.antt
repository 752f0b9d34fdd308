-- ===== src/Loop/Told.antt =====
-- What `_run_one_tool` of loop.py tells the model of a tool call, against what the trace records.
use agentanvil.Prelude.{
  ℕ, ◌≡◌, refl, sym, ◌∙◌, ap, ap₂, String, Option, none, some, List, [], ◌∷◌, ◌++◌, append-nil,
  append_assoc,
}
use agentanvil.Python.Text.{Text}
use agentanvil.Python.Action.{Result, ok, raised, pure}
use agentanvil.Python.Action.Rules.{
  After, Triple, Triple-pure, Triple-bind, Triple-weaken, Keeps, Keeps-intro,
}
use agentanvil.Events.Schema.{
  EventType, tool_call_start, tool_call_end, Payload, start, step_number, call_start, call_end,
  tool_start, tool_end, mutation, done, error, fields, EventEnvelope,
}
use agentanvil.Events.Writer as Writer
use agentanvil.Events.Writer.{EventWriter, on_clock}
use agentanvil.Events.Writer.Laws.{Emitted, Unwritten, emit-cases, emit-Keeps}
use agentanvil.Client.Base.{ToolUse, Block, text, tool_use, tool_result, LlmClient}
use agentanvil.Platform.{Platform}
use agentanvil.Tools.Registry.{Tool}
use agentanvil.Loop.State.{LoopState, LoopAction, on_writer, emit, monotonic_ns}
use agentanvil.Loop.Lift.{OnWriter, on_writer-Triple}
use agentanvil.Loop.Step.{
  Ended, returned, threw, tool_missing, tool_ended, dispatch, run_one_tool, run_tools,
}
use agentanvil.Loop.Trace as Trace

-- The id and the text of a tool call's end, if the data is of one.
abbrev ended : Payload → List (String × Text)
ended (start a) = []
ended (step_number n) = []
ended (call_start c) = []
ended (call_end c) = []
ended (tool_start c) = []
ended (tool_end c) = (c.tool_call_id, c.result) ∷ []
ended (mutation m) = []
ended (done d) = []
ended (error name message) = []
ended (fields f) = []

-- The tool calls whose ends a trace records, in order.
unfoldable pub recorded : List EventEnvelope → List (String × Text)
recorded [] = []
recorded (e ∷ es) = ended e.payload ++ recorded es

-- The tool calls that these blocks answer.
abbrev answered : Block → List (String × Text)
answered (text s) = []
answered (tool_use id name input) = []
answered (tool_result id content is_error) = (id, content) ∷ []

unfoldable pub told : List Block → List (String × Text)
told [] = []
told (b ∷ bs) = answered b ++ told bs

recorded-snoc :
    (es : List EventEnvelope) (e : EventEnvelope)
    → recorded (es ++ e ∷ []) ≡ recorded es ++ ended e.payload
unfolding recorded
recorded-snoc [] e = append-nil (ended e.payload)
recorded-snoc (x ∷ es) e =
    ap (λ l. ended x.payload ++ l) (recorded-snoc es e) ∙ sym (append_assoc (ended x.payload) _ _)

abbrev Records : List (String × Text) → EventWriter → Type 0
Records xs w = recorded w.written ≡ xs

emit-Records :
    (dump : EventEnvelope → Result Text) (type : EventType) (p : Payload)
    (xs : List (String × Text))
    → Triple
        (Records xs)
        (Writer.emit dump type (some p))
        (λ e. Records (xs ++ ended p))
        (λ w. Unit)
emit-Records dump type p xs = record {
  at = λ w h. go w h (Writer.emit dump type (some p) w) (emit-cases dump type (some p) w);
}
  where
    go :
        (w : EventWriter)
        → Records xs w
        → (o : Result EventEnvelope × EventWriter)
        → After (Emitted dump type (some p) w) (Unwritten w) o
        → After (λ e. Records (xs ++ ended p)) (λ w. Unit) o
    go w h (ok e, w') d =
        ap recorded d.written ∙ recorded-snoc w.written e ∙ ap₂ (λ l p. l ++ ended p) h d.e_payload
    go w h (raised x, w') d = tt

-- An event that ends no tool call changes no record.
silent-Records :
    (dump : EventEnvelope → Result Text) (type : EventType) (p : Payload)
    (xs : List (String × Text))
    → ended p ≡ []
    → Keeps (Records xs) (Writer.emit dump type (some p))
silent-Records dump type p xs silent =
    emit-Keeps dump type (some p) (Records xs)
      (λ w e w' h d.
        ap recorded d.written
        ∙ recorded-snoc w.written e
        ∙ ap₂ (λ l p. l ++ ended p) h d.e_payload
        ∙ ap (λ l. xs ++ l) silent
        ∙ append-nil xs)
      (λ w w' h d. ap recorded d.written ∙ h)

module _ (P : Platform) (C : LlmClient) where
  abbrev Told : List (String × Text) → LoopState P C → Type 0
  Told xs = OnWriter P C (Records xs)

  -- An action that may raise and keeps the record when it returns.
  may_raise :
      {A : Type 0} {xs : List (String × Text)} {m : LoopAction P C A}
      → Keeps (Told xs) m
      → Triple (Told xs) m (λ a. Told xs) (λ s. Unit)
  may_raise t = Triple-weaken t (λ s h. h) (λ a s h. h) (λ s h. tt)

  clock-Told : (xs : List (String × Text)) → Keeps (Told xs) (monotonic_ns P C)
  unfolding monotonic_ns on_writer on_clock
  clock-Told xs = Keeps-intro λ s h. h

  emit-Told :
      (type : EventType) (p : Payload) (xs : List (String × Text))
      → Triple (Told xs) (emit P C type p) (λ e. Told (xs ++ ended p)) (λ s. Unit)
  unfolding emit
  emit-Told type p xs = on_writer-Triple P C (emit-Records P.dump type p xs)

  -- The answer to a call, which stands in the trace too.
  abbrev Answers : List (String × Text) → LoopAction P C Block → Type 0
  Answers xs m = Triple (Told xs) m (λ b. Told (xs ++ answered b)) (λ s. Unit)

  answer :
      (xs : List (String × Text)) (b : Block)
      → Triple (Told (xs ++ answered b)) (pure b) (λ b. Told (xs ++ answered b)) (λ s. Unit)
  answer xs b = Triple-pure (λ b. Told (xs ++ answered b)) (λ s. Unit) b

  tool_ended-Told :
      (xs : List (String × Text)) (tu : ToolUse) (t0 : ℕ) (e : Ended)
      → Answers xs (tool_ended P C tu t0 e)
  unfolding tool_ended
  tool_ended-Told xs tu t0 (threw x) =
      Triple-bind (may_raise (clock-Told xs))
        λ t1. Triple-bind (emit-Told tool_call_end _ xs) λ e. answer xs _
  tool_ended-Told xs tu t0 (returned r) =
      Triple-bind (may_raise (clock-Told xs))
        λ t1. Triple-bind (emit-Told tool_call_end _ xs) λ e. answer xs _

  dispatch-Told :
      (xs : List (String × Text)) (tu : ToolUse) (t0 : ℕ) (tool : Option Tool)
      → Answers xs (dispatch P C tu t0 tool)
  unfolding dispatch tool_missing
  dispatch-Told xs tu t0 none = Triple-bind (emit-Told tool_call_end _ xs) λ e. answer xs _
  dispatch-Told xs tu t0 (some tool) =
      Triple-bind
        (may_raise
          (Trace.call_tool-Keeps P C (Records xs) (λ m. silent-Records P.dump _ _ xs refl) tool tu))
        (tool_ended-Told xs tu t0)

  run_one_tool-Told :
      (tools : List Tool) (xs : List (String × Text)) (tu : ToolUse)
      → Answers xs (run_one_tool P C tools tu)
  unfolding run_one_tool
  run_one_tool-Told tools xs tu =
      Triple-bind
        (may_raise
          (Trace.emit-Keeps P C (Records xs) tool_call_start _ (silent-Records P.dump _ _ xs refl)))
        λ e. Triple-bind (may_raise (clock-Told xs)) λ t0. dispatch-Told xs tu t0 _

  run_tools-Told :
      (tools : List Tool) (tus : List ToolUse) (xs : List (String × Text))
      → Triple (Told xs) (run_tools P C tools tus) (λ bs. Told (xs ++ told bs)) (λ s. Unit)
  unfolding run_tools told pure
  run_tools-Told tools [] xs = record { at = λ s h. h ∙ sym (append-nil xs) }
  run_tools-Told tools (tu ∷ tus) xs = Triple-bind (run_one_tool-Told tools xs tu) λ b.
      Triple-bind (run_tools-Told tools tus (xs ++ answered b))
        λ bs. record { at = λ s h. h ∙ append_assoc xs (answered b) (told bs) }

  -- Whatever tools a task has and whichever the model asks for: when the calls of a response were
  -- made, the `tool_call_end` events that were added to the trace are, by id and result, the blocks
  -- that go back to the model, one for each and in their order. This holds for results, for tools
  -- that raised and for unknown tools.
  pub run_tools-told :
      (tools : List Tool) (tus : List ToolUse) (s : LoopState P C)
      → After
          (λ bs t. recorded t.events.written ≡ recorded s.events.written ++ told bs)
          (λ t. Unit)
          (run_tools P C tools tus s)
  run_tools-told tools tus s = (run_tools-Told tools tus (recorded s.events.written)).at s refl
