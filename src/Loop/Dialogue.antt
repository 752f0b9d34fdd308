-- ===== src/Loop/Dialogue.antt =====
-- Conversations in which every tool call is answered, and what the loop's actions do to them.
pub mod Run
use agentanvil.Prelude.{
  ℕ, zero, suc, ◌≡◌, refl, sym, ◌∙◌, ap, ap₂, subst, String, Bool, true, false, Option, none, some,
  List, [], ◌∷◌, ◌++◌, if◌then◌else◌,
}
use agentanvil.Python.Text.{Text}
use agentanvil.Python.FilePath.{FilePath}
use agentanvil.Python.Action.{Exn, Result, ok, raised, Action, pure, gets, try_except, ◌>>=◌, ◌>>◌}
use agentanvil.Python.Action.Rules.{
  After, Triple, Triple-pure, Triple-bind, Triple-weaken, Triple-try, Keeps, Keeps-intro,
  Keeps-state, Keeps-pure,
}
use agentanvil.Events.Schema.{EventType, Payload, agent_start, agent_done, agent_error, done}
use agentanvil.Events.Writer.{EventWriter, set_step}
use agentanvil.Client.Base.{
  ToolUse, LlmResponse, Block, tool_result, plain, blocks, Message, Request, LlmClient,
}
use agentanvil.Config.{AgentTaskSpec}
use agentanvil.Platform.{Platform}
use agentanvil.Tools.Base.{on_machine}
use agentanvil.Tools.Registry.{Tool, find_tool}
use agentanvil.Loop.State.{
  Locals, LoopState, LoopAction, on_sandbox, on_writer, on_client, assign, emit, monotonic_ns,
  build_assistant_message,
}
use agentanvil.Loop.Step.{
  Setup, Ended, returned, threw, tool_missing, tool_ended, call_tool, dispatch, run_one_tool,
  run_tools, request, append_message, outcome_of, add_totals, call_llm, end_step, finish_step, body,
  wants_tools,
}
use agentanvil.Loop.Run.{
  set_outcome, again, round, while_steps, fuel_of, crash, guarded_loop, setup, time, done_data, run,
  initial,
}
use agentanvil.Loop.Keeps.{gets-Keeps}
use agentanvil.Loop.Lift.{assign-Triple, gets-Triple}

-- The blocks are results, one for each tool use, with its id, in order.
pub data Answers : List ToolUse → List Block → Type 0 where
  none_asked : Answers [] []
  answer :
      (tu : ToolUse) (content : Text) (is_error : Bool) {tus : List ToolUse} {bs : List Block}
      → Answers tus bs
      → Answers (tu ∷ tus) (tool_result tu.id content is_error ∷ bs)

-- The given prompt as the user's message, then exchanges: an assistant's message that asks for
-- tools, and the user's message that answers it.
pub data Dialogue (prompt : Text) : List Message → Type 0 where
  opening : Dialogue prompt (record { role = "user"; content = plain prompt } ∷ [])
  exchange :
      {ms : List Message} (resp : LlmResponse) (results : List Block)
      → Dialogue prompt ms
      → wants_tools resp ≡ true
      → Answers resp.tool_uses results
      → Dialogue prompt (
          (ms ++ build_assistant_message resp ∷ [])
          ++ record { role = "user"; content = blocks results } ∷ [])

module _ (P : Platform) (C : LlmClient) (K : C.State → Type 0) where
  -- What a property of the client and the messages keeps to.
  abbrev pub Holds : (List Message → Type 0) → LoopState P C → Type 0
  Holds D s = K s.client × D s.messages

  abbrev pub Served : LoopState P C → Type 0
  Served s = K s.client

  module _ (D : List Message → Type 0) where
    abbrev pub Stays : {A : Type 0} → LoopAction P C A → Type 0
    Stays m = Triple (Holds D) m (λ a. Holds D) Served

    pub intro : {A : Type 0} {m : LoopAction P C A} → Keeps (Holds D) m → Stays m
    intro t = Triple-weaken t (λ s h. h) (λ a s h. h) (λ s h. h.0)

    pub emit-Stays : (type : EventType) (p : Payload) → Stays (emit P C type p)
    unfolding emit on_writer on_sandbox
    emit-Stays type p = intro (Keeps-intro λ s h. h)

    pub clock-Stays : Stays (monotonic_ns P C)
    unfolding monotonic_ns on_writer on_sandbox
    clock-Stays = intro (Keeps-intro λ s h. h)

    pub set_step-Stays : (n : ℕ) → Stays (on_writer P C (set_step n))
    unfolding on_writer on_sandbox
    set_step-Stays n = intro (Keeps-intro λ s h. h)

    call_tool-Stays : (t : Tool) (tu : ToolUse) → Stays (call_tool P C t tu)
    unfolding call_tool on_sandbox
    call_tool-Stays t tu = intro (Keeps-intro λ s h. h)

    pub time-Stays : Stays (time P C)
    unfolding time on_sandbox
    time-Stays = intro (Keeps-intro λ s h. h)

    pub gets-Stays : {A : Type 0} (f : LoopState P C → A) → Stays (gets f)
    gets-Stays f = intro (gets-Keeps P C (Holds D) f)

    pub assign-Stays :
        (f : Locals → Locals) → ((l : Locals) → (f l).messages ≡ l.messages) → Stays (assign P C f)
    assign-Stays f same = assign-Triple P C Served f λ s h. (h.0, subst D (sym (same s.locals)) h.1)

    -- A tool's block bears the id of the call.
    abbrev Replies : ToolUse → Block → LoopState P C → Type 0
    Replies tu b s = (Answers (tu ∷ []) (b ∷ [])) × Holds D s

    reply :
        (tu : ToolUse) (content : Text) (is_error : Bool)
        → Triple (Holds D) (pure (tool_result tu.id content is_error)) (Replies tu) Served
    unfolding pure
    reply tu content is_error = record { at = λ s h. (answer tu content is_error none_asked, h) }

    tool_ended-Replies :
        (tu : ToolUse) (t0 : ℕ) (ended : Ended)
        → Triple (Holds D) (tool_ended P C tu t0 ended) (Replies tu) Served
    unfolding tool_ended
    tool_ended-Replies tu t0 (threw x) =
        Triple-bind clock-Stays λ t1. Triple-bind (emit-Stays _ _) λ e. reply tu _ _
    tool_ended-Replies tu t0 (returned r) =
        Triple-bind clock-Stays λ t1. Triple-bind (emit-Stays _ _) λ e. reply tu _ _

    dispatch-Replies :
        (tu : ToolUse) (t0 : ℕ) (tool : Option Tool)
        → Triple (Holds D) (dispatch P C tu t0 tool) (Replies tu) Served
    unfolding dispatch tool_missing
    dispatch-Replies tu t0 none = Triple-bind (emit-Stays _ _) λ e. reply tu _ _
    dispatch-Replies tu t0 (some tool) =
        Triple-bind (call_tool-Stays tool tu) (tool_ended-Replies tu t0)

    run_one_tool-Replies :
        (tools : List Tool) (tu : ToolUse)
        → Triple (Holds D) (run_one_tool P C tools tu) (Replies tu) Served
    unfolding run_one_tool
    run_one_tool-Replies tools tu =
        Triple-bind (emit-Stays _ _) λ e. Triple-bind clock-Stays λ t0. dispatch-Replies tu t0 _

    one_more :
        (tu : ToolUse) (tus : List ToolUse) (b : Block) (bs : List Block)
        → Answers (tu ∷ []) (b ∷ [])
        → Answers tus bs
        → Answers (tu ∷ tus) (b ∷ bs)
    one_more tu tus b bs (answer _ content is_error none_asked) rest =
        answer tu content is_error rest

    after_reply :
        (tu : ToolUse) (tus : List ToolUse) (b : Block) {rest : LoopAction P C (List Block)}
        → Triple (Holds D) rest (λ bs s. Answers tus bs × Holds D s) Served
        → Triple
            (Replies tu b)
            (do bs ← rest; pure (b ∷ bs))
            (λ bs s. Answers (tu ∷ tus) bs × Holds D s)
            Served
    unfolding pure
    after_reply tu tus b {rest} t = record { at = λ s h. (from h.0).at s h.1 }
      where
        from :
            Answers (tu ∷ []) (b ∷ [])
            → Triple
                (Holds D)
                (do bs ← rest; pure (b ∷ bs))
                (λ bs s. Answers (tu ∷ tus) bs × Holds D s)
                Served
        from a = Triple-bind t λ bs. record { at = λ s h. (one_more tu tus b bs a h.0, h.1) }

    pub run_tools-Answers :
        (tools : List Tool) (tus : List ToolUse)
        → Triple (Holds D) (run_tools P C tools tus) (λ bs s. Answers tus bs × Holds D s) Served
    unfolding run_tools pure
    run_tools-Answers tools [] = record { at = λ s h. (none_asked, h) }
    run_tools-Answers tools (tu ∷ tus) =
        Triple-bind (run_one_tool-Replies tools tu)
          λ b. after_reply tu tus b (run_tools-Answers tools tus)

    pub end_step-Stays : Stays (end_step P C)
    unfolding end_step
    end_step-Stays =
        Triple-bind (gets-Stays _) λ n. Triple-bind (emit-Stays _ _) λ e. assign-Stays _ (λ l. refl)
